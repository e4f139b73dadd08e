-- ===== src/Scorer/Ejection/Kept.antt =====
-- What an ejection leaves alone.
use epaflix.Base.{
  ℕ, zero, suc, ◌≡◌, refl, Bool, true, false, not, List, [], ◌∷◌, map, arith, take, keep, any, Text,
  text_eq, any-sort_by, Dict, values, insert, length,
}
use epaflix.Base.Json.{Float}
use epaflix.Scorer.Rows.{Row, Verdict}
use epaflix.Scorer.Ejection.{
  apply_ejections, row_key, server_key, member, limit, ordered, note_verdict, by_server, priority,
}

abbrev about : Text → Verdict → Bool
about k v = text_eq (server_key v) k

any-map-about : (k : Text) (vs : List Verdict) → member k (map server_key vs) ≡ any (about k) vs
any-map-about k [] = refl
any-map-about k (v ∷ vs) = ground (arith, any-map-about k vs)

any-take {ℓ} :
    {A : Type ℓ} (p : A → Bool) (n : ℕ) (xs : List A) → any p (take n xs) ≡ true → any p xs ≡ true
any-take p zero xs h = cc
any-take p (suc n) [] h = cc
any-take p (suc n) (x ∷ xs) h = ground (arith, any-take p n xs)

values-insert :
    (k : Text) (v : Verdict) (d : Dict Text Verdict)
    → any (about k) (values (insert text_eq (server_key v) v d)) ≡ true
    → any (about k) (v ∷ values d) ≡ true
unfolding insert
values-insert k v [] h = h
values-insert k v ((j, w) ∷ d) h = ground (arith, values-insert k v d)

values-note :
    (k : Text) (available : List Text) (v : Verdict) (d : Dict Text Verdict)
    → any (about k) (values (note_verdict available d v)) ≡ true
    → any (about k) (v ∷ values d) ≡ true
unfolding note_verdict
values-note k available v d h = ground (arith, values-insert k v d)

values-by_server :
    (k : Text) (available : List Text) (d : Dict Text Verdict) (vs : List Verdict)
    → any (about k) (values d) ≡ false
    → any (about k) vs ≡ false
    → any (about k) (values (by_server available d vs)) ≡ false
unfolding by_server
values-by_server k available d [] none_yet h = none_yet
values-by_server k available d (v ∷ vs) none_yet h =
    values-by_server k available (note_verdict available d v) vs
      (ground (arith, values-note k available v d)) (ground arith)

ejected-named :
    (survivors : List Row) (vs : List Verdict) (n : ℕ) (k : Text)
    → member k (map server_key vs) ≡ false
    → member k (map server_key (take n (ordered survivors vs))) ≡ false
ejected-named survivors vs n k h =
    let o = ordered survivors vs in
    let d = by_server (map row_key survivors) [] vs in
    ground (
      arith,
      any-map-about k vs,
      any-map-about k (take n o),
      any-take (about k) n o,
      any-sort_by priority (about k) (values d),
      values-by_server k (map row_key survivors) [] vs refl,
    )

keep_weaker {ℓ} :
    {A : Type ℓ} (p q : A → Bool) (xs : List A)
    → ((x : A) → p x ≡ false → q x ≡ false)
    → keep (λ x. not (p x)) (keep (λ x. not (q x)) xs) ≡ keep (λ x. not (p x)) xs
keep_weaker p q [] h = refl
keep_weaker p q (x ∷ xs) h = ground (arith, h x, keep_weaker p q xs h)

-- The rows of servers that no verdict names all stay, once each and in their order.
apply_ejections-unnamed :
    (survivors : List Row) (vs : List Verdict) (f : Float)
    → let named = λ (s : Row). member (row_key s) (map server_key vs) in
      keep (λ s. not (named s)) (apply_ejections survivors vs f).kept
      ≡ keep (λ s. not (named s)) survivors
unfolding apply_ejections
apply_ejections-unnamed [] vs f = refl
apply_ejections-unnamed (s ∷ ss) vs f =
    let n = limit (length (s ∷ ss)) f in
    keep_weaker (λ (r : Row). member (row_key r) (map server_key vs))
      (λ (r : Row). member (row_key r) (map server_key (take n (ordered (s ∷ ss) vs)))) (s ∷ ss)
      λ r. ejected-named (s ∷ ss) vs n (row_key r)
