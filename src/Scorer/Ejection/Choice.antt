-- ===== src/Scorer/Ejection/Choice.antt =====
-- Which servers an ejection takes.
use epaflix.Base.{
  ℕ, ◌≤◌, ◌≡◌, refl, sym, subst, lower, keep, not, Bool, true, false, ◌&&◌, ◌⊎◌, inl, inr, Option,
  none, some, List, [], ◌∷◌, map, arith, leb, length, take, drop, any, All, Text, text_eq,
  text_eq_iff, sort_by-IsSorted, any-sort_by, IsSorted-split, any-take-drop, length-take_full, Dict,
  values, lookup, insert, Bool-cases, ◌∙◌,
}
use epaflix.Base.Json.{Float}
use epaflix.Scorer.Rows.{Row, Verdict}
use epaflix.Scorer.Ejection.{
  apply_ejections, row_key, server_key, member, limit, ordered, newer, note_verdict, by_server,
  priority,
}
use epaflix.Scorer.Ejection.Bounds.{IsFull, limit-IsFull}
use epaflix.Scorer.Ejection.Order.{priority_total, priority_trans, priority-newer}

-- An entry of the dict that stands for an observation of the server `k` at `t` or later.
abbrev covers : Text → ℕ → Text × Verdict → Bool
covers k t (j, w) = text_eq j k && text_eq (server_key w) k && leb t w.observed_epoch

-- A verdict about the server `k`, observed at `t` or later.
abbrev pub names : Text → ℕ → Verdict → Bool
names k t v = text_eq (server_key v) k && leb t v.observed_epoch

-- Each verdict stands under the key of its server.
abbrev Keyed : Dict Text Verdict → Type 0
Keyed = All λ (e : Text × Verdict). text_eq (server_key e.1) e.0 ≡ true

insert-covers :
    (k : Text) (t : ℕ) (v : Verdict) (d : Dict Text Verdict)
    → newer v (lookup text_eq (server_key v) d) ≡ true
    → any (covers k t) d ≡ true
    → any (covers k t) (insert text_eq (server_key v) v d) ≡ true
unfolding lookup insert
insert-covers k t v [] n h = cc
insert-covers k t v ((j, w) ∷ d) n h = ground (
  arith,
  text_eq_iff j k,
  text_eq_iff j (server_key v),
  text_eq_iff (server_key v) k,
  insert-covers k t v d,
)

insert-covers_self :
    (v : Verdict) (d : Dict Text Verdict)
    → any (covers (server_key v) v.observed_epoch) (insert text_eq (server_key v) v d) ≡ true
unfolding insert
insert-covers_self v [] = ground (arith, text_eq_iff (server_key v) (server_key v))
insert-covers_self v ((j, w) ∷ d) = ground (
  arith,
  text_eq_iff j (server_key v),
  text_eq_iff (server_key v) (server_key v),
  insert-covers_self v d,
)

lookup-covers :
    (k : Text) (t : ℕ) (w : Verdict) (d : Dict Text Verdict)
    → Keyed d
    → lookup text_eq k d ≡ some w
    → t ≤ w.observed_epoch
    → any (covers k t) d ≡ true
unfolding lookup
lookup-covers k t w [] keyed e le = cc
lookup-covers k t w ((j, u) ∷ d) keyed e le = ground (
  arith,
  text_eq_iff j k,
  text_eq_iff (server_key u) j,
  text_eq_iff (server_key u) k,
  lookup-covers k t w d keyed.1,
)

insert-Keyed :
    (v : Verdict) (d : Dict Text Verdict) → Keyed d → Keyed (insert text_eq (server_key v) v d)
unfolding insert
insert-Keyed v [] keyed = (ground (arith, text_eq_iff (server_key v) (server_key v)), tt)
insert-Keyed v ((j, w) ∷ d) keyed =
    ground
      (arith, text_eq_iff j (server_key v), text_eq_iff (server_key v) j, insert-Keyed v d keyed.1)

module _ (available : List Text) where
  note-covers :
      (k : Text) (t : ℕ) (v : Verdict) (d : Dict Text Verdict)
      → any (covers k t) d ≡ true
      → any (covers k t) (note_verdict available d v) ≡ true
  unfolding note_verdict
  note-covers k t v d h = ground (arith, insert-covers k t v d)

  note-Keyed : (v : Verdict) (d : Dict Text Verdict) → Keyed d → Keyed (note_verdict available d v)
  unfolding note_verdict
  note-Keyed v d keyed = ground (arith, insert-Keyed v d keyed)

  -- A ranked server's verdict is covered once it has been noted.
  note-covers_self :
      (v : Verdict) (d : Dict Text Verdict) (o : Option Verdict)
      → lookup text_eq (server_key v) d ≡ o
      → Keyed d
      → member (server_key v) available ≡ true
      → any (covers (server_key v) v.observed_epoch) (note_verdict available d v) ≡ true
  unfolding note_verdict
  note-covers_self v d none e keyed ranked = ground (arith, insert-covers_self v d)
  note-covers_self v d (some w) e keyed ranked =
      ground
        (arith, insert-covers_self v d, lookup-covers (server_key v) v.observed_epoch w d keyed)

  by_server-covers :
      (k : Text) (t : ℕ) (d : Dict Text Verdict) (vs : List Verdict)
      → any (covers k t) d ≡ true
      → any (covers k t) (by_server available d vs) ≡ true
  unfolding by_server
  by_server-covers k t d [] h = h
  by_server-covers k t d (v ∷ vs) h =
      by_server-covers k t (note_verdict available d v) vs (note-covers k t v d h)

  covers-earlier :
      (k : Text) (s t : ℕ) (d : Dict Text Verdict)
      → t ≤ s
      → any (covers k s) d ≡ true
      → any (covers k t) d ≡ true
  covers-earlier k s t [] le h = cc
  covers-earlier k s t ((j, w) ∷ d) le h = ground (arith, covers-earlier k s t d le)

  by_server-finds :
      (k : Text) (t : ℕ) (d : Dict Text Verdict) (vs : List Verdict)
      → Keyed d
      → member k available ≡ true
      → any (names k t) vs ≡ true
      → any (covers k t) (by_server available d vs) ≡ true
  unfolding by_server
  by_server-finds k t d [] keyed ranked h = cc
  by_server-finds k t d (v ∷ vs) keyed ranked h = elim (Bool-cases (names k t v)) [
    | inl hit ↦ by_server-covers k t (note_verdict available d v) vs (
        covers-earlier k v.observed_epoch t (note_verdict available d v) (ground arith) (
          ground (
            arith,
            text_eq_iff (server_key v) k,
            note-covers_self v d (lookup text_eq (server_key v) d) refl keyed,
          )))
    | inr miss ↦
        by_server-finds k t (note_verdict available d v) vs (note-Keyed v d keyed) ranked
          (ground arith)
  ]

any-values :
    (k : Text) (t : ℕ) (d : Dict Text Verdict)
    → any (covers k t) d ≡ true
    → any (names k t) (values d) ≡ true
any-values k t [] h = cc
any-values k t ((j, w) ∷ d) h = ground (arith, any-values k t d)

ordered-finds :
    (survivors : List Row) (vs : List Verdict) (k : Text) (t : ℕ)
    → member k (map row_key survivors) ≡ true
    → any (names k t) vs ≡ true
    → any (names k t) (ordered survivors vs) ≡ true
ordered-finds survivors vs k t ranked h =
    let d = by_server (map row_key survivors) [] vs in
    any-sort_by priority (names k t) (values d)
    ∙ any-values k t d (by_server-finds (map row_key survivors) k t [] vs tt ranked h)

member-of-names :
    (k : Text) (t : ℕ) (vs : List Verdict)
    → any (names k t) vs ≡ true
    → member k (map server_key vs) ≡ true
member-of-names k t [] h = cc
member-of-names k t (v ∷ vs) h = ground (arith, member-of-names k t vs)

newer-than-any :
    (k : Text) (t : ℕ) (e : Verdict) (cs : List Verdict)
    → All (λ c. priority e c ≡ true) cs
    → any (names k t) cs ≡ true
    → t ≤ e.observed_epoch
newer-than-any k t e [] h n = cc
newer-than-any k t e (c ∷ cs) h n =
    ground (arith, priority-newer e c h.0, newer-than-any k t e cs h.1)

All-newer :
    (k : Text) (t : ℕ) (es cs : List Verdict)
    → All (λ e. All (λ c. priority e c ≡ true) cs) es
    → any (names k t) cs ≡ true
    → All (λ e. t ≤ e.observed_epoch) es
All-newer k t [] cs h n = tt
All-newer k t (e ∷ es) cs h n = (newer-than-any k t e cs h.0 n, All-newer k t es cs h.1 n)

-- No row of these has the name `k`, up to case.
abbrev pub IsWithout : Text → List Row → Type 0
IsWithout k = All λ (r : Row). text_eq (lower r.name) k ≡ false

member-differs :
    (j k : Text) (ks : List Text) → member k ks ≡ true → member j ks ≡ false → text_eq j k ≡ false
member-differs j k [] h n = cc
member-differs j k (i ∷ ks) h n =
    ground (arith, text_eq_iff j k, text_eq_iff i k, text_eq_iff i j, member-differs j k ks)

keep-IsWithout :
    (k : Text) (ks : List Text) (rs : List Row)
    → member k ks ≡ true
    → IsWithout k (keep (λ r. not (member (row_key r) ks)) rs)
keep-IsWithout k ks [] h = tt
keep-IsWithout k ks (r ∷ rs) h = elim (Bool-cases (member (row_key r) ks)) [
  | inl named ↦ rw named (keep-IsWithout k ks rs h)
  | inr other ↦ rw other (member-differs (row_key r) k ks h other, keep-IsWithout k ks rs h)
]

-- A server that is ranked, and that some verdict rejects as of `t` or later, is taken out: one of the
-- verdicts that are acted on names it, and no row that stays has its name, up to case. Otherwise the
-- verdicts that are acted on are all at least as new as `t`, and one more would leave no row or be
-- beyond the configured fraction.
pub apply_ejections-rejected :
    (survivors : List Row) (vs : List Verdict) (f : Float) (k : Text) (t : ℕ)
    → member k (map row_key survivors) ≡ true
    → any (names k t) vs ≡ true
    → let e = apply_ejections survivors vs f in
      ((member k (map server_key e.ejected) ≡ true) × IsWithout k e.kept)
      ⊎ (IsFull f (length survivors) (length e.ejected) × All (λ v. t ≤ v.observed_epoch) e.ejected)
unfolding apply_ejections
apply_ejections-rejected [] vs f k t ranked h = cc
apply_ejections-rejected (s ∷ ss) vs f k t ranked h =
    let n = limit (length (s ∷ ss)) f in
    let o = ordered (s ∷ ss) vs in
    elim (any-take-drop (names k t) n o (ordered-finds (s ∷ ss) vs k t ranked h)) [
      | inl front ↦
          let named = member-of-names k t (take n o) front in
          inl (named, keep-IsWithout k (map server_key (take n o)) (s ∷ ss) named)
      | inr behind ↦ inr (
        subst (λ (m : ℕ). IsFull f (length (s ∷ ss)) m)
            (sym (length-take_full (names k t) n o behind))
            (limit-IsFull (length (s ∷ ss)) f (omega arith)),
        All-newer k t (take n o) (drop n o)
            (IsSorted-split priority n o (
              sort_by-IsSorted priority priority_total priority_trans
                (values (by_server (map row_key (s ∷ ss)) [] vs))))
            behind,
      )
    ]
