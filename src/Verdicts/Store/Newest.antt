-- ===== src/Verdicts/Store/Newest.antt =====
-- Which verdicts the scorer merges out of the directory.
use epaflix.Base.{
  ℕ, ◌+◌, ◌≤◌, ◌≡◌, refl, Bool, true, false, ◌&&◌, ◌||◌, Option, none, some, List, [], ◌∷◌, arith,
  if◌then◌else◌, Text, text_eq_iff, leb, any, Dict, lookup, insert, values, any-sort_by, count,
  count-sort_by, is_some, ◌↔◌,
}
use epaflix.Base.Codec.{Codec}
use epaflix.Scorer.Rows.{Verdict}
use epaflix.Verdicts.Read.{Lease}
use epaflix.Verdicts.Store.{
  DirEntry, key_of, key_eq, is_newer, merge, merge_entry, merge_all, verdict_in, verdict_le,
  load_active_verdicts,
}

-- About a producer and a server, and no older than `t`.
abbrev pub about : Text × Text → ℕ → Verdict → Bool
about k t v = key_eq (key_of v) k && leb t v.observed_epoch

abbrev pub about_entry : Text × Text → ℕ → Option Verdict → Bool
about_entry k t none = false
about_entry k t (some v) = about k t v

key_eq_iff : (a b : Text × Text) → (key_eq a b ≡ true) ↔ (a ≡ b)
key_eq_iff (p, s) (q, t) = ground (arith, text_eq_iff p q, text_eq_iff s t)

-- Each value stands under its own key.
abbrev AreKeyed : Dict (Text × Text) Verdict → Type 0
AreKeyed [] = Unit {0}
AreKeyed ((k, v) ∷ d) = (k ≡ key_of v) × AreKeyed d

insert-AreKeyed :
    (v : Verdict) (d : Dict (Text × Text) Verdict)
    → AreKeyed d
    → AreKeyed (insert key_eq (key_of v) v d)
unfolding insert
insert-AreKeyed v [] h = (refl, tt)
insert-AreKeyed v ((k, w) ∷ d) h = ground (arith, key_eq_iff k (key_of v), insert-AreKeyed v d h.1)

insert-about :
    (k : Text × Text) (t : ℕ) (v : Verdict) (d : Dict (Text × Text) Verdict)
    → AreKeyed d
    → is_newer v (lookup key_eq (key_of v) d) ≡ true
    → any (about k t) (values (insert key_eq (key_of v) v d))
      ≡ (about k t v || any (about k t) (values d))
unfolding insert lookup
insert-about k t v [] h n = ground arith
insert-about k t v ((j, w) ∷ d) h n =
    ground (arith, key_eq_iff j (key_of v), insert-about k t v d h.1)

kept-about :
    (k : Text × Text) (t : ℕ) (v : Verdict) (d : Dict (Text × Text) Verdict)
    → AreKeyed d
    → is_newer v (lookup key_eq (key_of v) d) ≡ false
    → about k t v ≡ true
    → any (about k t) (values d) ≡ true
unfolding lookup
kept-about k t v [] h n a = cc
kept-about k t v ((j, w) ∷ d) h n a =
    ground (arith, key_eq_iff j (key_of v), kept-about k t v d h.1)

merge-about :
    (k : Text × Text) (t : ℕ) (v : Verdict) (d : Dict (Text × Text) Verdict)
    → AreKeyed d
    → any (about k t) (values (merge v d)) ≡ (about k t v || any (about k t) (values d))
unfolding merge
merge-about k t v d h = ground (arith, insert-about k t v d h, kept-about k t v d h)

merge-AreKeyed : (v : Verdict) (d : Dict (Text × Text) Verdict) → AreKeyed d → AreKeyed (merge v d)
unfolding merge
merge-AreKeyed v d h = ground (arith, insert-AreKeyed v d h)

-- The verdicts of a producer and a server.
abbrev pub is_of : Text × Text → Verdict → Bool
is_of k v = key_eq (key_of v) k

absent-count :
    (k : Text × Text) (d : Dict (Text × Text) Verdict)
    → AreKeyed d
    → lookup key_eq k d ≡ none
    → count (is_of k) (values d) ≡ 0
unfolding lookup
absent-count k [] h e = refl
absent-count k ((j, w) ∷ d) h e = ground (arith, absent-count k d h.1)

count-insert :
    (k : Text × Text) (v : Verdict) (d : Dict (Text × Text) Verdict)
    → AreKeyed d
    → count (is_of k) (values (insert key_eq (key_of v) v d))
      ≡ count (is_of k) (values d)
        + (if is_some (lookup key_eq (key_of v) d) then 0 else if is_of k v then 1 else 0)
unfolding insert lookup
count-insert k v [] h = ground arith
count-insert k v ((j, w) ∷ d) h = ground (arith, key_eq_iff j (key_of v), count-insert k v d h.1)

merge-one :
    (k : Text × Text) (v : Verdict) (d : Dict (Text × Text) Verdict)
    → AreKeyed d
    → count (is_of k) (values d) ≤ 1
    → count (is_of k) (values (merge v d)) ≤ 1
unfolding merge
merge-one k v d h one_at_most =
    ground (arith, count-insert k v d h, absent-count k d h, key_eq_iff (key_of v) k)

module _ (c : Codec) (cfg : Lease) (now : ℕ) where
  merge_all-about :
      (k : Text × Text) (t : ℕ) (es : List DirEntry) (d : Dict (Text × Text) Verdict)
      → AreKeyed d
      → any (about k t) (values (merge_all c cfg now es d))
        ≡ (any (λ e. about_entry k t (verdict_in c cfg now e)) es || any (about k t) (values d))
  unfolding merge_all
  merge_all-about k t [] d h = refl
  merge_all-about k t (e ∷ es) d h = by_entry (merge_all-about k t es) (verdict_in c cfg now e)
    where
      by_entry :
          ((d : Dict (Text × Text) Verdict)
            → AreKeyed d
            → any (about k t) (values (merge_all c cfg now es d)) ≡ (
                any (λ e. about_entry k t (verdict_in c cfg now e)) es
                || any (about k t) (values d)))
          → (o : Option Verdict)
          → any (about k t) (values (merge_all c cfg now es (merge_entry c cfg now o d))) ≡ (
              (if about_entry k t o
                then true
                else any (λ e. about_entry k t (verdict_in c cfg now e)) es)
              || any (about k t) (values d))
      by_entry ih none = ih d h
      by_entry ih (some v) =
          ground (arith, ih (merge v d) (merge-AreKeyed v d h), merge-about k t v d h)

  merge_all-one :
      (k : Text × Text) (es : List DirEntry) (d : Dict (Text × Text) Verdict)
      → AreKeyed d
      → count (is_of k) (values d) ≤ 1
      → count (is_of k) (values (merge_all c cfg now es d)) ≤ 1
  unfolding merge_all
  merge_all-one k [] d h n = n
  merge_all-one k (e ∷ es) d h n =
      let (keyed, at_most) = by_entry (verdict_in c cfg now e) in
      merge_all-one k es (merge_entry c cfg now (verdict_in c cfg now e) d) keyed at_most
    where
      by_entry :
          (o : Option Verdict)
          → AreKeyed (merge_entry c cfg now o d)
            × (count (is_of k) (values (merge_entry c cfg now o d)) ≤ 1)
      by_entry none = (h, n)
      by_entry (some v) = (merge-AreKeyed v d h, merge-one k v d h n)

  -- However often a producer reports a server, and whatever else is in the directory: the scorer
  -- has at most one verdict of that producer on that server, and for any moment it has one that is
  -- at least that new exactly when some usable file holds one.
  pub load_active_verdicts-newest :
      (k : Text × Text) (t : ℕ) (es : List DirEntry)
      → let vs = load_active_verdicts c cfg now (some es) in
        (count (is_of k) vs ≤ 1)
        × (any (about k t) vs ≡ any (λ e. about_entry k t (verdict_in c cfg now e)) es)
  unfolding load_active_verdicts
  load_active_verdicts-newest k t es =
      let d = merge_all c cfg now es [] in
      (
        omega (
          arith,
          count-sort_by verdict_le (is_of k) (values d),
          merge_all-one k es [] tt (omega arith),
        ),
        ground (arith, any-sort_by verdict_le (about k t) (values d), merge_all-about k t es [] tt),
      )
