-- ===== src/Scorer/Journal/Subset.antt =====
-- `_is_ranked_subset` against a reference: the public rows are the base's, some left out, in the
-- same order, and no name of the base is there twice.
use epaflix.Base.{
  sym, subst, ◌∙◌, inl, inr, Bool-cases, ℕ, zero, suc, ◌+◌, ◌≤◌, ◌≡◌, refl, ap, true, false, Option,
  none, some, List, [], ◌∷◌, ◌++◌, arith, if◌then◌else◌, is_some, length, length-append, drop, all,
  Text, text_eq, text_eq_iff, text_eq_refl, Dict, lookup, lookup-insert, insert, ◌↔◌,
}
use mathlib.Core.List.{append_assoc}
use epaflix.Scorer.Rows.{Row}
use epaflix.Scorer.Ejection.{row_key, member}
use epaflix.Ranking.Check.Laws.{is_valid, fresh_names}
use epaflix.Scorer.Journal.{positions, found_at, in_order, is_ranked_subset}
use epaflix.Scorer.Journal.Equal.{Sublist, done, keeps, row_eq_refl, row_eq→eq, skip}

-- Where the first row of a name stands, counted from `i`.
unfoldable find_row : Text → ℕ → List Row → Option (ℕ × Row)
find_row k i [] = none
find_row k i (r ∷ rs) = if text_eq (row_key r) k then some (i, r) else find_row k (suc i) rs

abbrev or_else {ℓ} : {A : Type ℓ} → Option A → Option A → Option A
or_else (some a) o = some a
or_else none o = o

positions-lookup :
    (k : Text) (i : ℕ) (rs : List Row) (d e : Dict Text (ℕ × Row))
    → positions i rs d ≡ some e
    → lookup text_eq k e ≡ or_else (lookup text_eq k d) (find_row k i rs)
unfolding positions find_row
positions-lookup k i [] d e h = ground arith
positions-lookup k i (r ∷ rs) d e h = ground (
  arith,
  positions-lookup k (suc i) rs (insert text_eq (row_key r) (i, r) d) e,
  lookup-insert text_eq text_eq_iff (row_key r) k (i, r) d,
  text_eq_iff (row_key r) k,
)

-- There are positions exactly when no name is there twice.
positions-fresh :
    (i : ℕ) (rs : List Row) (d : Dict Text (ℕ × Row)) (seen : List Text)
    → ((k : Text) → is_some (lookup text_eq k d) ≡ member k seen)
    → is_some (positions i rs d) ≡ fresh_names seen rs
unfolding positions
positions-fresh i [] d seen same = refl
positions-fresh i (r ∷ rs) d seen same = ground (
  arith,
  same (row_key r),
  positions-fresh (suc i) rs (insert text_eq (row_key r) (i, r) d) (row_key r ∷ seen)
      (λ k. ground (arith, same k, lookup-insert text_eq text_eq_iff (row_key r) k (i, r) d)),
)

fresh-unseen :
    (seen : List Text) (pre : List Row) (x : Row) (suf : List Row)
    → fresh_names seen (pre ++ x ∷ suf) ≡ true
    → member (row_key x) seen ≡ false
fresh-unseen seen [] x suf h = ground arith
fresh-unseen seen (r ∷ pre) x suf h = ground (arith, fresh-unseen (row_key r ∷ seen) pre x suf)

find_row-own :
    (i : ℕ) (seen : List Text) (pre : List Row) (x : Row) (suf : List Row)
    → fresh_names seen (pre ++ x ∷ suf) ≡ true
    → find_row (row_key x) i (pre ++ x ∷ suf) ≡ some (length pre + i, x)
unfolding find_row
find_row-own i seen [] x suf h = ground (arith, text_eq_refl (row_key x))
find_row-own i seen (r ∷ pre) x suf h = ground (
  arith,
  fresh-unseen (row_key r ∷ seen) pre x suf,
  find_row-own (suc i) (row_key r ∷ seen) pre x suf,
)

in_order-below :
    (low : ℕ) (rows : List Row) (d : Dict Text (ℕ × Row))
    → in_order (suc low) rows d ≡ true
    → in_order low rows d ≡ true
unfolding in_order
in_order-below low [] d h = refl
in_order-below low (row ∷ rows) d h = ground arith

length_snoc : (pre : List Row) (y : Row) → length (pre ++ y ∷ []) ≡ suc (length pre)
length_snoc pre y = omega (arith, length-append pre (y ∷ []))

own_place :
    (full pre : List Row) (y : Row) (ys : List Row)
    → full ≡ pre ++ y ∷ ys
    → fresh_names [] full ≡ true
    → find_row (row_key y) 0 full ≡ some (length pre, y)
own_place full pre y ys e fresh = ground (
  arith,
  ap (find_row (row_key y) 0) e,
  find_row-own 0 [] pre y ys (subst (λ (f : List Row). fresh_names [] f ≡ true) e fresh),
)

-- Rows of the part behind `pre` are found in their order.
in_order-Sublist :
    (pub_ suf pre full : List Row) (d : Dict Text (ℕ × Row))
    → full ≡ pre ++ suf
    → ((k : Text) → lookup text_eq k d ≡ find_row k 0 full)
    → fresh_names [] full ≡ true
    → all is_valid pub_ ≡ true
    → Sublist pub_ suf
    → in_order (length pre) pub_ d ≡ true
unfolding in_order
in_order-Sublist _ _ pre full d e found fresh valid done = refl
in_order-Sublist _ _ pre full d e found fresh valid (skip {xs} {ys} y s) =
    in_order-below (length pre) xs d (
      subst (λ (n : ℕ). in_order n xs d ≡ true) (length_snoc pre y)
        (in_order-Sublist xs ys (pre ++ y ∷ []) full d (e ∙ sym (append_assoc pre (y ∷ []) ys))
          found fresh valid s))
in_order-Sublist _ _ pre full d e found fresh valid (keeps {xs} {ys} y s) = ground (
  arith,
  found (row_key y),
  own_place full pre y ys e fresh,
  row_eq_refl y,
  subst (λ (n : ℕ). in_order n xs d ≡ true) (length_snoc pre y)
      (in_order-Sublist xs ys (pre ++ y ∷ []) full d (e ∙ sym (append_assoc pre (y ∷ []) ys)) found
        fresh (ground arith) s),
)

find_row-drop :
    (k : Text) (i p : ℕ) (r : Row) (rs : List Row)
    → find_row k i rs ≡ some (p, r)
    → (q : ℕ) × (p ≡ i + q) × (drop q rs ≡ r ∷ drop (suc q) rs)
unfolding find_row
find_row-drop k i p r [] h = cc
find_row-drop k i p r (x ∷ rs) h = elim (Bool-cases (text_eq (row_key x) k)) [
  | inl same ↦ (0, ground arith, ground arith)
  | inr other ↦
      let (q, e, f) = find_row-drop k (suc i) p r rs (ground arith) in (suc q, omega (arith, e), f)
]

Sublist-weaker :
    (low q : ℕ) (xs ys : List Row) → low ≤ q → Sublist xs (drop q ys) → Sublist xs (drop low ys)
Sublist-weaker zero zero xs ys le s = s
Sublist-weaker zero (suc q) xs [] le s = s
Sublist-weaker zero (suc q) xs (y ∷ ys) le s = skip y (Sublist-weaker zero q xs ys (omega arith) s)
Sublist-weaker (suc low) zero xs ys le s = absurd (omega arith)
Sublist-weaker (suc low) (suc q) xs [] le s = s
Sublist-weaker (suc low) (suc q) xs (y ∷ ys) le s = Sublist-weaker low q xs ys (omega arith) s

Sublist-empty : (ys : List Row) → Sublist [] ys
Sublist-empty [] = done
Sublist-empty (y ∷ ys) = skip y (Sublist-empty ys)

found_at-holds :
    (low p : ℕ) (row : Row) (o : Option (ℕ × Row))
    → found_at low row o ≡ some p
    → (low ≤ p) × (o ≡ some (p, row))
found_at-holds low p row none h = cc
found_at-holds low p row (some (q, r)) h = ground (arith, row_eq→eq r row)

by_place :
    (low : ℕ) (row : Row) (rows full : List Row) (d : Dict Text (ℕ × Row))
    → ((k : Text) → lookup text_eq k d ≡ find_row k 0 full)
    → ((p : ℕ) → in_order (suc p) rows d ≡ true → Sublist rows (drop (suc p) full))
    → (o : Option ℕ) → found_at low row (lookup text_eq (row_key row) d) ≡ o
    → elim o [ none ↦ false | some p ↦ in_order (suc p) rows d ] ≡ true
    → Sublist (row ∷ rows) (drop low full)
by_place low row rows full d found rest none e h = cc
by_place low row rows full d found rest (some p) e h =
    let (le, at) = found_at-holds low p row (lookup text_eq (row_key row) d) e in
    let (q, same, front) =
      find_row-drop (row_key row) 0 p row full (sym (found (row_key row)) ∙ at) in
    Sublist-weaker low q (row ∷ rows) full (omega (arith, same, le)) (
      subst (Sublist (row ∷ rows)) (sym front) (
        keeps row (
          subst (λ (n : ℕ). Sublist rows (drop (suc n) full)) {x = p} {y = q} (omega (arith, same))
            (rest p h))))

Sublist-in_order :
    (low : ℕ) (pub_ full : List Row) (d : Dict Text (ℕ × Row))
    → ((k : Text) → lookup text_eq k d ≡ find_row k 0 full)
    → in_order low pub_ d ≡ true
    → Sublist pub_ (drop low full)
unfolding in_order
Sublist-in_order low [] full d found h = Sublist-empty (drop low full)
Sublist-in_order low (row ∷ rows) full d found h =
    by_place low row rows full d found (λ p. Sublist-in_order (suc p) rows full d found)
      (found_at low row (lookup text_eq (row_key row) d)) refl h

-- A public ranking is taken for a base with some rows left out exactly when no name of the base is
-- there twice, up to case, and the public rows are rows of the base in the base's order. The public
-- rows are valid, as parse_ranking_payload has them.
pub is_ranked_subset-Sublist :
    (public_servers base_servers : List Row)
    → all is_valid public_servers ≡ true
    → (is_ranked_subset public_servers base_servers ≡ true)
      ↔ ((fresh_names [] base_servers ≡ true) × Sublist public_servers base_servers)
unfolding is_ranked_subset lookup
is_ranked_subset-Sublist ps bs valid = by_positions (positions 0 bs []) refl
  where
    by_positions :
        (o : Option (Dict Text (ℕ × Row)))
        → positions 0 bs [] ≡ o
        → ((elim o [ none ↦ false | some d ↦ in_order 0 ps d ]) ≡ true)
          ↔ ((fresh_names [] bs ≡ true) × Sublist ps bs)
    by_positions none e = ground (arith, positions-fresh 0 bs [] [] (λ k. refl))
    by_positions (some d) e =
        let found = λ (k : Text). positions-lookup k 0 bs [] d e in
        let fresh : fresh_names [] bs ≡ true =
          ground (arith, positions-fresh 0 bs [] [] (λ k. refl)) in
        (
          λ h. (fresh, Sublist-in_order 0 ps bs d found h),
          λ h. in_order-Sublist ps bs [] bs d refl found h.0 valid h.1,
        )
