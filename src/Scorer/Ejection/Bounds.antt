-- ===== src/Scorer/Ejection/Bounds.antt =====
-- How much of a ranking an ejection may take.
use epaflix.Base.{
  ℕ, ◌*◌, ◌/◌, ◌⊎◌, inl, inr, ◌+◌, ◌≤◌, ◌<◌, ◌≡◌, ◌≢◌, refl, Bool, false, not, List, [], ◌∷◌, map,
  arith, length, length-take, min, dec_lt, take, keep, count, Text, text_eq, text_eq_iff,
}
use native.Mathlib.Nat.{mul-le-mul_left}
use epaflix.Base.Int.{pos, negsuc}
use epaflix.Base.Json.{Float, nan, inf, neg_inf, finite, one}
use epaflix.Scorer.Rows.{Row, Verdict}
use epaflix.Scorer.Ejection.{
  apply_ejections, row_key, server_key, member, limit, ordered, split_at_limit,
}

-- No name stands twice.
abbrev pub IsDistinct : List Text → Type 0
IsDistinct [] = Unit {0}
IsDistinct (k ∷ ks) = (member k ks ≡ false) × IsDistinct ks

none_named : (r : Text) (ks : List Text) → member r ks ≡ false → count (λ k. text_eq r k) ks ≡ 0
none_named r [] h = refl
none_named r (k ∷ ks) h = ground (arith, text_eq_iff r k, text_eq_iff k r, none_named r ks)

one_named : (r : Text) (ks : List Text) → IsDistinct ks → count (λ k. text_eq r k) ks ≤ 1
one_named r [] d = omega arith
one_named r (k ∷ ks) d = ground (arith, text_eq_iff r k, none_named k ks d.0, one_named r ks d.1)

count_either :
    (r : Text) (rs ks : List Text)
    → count (λ k. member k (r ∷ rs)) ks ≤ count (λ k. text_eq r k) ks + count (λ k. member k rs) ks
count_either r rs [] = omega arith
count_either r rs (k ∷ ks) = ground (arith, count_either r rs ks)

count_empty : (ks : List Text) → count (λ k. member k []) ks ≡ 0
count_empty [] = refl
count_empty (k ∷ ks) = count_empty ks

-- A list of names takes out at most as many distinct names as it is long.
hits-le : (rs ks : List Text) → IsDistinct ks → count (λ k. member k rs) ks ≤ length rs
hits-le [] ks d = omega (arith, count_empty ks)
hits-le (r ∷ rs) ks d = omega (arith, count_either r rs ks, one_named r ks d, hits-le rs ks d)

length-keep_rest {ℓ} :
    {A : Type ℓ} (p : A → Bool) (xs : List A)
    → length (keep (λ x. not (p x)) xs) + count p xs ≡ length xs
length-keep_rest p [] = refl
length-keep_rest p (x ∷ xs) = ground (arith, length-keep_rest p xs)

count-map {ℓ κ} :
    {A : Type ℓ} {B : Type κ} (f : A → B) (p : B → Bool) (xs : List A)
    → count p (map f xs) ≡ count (λ x. p (f x)) xs
count-map f p [] = refl
count-map f p (x ∷ xs) = ground (arith, count-map f p xs)

length-map {ℓ κ} :
    {A : Type ℓ} {B : Type κ} (f : A → B) (xs : List A) → length (map f xs) ≡ length xs
length-map f [] = refl
length-map f (x ∷ xs) = omega (arith, length-map f xs)

-- The rows that stay and the verdicts that were acted on make up at least the ranking.
split-length :
    (survivors : List Row) (n : ℕ) (vs : List Verdict)
    → IsDistinct (map row_key survivors)
    → length survivors
      ≤ length (split_at_limit survivors n vs).kept + length (split_at_limit survivors n vs).ejected
split-length survivors n vs d =
    let rs = map server_key (take n vs) in
    omega (
      arith,
      length-keep_rest (λ (s : Row). member (row_key s) rs) survivors,
      count-map row_key (λ k. member k rs) survivors,
      hits-le rs (map row_key survivors) d,
      length-map server_key (take n vs),
    )

-- So many of so many are within a fraction: a number in millionths, or else none at all.
abbrev pub IsWithinFraction : Float → ℕ → ℕ → Type 0
IsWithinFraction (finite (pos m)) total taken = taken * one ≤ total * m
IsWithinFraction _ total taken = taken ≡ 0

-- One more would leave nobody, or be beyond the fraction.
abbrev pub IsFull : Float → ℕ → ℕ → Type 0
IsFull (finite (pos m)) total taken = (total ≡ taken + 1) ⊎ (total * m < (taken + 1) * one)
IsFull _ total taken = taken ≡ 0

-- Where the share of a clamped fraction is, and where one more would be.
share-bounds :
    (n m d : ℕ)
    → (d ≡ m) ⊎ ((d ≡ one) × (one ≤ m))
    → (n * d / one * one ≤ n * m) × ((n ≡ n * d / one) ⊎ (n * m < (n * d / one + 1) * one))
share-bounds n m d (inl same) = rw same (omega arith, inr (omega arith))
share-bounds n m d (inr (whole, more)) =
    rw whole (omega (arith, mul-le-mul_left n more), inl (omega arith))

clamped : (m : ℕ) → (min one m ≡ m) ⊎ ((min one m ≡ one) × (one ≤ m))
clamped m = elim (dec_lt m one) [
  | yes less ↦ inl (omega arith)
  | no more ↦ inr (omega arith, omega arith)
]

limit-IsWithinFraction : (n k : ℕ) (f : Float) → k ≤ limit n f → IsWithinFraction f n k
limit-IsWithinFraction n k (finite (pos m)) h =
    omega (arith, share-bounds n m (min one m) (clamped m))
limit-IsWithinFraction n k (finite (negsuc m)) h = omega arith
limit-IsWithinFraction n k nan h = omega arith
limit-IsWithinFraction n k inf h = omega arith
limit-IsWithinFraction n k neg_inf h = omega arith

pub limit-IsFull : (n : ℕ) (f : Float) → 0 < n → IsFull f n (limit n f)
limit-IsFull n (finite (pos m)) h = ground (arith, share-bounds n m (min one m) (clamped m))
limit-IsFull n (finite (negsuc m)) h = omega arith
limit-IsFull n nan h = omega arith
limit-IsFull n inf h = omega arith
limit-IsFull n neg_inf h = omega arith

-- From a ranking with distinct names, at most as many rows are taken out as verdicts are acted on;
-- at least one row stays; and the number of the verdicts that are acted on, over that of the rows, is
-- at most the configured fraction, or 0 where the fraction is negative or not finite.
pub apply_ejections-bounds :
    (survivors : List Row) (verdicts : List Verdict) (f : Float)
    → survivors ≢ []
    → IsDistinct (map row_key survivors)
    → let e = apply_ejections survivors verdicts f in
      (length survivors ≤ length e.kept + length e.ejected)
      × IsWithinFraction f (length survivors) (length e.ejected)
      × (0 < length e.kept)
unfolding apply_ejections
apply_ejections-bounds [] verdicts f some_row d = absurd (some_row refl)
apply_ejections-bounds (s ∷ ss) verdicts f some_row d =
    let survivors = s ∷ ss in
    let n = limit (length survivors) f in
    let vs = ordered survivors verdicts in
    let long = split-length survivors n vs d in
    let cut : length (take n vs) ≤ n = omega (arith, length-take n vs) in
    (long, limit-IsWithinFraction (length survivors) (length (take n vs)) f cut, omega arith)
