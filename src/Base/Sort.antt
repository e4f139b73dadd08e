-- ===== src/Base/Sort.antt =====
-- Python's `sorted` and `list.sort`: a stable sort by a Boolean order.
use mathlib.Core.Path.{◌≡◌, refl, subst}
use mathlib.Core.Logic.{inl, inr}
use mathlib.Core.Bool.{Bool, true, false}
use mathlib.Core.List.{List, [], ◌∷◌, Perm}
use mathlib.Core.List.Perm
use native.Mathlib.Omega.{arith}
use Prim.Native.Nat.{ℕ, zero, suc}
use epaflix.Base.Tests.{if◌then◌else◌, Bool-cases}
use epaflix.Base.Lists.{length, count, All, any, take, drop, All-drop}

module _ {ℓ} {A : Type ℓ} (le : A → A → Bool) where
  -- In front of the first element that is not strictly before it.
  unfoldable insert_sorted : A → List A → List A
  insert_sorted x [] = x ∷ []
  insert_sorted x (y ∷ ys) = if le x y then x ∷ y ∷ ys else y ∷ insert_sorted x ys

  unfoldable pub sort_by : List A → List A
  unfolding insert_sorted
  sort_by [] = []
  sort_by (x ∷ xs) = insert_sorted x (sort_by xs)

  abbrev pub IsSorted : List A → Type 0
  IsSorted [] = Unit
  IsSorted (x ∷ xs) = All (λ y. le x y ≡ true) xs × IsSorted xs

  insert_sorted-perm : (x : A) (xs : List A) → Perm (insert_sorted x xs) (x ∷ xs)
  unfolding insert_sorted
  insert_sorted-perm x [] = Perm.refl _
  insert_sorted-perm x (y ∷ ys) = elim (Bool-cases (le x y)) [
    | inl e ↦ rw e (Perm.refl _)
    | inr e ↦ rw e (Perm.trans (Perm.cons y (insert_sorted-perm x ys)) (Perm.swap x y ys))
  ]

  pub sort_by-perm : (xs : List A) → Perm (sort_by xs) xs
  unfolding sort_by
  sort_by-perm [] = Perm.refl []
  sort_by-perm (x ∷ xs) =
      Perm.trans (insert_sorted-perm x (sort_by xs)) (Perm.cons x (sort_by-perm xs))

  length-insert_sorted : (x : A) (xs : List A) → length (insert_sorted x xs) ≡ suc (length xs)
  unfolding insert_sorted
  length-insert_sorted x [] = omega arith
  length-insert_sorted x (y ∷ ys) = ground (arith, length-insert_sorted x ys)

  pub length-sort_by : (xs : List A) → length (sort_by xs) ≡ length xs
  unfolding sort_by
  length-sort_by [] = omega arith
  length-sort_by (x ∷ xs) = omega (arith, length-insert_sorted x (sort_by xs), length-sort_by xs)

  All-insert_sorted {κ} :
      (P : A → Type κ) (x : A) (xs : List A) → P x → All P xs → All P (insert_sorted x xs)
  unfolding insert_sorted
  All-insert_sorted P x [] p h = (p, tt)
  All-insert_sorted P x (y ∷ ys) p h = elim (Bool-cases (le x y)) [
    | inl e ↦ rw e (p, h)
    | inr e ↦ rw e (h.0, All-insert_sorted P x ys p h.1)
  ]

  pub All-sort_by {κ} : (P : A → Type κ) (xs : List A) → All P xs → All P (sort_by xs)
  unfolding sort_by
  All-sort_by P [] h = tt
  All-sort_by P (x ∷ xs) h = All-insert_sorted P x (sort_by xs) h.0 (All-sort_by P xs h.1)

  All-insert_sorted_inv {κ} :
      (P : A → Type κ) (x : A) (xs : List A) → All P (insert_sorted x xs) → P x × All P xs
  unfolding insert_sorted
  All-insert_sorted_inv P x [] h = h
  All-insert_sorted_inv P x (y ∷ ys) h = elim (Bool-cases (le x y)) [
    | inl e ↦ subst (λ b. All P (if b then x ∷ y ∷ ys else y ∷ insert_sorted x ys)) e h
    | inr e ↦
        let h' = subst (λ b. All P (if b then x ∷ y ∷ ys else y ∷ insert_sorted x ys)) e h in
        let (p, rest) = All-insert_sorted_inv P x ys h'.1 in (p, (h'.0, rest))
  ]

  -- What holds of all that is sorted holds of all there was.
  pub All-sort_by_inv {κ} : (P : A → Type κ) (xs : List A) → All P (sort_by xs) → All P xs
  unfolding sort_by
  All-sort_by_inv P [] h = tt
  All-sort_by_inv P (x ∷ xs) h =
      let (p, rest) = All-insert_sorted_inv P x (sort_by xs) h in (p, All-sort_by_inv P xs rest)

  -- On elements that pass a test, where the order is total and transitive on those.
  module _ (p : A → Bool)
      (le_total : (x y : A) → p x ≡ true → p y ≡ true → le x y ≡ false → le y x ≡ true)
      (le_trans : (x y z : A)
        → p x ≡ true
        → p y ≡ true
        → p z ≡ true
        → le x y ≡ true
        → le y z ≡ true
        → le x z ≡ true) where
    All-le_trans :
        (x y : A) (ys : List A)
        → p x ≡ true
        → p y ≡ true
        → All (λ z. p z ≡ true) ys
        → le x y ≡ true
        → All (λ z. le y z ≡ true) ys
        → All (λ z. le x z ≡ true) ys
    All-le_trans x y [] px py q e h = tt
    All-le_trans x y (z ∷ zs) px py q e h =
        (le_trans x y z px py q.0 e h.0, All-le_trans x y zs px py q.1 e h.1)

    insert_sorted-IsSorted :
        (x : A) (xs : List A)
        → p x ≡ true
        → All (λ z. p z ≡ true) xs
        → IsSorted xs
        → IsSorted (insert_sorted x xs)
    unfolding insert_sorted
    insert_sorted-IsSorted x [] px q h = (tt, tt)
    insert_sorted-IsSorted x (y ∷ ys) px q h = elim (Bool-cases (le x y)) [
      | inl e ↦ rw e ((e, All-le_trans x y ys px q.0 q.1 e h.0), h)
      | inr e ↦ rw e (
        All-insert_sorted (λ z. le y z ≡ true) x ys (le_total x y px q.0 e) h.0,
        insert_sorted-IsSorted x ys px q.1 h.1,
      )
    ]

    pub sort_by-IsSorted_on : (xs : List A) → All (λ z. p z ≡ true) xs → IsSorted (sort_by xs)
    unfolding sort_by
    sort_by-IsSorted_on [] q = tt
    sort_by-IsSorted_on (x ∷ xs) q =
        insert_sorted-IsSorted x (sort_by xs) q.0 (All-sort_by (λ z. p z ≡ true) xs q.1)
          (sort_by-IsSorted_on xs q.1)

  All-true : (xs : List A) → All (λ (_ : A). true ≡ true) xs
  All-true [] = tt
  All-true (x ∷ xs) = (refl, All-true xs)

  pub sort_by-IsSorted :
      ((x y : A) → le x y ≡ false → le y x ≡ true)
      → ((x y z : A) → le x y ≡ true → le y z ≡ true → le x z ≡ true)
      → (xs : List A) → IsSorted (sort_by xs)
  sort_by-IsSorted total trans xs =
      sort_by-IsSorted_on (λ _. true) (λ x y _ _. total x y) (λ x y z _ _ _. trans x y z) xs
        (All-true xs)

  any-insert_sorted :
      (p : A → Bool) (x : A) (xs : List A) → any p (insert_sorted x xs) ≡ any p (x ∷ xs)
  unfolding insert_sorted
  any-insert_sorted p x [] = refl
  any-insert_sorted p x (y ∷ ys) = ground (arith, any-insert_sorted p x ys)

  pub any-sort_by : (p : A → Bool) (xs : List A) → any p (sort_by xs) ≡ any p xs
  unfolding sort_by
  any-sort_by p [] = refl
  any-sort_by p (x ∷ xs) = ground (arith, any-insert_sorted p x (sort_by xs), any-sort_by p xs)

  count-insert_sorted :
      (p : A → Bool) (x : A) (xs : List A) → count p (insert_sorted x xs) ≡ count p (x ∷ xs)
  unfolding insert_sorted
  count-insert_sorted p x [] = refl
  count-insert_sorted p x (y ∷ ys) = ground (arith, count-insert_sorted p x ys)

  pub count-sort_by : (p : A → Bool) (xs : List A) → count p (sort_by xs) ≡ count p xs
  unfolding sort_by
  count-sort_by p [] = refl
  count-sort_by p (x ∷ xs) =
      ground (arith, count-insert_sorted p x (sort_by xs), count-sort_by p xs)

  -- What stands behind a cut comes after all that stands before it.
  pub IsSorted-split :
      (n : ℕ) (xs : List A)
      → IsSorted xs
      → All (λ x. All (λ y. le x y ≡ true) (drop n xs)) (take n xs)
  IsSorted-split zero xs h = tt
  IsSorted-split (suc n) [] h = tt
  IsSorted-split (suc n) (x ∷ xs) h =
      (All-drop (λ y. le x y ≡ true) n xs h.0, IsSorted-split n xs h.1)
