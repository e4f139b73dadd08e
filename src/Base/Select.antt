-- ===== src/Base/Select.antt =====
-- Lemmas on the elements of a list that pass a test: keep, any, all of them, and their number.
use Prim.Native.Nat.{◌≤◌, ◌<◌}
use mathlib.Core.Path.{◌≡◌, refl}
use mathlib.Core.Bool.{Bool, true, false, not, ◌&&◌}
use mathlib.Core.List.{List, [], ◌∷◌, map}
use native.Mathlib.Omega.{arith}
use epaflix.Base.Lists.{length, take, keep, any, count, is_empty, All}

pub All-keep-true {ℓ} :
    {A : Type ℓ} (p : A → Bool) (xs : List A) → All (λ x. p x ≡ true) (keep p xs)
All-keep-true p [] = tt
All-keep-true p (x ∷ xs) = ground (arith, All-keep-true p xs)

pub any-All {ℓ} :
    {A : Type ℓ} (p : A → Bool) (xs : List A) → any p xs ≡ false → All (λ x. p x ≡ false) xs
any-All p [] h = tt
any-All p (x ∷ xs) h = ground (arith, any-All p xs)

pub any-keep-not {ℓ} :
    {A : Type ℓ} (p : A → Bool) (xs : List A) → any p (keep (λ x. not (p x)) xs) ≡ false
any-keep-not p [] = refl
any-keep-not p (x ∷ xs) = ground (arith, any-keep-not p xs)

pub any-keep {ℓ} :
    {A : Type ℓ} (f g : A → Bool) (xs : List A)
    → ((x : A) → f x ≡ true → g x ≡ true)
    → any f xs ≡ true
    → any f (keep g xs) ≡ true
any-keep f g [] i h = h
any-keep f g (x ∷ xs) i h = ground (arith, i x, any-keep f g xs i)

pub any-nonempty {ℓ} :
    {A : Type ℓ} (f : A → Bool) (xs : List A) → any f xs ≡ true → is_empty xs ≡ false
any-nonempty f [] h = cc
any-nonempty f (x ∷ xs) h = refl

count-le {ℓ} :
    {A : Type ℓ} (p q : A → Bool) (xs : List A)
    → ((x : A) → p x ≡ true → q x ≡ true)
    → count p xs ≤ count q xs
count-le p q [] f = omega arith
count-le p q (x ∷ xs) f = ground (arith, f x, count-le p q xs f)

pub count-lt {ℓ} :
    {A : Type ℓ} (p q : A → Bool) (xs : List A)
    → ((x : A) → p x ≡ true → q x ≡ true)
    → any (λ x. q x && not (p x)) xs ≡ true
    → count p xs < count q xs
count-lt p q [] f h = cc
count-lt p q (x ∷ xs) f h = ground (arith, f x, count-le p q xs f, count-lt p q xs f)

pub any-imp {ℓ} :
    {A : Type ℓ} (p q : A → Bool) (xs : List A)
    → ((x : A) → p x ≡ true → q x ≡ true)
    → any p xs ≡ true
    → any q xs ≡ true
any-imp p q [] f h = h
any-imp p q (x ∷ xs) f h = ground (arith, f x, any-imp p q xs f)

pub count-le_length {ℓ} : {A : Type ℓ} (p : A → Bool) (xs : List A) → count p xs ≤ length xs
count-le_length p [] = omega arith
count-le_length p (x ∷ xs) = ground (arith, count-le_length p xs)

pub any-map {ℓ κ} :
    {A : Type ℓ} {B : Type κ} (f : B → Bool) (g : A → B) (xs : List A)
    → any f (map g xs) ≡ any (λ x. f (g x)) xs
any-map f g [] = refl
any-map f g (x ∷ xs) = ground (arith, any-map f g xs)

pub take_all {ℓ} : {A : Type ℓ} (xs : List A) → take (length xs) xs ≡ xs
take_all [] = refl
take_all (x ∷ xs) = cc (take_all xs)
