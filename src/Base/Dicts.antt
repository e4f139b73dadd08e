-- ===== src/Base/Dicts.antt =====
-- Python's dicts in insertion order, over any type of keys with a Boolean equality.
use Prim.Native.Nat.{suc}
use mathlib.Core.Path.{◌≡◌, refl}
use mathlib.Core.Logic.{◌↔◌}
use mathlib.Core.Bool.{Bool, true}
use mathlib.Core.Option.{Option, none, some}
use mathlib.Core.List.{List, [], ◌∷◌}
use native.Mathlib.Omega.{arith}
use epaflix.Base.Tests.{if◌then◌else◌, is_some}
use epaflix.Base.Lists.{length, All}

abbrev pub Dict {ℓ κ} : Type ℓ → Type κ → Type (ℓ ⊔ κ)
Dict K V = List (K × V)

abbrev pub values {ℓ κ} : {K : Type ℓ} {V : Type κ} → Dict K V → List V
values [] = []
values ((k, v) ∷ d) = v ∷ values d

module _ {ℓ κ} {K : Type ℓ} {V : Type κ} (eq : K → K → Bool) where
  -- `d.get(k)`
  unfoldable pub lookup : K → Dict K V → Option V
  lookup k [] = none
  lookup k ((j, v) ∷ d) = if eq j k then some v else lookup k d

  -- `d[k] = v`: a known key keeps its place.
  unfoldable pub insert : K → V → Dict K V → Dict K V
  insert k v [] = (k, v) ∷ []
  insert k v ((j, w) ∷ d) = if eq j k then (j, v) ∷ d else (j, w) ∷ insert k v d

  -- `d.pop(k)`
  unfoldable erase : K → Dict K V → Dict K V
  erase k [] = []
  erase k ((j, v) ∷ d) = if eq j k then d else (j, v) ∷ erase k d

  pub lookup-insert :
      ((a b : K) → (eq a b ≡ true) ↔ (a ≡ b))
      → (k j : K) (v : V) (d : Dict K V)
      → lookup j (insert k v d) ≡ (if eq k j then some v else lookup j d)
  unfolding lookup insert
  lookup-insert iff k j v [] = refl
  lookup-insert iff k j v ((i, w) ∷ d) =
      ground (arith, iff k j, iff i k, iff i j, lookup-insert iff k j v d)

  -- A key that is known is replaced, another is added.
  pub length-insert :
      (k : K) (v : V) (d : Dict K V)
      → length (insert k v d) ≡ (if is_some (lookup k d) then length d else suc (length d))
  unfolding lookup insert
  length-insert k v [] = refl
  length-insert k v ((i, w) ∷ d) = ground (arith, length-insert k v d)

  pub All-insert {μ} :
      (P : K × V → Type μ) (k : K) (v : V) (d : Dict K V)
      → ((j : K) → eq j k ≡ true → P (j, v))
      → P (k, v)
      → All P d
      → All P (insert k v d)
  unfolding insert
  All-insert P k v [] same p h = (p, tt)
  All-insert P k v ((i, w) ∷ d) same p h = ground (arith, same i, All-insert P k v d same p h.1)
