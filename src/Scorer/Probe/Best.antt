-- ===== src/Scorer/Probe/Best.antt =====
-- What the ranking of the survivors promises.
use epaflix.Base.{
  ap, subst, ◌↔◌, All-keep, ◌≡◌, refl, Bool, true, false, not, ◌&&◌, List, [], ◌∷◌, arith,
  if◌then◌else◌, keep, sort_by-perm, sort_by-IsSorted_on, IsSorted, All, All-sort_by,
}
use mathlib.Core.List.{Perm}
use epaflix.Base.Int.{ℤ, pos, negsuc, leb_ℤ}
use epaflix.Base.Json.{Float, nan, inf, neg_inf, finite}
use epaflix.Scorer.Rows.{Row}
use epaflix.Scorer.Journal.{eq_float}
use epaflix.Scorer.Journal.Equal.{eq_ℤ_iff, eq_float→eq}
use epaflix.Scorer.Probe.{leb_float, as_good, rank_survivors}

-- A measurement that is a number.
abbrev is_number : Float → Bool
is_number nan = false
is_number _ = true

abbrev is_measured : Row → Bool
is_measured r = is_number r.loss_pct && is_number r.rtt_ms

leb_ℤ_total : (m n : ℤ) → leb_ℤ m n ≡ false → leb_ℤ n m ≡ true
leb_ℤ_total m n h = ground arith

leb_float_total :
    (x y : Float)
    → is_number x ≡ true
    → is_number y ≡ true
    → leb_float x y ≡ false
    → leb_float y x ≡ true
leb_float_total nan y hx hy h = cc
leb_float_total inf nan hx hy h = cc
leb_float_total inf inf hx hy h = refl
leb_float_total inf neg_inf hx hy h = refl
leb_float_total inf (finite n) hx hy h = refl
leb_float_total neg_inf nan hx hy h = cc
leb_float_total neg_inf inf hx hy h = cc
leb_float_total neg_inf neg_inf hx hy h = cc
leb_float_total neg_inf (finite n) hx hy h = cc
leb_float_total (finite m) nan hx hy h = cc
leb_float_total (finite m) inf hx hy h = cc
leb_float_total (finite m) neg_inf hx hy h = refl
leb_float_total (finite m) (finite n) hx hy h = leb_ℤ_total m n h

eq_float_refl : (x : Float) → is_number x ≡ true → eq_float x x ≡ true
eq_float_refl nan h = cc
eq_float_refl inf h = refl
eq_float_refl neg_inf h = refl
eq_float_refl (finite n) h = (eq_ℤ_iff n n).1 refl

eq_float_iff : (x y : Float) → is_number x ≡ true → (eq_float x y ≡ true) ↔ (x ≡ y)
eq_float_iff x y h =
    (eq_float→eq x y, λ e. subst (λ (z : Float). eq_float x z ≡ true) e (eq_float_refl x h))

leb_ℤ_antisym : (m n : ℤ) → leb_ℤ m n ≡ true → leb_ℤ n m ≡ true → m ≡ n
leb_ℤ_antisym (pos m) (pos n) h k = ground arith
leb_ℤ_antisym (pos m) (negsuc n) h k = absurd (ground arith)
leb_ℤ_antisym (negsuc m) (pos n) h k = absurd (ground arith)
leb_ℤ_antisym (negsuc m) (negsuc n) h k = ground arith

leb_float_antisym : (x y : Float) → leb_float x y ≡ true → leb_float y x ≡ true → x ≡ y
leb_float_antisym nan y h k = cc
leb_float_antisym inf nan h k = cc
leb_float_antisym inf inf h k = refl
leb_float_antisym inf neg_inf h k = cc
leb_float_antisym inf (finite n) h k = cc
leb_float_antisym neg_inf nan h k = cc
leb_float_antisym neg_inf inf h k = cc
leb_float_antisym neg_inf neg_inf h k = refl
leb_float_antisym neg_inf (finite n) h k = cc
leb_float_antisym (finite m) nan h k = cc
leb_float_antisym (finite m) inf h k = cc
leb_float_antisym (finite m) neg_inf h k = cc
leb_float_antisym (finite m) (finite n) h k = ap finite (leb_ℤ_antisym m n h k)

leb_float_nan : (y : Float) → leb_float y nan ≡ false
leb_float_nan nan = refl
leb_float_nan inf = refl
leb_float_nan neg_inf = refl
leb_float_nan (finite n) = refl

leb_float_trans :
    (x y z : Float) → leb_float x y ≡ true → leb_float y z ≡ true → leb_float x z ≡ true
leb_float_trans nan y z h k = cc
leb_float_trans inf nan z h k = cc
leb_float_trans inf inf z h k = k
leb_float_trans inf neg_inf z h k = cc
leb_float_trans inf (finite n) z h k = cc
leb_float_trans neg_inf y nan h k = cc (leb_float_nan y)
leb_float_trans neg_inf y inf h k = refl
leb_float_trans neg_inf y neg_inf h k = refl
leb_float_trans neg_inf y (finite n) h k = refl
leb_float_trans (finite m) nan z h k = cc
leb_float_trans (finite m) inf nan h k = cc
leb_float_trans (finite m) inf inf h k = refl
leb_float_trans (finite m) inf neg_inf h k = cc
leb_float_trans (finite m) inf (finite n) h k = cc
leb_float_trans (finite m) neg_inf z h k = cc
leb_float_trans (finite m) (finite n) nan h k = cc
leb_float_trans (finite m) (finite n) inf h k = refl
leb_float_trans (finite m) (finite n) neg_inf h k = cc
leb_float_trans (finite m) (finite n) (finite o) h k = ground arith

-- A step of the lexicographic order: strictly before by `x`, or level and as good by the rest.
abbrev by_float : Float → Float → Bool → Bool
by_float x y rest = if not (eq_float x y) then leb_float x y else rest

by_float_total :
    (x y : Float) (a b : Bool)
    → is_number x ≡ true
    → is_number y ≡ true
    → (a ≡ false → b ≡ true)
    → by_float x y a ≡ false
    → by_float y x b ≡ true
by_float_total x y a b hx hy rest h =
    ground (arith, eq_float_iff x y hx, eq_float_iff y x hy, leb_float_total x y hx hy, rest)

by_float_trans :
    (x y z : Float) (a b d : Bool)
    → is_number x ≡ true
    → is_number y ≡ true
    → is_number z ≡ true
    → (a ≡ true → b ≡ true → d ≡ true)
    → by_float x y a ≡ true
    → by_float y z b ≡ true
    → by_float x z d ≡ true
by_float_trans x y z a b d hx hy hz rest h k = ground (
  arith,
  eq_float_iff x y hx,
  eq_float_iff y z hy,
  eq_float_iff x z hx,
  leb_float_trans x y z,
  leb_float_antisym x y,
  rest,
)

as_good_total :
    (r s : Row)
    → is_measured r ≡ true
    → is_measured s ≡ true
    → as_good r s ≡ false
    → as_good s r ≡ true
as_good_total r s hr hs h =
    by_float_total r.loss_pct s.loss_pct _ _ (ground arith) (ground arith)
      (by_float_total r.rtt_ms s.rtt_ms _ _ (ground arith) (ground arith)
        (leb_ℤ_total r.load s.load))
      h

leb_ℤ_trans : (m n o : ℤ) → leb_ℤ m n ≡ true → leb_ℤ n o ≡ true → leb_ℤ m o ≡ true
leb_ℤ_trans m n o h k = ground arith

as_good_trans :
    (r s t : Row)
    → is_measured r ≡ true
    → is_measured s ≡ true
    → is_measured t ≡ true
    → as_good r s ≡ true
    → as_good s t ≡ true
    → as_good r t ≡ true
as_good_trans r s t hr hs ht h k =
    by_float_trans r.loss_pct s.loss_pct t.loss_pct _ _ _ (ground arith) (ground arith)
      (ground arith)
      (by_float_trans r.rtt_ms s.rtt_ms t.rtt_ms _ _ _ (ground arith) (ground arith) (ground arith)
        (leb_ℤ_trans r.load s.load t.load))
      h k

All-keep_self : (p : Row → Bool) (rs : List Row) → All (λ r. p r ≡ true) (keep p rs)
All-keep_self p [] = tt
All-keep_self p (r ∷ rs) = ground (arith, All-keep_self p rs)

-- From rows whose measurements are numbers, the ranking has exactly the rows within the loss
-- ceiling, each as often as it was probed; each of them is within it; and each row is followed only
-- by rows that are not better by loss, then by round-trip time, then by load.
rank_survivors-IsSorted :
    (probed : List Row) (ceiling : Float)
    → All (λ r. is_measured r ≡ true) probed
    → let within = λ (r : Row). leb_float r.loss_pct ceiling in
      Perm (rank_survivors probed ceiling) (keep within probed)
      × All (λ r. within r ≡ true) (rank_survivors probed ceiling)
      × IsSorted as_good (rank_survivors probed ceiling)
unfolding rank_survivors
rank_survivors-IsSorted probed ceiling h =
    let within = λ (r : Row). leb_float r.loss_pct ceiling in
    (
      sort_by-perm as_good (keep within probed),
      All-sort_by as_good (λ r. within r ≡ true) (keep within probed) (All-keep_self within probed),
      sort_by-IsSorted_on as_good is_measured as_good_total as_good_trans (keep within probed)
          (All-keep (λ r. is_measured r ≡ true) within probed h),
    )
