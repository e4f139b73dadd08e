-- ===== src/Scorer/Journal/Equal.antt =====
-- The comparisons of rows of images/vpn-picker/vpn_picker.py decide equality, and what it is to be
-- a list with some rows left out.
use epaflix.Base.{
  ◌*◌, ◌≡◌, refl, ap, true, Option, none, some, List, [], ◌∷◌, arith, text_eq_iff, text_eq_refl,
  ◌↔◌,
}
use epaflix.Base.Int.{ℤ, pos, negsuc}
use epaflix.Base.Json.{Float, one, finite, inf, nan, neg_inf}
use epaflix.Scorer.Rows.{Row}
use epaflix.Ranking.Check.{within}
use epaflix.Ranking.Check.Laws.{is_valid}
use epaflix.Scorer.Journal.{eq_ℤ, eq_float, row_eq}

pub data Sublist : List Row → List Row → Type 0 where
  done : Sublist [] []
  skip : {xs ys : List Row} (y : Row) → Sublist xs ys → Sublist xs (y ∷ ys)
  keeps : {xs ys : List Row} (y : Row) → Sublist xs ys → Sublist (y ∷ xs) (y ∷ ys)

pub eq_ℤ_iff : (m n : ℤ) → (eq_ℤ m n ≡ true) ↔ (m ≡ n)
eq_ℤ_iff (pos m) (pos n) = (λ h. ground arith, λ h. ground arith)
eq_ℤ_iff (pos m) (negsuc n) = (λ h. cc, λ h. cc)
eq_ℤ_iff (negsuc m) (pos n) = (λ h. cc, λ h. cc)
eq_ℤ_iff (negsuc m) (negsuc n) = (λ h. ground arith, λ h. ground arith)

pub eq_float→eq : (x y : Float) → eq_float x y ≡ true → x ≡ y
eq_float→eq nan y h = cc
eq_float→eq inf nan h = cc
eq_float→eq inf inf h = refl
eq_float→eq inf neg_inf h = cc
eq_float→eq inf (finite n) h = cc
eq_float→eq neg_inf nan h = cc
eq_float→eq neg_inf inf h = cc
eq_float→eq neg_inf neg_inf h = refl
eq_float→eq neg_inf (finite n) h = cc
eq_float→eq (finite m) nan h = cc
eq_float→eq (finite m) inf h = cc
eq_float→eq (finite m) neg_inf h = cc
eq_float→eq (finite m) (finite n) h = ap finite ((eq_ℤ_iff m n).0 h)

pub row_eq→eq : (r s : Row) → row_eq r s ≡ true → r ≡ s
unfolding row_eq
row_eq→eq r s h = ground (
  arith,
  text_eq_iff r.name s.name,
  text_eq_iff r.entry_ip s.entry_ip,
  eq_float→eq r.loss_pct s.loss_pct,
  eq_float→eq r.rtt_ms s.rtt_ms,
  eq_ℤ_iff r.load s.load,
  eq_ℤ_iff r.bw_max s.bw_max,
  eq_ℤ_iff r.headroom s.headroom,
)

within_refl : (lo : ℤ) (hi : Option ℤ) (x : Float) → within lo hi x ≡ true → eq_float x x ≡ true
within_refl lo hi nan h = cc
within_refl lo hi inf h = cc
within_refl lo hi neg_inf h = cc
within_refl lo hi (finite n) h = (eq_ℤ_iff n n).1 refl

pub row_eq_refl : (r : Row) → is_valid r ≡ true → row_eq r r ≡ true
unfolding row_eq is_valid
row_eq_refl r h = ground (
  arith,
  text_eq_refl r.name,
  text_eq_refl r.entry_ip,
  within_refl (pos 0) (some (pos (100 * one))) r.loss_pct,
  within_refl (pos 0) none r.rtt_ms,
  (eq_ℤ_iff r.load r.load).1 refl,
  (eq_ℤ_iff r.bw_max r.bw_max).1 refl,
  (eq_ℤ_iff r.headroom r.headroom).1 refl,
)
