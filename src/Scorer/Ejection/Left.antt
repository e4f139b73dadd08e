-- ===== src/Scorer/Ejection/Left.antt =====
-- The rows that an ejection leaves, as a part of the ranking.
use epaflix.Base.{
  ℕ, zero, suc, sort_by, ◌≡◌, ◌≢◌, refl, Bool, true, false, List, [], ◌∷◌, arith, if◌then◌else◌,
  length, keep, take, not, map, ap, Text, text_eq_iff, text_eq_refl,
}
use epaflix.Base.Json.{Float}
use epaflix.Scorer.Rows.{Row, Verdict}
use epaflix.Scorer.Ejection.{apply_ejections, row_key, member, server_key, limit, ordered}
use epaflix.Scorer.Ejection.Bounds.{IsDistinct, apply_ejections-bounds}
use epaflix.Scorer.Journal.Equal.{Sublist, done, skip, keeps}
use epaflix.Scorer.Journal.Recover.{accepts, accepts-some}
use epaflix.Ranking.Check.Laws.{fresh_names}

keep-Sublist : (p : Row → Bool) (rs : List Row) → Sublist (keep p rs) rs
keep-Sublist p [] = done
keep-Sublist p (r ∷ rs) = by_test (p r) (keep-Sublist p rs)
  where
    by_test :
        (b : Bool)
        → Sublist (keep p rs) rs
        → Sublist (if b then r ∷ keep p rs else keep p rs) (r ∷ rs)
    by_test true s = keeps r s
    by_test false s = skip r s

pub kept-Sublist :
    (rs : List Row) (vs : List Verdict) (f : Float) → Sublist (apply_ejections rs vs f).kept rs
unfolding apply_ejections
kept-Sublist [] vs f = done
kept-Sublist (r ∷ rs) vs f =
    let out = map server_key (take (limit (length (r ∷ rs)) f) (ordered (r ∷ rs) vs)) in
    keep-Sublist (λ s. not (member (row_key s) out)) (r ∷ rs)

seen-absent :
    (k : Text) (seen : List Text) (rs : List Row)
    → fresh_names seen rs ≡ true
    → member k seen ≡ true
    → member k (map row_key rs) ≡ false
seen-absent k seen [] f m = refl
seen-absent k seen (r ∷ rs) f m =
    ground (arith, text_eq_iff (row_key r) k, seen-absent k (row_key r ∷ seen) rs)

fresh-IsDistinct :
    (seen : List Text) (rs : List Row) → fresh_names seen rs ≡ true → IsDistinct (map row_key rs)
fresh-IsDistinct seen [] f = tt
fresh-IsDistinct seen (r ∷ rs) f = (
  seen-absent (row_key r) (row_key r ∷ seen) rs (ground arith)
      (ground (arith, text_eq_refl (row_key r))),
  fresh-IsDistinct (row_key r ∷ seen) rs (ground arith),
)

pub kept-some :
    (rs : List Row) (vs : List Verdict) (f : Float)
    → accepts rs ≡ true
    → (apply_ejections rs vs f).kept ≢ []
kept-some rs vs f h e =
    let bounds =
      apply_ejections-bounds rs vs f (accepts-some rs h) (fresh-IsDistinct [] rs (ground arith)) in
    absurd (omega (arith, bounds.2, ap (λ (l : List Row). length l) e))

keep-all : (rs : List Row) → keep (λ s. not (member (row_key s) [])) rs ≡ rs
keep-all [] = refl
keep-all (r ∷ rs) = ap (λ (l : List Row). r ∷ l) (keep-all rs)

-- Without verdicts every row stays.
pub kept-none : (rs : List Row) (f : Float) → (apply_ejections rs [] f).kept ≡ rs
unfolding apply_ejections sort_by
kept-none [] f = refl
kept-none (r ∷ rs) f = by_limit (limit (length (r ∷ rs)) f)
  where
    by_limit :
        (n : ℕ)
        → keep (λ s. not (member (row_key s) (map server_key (take n [])))) (r ∷ rs) ≡ r ∷ rs
    by_limit zero = keep-all (r ∷ rs)
    by_limit (suc n) = keep-all (r ∷ rs)
