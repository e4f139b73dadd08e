-- ===== src/Ranking/Walk/Names.antt =====
-- The names that a walk tries.
use epaflix.Base.{
  ℕ, zero, suc, ◌+◌, ◌≡◌, ◌≢◌, refl, min, true, not, some, List, [], ◌∷◌, map, take, keep, arith,
  if◌then◌else◌, Text, text_eq, lower, length, count, text_eq_iff, length-take,
}
use epaflix.Scorer.Rows.{Row}
use epaflix.Scorer.Ejection.{row_key, member}
use epaflix.Ranking.Check.Laws.{fresh_names}
use epaflix.Ranking.Walk.{in_band, candidate_names, name_of}

-- The rows that are not of a name, and how many are.
split_names :
    (k : Text) (rs : List Row)
    → length (map name_of (keep (λ s. not (text_eq (row_key s) k)) rs))
        + count (λ s. text_eq (row_key s) k) rs
      ≡ length rs
split_names k [] = refl
split_names k (r ∷ rs) = ground (arith, split_names k rs)

-- A name that was seen is not there again.
seen-count :
    (k : Text) (seen : List Text) (rs : List Row)
    → fresh_names seen rs ≡ true
    → member k seen ≡ true
    → count (λ s. text_eq (row_key s) k) rs ≡ 0
seen-count k seen [] f m = refl
seen-count k seen (r ∷ rs) f m =
    ground (arith, text_eq_iff (lower r.name) k, seen-count k (lower r.name ∷ seen) rs)

once :
    (k : Text) (seen : List Text) (rs : List Row)
    → fresh_names seen rs ≡ true
    → count (λ s. text_eq (row_key s) k) rs ≡ (if member k (map row_key rs) then 1 else 0)
once k seen [] f = refl
once k seen (r ∷ rs) f =
    ground (arith, seen-count k (lower r.name ∷ seen) rs, once k (lower r.name ∷ seen) rs)

fresh-take :
    (n : ℕ) (seen : List Text) (rs : List Row)
    → fresh_names seen rs ≡ true
    → fresh_names seen (take n rs) ≡ true
fresh-take zero seen rs f = refl
fresh-take (suc n) seen [] f = refl
fresh-take (suc n) seen (r ∷ rs) f = ground (arith, fresh-take n (lower r.name ∷ seen) rs)

-- From a ranking in which no name is there twice, a walk that leaves out the current server has a
-- candidate for each row of the band but the current server's: one less exactly when the current
-- server is in the band.
candidate_names-length :
    (current : Text) (servers : List Row) (band : ℕ)
    → fresh_names [] servers ≡ true
    → current ≢ []
    → length (candidate_names servers band (some current))
        + (if in_band (some current) servers band then 1 else 0)
      ≡ min band (length servers)
unfolding candidate_names in_band
candidate_names-length [] servers band f some_name = absurd (some_name refl)
candidate_names-length (c ∷ cs) servers band f some_name =
    let rs = take band servers in
    omega (
      arith,
      split_names (lower (c ∷ cs)) rs,
      once (lower (c ∷ cs)) [] rs (fresh-take band [] servers f),
      length-take band servers,
    )
