-- ===== src/Ranking/Walk.antt =====
-- in_band and candidate_names of images/airvpn-bluetit/agent.py: the first names of a ranking. The
-- band is not negative, and every row has its name, as parse_ranking returns it.
pub mod Names
use epaflix.Base.{
  ℕ, Bool, true, false, not, Option, none, some, List, [], ◌∷◌, map, take, keep, is_empty,
  if◌then◌else◌, Text, text_eq, lower,
}
use epaflix.Scorer.Rows.{Row}
use epaflix.Scorer.Ejection.{row_key, member}

unfoldable pub in_band : Option Text → List Row → ℕ → Bool
in_band none servers band = false
in_band (some current) servers band =
    if is_empty current then false else member (lower current) (map row_key (take band servers))

-- `exclude or ""`
abbrev or_nothing : Option Text → Text
or_nothing none = []
or_nothing (some t) = t

abbrev pub name_of : Row → Text
name_of r = r.name

unfoldable pub candidate_names : List Row → ℕ → Option Text → List Text
candidate_names servers band exclude =
    map name_of
      (keep (λ s. not (text_eq (row_key s) (lower (or_nothing exclude)))) (take band servers))
