-- ===== src/Ranking/Document/Agree.antt =====
-- What the scorer writes, what it accepts again and what the agent accepts.
use epaflix.Base.{
  ℕ, ◌*◌, ◌-◌, ◌≡◌, refl, Bool, not, ◌&&◌, Option, none, some, List, [], ◌∷◌, arith, if◌then◌else◌,
  Text, ltb, leb, all, ◌>>=?◌, text_eq, is_empty, ◌||◌,
}
use epaflix.Base.Int.{ℤ, pos, negsuc, ltb_ℤ}
use epaflix.Base.Json.{Json, one, null, bool, int, float, str, arr, obj}
use epaflix.Scorer.Rows.{Row}
use epaflix.Ranking.Check.{read_rows}
use epaflix.Ranking.Check.Laws.{is_valid, fresh_names, rows_json, read_from-rows_json}
use epaflix.Ranking.Document.{
  age_of, max_ranking_ttl_seconds, ranking_future_skew_seconds, build_document, parse_ranking,
  document_json, Ranking, read_document, parse_document,
}

-- A ranking that is stamped more than 300 seconds in the future is refused.
abbrev pub too_new : ℤ → Bool
too_new age = ltb_ℤ age (negsuc (ranking_future_skew_seconds * one - 1))

-- What is left of the rows at an age: none past the time to live.
abbrev pub at_age : ℤ → ℕ → List Row → List Row
at_age age ttl rows = if ltb_ℤ (pos (ttl * one)) age then [] else rows

-- What the agent has of a document that the scorer accepts.
abbrev pub adopted : ℕ → Ranking → Option (List Row × ℤ)
adopted now d =
    if too_new (age_of now d.stamp) || not (leb d.ttl max_ranking_ttl_seconds)
    then none
    else some (at_age (age_of now d.stamp) d.ttl d.rows, age_of now d.stamp)

pub read_rows-rows_json :
    (rs : List Row)
    → read_rows (some (arr (rows_json rs)))
      ≡ (if not (is_empty rs) && (all is_valid rs && fresh_names [] rs) then some rs else none)
read_rows-rows_json [] = refl
read_rows-rows_json (r ∷ rs) = read_from-rows_json [] (r ∷ rs)

-- Where json.loads reads back the document that json.dumps wrote, and strptime reads its stamp: the
-- agent accepts a document that the scorer builds exactly when there are rows, each of them is
-- valid, no name is there twice up to case, the time to live is within 1 and 2100 seconds, and it
-- is stamped at most 300 seconds after `now`. It then has the scorer's rows, or no row once the age
-- is beyond the time to live, and the age.
pub parse_ranking-build_document :
    (dumps : Json → Text) (loads : Text → Option Json) (strptime : Text → Option ℤ)
    (generated_at : Text) (stamp : ℤ) (ttl now : ℕ) (survivors : List Row)
    → loads (build_document dumps generated_at ttl survivors)
      ≡ some (document_json generated_at ttl survivors)
    → strptime generated_at ≡ some stamp
    → parse_ranking strptime loads (build_document dumps generated_at ttl survivors) now ≡ (
        if not (too_new (age_of now stamp))
          && ltb 0 ttl
          && leb ttl max_ranking_ttl_seconds
          && not (is_empty survivors)
          && (all is_valid survivors && fresh_names [] survivors)
        then some (at_age (age_of now stamp) ttl survivors, age_of now stamp)
        else none)
unfolding parse_document text_eq
parse_ranking-build_document dumps loads strptime generated_at stamp ttl now survivors decodes e =
    rw decodes ground (arith, read_rows-rows_json survivors)

-- The agent accepts exactly the documents that the scorer accepts after a restart, except those
-- that are stamped more than 300 seconds after `now` or that live longer than 2100 seconds; of the
-- others it has the same rows, or none once the age is beyond the time to live.
pub parse_document-read_document :
    (strptime : Text → Option ℤ) (now : ℕ) (doc : Json)
    → parse_document strptime now doc ≡ (read_document strptime doc >>=? adopted now)
unfolding parse_document read_document
parse_document-read_document strptime now null = refl
parse_document-read_document strptime now (bool b) = refl
parse_document-read_document strptime now (int n) = refl
parse_document-read_document strptime now (float x) = refl
parse_document-read_document strptime now (str t) = refl
parse_document-read_document strptime now (arr js) = refl
parse_document-read_document strptime now (obj fs) = ground arith
