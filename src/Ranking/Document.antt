-- ===== src/Ranking/Document.antt =====
-- parse_ranking of images/airvpn-bluetit/agent.py, and build_document and _parse_ranking_payload
-- of images/vpn-picker/vpn_picker.py. The bytes and the calendar are parameters: json.dumps,
-- json.loads and datetime's strptime, which gives the time in millionths of a second. A ValueError
-- is `none`, and so is a payload that is not JSON.
pub mod Agree
pub mod Sound
use epaflix.Base.{
  ℕ, ◌+◌, ◌*◌, ◌-◌, ◌≤◌, ◌<◌, ◌≡◌, refl, Bool, true, false, not, ◌&&◌, Option, none, some, List, [],
  ◌∷◌, arith, if◌then◌else◌, Text, codes, ltb, leb, all, length, ◌>>=?◌,
}
use epaflix.Base.Int.{difference, ℤ, pos, negsuc, pos_part, neg_part, ltb_ℤ}
use epaflix.Base.Json.{Json, int, str, arr, obj, Fields, end, field, get, one}
use epaflix.Scorer.Rows.{Row}
use epaflix.Ranking.Check.{same_keys, read_rows}
use epaflix.Ranking.Check.Laws.{rows_json}

abbrev pub ranking_document_keys : List Text
ranking_document_keys =
    codes "schema" ∷ codes "generated_at" ∷ codes "ttl_seconds" ∷ codes "servers" ∷ []

abbrev pub max_ranking_ttl_seconds : ℕ
max_ranking_ttl_seconds = 2100

abbrev pub ranking_future_skew_seconds : ℕ
ranking_future_skew_seconds = 300

-- `now - stamp`
abbrev pub age_of : ℕ → ℤ → ℤ
age_of now stamp = difference (now + neg_part stamp) (pos_part stamp)

abbrev pub is_schema : Option Json → Bool
is_schema (some (int (pos n))) = leb 1 n && leb n 1
is_schema _ = false

abbrev pub positive : Option Json → Option ℕ
positive (some (int (pos n))) = if ltb 0 n then some n else none
positive _ = none

abbrev at_most_ttl : ℕ → Option ℕ
at_most_ttl ttl = if leb ttl max_ranking_ttl_seconds then some ttl else none

abbrev pub stamp_text : Option Json → Option Text
stamp_text (some (str t)) = some t
stamp_text _ = none

-- What the two readers need of a document.
pub record Ranking : Type 0 where
  pub generated_at : Text
  pub stamp : ℤ
  pub ttl : ℕ
  pub rows : List Row

-- `doc` of build_document
abbrev pub document_json : Text → ℕ → List Row → Json
document_json generated_at ttl survivors = obj (
    field (codes "schema") (int (pos 1)) (
      field (codes "generated_at") (str generated_at) (
        field (codes "ttl_seconds") (int (pos ttl))
          (field (codes "servers") (arr (rows_json survivors)) end))))

abbrev pub build_document : (Json → Text) → Text → ℕ → List Row → Text
build_document dumps generated_at ttl survivors = dumps (document_json generated_at ttl survivors)

module _ (strptime : Text → Option ℤ) where
  -- The fields that both read, without a bound on the age or on the time to live.
  abbrev read_fields : Fields → Option Ranking
  read_fields fs =
      if not (same_keys ranking_document_keys fs && is_schema (get (codes "schema") fs))
      then none
      else (stamp_text (get (codes "generated_at") fs) >>=? λ (t : Text).
          strptime t >>=? λ (stamp : ℤ). positive (get (codes "ttl_seconds") fs) >>=? λ (ttl : ℕ).
          read_rows (get (codes "servers") fs) >>=? λ (rows : List Row).
          some (record { generated_at = t; stamp = stamp; ttl = ttl; rows = rows }))

  -- `_parse_ranking_payload`, from the decoded document.
  unfoldable pub read_document : Json → Option Ranking
  read_document (obj fs) = read_fields fs
  read_document _ = none

  -- `if age > ttl: return [], age`
  abbrev leased : ℤ → ℕ → List Row → List Row × ℤ
  leased age ttl rows = (if ltb_ℤ (pos (ttl * one)) age then [] else rows, age)

  abbrev parse_fields : ℕ → Fields → Option (List Row × ℤ)
  parse_fields now fs =
      if not (same_keys ranking_document_keys fs && is_schema (get (codes "schema") fs))
      then none
      else (stamp_text (get (codes "generated_at") fs) >>=? λ (t : Text).
          strptime t >>=? λ (stamp : ℤ).
          (if ltb_ℤ (age_of now stamp) (negsuc (ranking_future_skew_seconds * one - 1))
            then none
            else (positive (get (codes "ttl_seconds") fs) >>=? at_most_ttl) >>=? λ (ttl : ℕ).
                read_rows (get (codes "servers") fs) >>=? λ (rows : List Row).
                some (leased (age_of now stamp) ttl rows)))

  -- `parse_ranking`, from the decoded document.
  unfoldable pub parse_document : ℕ → Json → Option (List Row × ℤ)
  parse_document now (obj fs) = parse_fields now fs
  parse_document now _ = none

  module _ (loads : Text → Option Json) where
    -- `_parse_ranking_payload`
    abbrev pub parse_ranking_payload : Text → Option Ranking
    parse_ranking_payload payload = loads payload >>=? read_document

    abbrev pub parse_ranking : Text → ℕ → Option (List Row × ℤ)
    parse_ranking payload now = loads payload >>=? parse_document now
