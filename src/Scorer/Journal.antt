-- ===== src/Scorer/Journal.antt =====
-- build_base_state, parse_base_state, _is_ranked_subset and load_persisted_base of
-- images/vpn-picker/vpn_picker.py: the journal of the measured base rankings. A ValueError is
-- `none`. Rows that json.loads gave are equal when their values are; nan equals nothing.
pub mod Equal
pub mod Subset
pub mod Recover
use epaflix.Base.{
  ℕ, suc, Bool, true, false, not, ◌&&◌, ◌||◌, Option, none, some, List, [], ◌∷◌, ltb, ◌==◌,
  if◌then◌else◌, is_some, length, Text, codes, text_eq, Dict, lookup, insert, ◌>>=?◌,
}
use epaflix.Base.Int.{ℤ, pos, negsuc}
use epaflix.Base.Json.{
  Json, bool, int, float, str, arr, obj, Items, nil, cons, end, field, get, Float, nan, inf,
  neg_inf, finite, one,
}
use epaflix.Base.Codec.{Codec}
use epaflix.Scorer.Rows.{Row}
use epaflix.Scorer.Ejection.{row_key}
use epaflix.Ranking.Check.{read_rows}
use epaflix.Ranking.Check.Laws.{rows_json}
use epaflix.Ranking.Document.{stamp_text}

abbrev pub base_state_max_bytes : ℕ
base_state_max_bytes = 1_048_576

abbrev pub eq_ℤ : ℤ → ℤ → Bool
eq_ℤ (pos m) (pos n) = m == n
eq_ℤ (pos m) (negsuc n) = false
eq_ℤ (negsuc m) (pos n) = false
eq_ℤ (negsuc m) (negsuc n) = m == n

abbrev pub eq_float : Float → Float → Bool
eq_float inf inf = true
eq_float neg_inf neg_inf = true
eq_float (finite m) (finite n) = eq_ℤ m n
eq_float _ _ = false

-- `row == other`
unfoldable pub row_eq : Row → Row → Bool
row_eq r s =
    text_eq r.name s.name
    && text_eq r.entry_ip s.entry_ip
    && eq_float r.loss_pct s.loss_pct
    && eq_float r.rtt_ms s.rtt_ms
    && eq_ℤ r.load s.load
    && eq_ℤ r.bw_max s.bw_max
    && eq_ℤ r.headroom s.headroom

-- `servers == others`
unfoldable pub rows_eq : List Row → List Row → Bool
rows_eq [] [] = true
rows_eq [] (_ ∷ _) = false
rows_eq (_ ∷ _) [] = false
rows_eq (r ∷ rs) (s ∷ ss) = row_eq r s && rows_eq rs ss

-- An entry of `bases`.
pub record Base : Type 0 where
  pub servers : List Row
  pub generated_at : Text

abbrev base_json : Base → Json
base_json b = obj (
    field (codes "generated_at") (str b.generated_at)
      (field (codes "servers") (arr (rows_json b.servers)) end))

abbrev pub bases_json : List Base → Items
bases_json [] = nil
bases_json (b ∷ bs) = cons (base_json b) (bases_json bs)

-- `doc` of build_base_state
abbrev pub state_json : List Base → Json
state_json bs =
    obj (field (codes "schema") (int (pos 1)) (field (codes "bases") (arr (bases_json bs)) end))

-- The served base goes along when there is one and it is not the candidate.
unfoldable pub with_served : Base → List Row → Option Text → List Base
with_served candidate (s ∷ ss) (some (c ∷ at)) =
    if not (text_eq (c ∷ at) candidate.generated_at) || not (rows_eq (s ∷ ss) candidate.servers)
    then candidate ∷ record { servers = s ∷ ss; generated_at = c ∷ at } ∷ []
    else candidate ∷ []
with_served candidate _ _ = candidate ∷ []

-- `doc.get("schema") == BASE_STATE_SCHEMA`, where True and 1.0 are equal to 1.
abbrev is_base_schema : Option Json → Bool
is_base_schema (some (int n)) = eq_ℤ n (pos 1)
is_base_schema (some (float x)) = eq_float x (finite (pos one))
is_base_schema (some (bool b)) = b
is_base_schema _ = false

-- The dict of `positions`, from index `i` on; a name that is there twice has none.
unfoldable pub positions : ℕ → List Row → Dict Text (ℕ × Row) → Option (Dict Text (ℕ × Row))
positions i [] d = some d
positions i (r ∷ rs) d =
    let rest = positions (suc i) rs (insert text_eq (row_key r) (i, r) d) in
    if is_some (lookup text_eq (row_key r) d) then none else rest

-- The loop over the public rows; `low` is one more than `seen`.
abbrev found_at : ℕ → Row → Option (ℕ × Row) → Option ℕ
found_at low row none = none
found_at low row (some (p, r)) = if ltb p low || not (row_eq r row) then none else some p

unfoldable pub in_order : ℕ → List Row → Dict Text (ℕ × Row) → Bool
in_order low [] d = true
in_order low (row ∷ rows) d = elim (found_at low row (lookup text_eq (row_key row) d)) [
  | none ↦ false
  | some p ↦ in_order (suc p) rows d
]

-- `_is_ranked_subset`
unfoldable pub is_ranked_subset : List Row → List Row → Bool
is_ranked_subset public_servers base_servers = elim (positions 0 base_servers []) [
  | none ↦ false
  | some d ↦ in_order 0 public_servers d
]

-- The base that produced a public ranking: the first entry that fits.
unfoldable pub matching : List Row → Text → List Base → Option Base
matching public_servers generated_at [] = none
matching public_servers generated_at (b ∷ bs) =
    if text_eq b.generated_at generated_at && is_ranked_subset public_servers b.servers
    then some b
    else matching public_servers generated_at bs

module _ (c : Codec) where
  -- `build_base_state`
  abbrev pub build_base_state : Base → List Row → Option Text → Text
  build_base_state candidate served served_at =
      c.dumps (state_json (with_served candidate served served_at))

  abbrev stamped : Text → Option Text
  stamped t = c.strptime t >>=? λ (_ : ℤ). some t

  abbrev read_base : Json → Option Base
  read_base (obj fs) = (stamp_text (get (codes "generated_at") fs) >>=? stamped) >>=? λ (t : Text).
      read_rows (get (codes "servers") fs) >>=? λ (rows : List Row).
      some (record { servers = rows; generated_at = t })
  read_base _ = none

  unfoldable pub read_bases : Items → Option (List Base)
  read_bases nil = some []
  read_bases (cons j js) =
      let rest = read_bases js in
      read_base j >>=? λ (b : Base). rest >>=? λ (bs : List Base). some (b ∷ bs)

  -- One or two.
  abbrev pub read_entries : Option Json → Option (List Base)
  read_entries (some (arr (cons a nil))) = read_bases (cons a nil)
  read_entries (some (arr (cons a (cons b nil)))) = read_bases (cons a (cons b nil))
  read_entries _ = none

  abbrev read_state : Json → Option (List Base)
  read_state (obj fs) =
      if is_base_schema (get (codes "schema") fs)
      then read_entries (get (codes "bases") fs)
      else none
  read_state _ = none

  -- `parse_base_state`
  unfoldable pub parse_base_state : Text → Option (List Base)
  parse_base_state payload =
      if ltb base_state_max_bytes (length payload) then none else c.loads payload >>=? read_state

  -- `load_persisted_base`, with what the file holds, if it can be read.
  abbrev pub load_persisted_base : Option Text → List Row → Text → Option Base
  load_persisted_base none public_servers generated_at = none
  load_persisted_base (some payload) public_servers generated_at =
      parse_base_state payload >>=? matching public_servers generated_at
