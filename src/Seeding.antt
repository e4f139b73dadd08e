-- ===== src/Seeding.antt =====
-- 2-k3s/08.servarr/cleanuparr/files/enforce-private-seeding.py: `enforce` and `main` over the tables of
-- the database. A column that is NULL has no value, and SQL's `=` does not hold of it; the columns
-- that enforce only copies are left out, and so are the constraints of the tables. Rows come in the
-- order in which they were put in.
mod Rules
pub mod Enforced
mod Tests
use epaflix.Base.{
  ℕ, zero, suc, ◌+◌, ◌*◌, Bool, true, false, not, ◌&&◌, Option, none, some, List, [], ◌∷◌, ◌++◌,
  map, if◌then◌else◌, count, any, keep, Text, codes, text_eq, Dict, lookup, insert,
}
use epaflix.Base.Int.{ℤ, pos, add_ℤ}
use epaflix.Base.Json.{Float, finite, one}

pub record Rule : Type 0 where
  pub id : Text
  pub name : Option Text
  pub privacy_type : Option Text
  pub categories : Option Text
  pub max_ratio : Float
  pub max_seed_time : Float
  pub priority : Option ℤ

-- A table, and whether it has the column priority.
pub record Table : Type 0 where
  pub has_priority : Bool
  pub rules : List Rule

-- `PRIVATE_MAX_RATIO`
abbrev pub private_max_ratio : Float
private_max_ratio = finite (pos (5 * one))

-- `PRIVATE_MAX_SEED_TIME`
abbrev pub private_max_seed_time : Float
private_max_seed_time = finite (pos (720 * one))

-- `TABLES`
abbrev pub tables : List Text
tables =
    codes "q_bit_seeding_rules"
    ∷ codes "deluge_seeding_rules"
    ∷ codes "transmission_seeding_rules"
    ∷ codes "u_torrent_seeding_rules"
    ∷ codes "r_torrent_seeding_rules"
    ∷ []

-- SQL's `=` on texts.
abbrev pub sql_eq : Option Text → Option Text → Bool
sql_eq none b = false
sql_eq (some a) none = false
sql_eq (some a) (some b) = text_eq a b

-- `WHERE privacy_type='...'`
abbrev pub is_type : Text → Rule → Bool
is_type t r = sql_eq r.privacy_type (some t)

-- The UPDATE on a row.
abbrev pub take_off : Rule → Rule
take_off r =
    if is_type (codes "both") r then record r { privacy_type = some (codes "public") } else r

-- `already`
abbrev pub has_private : Option Text → List Rule → Bool
has_private categories = any (λ r. is_type (codes "private") r && sql_eq r.categories categories)

-- `f"{name} (private)"`
abbrev pub private_name : Option Text → Text
private_name none = codes "None (private)"
private_name (some n) = n ++ codes " (private)"

-- `(rec["priority"] or 0) + 10`
abbrev pub raised : Option ℤ → ℤ
raised none = pos 10
raised (some n) = add_ℤ n (pos 10)

abbrev pub private_rule : Bool → Text → Rule → Rule
private_rule has_priority fresh r = record {
  id = fresh;
  name = some (private_name r.name);
  privacy_type = some (codes "private");
  categories = r.categories;
  max_ratio = private_max_ratio;
  max_seed_time = private_max_seed_time;
  priority = if has_priority then some (raised r.priority) else r.priority;
}

module _ {U : Type 0} (uuid4 : U → Text × U) where
  -- The body of the loop over the public rules.
  abbrev pub add_one : Bool → Rule → List Rule × (ℕ × U) → List Rule × (ℕ × U)
  add_one has_priority r (rules, (added, u)) =
      if has_private r.categories rules
      then (rules, (added, u))
      else (rules ++ private_rule has_priority (uuid4 u).0 r ∷ [], (suc added, (uuid4 u).1))

  unfoldable pub add_all : Bool → List Rule → List Rule × (ℕ × U) → List Rule × (ℕ × U)
  add_all has_priority [] st = st
  add_all has_priority (r ∷ rs) st = add_all has_priority rs (add_one has_priority r st)

  -- `enforce` on a table that is there: how many rules it took off and added.
  unfoldable pub enforce : Table → U → (ℕ × ℕ) × (Table × U)
  enforce t u =
      let taken = map take_off t.rules in
      let done = add_all t.has_priority (keep (is_type (codes "public")) taken) (taken, (0, u)) in
      ((count (is_type (codes "both")) t.rules, done.1.0), (record t { rules = done.0 }, done.1.1))

  abbrev pub enforce_table :
      Text → Option Table → Dict Text Table × U → (ℕ × ℕ) × (Dict Text Table × U)
  enforce_table name none (db, u) = ((0, 0), (db, u))
  enforce_table name (some t) (db, u) =
      let done = enforce t u in (done.0, (insert text_eq name done.1.0 db, done.1.1))

  unfoldable pub enforce_all : List Text → Dict Text Table × U → (ℕ × ℕ) × (Dict Text Table × U)
  enforce_all [] st = ((0, 0), st)
  enforce_all (name ∷ names) st =
      let done = enforce_table name (lookup text_eq name st.0) st in
      let rest = enforce_all names done.1 in ((done.0.0 + rest.0.0, done.0.1 + rest.0.1), rest.1)

  -- `main`, where the database is there, up to the commit: the totals and the tables.
  abbrev pub main : Dict Text Table × U → (ℕ × ℕ) × (Dict Text Table × U)
  main st = enforce_all tables st
