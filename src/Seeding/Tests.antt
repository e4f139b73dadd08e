-- ===== src/Seeding/Tests.antt =====
-- 2-k3s/08.servarr/cleanuparr/files/enforce-private-seeding.py on a small database.
use epaflix.Base.{
  ℕ, suc, ◌≡◌, refl, subst, inl, inr, Bool-cases, ◌*◌, true, some, none, [], ◌∷◌, ◌++◌, List, arith,
  map, count, length, All, Text, codes, text_eq, Dict, lookup, insert,
}
use epaflix.Base.Int.{pos}
use epaflix.Base.Json.{one, finite}
use epaflix.Seeding.{Rule, Table, is_type, take_off, enforce, enforce_all, add_all, main}
use epaflix.Seeding.Rules.{IsEnforced, IsPrivate, HasCategory}
use epaflix.Seeding.Enforced.{HasCategories, enforce-IsEnforced, main_idempotent}

-- Ids that count up.
abbrev uuid4 : ℕ → Text × ℕ
uuid4 n = (n ∷ [], suc n)

abbrev rule : Text → Text → Text → Rule
rule name privacy category = record {
  id = name;
  name = some name;
  privacy_type = some privacy;
  categories = some category;
  max_ratio = finite (pos one);
  max_seed_time = finite (pos (72 * one));
  priority = none;
}

abbrev table : Table
table = record {
  has_priority = true;
  rules =
      rule (codes "films") (codes "both") (codes "radarr")
      ∷ rule (codes "series") (codes "public") (codes "sonarr")
      ∷ rule (codes "series (private)") (codes "private") (codes "sonarr")
      ∷ [];
}

abbrev database : Dict Text Table
database = (codes "q_bit_seeding_rules", table) ∷ []

enforce-IsEnforced_example :
    let (counts, left) = enforce uuid4 table 7 in
    IsEnforced left.0.rules
    × (counts.0 ≡ count (is_type (codes "both")) table.rules)
    × (new : List Rule) × (left.0.rules ≡ map take_off table.rules ++ new)
    × All IsPrivate new
    × (counts.1 ≡ length new)
enforce-IsEnforced_example = enforce-IsEnforced uuid4 table 7

-- One rule is taken off, and one is added.
one_each : (main uuid4 (database, 7)).0 ≡ (1, 1)
unfolding enforce enforce_all add_all lookup insert text_eq
one_each = refl

lookup-categories :
    (d : Dict Text Table) (name : Text) (t : Table)
    → All (λ (e : Text × Table). All HasCategory e.1.rules) d
    → lookup text_eq name d ≡ some t
    → All HasCategory t.rules
unfolding lookup
lookup-categories [] name t h e = cc
lookup-categories ((j, v) ∷ d) name t h e = elim (Bool-cases (text_eq j name)) [
  | inl same ↦
      let here : v ≡ t = ground (arith, e, same) in
      subst (λ (w : Table). All HasCategory w.rules) here h.0
  | inr other ↦ lookup-categories d name t h.1 (ground (arith, e, other))
]

database-HasCategories : HasCategories database
database-HasCategories name t = lookup-categories database name t ((refl, (refl, (refl, tt))), tt)

main_idempotent_example :
    main uuid4 (main uuid4 (database, 7)).1 ≡ ((0, 0), (main uuid4 (database, 7)).1)
main_idempotent_example = main_idempotent uuid4 (database, 7) database-HasCategories
