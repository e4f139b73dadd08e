-- ===== src/Seeding/Rules.antt =====
-- What `enforce` of 2-k3s/08.servarr/cleanuparr/files/enforce-private-seeding.py does to the rules of a
-- table.
use epaflix.Base.{
  ℕ, ◌+◌, ◌≡◌, refl, sym, subst, ap, ◌∙◌, inl, inr, Bool, true, false, not, ◌||◌, Option, none,
  some, List, [], ◌∷◌, ◌++◌, map, arith, keep, length, All, All-append, Bool-cases, is_some, Text,
  codes, text_eq, text_eq_refl, length-append,
}
use mathlib.Core.List.{append_assoc, append-nil}
use epaflix.Seeding.{
  Rule, private_max_ratio, private_max_seed_time, sql_eq, is_type, take_off, has_private,
  private_rule, add_one, add_all,
}

-- A rule with a category has a private rule of the category beside it.
abbrev pub is_covered : List Rule → Rule → Bool
is_covered rules r = not (is_some r.categories) || has_private r.categories rules

-- No rule applies to private torrents by the way, and each public one has its private one.
abbrev pub IsEnforced : List Rule → Type 0
IsEnforced rules =
    All (λ r. is_type (codes "both") r ≡ false) rules
    × All (λ r. is_covered rules r ≡ true) (keep (is_type (codes "public")) rules)

abbrev pub HasCategory : Rule → Type 0
HasCategory r = is_some r.categories ≡ true

abbrev pub IsPrivate : Rule → Type 0
IsPrivate r =
    (r.privacy_type ≡ some (codes "private"))
    × (r.max_ratio ≡ private_max_ratio)
    × (r.max_seed_time ≡ private_max_seed_time)

take_off-type : (r : Rule) → is_type (codes "both") (take_off r) ≡ false
unfolding text_eq
take_off-type r = elim (Bool-cases (is_type (codes "both") r)) [
  | inl e ↦ rw e refl
  | inr e ↦ rw e e
]

pub take_off-All : (rs : List Rule) → All (λ r. is_type (codes "both") r ≡ false) (map take_off rs)
take_off-All [] = tt
take_off-All (r ∷ rs) = (take_off-type r, take_off-All rs)

pub take_off-HasCategory : (rs : List Rule) → All HasCategory rs → All HasCategory (map take_off rs)
take_off-HasCategory [] h = tt
take_off-HasCategory (r ∷ rs) h = (ground (arith, h.0), take_off-HasCategory rs h.1)

has_private-append :
    (categories : Option Text) (xs ys : List Rule)
    → has_private categories xs ≡ true
    → has_private categories (xs ++ ys) ≡ true
has_private-append categories [] ys h = cc
has_private-append categories (x ∷ xs) ys h = ground (arith, h, has_private-append categories xs ys)

sql_eq_self : (c : Option Text) → is_some c ≡ true → sql_eq c c ≡ true
sql_eq_self none h = cc
sql_eq_self (some t) h = text_eq_refl t

has_private-added :
    (has_priority : Bool) (fresh : Text) (r : Rule) (xs : List Rule)
    → is_some r.categories ≡ true
    → has_private r.categories (xs ++ private_rule has_priority fresh r ∷ []) ≡ true
unfolding text_eq
has_private-added has_priority fresh r [] h = ground (arith, sql_eq_self r.categories h)
has_private-added has_priority fresh r (x ∷ xs) h =
    ground (arith, has_private-added has_priority fresh r xs h)

module _ {U : Type 0} (uuid4 : U → Text × U) where
  -- What the loop over the public rules puts behind the rules.
  pub record Adds (rs : List Rule) (n : ℕ) (rules : List Rule) (result : List Rule × (ℕ × U))
      : Type 0 where
    pub added : List Rule
    pub behind : result.0 ≡ rules ++ added
    pub counted : result.1.0 ≡ n + length added
    pub private_ones : All IsPrivate added
    pub categories : All HasCategory rs → All HasCategory added

  add_one-Adds :
      (has_priority : Bool) (r : Rule) (rules : List Rule) (n : ℕ) (u : U)
      → Adds (r ∷ []) n rules (add_one uuid4 has_priority r (rules, (n, u)))
  add_one-Adds has_priority r rules n u = elim (Bool-cases (has_private r.categories rules)) [
    | inl e ↦ rw e (record {
      added = [];
      behind = sym (append-nil rules);
      counted = omega arith;
      private_ones = tt;
      categories = λ _. tt;
    })
    | inr e ↦ rw e (record {
      added = private_rule has_priority (uuid4 u).0 r ∷ [];
      behind = refl;
      counted = omega arith;
      private_ones = ((refl, refl, refl), tt);
      categories = λ h. h;
    })
  ]

  pub add_all-Adds :
      (has_priority : Bool) (rs rules : List Rule) (n : ℕ) (u : U)
      → Adds rs n rules (add_all uuid4 has_priority rs (rules, (n, u)))
  unfolding add_all
  add_all-Adds has_priority [] rules n u = record {
    added = [];
    behind = sym (append-nil rules);
    counted = omega arith;
    private_ones = tt;
    categories = λ _. tt;
  }
  add_all-Adds has_priority (r ∷ rs) rules n u =
      let one = add_one uuid4 has_priority r (rules, (n, u)) in
      let first = add_one-Adds has_priority r rules n u in
      let later = add_all-Adds has_priority rs one.0 one.1.0 one.1.1 in
      record {
        added = first.added ++ later.added;
        behind =
            later.behind
            ∙ ap (λ xs. xs ++ later.added) first.behind
            ∙ append_assoc rules first.added later.added;
        counted =
            omega (arith, first.counted, later.counted, length-append first.added later.added);
        private_ones =
            All-append IsPrivate first.added later.added first.private_ones later.private_ones;
        categories = λ h.
            All-append HasCategory first.added later.added (first.categories (h.0, tt))
              (later.categories h.1);
      }

  add_one-covered :
      (has_priority : Bool) (r : Rule) (rules : List Rule) (n : ℕ) (u : U)
      → is_covered (add_one uuid4 has_priority r (rules, (n, u))).0 r ≡ true
  add_one-covered has_priority r rules n u = elim (Bool-cases (has_private r.categories rules)) [
    | inl e ↦ rw e (ground (arith, e))
    | inr e ↦ rw e (ground (arith, has_private-added has_priority (uuid4 u).0 r rules))
  ]

  pub add_all-covers :
      (has_priority : Bool) (rs rules : List Rule) (n : ℕ) (u : U)
      → All (λ r. is_covered (add_all uuid4 has_priority rs (rules, (n, u))).0 r ≡ true) rs
  unfolding add_all
  add_all-covers has_priority [] rules n u = tt
  add_all-covers has_priority (r ∷ rs) rules n u =
      let one = add_one uuid4 has_priority r (rules, (n, u)) in
      let later = add_all-Adds has_priority rs one.0 one.1.0 one.1.1 in
      (
        subst (λ xs. is_covered xs r ≡ true) (sym later.behind)
            (ground (
              arith,
              add_one-covered has_priority r rules n u,
              has_private-append r.categories one.0 later.added,
            )),
        add_all-covers has_priority rs one.0 one.1.0 one.1.1,
      )
