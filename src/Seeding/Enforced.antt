-- ===== src/Seeding/Enforced.antt =====
-- One run of 2-k3s/08.servarr/cleanuparr/files/enforce-private-seeding.py leaves nothing for the next.
use epaflix.Base.{
  ℕ, ◌≡◌, refl, sym, ap, subst, ◌∙◌, inl, inr, Bool, true, false, Option, none, some, List, [], ◌∷◌,
  ◌++◌, map, arith, count, keep, length, All, All-append, All-keep, Bool-cases, Text, codes,
  text_eq, text_eq_iff, text_eq_refl, keep-append, Dict, lookup, insert, lookup-insert,
}
use mathlib.Core.List.{append-nil}
use epaflix.Seeding.{
  Rule, Table, tables, is_type, take_off, has_private, add_all, enforce, enforce_table, enforce_all,
  main,
}
use epaflix.Seeding.Rules.{
  IsEnforced, HasCategory, IsPrivate, is_covered, take_off-All, take_off-HasCategory, Adds,
  add_all-Adds, add_all-covers,
}

private-type :
    (xs : List Rule)
    → All IsPrivate xs
    → All (λ r. is_type (codes "both") r ≡ false) xs × (keep (is_type (codes "public")) xs ≡ [])
unfolding text_eq
private-type [] h = (tt, refl)
private-type (x ∷ xs) h = let rest = private-type xs h.1 in rw h.0.0 ((refl, rest.0), rest.1)

-- Every rule has a category.
abbrev pub HasCategories : Dict Text Table → Type 0
HasCategories db =
    (name : Text) (t : Table) → lookup text_eq name db ≡ some t → All HasCategory t.rules

module _ {U : Type 0} (uuid4 : U → Text × U) where
  abbrev publics : Table → List Rule
  publics t = keep (is_type (codes "public")) (map take_off t.rules)

  adds :
      (t : Table) (u : U)
      → Adds uuid4
          (publics t)
          0
          (map take_off t.rules)
          (add_all uuid4 t.has_priority (publics t) (map take_off t.rules, (0, u)))
  adds t u = add_all-Adds uuid4 t.has_priority (publics t) (map take_off t.rules) 0 u

  -- After enforce no rule of a table has the type both, and each public rule with a category has a
  -- private rule of that category. The rules that were there are still there, in their order and
  -- with nothing changed but the type of the rules that were taken off; what is behind them are as
  -- many rules as enforce reports, each with the ratio and the time for private torrents.
  pub enforce-IsEnforced :
      (t : Table) (u : U)
      → let (counts, left) = enforce uuid4 t u in
        IsEnforced left.0.rules
        × (counts.0 ≡ count (is_type (codes "both")) t.rules)
        × (new : List Rule) × (left.0.rules ≡ map take_off t.rules ++ new)
        × All IsPrivate new
        × (counts.1 ≡ length new)
  unfolding enforce
  enforce-IsEnforced t u =
      let a = adds t u in
      let taken = map take_off t.rules in
      let fine = private-type a.added a.private_ones in
      let publics_left : keep (is_type (codes "public")) (enforce uuid4 t u).1.0.rules ≡ publics t =
        ap (keep (is_type (codes "public"))) a.behind
        ∙ keep-append (is_type (codes "public")) taken a.added
        ∙ ap (λ xs. publics t ++ xs) fine.1
        ∙ append-nil (publics t) in
      (
        (
          subst (All (λ r. is_type (codes "both") r ≡ false)) (sym a.behind)
              (All-append _ taken a.added (take_off-All t.rules) fine.0),
          subst (All (λ r. is_covered (enforce uuid4 t u).1.0.rules r ≡ true)) (sym publics_left)
              (add_all-covers uuid4 t.has_priority (publics t) taken 0 u),
        ),
        refl,
        a.added,
        a.behind,
        a.private_ones,
        omega (arith, a.counted),
      )

  -- A table that is as it should be, with categories throughout.
  abbrev IsGood : Table → Type 0
  IsGood t = IsEnforced t.rules × All HasCategory t.rules

  enforce-IsGood : (t : Table) (u : U) → All HasCategory t.rules → IsGood (enforce uuid4 t u).1.0
  unfolding enforce
  enforce-IsGood t u h =
      let a = adds t u in
      let taken = take_off-HasCategory t.rules h in
      (
        (enforce-IsEnforced t u).0,
        subst (All HasCategory) (sym a.behind) (
            All-append HasCategory (map take_off t.rules) a.added taken
              (a.categories (All-keep HasCategory (is_type (codes "public")) _ taken))),
      )

  take_off-same :
      (rs : List Rule)
      → All (λ r. is_type (codes "both") r ≡ false) rs
      → (map take_off rs ≡ rs) × (count (is_type (codes "both")) rs ≡ 0)
  take_off-same [] h = (refl, refl)
  take_off-same (r ∷ rs) h =
      let rest = take_off-same rs h.1 in rw h.0 (ap (λ xs. r ∷ xs) rest.0, rest.1)

  add_run-same :
      (has_priority : Bool) (rs rules : List Rule) (n : ℕ) (u : U)
      → All (λ r. is_covered rules r ≡ true) rs
      → All HasCategory rs
      → add_all uuid4 has_priority rs (rules, (n, u)) ≡ (rules, (n, u))
  unfolding add_all
  add_run-same has_priority [] rules n u c h = refl
  add_run-same has_priority (r ∷ rs) rules n u c h =
      let e : has_private r.categories rules ≡ true = ground (arith, c.0, h.0) in
      rw e (add_run-same has_priority rs rules n u c.1 h.1)

  enforce-same : (t : Table) (u : U) → IsGood t → enforce uuid4 t u ≡ ((0, 0), (t, u))
  unfolding enforce
  enforce-same t u ((both, covered), cats) =
      let same = take_off-same t.rules both in
      rw
        (
          same.0,
          same.1,
          add_run-same t.has_priority (keep (is_type (codes "public")) t.rules) t.rules 0 u covered
              (All-keep HasCategory (is_type (codes "public")) t.rules cats),
        )
        refl

  insert-same :
      (name : Text) (t : Table) (db : Dict Text Table)
      → lookup text_eq name db ≡ some t
      → insert text_eq name t db ≡ db
  unfolding lookup insert
  insert-same name t [] e = cc
  insert-same name t ((j, v) ∷ db) e = elim (Bool-cases (text_eq j name)) [
    | inl same ↦ rw same (ap (λ w. (j, w) ∷ db) (ground (arith, e, same)))
    | inr other ↦ rw other (ap (λ d. (j, v) ∷ d) (insert-same name t db (ground (arith, e, other))))
  ]

  -- The table of a name, where there is one, is as it should be.
  abbrev IsDone : Dict Text Table → Text → Type 0
  IsDone db name = (t : Table) → lookup text_eq name db ≡ some t → IsGood t

  inserted :
      (P : Table → Type 0) (name other : Text) (new t : Table) (db : Dict Text Table)
      → P new
      → (text_eq name other ≡ false → lookup text_eq other db ≡ some t → P t)
      → lookup text_eq other (insert text_eq name new db) ≡ some t
      → P t
  inserted P name other new t db p old e =
      let known = lookup-insert text_eq text_eq_iff name other new db in
      elim (Bool-cases (text_eq name other)) [
        | inl same ↦ subst P (ground (arith, e, known, same)) p
        | inr differ ↦ old differ (ground (arith, e, known, differ))
      ]

  table-step :
      (name : Text) (o : Option Table) (st : Dict Text Table × U)
      → lookup text_eq name st.0 ≡ o
      → HasCategories st.0
      → HasCategories (enforce_table uuid4 name o st).1.0
        × IsDone (enforce_table uuid4 name o st).1.0 name
        × ((other : Text) → IsDone st.0 other → IsDone (enforce_table uuid4 name o st).1.0 other)
  table-step name none (db, u) e h = (h, λ t e'. cc (e, e'), λ other d. d)
  table-step name (some t) (db, u) e h =
      let good = enforce-IsGood t u (h name t e) in
      (
        λ other t'.
            inserted (λ w. All HasCategory w.rules) name other (enforce uuid4 t u).1.0 t' db good.1
              (λ _. h other t'),
        λ t'.
            inserted IsGood name name (enforce uuid4 t u).1.0 t' db good
              (λ differ. absurd (ground (arith, differ, text_eq_refl name))),
        λ other d t'. inserted IsGood name other (enforce uuid4 t u).1.0 t' db good (λ _. d t'),
      )

  run-steps :
      (names : List Text) (st : Dict Text Table × U)
      → HasCategories st.0
      → HasCategories (enforce_all uuid4 names st).1.0
        × All (IsDone (enforce_all uuid4 names st).1.0) names
        × ((other : Text) → IsDone st.0 other → IsDone (enforce_all uuid4 names st).1.0 other)
  unfolding enforce_all
  run-steps [] st h = (h, tt, λ other d. d)
  run-steps (name ∷ names) st h =
      let (h1, done, keeps) = table-step name (lookup text_eq name st.0) st refl h in
      let (h2, rest, keeps') = run-steps names _ h1 in
      (h2, (keeps' name done, rest), λ other d. keeps' other (keeps other d))

  table-same :
      (name : Text) (o : Option Table) (st : Dict Text Table × U)
      → lookup text_eq name st.0 ≡ o
      → IsDone st.0 name
      → enforce_table uuid4 name o st ≡ ((0, 0), st)
  table-same name none st e d = refl
  table-same name (some t) (db, u) e d = rw (enforce-same t u (d t e), insert-same name t db e) refl

  run-same :
      (names : List Text) (st : Dict Text Table × U)
      → All (IsDone st.0) names
      → enforce_all uuid4 names st ≡ ((0, 0), st)
  unfolding enforce_all
  run-same [] st d = refl
  run-same (name ∷ names) st d =
      rw (table-same name (lookup text_eq name st.0) st refl d.0, run-same names st d.1) refl

  -- Running it again changes nothing and reports nothing: from tables in which every rule has a
  -- category, a run leaves tables that the next run leaves as they are, and the next makes no new id.
  pub main_idempotent :
      (st : Dict Text Table × U)
      → HasCategories st.0
      → main uuid4 (main uuid4 st).1 ≡ ((0, 0), (main uuid4 st).1)
  main_idempotent st h = run-same tables (main uuid4 st).1 (run-steps tables st h).1
