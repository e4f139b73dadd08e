-- ===== src/Agent/Cache/Usable.antt =====
-- The rows that a payload of the agent's cache, or of its reader, still has.
use epaflix.Base.{
  ℕ, ◌*◌, ◌≡◌, refl, sym, ap, ◌∙◌, ◌≢◌, subst, inl, inr, Bool, Option, none, some, List, [], ◌∷◌,
  Text,
}
use epaflix.Base.Int.{ℤ, pos, ◌≤ℤ◌}
use epaflix.Base.Json.{Json, one}
use epaflix.Scorer.Rows.{Row}
use epaflix.Ranking.Check.Laws.{some_inj}
use epaflix.Ranking.Document.{parse_ranking}
use epaflix.Ranking.Document.Sound.{AreUsable, IsAdopted, parse_ranking-usable}
use epaflix.Agent.Cache.{
  Cache, CacheFile, missing, unreadable, holds, servers_at, read_ranking, cached_ranking, keep_rows,
  load_rows, from_memory,
}

-- The bytes that stand in for a snapshot: those in memory, or else those on disk.
abbrev pub in_file : CacheFile → Option Text
in_file missing = none
in_file unreadable = none
in_file (holds payload) = some payload

abbrev pub held : Cache → Option Text
held c = elim c.cached_payload [ none ↦ in_file c.file | some payload ↦ some payload ]

module _ (strptime : Text → Option ℤ) (loads : Text → Option Json) where
  -- Rows that a payload has at a time: there is one, each is valid, and the lease that the document
  -- states still runs.
  pub record IsLease (payload : Text) (now : ℕ) (rows : List Row) : Type 0 where
    pub age : ℤ
    pub adopted : IsAdopted strptime loads payload now rows age
    pub some_row : rows ≢ []
    pub usable : AreUsable rows
    pub runs : age ≤ℤ pos (adopted.document.ttl * one)

  IsAdopted-IsLease :
      (payload : Text) (now : ℕ) (rows : List Row) (age : ℤ)
      → rows ≢ []
      → IsAdopted strptime loads payload now rows age
      → IsLease payload now rows
  IsAdopted-IsLease payload now rows age ne a = elim a.lease [
    | inl (runs, all_rows) ↦ record {
      age = age;
      adopted = a;
      some_row = ne;
      usable = subst AreUsable (sym all_rows) a.usable;
      runs = runs;
    }
    | inr (over, none_left) ↦ absurd (ne none_left)
  ]

  pub servers_at-IsLease :
      (payload : Text) (now : ℕ) (rows : List Row)
      → servers_at strptime loads now payload ≡ rows
      → rows ≢ []
      → IsLease payload now rows
  servers_at-IsLease payload now rows e ne =
      by_parse (parse_ranking strptime loads payload now) refl e
    where
      by_parse :
          (o : Option (List Row × ℤ))
          → parse_ranking strptime loads payload now ≡ o
          → (elim o [ none ↦ [] | some p ↦ p.0 ]) ≡ rows
          → IsLease payload now rows
      by_parse none h e' = absurd (ne (sym e'))
      by_parse (some (servers, age)) h e' = IsAdopted-IsLease payload now rows age ne (
          (parse_ranking-usable strptime loads payload now rows age).0
            (h ∙ ap (λ (rs : List Row). some (rs, age)) e'))

  -- None of the bytes that are there have such rows.
  abbrev pub HasNoLease : Option Text → ℕ → Type 0
  HasNoLease o now =
      (payload : Text) (rows : List Row) → o ≡ some payload → ¬ IsLease payload now rows

  pub no_rows-HasNoLease :
      (payload : Text) (now : ℕ)
      → servers_at strptime loads now payload ≡ []
      → HasNoLease (some payload) now
  no_rows-HasNoLease payload now e p rows same l =
      let parsed = (parse_ranking-usable strptime loads p now rows l.age).1 l.adopted in
      l.some_row (
        ap (λ (o : Option (List Row × ℤ)). elim o [ none ↦ [] | some q ↦ q.0 ]) (sym parsed)
        ∙ ap (servers_at strptime loads now) (sym (some_inj payload p same))
        ∙ e)

  pub read_ranking-HasNoLease :
      (now : ℕ) (o : Option Text) → read_ranking strptime loads now o ≡ [] → HasNoLease o now
  read_ranking-HasNoLease now none e = λ p rs e' l. cc
  read_ranking-HasNoLease now (some payload) e = no_rows-HasNoLease payload now e

  -- The rows that are there to be used: those of the snapshot, or else those of the cache, or none.
  pub data IsRanking (now later : ℕ) (snapshot : Option Text) (c : Cache) : List Row → Type 0 where
    fresh_rows :
        (payload : Text) (rows : List Row)
        → snapshot ≡ some payload
        → IsLease payload now rows
        → IsRanking now later snapshot c rows
    cached_rows :
        (payload : Text) (rows : List Row)
        → HasNoLease snapshot now
        → held c ≡ some payload
        → IsLease payload later rows
        → IsRanking now later snapshot c rows
    no_rows :
        HasNoLease snapshot now → HasNoLease (held c) later → IsRanking now later snapshot c []

  module _ (unlink_ok : Bool) (now later : ℕ) (snapshot : Option Text) where
    held-IsRanking :
        (c : Cache) (payload : Text) (rows : List Row)
        → HasNoLease snapshot now
        → held c ≡ some payload
        → servers_at strptime loads later payload ≡ rows
        → IsRanking now later snapshot c rows
    held-IsRanking c payload [] stale h e =
        no_rows stale (rw h (no_rows-HasNoLease payload later e))
    held-IsRanking c payload (s ∷ ss) stale h e =
        cached_rows payload (s ∷ ss) stale h (servers_at-IsLease payload later (s ∷ ss) e (λ q. cc))

    keep_rows-same : (rows : List Row) (c : Cache) → rows ≡ (keep_rows unlink_ok rows c).0
    keep_rows-same [] c = refl
    keep_rows-same (s ∷ ss) c = refl

    load_rows-same :
        (payload : Text) (rows : List Row) (c : Cache)
        → rows ≡ (load_rows unlink_ok payload rows c).0
    load_rows-same payload [] c = refl
    load_rows-same payload (s ∷ ss) c = refl

    from_memory-IsRanking :
        (rows : List Row) (m : Option Text) (f : CacheFile)
        → HasNoLease snapshot now
        → let c : Cache = record { cached = rows; cached_payload = m; file = f } in
          IsRanking now later snapshot c (from_memory strptime loads unlink_ok later m c).0
    from_memory-IsRanking rows (some payload) f stale =
        held-IsRanking _ payload _ stale refl
          (keep_rows-same (servers_at strptime loads later payload) _)
    from_memory-IsRanking rows none missing stale = no_rows stale (λ p rs e l. cc)
    from_memory-IsRanking rows none unreadable stale = no_rows stale (λ p rs e l. cc)
    from_memory-IsRanking rows none (holds payload) stale =
        held-IsRanking _ payload _ stale refl
          (load_rows-same payload (servers_at strptime loads later payload) _)

    pub read_ranking-IsRanking :
        (c : Cache) (s : Row) (ss : List Row)
        → read_ranking strptime loads now snapshot ≡ s ∷ ss
        → IsRanking now later snapshot c (s ∷ ss)
    read_ranking-IsRanking c s ss e = of_snapshot snapshot refl e
      where
        of_snapshot :
            (o : Option Text)
            → snapshot ≡ o
            → read_ranking strptime loads now o ≡ s ∷ ss
            → IsRanking now later snapshot c (s ∷ ss)
        of_snapshot none h e' = cc
        of_snapshot (some payload) h e' =
            fresh_rows payload (s ∷ ss) h (servers_at-IsLease payload now (s ∷ ss) e' (λ q. cc))

    pub cached_ranking-IsRanking :
        (c : Cache)
        → read_ranking strptime loads now snapshot ≡ []
        → IsRanking now later snapshot c (cached_ranking strptime loads unlink_ok later c).0
    unfolding cached_ranking
    cached_ranking-IsRanking c e =
        from_memory-IsRanking c.cached c.cached_payload c.file
          (read_ranking-HasNoLease now snapshot e)
