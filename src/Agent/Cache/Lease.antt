-- ===== src/Agent/Cache/Lease.antt =====
-- What the candidates of a walk rest on, and what a restart makes of the cache.
use epaflix.Base.{ℕ, ◌≡◌, refl, Bool, true, Option, none, some, List, [], ◌∷◌, Text}
use epaflix.Base.Int.{ℤ}
use epaflix.Base.Json.{Json}
use epaflix.Scorer.Rows.{Row}
use epaflix.Ranking.Walk.{candidate_names}
use epaflix.Agent.Cache.{
  Cache, CacheFile, missing, unreadable, holds, new_cache, adopt_fresh_ranking, Source, fresh,
  cache, nothing, servers_at, read_ranking, cached_ranking, candidates, keep_rows, load_rows,
  named_from, or_cached, from_memory,
}
use epaflix.Agent.Cache.Usable.{
  held, IsLease, HasNoLease, servers_at-IsLease, no_rows-HasNoLease, read_ranking-HasNoLease,
}

module _ (strptime : Text → Option ℤ) (loads : Text → Option Json) where
  -- How the candidates of a walk are found.
  pub data IsBacked (now later : ℕ) (snapshot : Option Text) (band : ℕ) (exclude : Option Text)
      (c : Cache) : (List Text × Source) × Cache → Type 0 where
    from_snapshot :
        (payload : Text) (rows : List Row)
        → snapshot ≡ some payload
        → IsLease strptime loads payload now rows
        → IsBacked now later snapshot band exclude c ((candidate_names rows band exclude, fresh), c)
    from_cache :
        (payload : Text) (rows : List Row) (c' : Cache)
        → HasNoLease strptime loads snapshot now
        → held c ≡ some payload
        → IsLease strptime loads payload later rows
        → c'.cached_payload ≡ some payload
        → c'.cached ≡ rows
        → IsBacked now later snapshot band exclude c
            ((candidate_names rows band exclude, cache), c')
    from_nothing :
        (c' : Cache)
        → HasNoLease strptime loads snapshot now
        → HasNoLease strptime loads (held c) later
        → c'.cached_payload ≡ none
        → c'.cached ≡ []
        → IsBacked now later snapshot band exclude c (([], nothing), c')

  module _ (unlink_ok : Bool) (now later band : ℕ) (snapshot exclude : Option Text) where
    abbrev Backed : Cache → (List Text × Source) × Cache → Type 0
    Backed c r = IsBacked now later snapshot band exclude c r

    abbrev through : List Row × Cache → (List Text × Source) × Cache
    through (rows, c') = named_from cache rows band exclude c'

    kept-Backed :
        (c : Cache) (payload : Text) (rows : List Row)
        → HasNoLease strptime loads snapshot now
        → held c ≡ some payload
        → c.cached_payload ≡ some payload
        → servers_at strptime loads later payload ≡ rows
        → Backed c (through (keep_rows unlink_ok rows c))
    kept-Backed c payload [] stale h m e =
        from_nothing _ stale (rw h (no_rows-HasNoLease strptime loads payload later e)) refl refl
    kept-Backed c payload (s ∷ ss) stale h m e =
        from_cache payload (s ∷ ss) _ stale h
          (servers_at-IsLease strptime loads payload later (s ∷ ss) e (λ q. cc)) m refl

    loaded-Backed :
        (c : Cache) (payload : Text) (rows : List Row)
        → HasNoLease strptime loads snapshot now
        → held c ≡ some payload
        → servers_at strptime loads later payload ≡ rows
        → Backed c (through (load_rows unlink_ok payload rows c))
    loaded-Backed c payload [] stale h e =
        from_nothing _ stale (rw h (no_rows-HasNoLease strptime loads payload later e)) refl refl
    loaded-Backed c payload (s ∷ ss) stale h e =
        from_cache payload (s ∷ ss) _ stale h
          (servers_at-IsLease strptime loads payload later (s ∷ ss) e (λ q. cc)) refl refl

    by_memory :
        (rows : List Row) (m : Option Text) (f : CacheFile)
        → HasNoLease strptime loads snapshot now
        → let c : Cache = record { cached = rows; cached_payload = m; file = f } in
          Backed c (through (from_memory strptime loads unlink_ok later m c))
    by_memory rows (some payload) f stale = kept-Backed _ payload _ stale refl refl refl
    by_memory rows none missing stale = from_nothing _ stale (λ p rs e l. cc) refl refl
    by_memory rows none unreadable stale = from_nothing _ stale (λ p rs e l. cc) refl refl
    by_memory rows none (holds payload) stale = loaded-Backed _ payload _ stale refl refl

    by_snapshot :
        (c : Cache) (rows : List Row)
        → read_ranking strptime loads now snapshot ≡ rows
        → Backed c (or_cached strptime loads unlink_ok later rows band exclude c)
    unfolding cached_ranking
    by_snapshot c [] e =
        by_memory c.cached c.cached_payload c.file
          (read_ranking-HasNoLease strptime loads now snapshot e)
    by_snapshot c (s ∷ ss) e = of_snapshot snapshot refl e
      where
        of_snapshot :
            (o : Option Text)
            → snapshot ≡ o
            → read_ranking strptime loads now o ≡ s ∷ ss
            → Backed c (named_from fresh (s ∷ ss) band exclude c)
        of_snapshot none h e' = cc
        of_snapshot (some payload) h e' =
            from_snapshot payload (s ∷ ss) h
              (servers_at-IsLease strptime loads payload now (s ∷ ss) e' (λ q. cc))

    -- Whatever the reader and the disk hold, the candidates of a walk are found in one of three ways.
    -- They are names of the rows of the snapshot, when it has usable rows now and the lease that its
    -- document states still runs. When the snapshot has none, they are names of the rows of the
    -- payload in memory, or of the one on disk when memory holds none, under the same conditions, and
    -- that payload and its rows are in memory behind the call. When neither has such rows there is
    -- no candidate, and nothing stays in memory.
    pub candidates-IsBacked :
        (c : Cache)
        → IsBacked now later snapshot band exclude c
            (candidates strptime loads unlink_ok now later snapshot band exclude c)
    unfolding candidates
    candidates-IsBacked c = by_snapshot c (read_ranking strptime loads now snapshot) refl

  -- After an adoption whose write succeeds, a restart of the agent does not change what the cache
  -- gives, at any later moment and whether or not it can be unlinked, nor what is left of it.
  pub cached_ranking-restart :
      (unlink_ok : Bool) (now : ℕ) (payload : Text) (rows : List Row) (c : Cache)
      → cached_ranking strptime loads unlink_ok now
          (new_cache (adopt_fresh_ranking true payload rows c).file)
        ≡ cached_ranking strptime loads unlink_ok now (adopt_fresh_ranking true payload rows c)
  unfolding cached_ranking adopt_fresh_ranking
  cached_ranking-restart unlink_ok now payload rows c =
      by_rows (servers_at strptime loads now payload)
    where
      by_rows :
          (found : List Row)
          → load_rows unlink_ok payload found (new_cache (holds payload))
            ≡ keep_rows unlink_ok found (adopt_fresh_ranking true payload rows c)
      by_rows [] = refl
      by_rows (s ∷ ss) = refl
