-- ===== src/Agent/Cache.antt =====
-- The local copy of the ranking of images/airvpn-bluetit/agent.py: _adopt_fresh_ranking,
-- read_ranking, ranking_age_now, _write_cache_locked, _discard_cache_locked, _load_cache_locked,
-- cached_ranking and candidates of class Agent. Each definition is what happens under cache_lock;
-- log lines are left out.
pub mod Usable
pub mod Lease
mod Tests
use epaflix.Base.{
  ℕ, Bool, true, false, Option, none, some, List, [], ◌∷◌, if◌then◌else◌, Text, ◌>>=?◌,
}
use epaflix.Base.Int.{ℤ}
use epaflix.Base.Json.{Json}
use epaflix.Scorer.Rows.{Row}
use epaflix.Ranking.Document.{parse_ranking}
use epaflix.Ranking.Walk.{candidate_names}

-- The file at `cache_path`. A write goes by way of os.replace, so it is whole.
pub data CacheFile : Type 0 where
  missing unreadable : CacheFile
  holds : Text → CacheFile

pub record Cache : Type 0 where
  pub cached : List Row
  pub cached_payload : Option Text
  pub file : CacheFile

-- `Agent.__init__`, with the file that an earlier process left.
abbrev pub new_cache : CacheFile → Cache
new_cache file = record { cached = []; cached_payload = none; file = file }

-- `_write_cache_locked`; a write that fails is only logged.
abbrev write_cache : Bool → Text → Cache → Cache
write_cache write_ok payload c = if write_ok then record c { file = holds payload } else c

-- `_adopt_fresh_ranking`
unfoldable pub adopt_fresh_ranking : Bool → Text → List Row → Cache → Cache
adopt_fresh_ranking write_ok payload servers c = record (write_cache write_ok payload c) {
  cached = servers;
  cached_payload = some payload;
}

-- `_discard_cache_locked`; an unlink that fails is only logged.
abbrev discard_cache : Bool → Cache → Cache
discard_cache unlink_ok c = record {
  cached = [];
  cached_payload = none;
  file = if unlink_ok then missing else c.file;
}

-- Where the candidates come from.
pub data Source : Type 0 where
  fresh cache nothing : Source

-- With the rows that the payload of the file has now.
abbrev pub load_rows : Bool → Text → List Row → Cache → List Row × Cache
load_rows unlink_ok payload [] c = ([], discard_cache unlink_ok c)
load_rows unlink_ok payload (s ∷ ss) c =
    (s ∷ ss, record c { cached = s ∷ ss; cached_payload = some payload })

-- With the rows that the payload in memory has now.
abbrev pub keep_rows : Bool → List Row → Cache → List Row × Cache
keep_rows unlink_ok [] c = ([], discard_cache unlink_ok c)
keep_rows unlink_ok (s ∷ ss) c = (s ∷ ss, record c { cached = s ∷ ss })

-- The end of `candidates`.
abbrev pub named_from : Source → List Row → ℕ → Option Text → Cache → (List Text × Source) × Cache
named_from source [] band exclude c = (([], nothing), c)
named_from source (s ∷ ss) band exclude c = ((candidate_names (s ∷ ss) band exclude, source), c)

module _ (strptime : Text → Option ℤ) (loads : Text → Option Json) where
  -- `servers` of a payload at a time; an error and an expired lease both leave none.
  abbrev servers_of : Option (List Row × ℤ) → List Row
  servers_of none = []
  servers_of (some (servers, age)) = servers

  abbrev pub servers_at : ℕ → Text → List Row
  servers_at now payload = servers_of (parse_ranking strptime loads payload now)

  -- `read_ranking`, with what the reader's snapshot holds.
  abbrev pub read_ranking : ℕ → Option Text → List Row
  read_ranking now none = []
  read_ranking now (some payload) = servers_at now payload

  -- `ranking_age_now`
  unfoldable pub ranking_age_now : ℕ → Option Text → Option ℤ
  ranking_age_now now snapshot = snapshot >>=? λ (payload : Text).
      parse_ranking strptime loads payload now >>=? λ (found : List Row × ℤ). some found.1

  module _ (unlink_ok : Bool) where
    abbrev load_file : ℕ → CacheFile → Cache → List Row × Cache
    load_file now missing c = ([], record c { cached = []; cached_payload = none })
    load_file now unreadable c = ([], discard_cache unlink_ok c)
    load_file now (holds payload) c = load_rows unlink_ok payload (servers_at now payload) c

    -- `_load_cache_locked`
    abbrev pub load_cache : ℕ → Cache → List Row × Cache
    load_cache now c = load_file now c.file c

    abbrev pub from_memory : ℕ → Option Text → Cache → List Row × Cache
    from_memory now none c = load_cache now c
    from_memory now (some payload) c = keep_rows unlink_ok (servers_at now payload) c

    unfoldable pub cached_ranking : ℕ → Cache → List Row × Cache
    cached_ranking now c = from_memory now c.cached_payload c

    abbrev pub or_cached : ℕ → List Row → ℕ → Option Text → Cache → (List Text × Source) × Cache
    or_cached now [] band exclude c =
        let (servers, c') = cached_ranking now c in named_from cache servers band exclude c'
    or_cached now (s ∷ ss) band exclude c = named_from fresh (s ∷ ss) band exclude c

    -- `candidates`; the clock is read once for the snapshot and once more for the cache.
    unfoldable pub candidates :
        (now later : ℕ) → Option Text → ℕ → Option Text → Cache → (List Text × Source) × Cache
    candidates now later snapshot band exclude c =
        or_cached later (read_ranking now snapshot) band exclude c
