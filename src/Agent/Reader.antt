-- ===== src/Agent/Reader.antt =====
-- class RankingReader of images/airvpn-bluetit/agent.py: the one thread that reads the ranking, and
-- the snapshot that the other threads see. Each definition is one block under the Condition or what
-- the thread does between two; log lines are left out.
pub mod Steps
mod Tests
use epaflix.Base.{
  ℕ, suc, Bool, true, false, ◌||◌, Option, none, some, List, [], ◌∷◌, ltb, if◌then◌else◌, length,
  Text, ◌>>=?◌,
}
use epaflix.Base.Int.{ℤ}
use epaflix.Base.Json.{Json}
use epaflix.Scorer.Rows.{Row}
use epaflix.Ranking.Document.{parse_ranking}

-- The snapshot holds the payload; `started` is whether there is a thread.
pub record Reader : Type 0 where
  pub snapshot : Option Text
  pub attempted : Bool
  pub attempts : ℕ
  pub stopping : Bool
  pub started : Bool

abbrev pub new_reader : Reader
new_reader = record {
  snapshot = none;
  attempted = false;
  attempts = 0;
  stopping = false;
  started = false;
}

-- A fetch that raised, or what it read of at most `max_bytes + 1` bytes.
pub data Fetched : Type 0 where
  failed : Fetched
  bytes : Text → Fetched

-- A payload that is valid, with the rows that it has at this time.
pub record Valid : Type 0 where
  pub payload : Text
  pub servers : List Row

-- What the thread is about to do.
pub data Phase : Type 0 where
  fetching : Phase
  adopting : Text → Phase
  publishing : Option Text → Phase
  sleeping ended : Phase

-- `start`; the flag says whether the thread can be started.
unfoldable pub start : Bool → Reader → Reader
start can_start r =
    if r.started || r.stopping
    then r
    else if can_start
    then record r { started = true }
    else record r { attempted = true }

module _ (strptime : Text → Option ℤ) (loads : Text → Option Json) (max_bytes : ℕ) where
  -- The body of `try`.
  abbrev pub examine : ℕ → Fetched → Option Valid
  examine now failed = none
  examine now (bytes payload) =
      if ltb max_bytes (length payload)
      then none
      else parse_ranking strptime loads payload now >>=? λ (found : List Row × ℤ).
          some (record { payload = payload; servers = found.0 })

-- Only rows that are still leased are adopted, and not after shutdown; a valid ranking without
-- rows is published all the same.
unfoldable pub after_valid : Text → List Row → Reader → Phase
after_valid payload [] r = publishing (some payload)
after_valid payload (s ∷ ss) r = if r.stopping then ended else adopting payload

-- From what was read to the next thing to do.
abbrev pub after_fetch : Option Valid → Reader → Phase
after_fetch none r = publishing none
after_fetch (some v) r = after_valid v.payload v.servers r

-- The block that publishes the snapshot, up to the wait, by the flag that it tests.
abbrev pub publish_unless : Bool → Option Text → Reader → Reader × Phase
publish_unless true o r = (r, ended)
publish_unless false o r =
    (record r { snapshot = o; attempted = true; attempts = suc r.attempts }, sleeping)

unfoldable pub publish_snapshot : Option Text → Reader → Reader × Phase
publish_snapshot o r = publish_unless r.stopping o r

-- Behind the wait.
unfoldable pub after_wait : Reader → Phase
after_wait r = if r.stopping then ended else fetching

abbrev pub shut_down : Reader → Reader
shut_down r = record r { stopping = true }
