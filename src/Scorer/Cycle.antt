-- ===== src/Scorer/Cycle.antt =====
-- class State, load_existing, refresh_ejections and run_cycle of images/vpn-picker/vpn_picker.py.
-- The two files are the state on disk; a write replaces a file whole or fails. The lock and the log
-- lines are left out: one thread runs the cycles, and the handlers only read.
pub mod Steps
pub mod Kept
pub mod Restart
pub mod Promises
mod Tests
use epaflix.Base.{
  ℕ, ◌-◌, Bool, true, false, not, Option, none, some, List, [], ◌∷◌, if◌then◌else◌, length, Text,
  text_eq,
}
use epaflix.Base.Int.{ℤ, pos}
use epaflix.Base.Json.{Float}
use epaflix.Base.Codec.{Codec}
use epaflix.Scorer.Rows.{Row, Verdict}
use epaflix.Scorer.Ejection.{Ejections, apply_ejections}
use epaflix.Scorer.Journal.{Base, build_base_state, load_persisted_base}
use epaflix.Scorer.Probe.{Config, Server, shortlist, probe_all, rank_survivors}
use epaflix.Ranking.Document.{Ranking, build_document, parse_ranking_payload}
use epaflix.Verdicts.Store.{DirEntry, load_active_verdicts}

pub record State : Type 0 where
  pub payload : Option Text
  pub generated_epoch : ℤ
  pub candidates : List Row
  pub passing : ℕ
  pub last_cycle_ok : Bool
  pub active_verdicts : ℕ
  pub ejected : ℕ
  pub base_servers : List Row
  pub base_generated_at : Option Text

-- `State()`
abbrev pub new_state : State
new_state = record {
  payload = none;
  generated_epoch = pos 0;
  candidates = [];
  passing = 0;
  last_cycle_ok = false;
  active_verdicts = 0;
  ejected = 0;
  base_servers = [];
  base_generated_at = none;
}

-- The files at `output_path` and `base_state_path`, where they are there.
pub record Files : Type 0 where
  pub ranking : Option Text
  pub journal : Option Text

-- What a cycle meets: the API's answer, the probes, the directory of verdicts, the clock for the
-- age of verdicts and for the stamp, and whether each write succeeds.
pub record Inputs : Type 0 where
  pub fetched : Option (List Server)
  pub probe : Text → Option (Float × Float)
  pub entries : Option (List DirEntry)
  pub now : ℕ
  pub stamped : ℕ
  pub journal_ok : Bool
  pub ranking_ok : Bool

-- `base_survivors` of a cycle, with the rows that were probed.
abbrev probed_in : Config → Inputs → Option (List Server) → List Row
probed_in cfg inp none = []
probed_in cfg inp (some servers) = probe_all inp.probe (shortlist cfg servers)

unfoldable pub probed : Config → Inputs → List Row
probed cfg inp = probed_in cfg inp inp.fetched

unfoldable pub measured : Config → Inputs → List Row
measured cfg inp = rank_survivors (probed cfg inp) cfg.max_loss_pct

-- Whether a fresh ranking was published, and what is left.
abbrev pub Outcome : Type 0
Outcome = Bool × State × Files

abbrev pub after : Outcome → State × Files
after (_, st, fs) = (st, fs)

module _ (c : Codec) (cfg : Config) where
  -- The verdicts of a cycle.
  abbrev pub verdicts_in : Inputs → List Verdict
  verdicts_in inp = load_active_verdicts c cfg.lease inp.now inp.entries

  abbrev pub eject : List Row → Inputs → Ejections
  eject base inp = apply_ejections base (verdicts_in inp) cfg.max_ejection_fraction

  abbrev pub document : Text → List Row → Text
  document generated_at rows = build_document c.dumps generated_at cfg.ttl_seconds rows

  -- `strptime(...).timestamp()` of a stamp.
  abbrev epoch_of : Option ℤ → ℤ
  epoch_of none = pos 0
  epoch_of (some t) = t

  abbrev pub candidate_of : List Row → Inputs → Base
  candidate_of base inp = record { servers = base; generated_at = c.strftime inp.stamped }

  -- The state after a publish, and after a write that failed.
  abbrev scored : List Row → Inputs → State → State
  scored base inp st = record st {
    payload = some (document (c.strftime inp.stamped) (eject base inp).kept);
    generated_epoch = epoch_of (c.strptime (c.strftime inp.stamped));
    candidates = probed cfg inp;
    passing = length base;
    last_cycle_ok = true;
    active_verdicts = length (verdicts_in inp);
    ejected = length (eject base inp).ejected;
    base_servers = base;
    base_generated_at = some (c.strftime inp.stamped);
  }

  abbrev pub unpublished : List Row → Inputs → State → State
  unpublished base inp st = record st {
    candidates = probed cfg inp;
    passing = length base;
    last_cycle_ok = false;
  }

  abbrev pub journaled : List Row → Inputs → State → Files → Files
  journaled base inp st fs = record fs {
    journal =
        some (build_base_state c (candidate_of base inp) st.base_servers st.base_generated_at);
  }

  -- The two writes, the journal first, by whether each succeeds.
  abbrev pub publish_when :
      (journal_ok ranking_ok : Bool) → List Row → Inputs → State × Files → Outcome
  publish_when false _ base inp (st, fs) = (false, unpublished base inp st, fs)
  publish_when true false base inp (st, fs) =
      (false, unpublished base inp st, journaled base inp st fs)
  publish_when true true base inp (st, fs) = (
    true,
    scored base inp st,
    record fs {
      ranking = some (document (c.strftime inp.stamped) (eject base inp).kept);
      journal = (journaled base inp st fs).journal;
    },
  )

  abbrev publish_both : List Row → Inputs → State × Files → Outcome
  publish_both base inp s = publish_when inp.journal_ok inp.ranking_ok base inp s

  abbrev gated_out : Inputs → State → State
  gated_out inp st = record st {
    candidates = probed cfg inp;
    passing = 0;
    last_cycle_ok = false;
    active_verdicts = 0;
    ejected = 0;
  }

  -- From the rows that were probed and those of them that passed the gate.
  abbrev pub after_gate : List Row → List Row → Inputs → State × Files → Outcome
  after_gate [] base inp (st, fs) = (false, st, fs)
  after_gate (p ∷ ps) [] inp (st, fs) = (false, gated_out inp st, fs)
  after_gate (p ∷ ps) (b ∷ bs) inp s = publish_both (b ∷ bs) inp s

  -- `run_cycle`; no answer of the API and an empty shortlist leave nothing probed.
  unfoldable pub run_cycle : Inputs → State × Files → Outcome
  run_cycle inp s = after_gate (probed cfg inp) (measured cfg inp) inp s

  abbrev pub same_payload : Text → Option Text → Bool
  same_payload t none = false
  same_payload t (some u) = text_eq t u

  abbrev refreshed : List Row → Text → Inputs → State → State
  refreshed base generated_at inp st = record st {
    payload = some (document generated_at (eject base inp).kept);
    active_verdicts = length (verdicts_in inp);
    ejected = length (eject base inp).ejected;
  }

  -- By whether the document is the one that is served, and whether its write succeeds.
  abbrev pub refresh_when :
      (same ranking_ok : Bool) → List Row → Text → Inputs → State × Files → Outcome
  refresh_when true _ base at inp (st, fs) = (false, refreshed base at inp st, fs)
  refresh_when false false base at inp (st, fs) = (false, st, fs)
  refresh_when false true base at inp (st, fs) = (
    true,
    refreshed base at inp st,
    record fs { ranking = some (document at (eject base inp).kept) },
  )

  abbrev refresh_base : List Row → Text → Inputs → State × Files → Outcome
  refresh_base base at inp (st, fs) =
      refresh_when (same_payload (document at (eject base inp).kept) st.payload) inp.ranking_ok base
        at inp (st, fs)

  abbrev pub refresh_from : List Row → Option Text → Inputs → State × Files → Outcome
  refresh_from (b ∷ bs) (some (t ∷ ts)) inp s = refresh_base (b ∷ bs) (t ∷ ts) inp s
  refresh_from _ _ inp (st, fs) = (false, st, fs)

  -- `refresh_ejections`
  unfoldable pub refresh_ejections : Inputs → State × Files → Outcome
  refresh_ejections inp (st, fs) = refresh_from st.base_servers st.base_generated_at inp (st, fs)

  abbrev adopted_base : Option Base → State → State
  adopted_base none st = record st { base_servers = []; base_generated_at = none }
  adopted_base (some b) st = record st {
    base_servers = b.servers;
    base_generated_at = some b.generated_at;
  }

  abbrev base_rows : Option Base → List Row
  base_rows none = []
  base_rows (some b) = b.servers

  abbrev passing_of : List Row → List Row → ℕ
  passing_of [] public_servers = length public_servers
  passing_of (b ∷ bs) public_servers = length (b ∷ bs)

  abbrev pub adopt_ranking : Text → Ranking → Option Base → State → State
  adopt_ranking payload d base st = adopted_base base (record st {
    payload = some payload;
    generated_epoch = d.stamp;
    passing = passing_of (base_rows base) d.rows;
    ejected = length (base_rows base) - length d.rows;
  })

  abbrev pub adopt_parsed : Text → Option Ranking → Option Text → State → State
  adopt_parsed payload none journal st = st
  adopt_parsed payload (some d) journal st =
      adopt_ranking payload d (load_persisted_base c journal d.rows d.generated_at) st

  abbrev pub adopt_file : Option Text → Option Text → State → State
  adopt_file none journal st = st
  adopt_file (some payload) journal st =
      adopt_parsed payload (parse_ranking_payload c.strptime c.loads payload) journal st

  -- `load_existing`
  unfoldable pub load_existing : Files → State → State
  load_existing fs st = adopt_file fs.ranking fs.journal st
