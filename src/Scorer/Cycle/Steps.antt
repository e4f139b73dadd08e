-- ===== src/Scorer/Cycle/Steps.antt =====
-- The life of a scorer: cycles, refreshes and restarts, with writes that may fail, over the two
-- files. A crash between the two writes is a cycle whose second write fails, and a restart.
use epaflix.Base.{◌≤◌, ◌≡◌, ◌≢◌, ◌⊎◌, true, none, some, List, [], length, all}
use epaflix.Base.Codec.{Codec}
use epaflix.Scorer.Rows.{Row}
use epaflix.Scorer.Journal.{Base, build_base_state, load_persisted_base, base_state_max_bytes}
use epaflix.Scorer.Journal.Equal.{Sublist}
use epaflix.Scorer.Journal.Recover.{IsSound}
use epaflix.Scorer.Probe.{Config}
use epaflix.Ranking.Check.Laws.{is_valid, fresh_names}
use epaflix.Scorer.Cycle.{
  State, Files, Inputs, new_state, measured, document, candidate_of, run_cycle, refresh_ejections,
  load_existing, after,
}

module _ (c : Codec) (cfg : Config) where
  -- What some theorems ask of a cycle's inputs in a state: rows that passed the gate are valid and
  -- have different names; the base in memory has another stamp; and the journal fits its limit. The
  -- code performs a cycle without that: a headroom below 0, say, makes a row that is not valid.
  pub record IsUsual (inp : Inputs) (st : State) : Type 0 where
    pub valid : all is_valid (measured cfg inp) ≡ true
    pub distinct : fresh_names [] (measured cfg inp) ≡ true
    pub stamp_new : st.base_generated_at ≢ some (c.strftime inp.stamped)
    pub fits :
        length (
          build_base_state c
            (candidate_of c cfg (measured cfg inp) inp)
            st.base_servers
            st.base_generated_at)
        ≤ base_state_max_bytes

  pub data Step : State × Files → State × Files → Type 0 where
    cycles :
        {st : State} {fs : Files} (inp : Inputs)
        → Step (st, fs) (after (run_cycle c cfg inp (st, fs)))
    refreshes :
        {st : State} {fs : Files} (inp : Inputs)
        → Step (st, fs) (after (refresh_ejections c cfg inp (st, fs)))
    restarts : {st : State} {fs : Files} → Step (st, fs) (load_existing c cfg fs new_state, fs)

  pub data Reach : State × Files → Type 0 where
    started : Reach (new_state, record { ranking = none; journal = none })
    next : {s t : State × Files} → Reach s → Step s t → Reach t

  abbrev pub IsUsualStep : {s t : State × Files} → Step s t → Type 0
  IsUsualStep (cycles {st} {fs} inp) = IsUsual inp st
  IsUsualStep (refreshes {st} {fs} inp) = Unit {0}
  IsUsualStep (restarts {st} {fs}) = Unit {0}

  -- A life each of whose cycles had usual inputs.
  abbrev pub IsUsualLife : {s : State × Files} → Reach s → Type 0
  IsUsualLife started = Unit {0}
  IsUsualLife (next r st) = IsUsualLife r × IsUsualStep st

  -- The base behind the public ranking, which is what is served: the rows of the file are its rows, some left out, the
  -- journal gives it back for any such rows, and the scorer has it in memory.
  pub record IsBehind (b : Base) (kept : List Row) (st : State) (fs : Files) : Type 0 where
    pub sound : IsSound c b
    pub subset : Sublist kept b.servers
    pub some_kept : kept ≢ []
    pub ranking : fs.ranking ≡ some (document c cfg b.generated_at kept)
    pub journal :
        (ps : List Row)
        → Sublist ps b.servers
        → load_persisted_base c fs.journal ps b.generated_at ≡ some b
    pub served : st.payload ≡ fs.ranking
    pub servers : st.base_servers ≡ b.servers
    pub stamp : st.base_generated_at ≡ some b.generated_at

  -- No ranking was ever published.
  abbrev pub IsFresh : State → Files → Type 0
  IsFresh st fs =
      (fs.ranking ≡ none)
      × (st.base_servers ≡ [])
      × (st.base_generated_at ≡ none)
      × (st.payload ≡ none)

  abbrev pub Inv : State × Files → Type 0
  Inv (st, fs) = IsFresh st fs ⊎ ((b : Base) × (kept : List Row) × IsBehind b kept st fs)
