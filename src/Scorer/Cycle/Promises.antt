-- ===== src/Scorer/Cycle/Promises.antt =====
-- What the scorer keeps to through failed writes, crashes and restarts.
use epaflix.Base.{
  ℕ, ◌≤◌, ◌<◌, ◌≡◌, ◌≢◌, inl, inr, refl, Bool, true, false, Option, none, some, List, [], ◌∷◌,
  arith, if◌then◌else◌, Text, subst, sym, ap, ◌∙◌, Option-cases,
}
use epaflix.Base.Int.{ℤ}
use epaflix.Base.Codec.{Codec, IsFaithful}
use epaflix.Scorer.Rows.{Row, Verdict}
use epaflix.Scorer.Ejection.Left.{kept-none}
use epaflix.Ranking.Check.Laws.{some_inj}
use epaflix.Scorer.Ejection.{apply_ejections}
use epaflix.Scorer.Journal.{Base}
use epaflix.Scorer.Journal.Recover.{accepts-some, Sublist-accepts}
use epaflix.Scorer.Journal.Equal.{Sublist}
use epaflix.Scorer.Probe.{Config}
use epaflix.Ranking.Document.{age_of, parse_ranking, max_ranking_ttl_seconds}
use epaflix.Ranking.Document.Agree.{too_new, at_age, parse_ranking-build_document}
use epaflix.Scorer.Cycle.{
  State, Files, Inputs, new_state, probed, measured, document, run_cycle, after_gate, verdicts_in,
  publish_when, eject, refresh_ejections, refresh_from, refresh_when, load_existing, same_payload,
  Outcome,
}
use epaflix.Scorer.Cycle.Steps.{Reach, IsUsualLife, IsBehind, Inv}
use epaflix.Scorer.Cycle.Kept.{refresh_from-base, same_payload-eq}
use epaflix.Scorer.Cycle.Restart.{Reach-Inv_lem, load_existing-Adopted, load_existing-IsFresh}

-- What the consumers and the reconciliation with verdicts go by.
abbrev SameView : State → State → Type 0
SameView st u =
    (u.payload ≡ st.payload)
    × (u.base_servers ≡ st.base_servers)
    × (u.base_generated_at ≡ st.base_generated_at)

-- A cycle that does not return true leaves the ranking file, the served document and the base.
abbrev pub KeepsRanking : State × Files → Outcome → Type 0
KeepsRanking (st, fs) (ok, u, gs) = (ok ≡ false) → (gs.ranking ≡ fs.ranking) × SameView st u

publish_when-Keeps :
    (c : Codec) (cfg : Config) (j r : Bool) (base : List Row) (inp : Inputs) (st : State)
    (fs : Files)
    → KeepsRanking (st, fs) (publish_when c cfg j r base inp (st, fs))
publish_when-Keeps c cfg false r base inp st fs h = (refl, (refl, refl, refl))
publish_when-Keeps c cfg true false base inp st fs h = (refl, (refl, refl, refl))
publish_when-Keeps c cfg true true base inp st fs h = cc

after_gate-Keeps :
    (c : Codec) (cfg : Config) (ps base : List Row) (inp : Inputs) (st : State) (fs : Files)
    → KeepsRanking (st, fs) (after_gate c cfg ps base inp (st, fs))
after_gate-Keeps c cfg [] base inp st fs h = (refl, (refl, refl, refl))
after_gate-Keeps c cfg (p ∷ ps) [] inp st fs h = (refl, (refl, refl, refl))
after_gate-Keeps c cfg (p ∷ ps) (b ∷ bs) inp st fs h =
    publish_when-Keeps c cfg inp.journal_ok inp.ranking_ok (b ∷ bs) inp st fs h

-- A cycle that fails in any way (no answer of the API, nothing eligible, no probe that ran, nobody
-- within the loss ceiling, a write that failed) leaves the ranking file as it was, and the scorer
-- serves the same document over the same base with its original stamp.
pub run_cycle-failed :
    (c : Codec) (cfg : Config) (inp : Inputs) (st u : State) (fs gs : Files)
    → run_cycle c cfg inp (st, fs) ≡ (false, u, gs)
    → (gs.ranking ≡ fs.ranking)
      × (u.payload ≡ st.payload)
      × (u.base_servers ≡ st.base_servers)
      × (u.base_generated_at ≡ st.base_generated_at)
unfolding run_cycle
run_cycle-failed c cfg inp st u fs gs e =
    let (same, view) =
      subst (KeepsRanking (st, fs)) e
        (after_gate-Keeps c cfg (probed cfg inp) (measured cfg inp) inp st fs) refl in
    (same, view.0, view.1, view.2)

-- What the agent makes of a ranking: the rows of the document, or none once it is out of date.
abbrev pub Adopts : Codec → Config → Text → ℕ → State → Type 0
Adopts c cfg payload now st =
    (at : Text) × (stamp : ℤ) × (rows : List Row) × (st.base_generated_at ≡ some at)
    × (c.strptime at ≡ some stamp)
    × (payload ≡ document c cfg at rows)
    × (rows ≢ [])
    × Sublist rows st.base_servers
    × (parse_ranking c.strptime c.loads payload now ≡ (
        if too_new (age_of now stamp)
        then none
        else some (at_age (age_of now stamp) cfg.ttl_seconds rows, age_of now stamp)))

module _ (c : Codec) (faithful : IsFaithful c) (cfg : Config) (lives : 0 < cfg.ttl_seconds) where
  -- At any moment of a life whose cycles are all usual, also between the two writes of a cycle, a
  -- restart brings back what was in memory: the served document, the base that it is left from, with
  -- the rows that verdicts hide, and the base's stamp. A cycle is usual when the rows that passed its
  -- gate are valid and have different names, its stamp is not that of the base in memory, and the
  -- journal that it writes fits its limit. The codec is faithful and the time to live is not 0.
  pub load_existing-Reach :
      (st : State) (fs : Files) (r : Reach c cfg (st, fs))
      → IsUsualLife c cfg r
      → let u = load_existing c cfg fs new_state in
        (u.payload ≡ st.payload)
        × (u.base_servers ≡ st.base_servers)
        × (u.base_generated_at ≡ st.base_generated_at)
  load_existing-Reach st fs r usual = same (Reach-Inv_lem c faithful cfg lives r usual)
    where
      same : Inv c cfg (st, fs) → SameView st (load_existing c cfg fs new_state)
      same (inl f) =
          let g = load_existing-IsFresh c faithful cfg lives fs f.0 in
          (g.3 ∙ sym f.3, g.1 ∙ sym f.1, g.2 ∙ sym f.2)
      same (inr (b, kept, h)) =
          let a = load_existing-Adopted c faithful cfg lives b kept st new_state fs h in
          (a.0 ∙ sym (h.served ∙ h.ranking), a.1 ∙ sym h.servers, a.2 ∙ sym h.stamp)

  restored_when :
      (same : Bool) (b : Base) (kept : List Row) (st : State) (fs : Files) (inp : Inputs)
      → IsBehind c cfg b kept st fs
      → (eject c cfg b.servers inp).kept ≡ b.servers
      → (same ≡ true
          → st.payload ≡ some (document c cfg b.generated_at (eject c cfg b.servers inp).kept))
      → (refresh_when c cfg same true b.servers b.generated_at inp (st, fs)).2.ranking
        ≡ some (document c cfg b.generated_at b.servers)
  restored_when true b kept st fs inp h e same =
      sym h.served
      ∙ same refl
      ∙ ap (λ (rows : List Row). some (document c cfg b.generated_at rows)) e
  restored_when false b kept st fs inp h e same =
      ap (λ (rows : List Row). some (document c cfg b.generated_at rows)) e

  restored :
      (b : Base) (kept : List Row) (st : State) (fs : Files) (inp : Inputs)
      → IsBehind c cfg b kept st fs
      → verdicts_in c cfg inp ≡ []
      → inp.ranking_ok ≡ true
      → (refresh_from c cfg b.servers (some b.generated_at) inp (st, fs)).2.ranking
        ≡ some (document c cfg b.generated_at b.servers)
  restored b kept st fs inp h quiet ok =
      let payload = document c cfg b.generated_at (eject c cfg b.servers inp).kept in
      rw
        (refresh_from-base c faithful cfg b.servers b.generated_at inp st fs
          (accepts-some b.servers h.sound.rows) h.sound.written)
        (subst
          (λ (w : Bool).
            (refresh_when c cfg (same_payload c cfg payload st.payload) w b.servers b.generated_at
              inp (st, fs)).2.ranking
            ≡ some (document c cfg b.generated_at b.servers))
          (sym ok)
          (restored_when (same_payload c cfg payload st.payload) b kept st fs inp h
            (subst
              (λ (vs : List Verdict).
                (apply_ejections b.servers vs cfg.max_ejection_fraction).kept ≡ b.servers)
              (sym quiet) (kept-none b.servers cfg.max_ejection_fraction))
            (same_payload-eq c faithful cfg payload st.payload)))

  -- In a life whose cycles are all usual (rows that passed the gate are valid with different names, the
  -- stamp is not that of the base in memory, the journal fits its limit), while no verdict is active
  -- and the scorer has a base with a stamp, a refresh whose write succeeds leaves every row of the base
  -- in the ranking file, under the base's stamp. The codec is faithful and the time to live is
  -- not 0.
  pub refresh_ejections-restores :
      (st : State) (fs : Files) (at : Text) (inp : Inputs) (r : Reach c cfg (st, fs))
      → IsUsualLife c cfg r
      → st.base_generated_at ≡ some at
      → verdicts_in c cfg inp ≡ []
      → inp.ranking_ok ≡ true
      → (refresh_ejections c cfg inp (st, fs)).2.ranking ≡ some (document c cfg at st.base_servers)
  unfolding refresh_ejections
  refresh_ejections-restores st fs at inp r usual stamped quiet ok =
      elim (Reach-Inv_lem c faithful cfg lives r usual) [
        | inl f ↦ absurd (ground (arith, f.2))
        | inr (b, kept, h) ↦
            subst
              (λ (rows : List Row).
                (refresh_from c cfg rows st.base_generated_at inp (st, fs)).2.ranking
                ≡ some (document c cfg at rows))
              (sym h.servers)
              (subst
                (λ (o : Option Text).
                  (refresh_from c cfg b.servers o inp (st, fs)).2.ranking
                  ≡ some (document c cfg at b.servers))
                (sym h.stamp)
                (subst
                  (λ (t : Text).
                    (refresh_from c cfg b.servers (some b.generated_at) inp (st, fs)).2.ranking
                    ≡ some (document c cfg t b.servers))
                  (some_inj b.generated_at at (sym h.stamp ∙ stamped))
                  (restored b kept st fs inp h quiet ok)))
      ]

  accepted :
      (b : Base) (kept : List Row) (st : State) (fs : Files) (payload : Text) (now : ℕ)
      → IsBehind c cfg b kept st fs
      → fs.ranking ≡ some payload
      → cfg.ttl_seconds ≤ max_ranking_ttl_seconds
      → Adopts c cfg payload now st
  accepted b kept st fs payload now h e short = elim (Option-cases (c.strptime b.generated_at)) [
    | inl none_there ↦ absurd (ground (arith, h.sound.stamp))
    | inr (stamp, there) ↦
        let same = some_inj (document c cfg b.generated_at kept) payload (sym h.ranking ∙ e) in
        (
          b.generated_at,
          stamp,
          kept,
          h.stamp,
          there,
          sym same,
          h.some_kept,
          subst (Sublist kept) (sym h.servers) h.subset,
          subst
              (λ (p : Text). parse_ranking c.strptime c.loads p now ≡ (
                if too_new (age_of now stamp)
                then none
                else some (at_age (age_of now stamp) cfg.ttl_seconds kept, age_of now stamp)))
              same
              (parse_ranking-build_document c.dumps c.loads c.strptime b.generated_at stamp
                  cfg.ttl_seconds now kept (faithful.reads_back _) there
                ∙ ground (
                  arith,
                  lives,
                  short,
                  Sublist-accepts kept b.servers h.subset h.some_kept h.sound.rows,
                )),
        )
  ]

  -- In a life whose cycles are all usual (rows that passed the gate are valid with different names, the
  -- stamp is not that of the base in memory, the journal fits its limit), the ranking file is always
  -- the document of some of the base's rows, at least one, under the base's stamp; and the agent
  -- accepts it, unless its clock is more than 300 seconds behind that stamp: it then has those rows,
  -- or none once the age is beyond the time to live. The codec is faithful, and the time to live is
  -- within 1 and 2100 seconds.
  pub Reach-parse_ranking :
      (st : State) (fs : Files) (payload : Text) (now : ℕ) (r : Reach c cfg (st, fs))
      → IsUsualLife c cfg r
      → fs.ranking ≡ some payload
      → cfg.ttl_seconds ≤ max_ranking_ttl_seconds
      → Adopts c cfg payload now st
  Reach-parse_ranking st fs payload now r usual e short =
      elim (Reach-Inv_lem c faithful cfg lives r usual) [
        | inl f ↦ absurd (ground (arith, f.0))
        | inr (b, kept, h) ↦ accepted b kept st fs payload now h e short
      ]
