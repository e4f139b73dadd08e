-- ===== src/Scorer/Cycle/Restart.antt =====
-- What a restart of the scorer finds on disk.
use epaflix.Base.{
  ◌≤◌, ◌<◌, ◌≡◌, inl, inr, refl, true, Option, none, some, List, [], ◌∷◌, arith, length, all, Text,
  text_eq, subst, sym, ◌∙◌, Option-cases,
}
use epaflix.Base.Int.{ℤ}
use epaflix.Base.Codec.{Codec, IsFaithful}
use epaflix.Scorer.Rows.{Row}
use epaflix.Scorer.Journal.{Base, build_base_state, base_state_max_bytes}
use epaflix.Scorer.Journal.Recover.{accepts, Sublist-accepts}
use epaflix.Scorer.Probe.{Config}
use epaflix.Ranking.Check.Laws.{is_valid, fresh_names}
use epaflix.Ranking.Document.{Ranking, document_json, parse_ranking_payload, read_document}
use epaflix.Ranking.Document.Agree.{read_rows-rows_json}
use epaflix.Scorer.Cycle.{
  State, Files, Inputs, new_state, probed, measured, document, candidate_of, run_cycle, after_gate,
  load_existing, after, adopt_parsed, adopt_file, adopt_ranking,
}
use epaflix.Scorer.Cycle.Steps.{
  IsUsual, IsUsualStep, IsUsualLife, Step, cycles, refreshes, restarts, Reach, started, next,
  IsBehind, IsFresh, Inv,
}
use epaflix.Scorer.Cycle.Kept.{moved, publish_when-Inv, refresh-Inv}

module _ (c : Codec) (faithful : IsFaithful c) (cfg : Config) (lives : 0 < cfg.ttl_seconds) where
  payload_back :
      (at : Text) (stamp : ℤ) (rows : List Row)
      → c.strptime at ≡ some stamp
      → accepts rows ≡ true
      → parse_ranking_payload c.strptime c.loads (document c cfg at rows)
        ≡ some (record { generated_at = at; stamp = stamp; ttl = cfg.ttl_seconds; rows = rows })
  unfolding read_document text_eq
  payload_back at stamp rows e h =
      ground (
        arith,
        faithful.reads_back (document_json at cfg.ttl_seconds rows),
        read_rows-rows_json rows,
      )

  -- A state that has the base and serves the document.
  abbrev pub Adopted : Base → List Row → State → Type 0
  Adopted b kept st =
      (st.payload ≡ some (document c cfg b.generated_at kept))
      × (st.base_servers ≡ b.servers)
      × (st.base_generated_at ≡ some b.generated_at)

  pub load_existing-Adopted :
      (b : Base) (kept : List Row) (st u : State) (fs : Files)
      → IsBehind c cfg b kept st fs
      → Adopted b kept (load_existing c cfg fs u)
  unfolding load_existing
  load_existing-Adopted b kept st u fs h = elim (Option-cases (c.strptime b.generated_at)) [
    | inl e ↦ absurd (ground (arith, h.sound.stamp))
    | inr (stamp, e) ↦
        subst (λ (o : Option Text). Adopted b kept (adopt_file c cfg o fs.journal u))
          (sym h.ranking)
          (subst
            (λ (d : Option Ranking).
              Adopted b kept
                (adopt_parsed c cfg (document c cfg b.generated_at kept) d fs.journal u))
            (sym (
              payload_back b.generated_at stamp kept e
                (Sublist-accepts kept b.servers h.subset h.some_kept h.sound.rows)))
            (subst
              (λ (o : Option Base). Adopted b kept (
                adopt_ranking c cfg (document c cfg b.generated_at kept)
                  (record {
                    generated_at = b.generated_at;
                    stamp = stamp;
                    ttl = cfg.ttl_seconds;
                    rows = kept;
                  })
                  o u))
              (sym (h.journal kept h.subset)) (refl, refl, refl)))
  ]

  pub load_existing-IsFresh :
      (fs : Files) → fs.ranking ≡ none → IsFresh c cfg (load_existing c cfg fs new_state) fs
  unfolding load_existing
  load_existing-IsFresh fs e =
      let (a, b, d) =
        subst
          (λ (o : Option Text).
            let u = adopt_file c cfg o fs.journal new_state in
            (u.base_servers ≡ []) × (u.base_generated_at ≡ none) × (u.payload ≡ none))
          (sym e) (refl, refl, refl) in
      (e, a, b, d)

  restart-Inv :
      (st : State) (fs : Files)
      → Inv c cfg (st, fs)
      → Inv c cfg (load_existing c cfg fs new_state, fs)
  restart-Inv st fs (inl f) = inl (load_existing-IsFresh fs f.0)
  restart-Inv st fs (inr (b, kept, h)) =
      let a = load_existing-Adopted b kept st new_state fs h in
      inr (
        b,
        kept,
        record {
          sound = h.sound;
          subset = h.subset;
          some_kept = h.some_kept;
          ranking = h.ranking;
          journal = h.journal;
          served = a.0 ∙ sym h.ranking;
          servers = a.1;
          stamp = a.2;
        },
      )

  after_gate-Inv :
      (ps base : List Row) (inp : Inputs) (st : State) (fs : Files)
      → measured cfg inp ≡ base
      → IsUsual c cfg inp st
      → Inv c cfg (st, fs)
      → Inv c cfg (after (after_gate c cfg ps base inp (st, fs)))
  after_gate-Inv [] base inp st fs e u i = i
  after_gate-Inv (p ∷ ps) [] inp st fs e u i = moved c faithful cfg st _ fs refl refl refl i
  after_gate-Inv (p ∷ ps) (b ∷ bs) inp st fs e u i =
      let valid = subst (λ (rows : List Row). all is_valid rows ≡ true) e u.valid in
      let distinct = subst (λ (rows : List Row). fresh_names [] rows ≡ true) e u.distinct in
      let fits =
        subst
          (λ (rows : List Row).
            length (
              build_base_state c (candidate_of c cfg rows inp) st.base_servers st.base_generated_at)
            ≤ base_state_max_bytes)
          e u.fits in
      publish_when-Inv c faithful cfg (b ∷ bs) inp st fs (ground arith) u.stamp_new fits
        inp.journal_ok inp.ranking_ok i

  Step-Inv :
      {s t : State × Files} (st : Step c cfg s t) → IsUsualStep c cfg st → Inv c cfg s → Inv c cfg t
  unfolding run_cycle
  Step-Inv (cycles {st} {fs} inp) u i =
      after_gate-Inv (probed cfg inp) (measured cfg inp) inp st fs refl u i
  Step-Inv (refreshes {st} {fs} inp) u i = refresh-Inv c faithful cfg inp st fs i
  Step-Inv (restarts {st} {fs}) u i = restart-Inv st fs i

  pub Reach-Inv_lem : {s : State × Files} (r : Reach c cfg s) → IsUsualLife c cfg r → Inv c cfg s
  Reach-Inv_lem started u = inl (refl, refl, refl, refl)
  Reach-Inv_lem (next r st) u = Step-Inv st u.1 (Reach-Inv_lem r u.0)
