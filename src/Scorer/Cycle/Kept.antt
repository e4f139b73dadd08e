-- ===== src/Scorer/Cycle/Kept.antt =====
-- Each step of the scorer keeps the invariant.
use epaflix.Base.{
  ◌≤◌, ◌≡◌, ◌≢◌, inl, inr, refl, Bool, true, false, Option, none, some, List, [], ◌∷◌, arith,
  length, All, Text, text_eq_iff, subst, sym, ap, ◌∙◌,
}
use epaflix.Base.Codec.{Codec, IsFaithful}
use epaflix.Scorer.Rows.{Row}
use epaflix.Scorer.Ejection.Left.{kept-Sublist, kept-some}
use epaflix.Scorer.Journal.{
  Base, build_base_state, load_persisted_base, base_state_max_bytes, with_served,
}
use epaflix.Scorer.Journal.Equal.{Sublist}
use epaflix.Scorer.Journal.Recover.{
  accepts, accepts-some, IsSound, load_persisted_base-candidate, load_persisted_base-served,
  with_served-both,
}
use epaflix.Scorer.Probe.{Config}
use epaflix.Scorer.Cycle.{
  State, Files, Inputs, eject, same_payload, document, candidate_of, verdicts_in, refresh_ejections,
  refresh_from, refresh_when, publish_when, after, journaled, unpublished,
}
use epaflix.Scorer.Cycle.Steps.{IsBehind, Inv}

module _ (c : Codec) (faithful : IsFaithful c) (cfg : Config) where
  -- The base of a cycle is sound.
  candidate-IsSound :
      (base : List Row) (inp : Inputs)
      → accepts base ≡ true
      → IsSound c (candidate_of c cfg base inp)
  candidate-IsSound base inp h = record {
    rows = h;
    stamp = ground (arith, faithful.stamps_back inp.stamped);
    written = faithful.stamps_written inp.stamped;
  }

  -- Only the base and the files matter.
  pub moved :
      (st u : State) (fs : Files)
      → u.base_servers ≡ st.base_servers
      → u.base_generated_at ≡ st.base_generated_at
      → u.payload ≡ st.payload
      → Inv c cfg (st, fs)
      → Inv c cfg (u, fs)
  moved st u fs e1 e2 e3 (inl f) = inl (f.0, e1 ∙ f.1, e2 ∙ f.2, e3 ∙ f.3)
  moved st u fs e1 e2 e3 (inr (b, kept, h)) = inr (
    b,
    kept,
    record {
      sound = h.sound;
      subset = h.subset;
      some_kept = h.some_kept;
      ranking = h.ranking;
      journal = h.journal;
      served = e3 ∙ h.served;
      servers = e1 ∙ h.servers;
      stamp = e2 ∙ h.stamp;
    },
  )

  module _ (base : List Row) (inp : Inputs) (st : State) (fs : Files) (good : accepts base ≡ true)
      (new : st.base_generated_at ≢ some (c.strftime inp.stamped))
      (fits : length
          (build_base_state c (candidate_of c cfg base inp) st.base_servers st.base_generated_at)
        ≤ base_state_max_bytes) where
    other_stamp :
        (b : Base)
        → st.base_generated_at ≡ some b.generated_at
        → b.generated_at ≢ c.strftime inp.stamped
    other_stamp b e h = new (e ∙ ap some h)

    from_journal :
        (b : Base) (ps : List Row) {kept : List Row}
        → IsBehind c cfg b kept st fs
        → Sublist ps b.servers
        → load_persisted_base c
            (some (
              build_base_state c
                (candidate_of c cfg base inp)
                st.base_servers
                st.base_generated_at))
            ps
            b.generated_at
          ≡ some b
    from_journal b ps h s =
        rw (h.servers, h.stamp)
          (load_persisted_base-served c faithful (candidate_of c cfg base inp) b ps
            (candidate-IsSound base inp good) h.sound (other_stamp b h.stamp)
            (subst
              (λ (at : Option Text).
                length (build_base_state c (candidate_of c cfg base inp) b.servers at)
                ≤ base_state_max_bytes)
              h.stamp
              (subst
                (λ (rows : List Row).
                  length
                    (build_base_state c (candidate_of c cfg base inp) rows st.base_generated_at)
                  ≤ base_state_max_bytes)
                h.servers fits))
            s)

    -- The journal was written and the ranking was not.
    journaled-Inv :
        Inv c cfg (st, fs)
        → Inv c cfg (unpublished c cfg base inp st, journaled c cfg base inp st fs)
    journaled-Inv (inl f) = inl f
    journaled-Inv (inr (b, kept, h)) = inr (
      b,
      kept,
      record {
        sound = h.sound;
        subset = h.subset;
        some_kept = h.some_kept;
        ranking = h.ranking;
        journal = λ ps s. from_journal b ps h s;
        served = h.served;
        servers = h.servers;
        stamp = h.stamp;
      },
    )

    alone : (at : Option Text) → All (IsSound c) (with_served (candidate_of c cfg base inp) [] at)
    unfolding with_served
    alone at = (candidate-IsSound base inp good, tt)

    All-IsSound :
        Inv c cfg (st, fs)
        → All
            (IsSound c)
            (with_served (candidate_of c cfg base inp) st.base_servers st.base_generated_at)
    All-IsSound (inl f) = rw f.1 (alone st.base_generated_at)
    All-IsSound (inr (b, kept, h)) =
        rw (h.servers, h.stamp)
          (subst (All (IsSound c))
            (sym (
              with_served-both (candidate_of c cfg base inp) b.servers b.generated_at
                h.sound.written (accepts-some b.servers h.sound.rows) (other_stamp b h.stamp)))
            (candidate-IsSound base inp good, (h.sound, tt)))

    -- Both files were written: the candidate is the base behind the ranking.
    scored-Inv :
        Inv c cfg (st, fs) → Inv c cfg (after (publish_when c cfg true true base inp (st, fs)))
    scored-Inv i = inr (
      candidate_of c cfg base inp,
      (eject c cfg base inp).kept,
      record {
        sound = candidate-IsSound base inp good;
        subset = kept-Sublist base (verdicts_in c cfg inp) cfg.max_ejection_fraction;
        some_kept = kept-some base (verdicts_in c cfg inp) cfg.max_ejection_fraction good;
        ranking = refl;
        journal = λ ps s.
            load_persisted_base-candidate c faithful (candidate_of c cfg base inp) st.base_servers
              st.base_generated_at ps (All-IsSound i) fits s;
        served = refl;
        servers = refl;
        stamp = refl;
      },
    )

    pub publish_when-Inv :
        (j r : Bool)
        → Inv c cfg (st, fs)
        → Inv c cfg (after (publish_when c cfg j r base inp (st, fs)))
    publish_when-Inv false r i = moved st (unpublished c cfg base inp st) fs refl refl refl i
    publish_when-Inv true false i = journaled-Inv i
    publish_when-Inv true true i = scored-Inv i

  pub same_payload-eq : (t : Text) (o : Option Text) → same_payload c cfg t o ≡ true → o ≡ some t
  same_payload-eq t none h = cc
  same_payload-eq t (some u) h = ground (arith, text_eq_iff t u)

  refresh_when-Inv :
      (same ok : Bool) (inp : Inputs) (st : State) (fs : Files) (b : Base) (kept : List Row)
      → (same ≡ true
          → st.payload ≡ some (document c cfg b.generated_at (eject c cfg b.servers inp).kept))
      → IsBehind c cfg b kept st fs
      → Inv c cfg (after (refresh_when c cfg same ok b.servers b.generated_at inp (st, fs)))
  refresh_when-Inv true ok inp st fs b kept same h =
      moved st _ fs refl refl (sym (same refl)) (inr (b, kept, h))
  refresh_when-Inv false false inp st fs b kept same h = inr (b, kept, h)
  refresh_when-Inv false true inp st fs b kept same h = inr (
    b,
    (eject c cfg b.servers inp).kept,
    record {
      sound = h.sound;
      subset = kept-Sublist b.servers (verdicts_in c cfg inp) cfg.max_ejection_fraction;
      some_kept =
          kept-some b.servers (verdicts_in c cfg inp) cfg.max_ejection_fraction h.sound.rows;
      ranking = refl;
      journal = h.journal;
      served = refl;
      servers = h.servers;
      stamp = h.stamp;
    },
  )

  -- With a base in memory the refresh is one of `refresh_when`.
  pub refresh_from-base :
      (rows : List Row) (at : Text) (inp : Inputs) (st : State) (fs : Files)
      → rows ≢ []
      → at ≢ []
      → refresh_from c cfg rows (some at) inp (st, fs)
        ≡ refresh_when c cfg
            (same_payload c cfg (document c cfg at (eject c cfg rows inp).kept) st.payload)
            inp.ranking_ok
            rows
            at
            inp
            (st, fs)
  refresh_from-base [] at inp st fs h k = absurd (h refl)
  refresh_from-base (r ∷ rs) [] inp st fs h k = absurd (k refl)
  refresh_from-base (r ∷ rs) (t ∷ ts) inp st fs h k = refl

  pub refresh-Inv :
      (inp : Inputs) (st : State) (fs : Files)
      → Inv c cfg (st, fs)
      → Inv c cfg (after (refresh_ejections c cfg inp (st, fs)))
  unfolding refresh_ejections
  refresh-Inv inp st fs (inl f) =
      subst
        (λ (rows : List Row).
          Inv c cfg (after (refresh_from c cfg rows st.base_generated_at inp (st, fs))))
        (sym f.1) (inl f)
  refresh-Inv inp st fs (inr (b, kept, h)) =
      subst
        (λ (rows : List Row).
          Inv c cfg (after (refresh_from c cfg rows st.base_generated_at inp (st, fs))))
        (sym h.servers)
        (subst
          (λ (at : Option Text). Inv c cfg (after (refresh_from c cfg b.servers at inp (st, fs))))
          (sym h.stamp)
          (rw
            (refresh_from-base b.servers b.generated_at inp st fs
              (accepts-some b.servers h.sound.rows) h.sound.written)
            (refresh_when-Inv _ inp.ranking_ok inp st fs b kept (same_payload-eq _ st.payload) h)))
