-- ===== src/Cleanup/Safe.antt =====
-- What the loops of 0-truenas/scripts/temp-redundant-name-unlink.py keep: any predicate on the
-- files that each of their unlinks keeps and that the surroundings keep.
use epaflix.Base.{
  ◌≡◌, inl, inr, Option-cases, ℕ, zero, suc, Bool, true, false, not, Option, none, some, List, [],
  ◌∷◌, any, Text, All, All-keep, All-map, All-both, sort_by, All-take,
}
use epaflix.Cleanup.Files.{Key, FileSystem, Found, under, counterpart, unlink_temp_name, walk}
use epaflix.Cleanup.Rows.{IsOpen, classify_from-IsOpen}
use epaflix.Cleanup.Round.{batch_of, round-split}
use epaflix.Cleanup.{
  Settings, Torrent, Row, Surroundings, Running, mapped_paths, unlink_names, unlink_batch, rounds,
  main, classify, by_key, holds,
}

module _ (s : Surroundings) (cfg : Settings) (I : FileSystem → Type 0) (P : Text → Type 0)
    (elapses : (r : Running s cfg) → I r.0 → I (s.elapse r).0)
    (unlinks : (k : Key) (path kept : Text) (lib : List Text) (fs : FileSystem)
      → under path cfg.temp_dir ≡ true
      → P path
      → All (λ p. under p cfg.temp_dir ≡ false) lib
      → counterpart fs k lib ≡ some kept
      → I fs
      → I (unlink_temp_name k path true fs).1) where
  -- The names that a row may lose, and those it keeps.
  abbrev pub IsGood : Row → Type 0
  IsGood row =
      All (λ p. (under p cfg.temp_dir ≡ true) × P p) row.temp_paths
      × All (λ p. under p cfg.temp_dir ≡ false) row.lib_paths

  pub unlink_names-keeps :
      (k : Key) (lib paths : List Text) (st : ℕ × Running s cfg)
      → All (λ p. (under p cfg.temp_dir ≡ true) × P p) paths
      → All (λ p. under p cfg.temp_dir ≡ false) lib
      → I st.1.0
      → I (unlink_names s cfg k lib paths st).1.0
  unfolding unlink_names
  unlink_names-keeps k lib [] (done, r) ps ls i = i
  unlink_names-keeps k lib (path ∷ paths) (done, r) ps ls i =
      let kept_there = elapses r i in
      elim (Option-cases (counterpart (s.elapse r).0 k lib)) [
        | inl e ↦ rw (unlink_names, e) kept_there
        | inr (kept, e) ↦
            rw (unlink_names, e)
              (unlink_names-keeps k lib paths _ ps.1 ls
                (unlinks k path kept lib _ ps.0.0 ps.0.1 ls e kept_there))
      ]

  pub unlink_batch-keeps :
      (rows : List Row) (st : ℕ × Running s cfg)
      → All IsGood rows
      → I st.1.0
      → I (unlink_batch s cfg rows st).1.0
  unfolding unlink_batch
  unlink_batch-keeps [] st gs i = i
  unlink_batch-keeps (row ∷ rows) st gs i =
      unlink_batch-keeps rows _ gs.1
        (unlink_names-keeps row.key row.lib_paths row.temp_paths st gs.0.0 gs.0.1 i)

  -- The rounds of a run, which ask for the torrents.
  module _
      (free : (u : s.State) (torrents : List Torrent) (p : Text)
        → (s.ask u).0 ≡ some torrents
        → any (under p) (mapped_paths cfg torrents) ≡ false
        → P p) where
    open→good :
        (u : s.State) (torrents : List Torrent)
        → (s.ask u).0 ≡ some torrents
        → (row : Row) → IsOpen cfg.temp_dir (mapped_paths cfg torrents) row
        → IsGood row
    open→good u torrents a row (temp, unheld, lib) = (
      All-both _ _ row.temp_paths temp
          (All-map _ P row.temp_paths (λ p. free u torrents p a) unheld),
      lib,
    )

    pub batch_of-IsGood :
        (u : s.State) (torrents : List Torrent) (found : List Found) (attempted : List Key)
        → (s.ask u).0 ≡ some torrents
        → All IsGood (batch_of s cfg torrents found attempted)
    unfolding classify
    batch_of-IsGood u torrents found attempted a =
        let held = mapped_paths cfg torrents in
        let es = sort_by by_key (walk found) in
        All-take IsGood cfg.batch _ (
          All-keep IsGood (λ (row : Row). not (holds attempted row.key)) _
            (All-map _ IsGood _ (open→good u torrents a)
              (classify_from-IsOpen cfg.temp_dir held es)))

    rounds-keeps :
        (fuel : ℕ) (apply : Bool) (baseline : Option (List Text)) (attempted : List Key)
        (st : ℕ × Running s cfg)
        → I st.1.0
        → I (rounds s cfg fuel apply baseline attempted st).1.1.0
    unfolding rounds
    rounds-keeps zero apply baseline attempted st i = i
    rounds-keeps (suc fuel) apply baseline attempted (done, r) i =
        let asked : Running s cfg = (r.0, (s.ask r.1).1) in
        let later = elapses asked i in
        round-split s cfg (λ result. I result.1.1.0) fuel apply baseline attempted done r (λ _. i)
          (λ _ _ _. i) (λ _ _ _. i) (λ _. later) (λ _ _ _ _ _. later)
          (λ torrents a found _ _ _. rounds-keeps fuel apply _ _ _ (
            unlink_batch-keeps (batch_of s cfg torrents found attempted) (done, s.elapse asked)
              (batch_of-IsGood r.1 torrents found attempted a) later))

    pub main-keeps :
        (fuel : ℕ) (temp_is_dir apply : Bool) (r : Running s cfg)
        → I r.0
        → I (main s cfg fuel temp_is_dir apply r).1.1.0
    unfolding main
    main-keeps fuel true apply r i = rounds-keeps fuel apply none [] (0, r) i
    main-keeps fuel false apply r i = i
