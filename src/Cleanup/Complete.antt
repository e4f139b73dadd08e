-- ===== src/Cleanup/Complete.antt =====
-- What a run of 0-truenas/scripts/temp-redundant-name-unlink.py with --apply has done when it ends,
-- where nothing else touches the files and the torrents stay the same.
use epaflix.Base.{
  ◌≡◌, ◌≢◌, refl, sym, subst, ◌⊎◌, inl, inr, ℕ, zero, suc, ◌<◌, ◌≤◌, true, false, not, ◌&&◌, Option,
  none, some, List, [], ◌++◌, map, is_empty, length, Text, All, All-take, All-keep,
}
use epaflix.Cleanup.Files.{Key, FileSystem, Found}
use epaflix.Cleanup.Listing.{IsListing, IsWhole, classify-IsWorkable}
use epaflix.Cleanup.Gone.{IsWorkable}
use epaflix.Cleanup.Attempted.{AreDone, unlink_batch-AreDone}
use epaflix.Cleanup.Round.{batch_of, round-split}
use epaflix.Cleanup.Enough.{Covers, main-enough}
use epaflix.Cleanup.{
  Settings, Torrent, Row, Surroundings, Exit, finished, out_of_fuel, Running, mapped_paths,
  bad_hashes, grew, baseline_of, unlink_batch, holds, rounds, main,
}
use epaflix.Cleanup.Clean.{IsClean, take_empty, keep_empty, grew_again, attempted-IsClean}

module _ (s : Surroundings) (cfg : Settings) (torrents : List Torrent)
    (quiet : (r : Running s cfg) → (s.elapse r).0 ≡ r.0)
    (asks : (u : s.State) → (s.ask u).0 ≡ some torrents)
    (mapped : (not (is_empty torrents) && is_empty (mapped_paths cfg torrents)) ≡ false)
    (finds : (r : Running s cfg)
      → (found : List Found) × (s.find cfg.dataset_root r ≡ some found)
        × IsListing cfg.dataset_root r.0 found)
    (some_batch : 1 ≤ cfg.batch) where
  listed :
      (r : Running s cfg) (found : List Found)
      → s.find cfg.dataset_root r ≡ some found
      → IsListing cfg.dataset_root r.0 found
  listed r found e =
      let (found', e', l) = finds r in
      let same : found' ≡ found = cc (e, e') in subst (IsListing cfg.dataset_root r.0) same l

  asked : (u : s.State) (other : List Torrent) → (s.ask u).0 ≡ some other → torrents ≡ other
  asked u other e = let e' = asks u in cc (e, e')

  -- The rows of a batch, from the walk of a round.
  batch_of-facts :
      (found : List Found) (attempted : List Key) (fs : FileSystem)
      → IsListing cfg.dataset_root fs found
      → All
          (λ row. IsWorkable cfg.temp_dir fs row × IsWhole cfg.dataset_root cfg.temp_dir fs row)
          (batch_of s cfg torrents found attempted)
  batch_of-facts found attempted fs l = All-take _ cfg.batch _ (
      All-keep _ (λ (row : Row). not (holds attempted row.key)) _
        (classify-IsWorkable cfg.temp_dir cfg.dataset_root (mapped_paths cfg torrents) fs found l))

  -- What holds of the result of a run that ends.
  abbrev IsComplete : Exit × (ℕ × Running s cfg) → Type 0
  IsComplete result =
      result.0 ≢ out_of_fuel → (result.0 ≡ finished) × IsClean cfg torrents result.1.1.0

  ends :
      (done : ℕ) (r : Running s cfg) (found : List Found) (attempted : List Key)
      → s.find cfg.dataset_root (s.elapse r) ≡ some found
      → is_empty (batch_of s cfg torrents found attempted) ≡ true
      → AreDone cfg attempted r.0
      → IsComplete (finished, (done, s.elapse r))
  ends done r found attempted e empty d _ =
      let worked =
        keep_empty (λ (row : Row). holds attempted row.key) _
          (take_empty cfg.batch _ some_batch empty) in
      (
        refl,
        attempted-IsClean cfg torrents (s.elapse r).0 found attempted (listed (s.elapse r) found e)
            worked (subst (AreDone cfg attempted) (sym (quiet r)) d),
      )

  ended_same :
      {other : List Torrent}
      → torrents ≡ other
      → (done : ℕ) (r : Running s cfg) (found : List Found) (attempted : List Key)
      → s.find cfg.dataset_root (s.elapse r) ≡ some found
      → (true ≡ false) ⊎ (is_empty (batch_of s cfg other found attempted) ≡ true)
      → AreDone cfg attempted r.0
      → IsComplete (finished, (done, s.elapse r))
  ended_same same done r found attempted e (inl never) d = cc never
  ended_same same done r found attempted e (inr empty) d =
      ends done r found attempted e
        (subst (λ t. is_empty (batch_of s cfg t found attempted) ≡ true) (sym same) empty) d

  goes_on :
      {other : List Torrent}
      → torrents ≡ other
      → (fuel : ℕ) (baseline : Option (List Text)) (attempted : List Key) (done : ℕ)
        (r : Running s cfg) (found : List Found)
      → IsComplete (
          rounds s cfg fuel true
            (some (baseline_of s cfg baseline (bad_hashes torrents)))
            (map (λ (row : Row). row.key) (batch_of s cfg torrents found attempted) ++ attempted)
            (unlink_batch s cfg (batch_of s cfg torrents found attempted) (done, s.elapse r)))
      → IsComplete (
          rounds s cfg fuel true
            (some (baseline_of s cfg baseline (bad_hashes other)))
            (map (λ (row : Row). row.key) (batch_of s cfg other found attempted) ++ attempted)
            (unlink_batch s cfg (batch_of s cfg other found attempted) (done, s.elapse r)))
  goes_on same fuel baseline attempted done r found =
      subst
        (λ t. IsComplete (
          rounds s cfg fuel true (some (baseline_of s cfg baseline (bad_hashes t)))
            (map (λ (row : Row). row.key) (batch_of s cfg t found attempted) ++ attempted)
            (unlink_batch s cfg (batch_of s cfg t found attempted) (done, s.elapse r))))
        same

  rounds-complete :
      (fuel : ℕ) (baseline : Option (List Text)) (attempted : List Key) (done : ℕ)
      (r : Running s cfg)
      → AreDone cfg attempted r.0
      → grew s cfg baseline (bad_hashes torrents) ≡ false
      → IsComplete (rounds s cfg fuel true baseline attempted (done, r))
  unfolding rounds
  rounds-complete zero baseline attempted done r d g = λ stuck. elim (stuck refl) [ ]
  rounds-complete (suc fuel) baseline attempted done r d g =
      let r' : Running s cfg = (r.0, (s.ask r.1).1) in
      round-split s cfg IsComplete fuel true baseline attempted done r
        (λ e. let e' = asks r.1 in cc (e, e'))
        (λ other a grown. cc (
          subst (λ t. grew s cfg baseline (bad_hashes t) ≡ true) (sym (asked r.1 other a)) grown,
          g,
        ))
        (λ other a unmapped. cc (
          subst (λ (t : List Torrent). (not (is_empty t) && is_empty (mapped_paths cfg t)) ≡ true)
              (sym (asked r.1 other a)) unmapped,
          mapped,
        ))
        (λ e. let (_, e', _) = finds (s.elapse r') in cc (e, e'))
        (λ other a found e ended. ended_same (asked r.1 other a) done r' found attempted e ended d)
        (λ other a found e _ more.
          goes_on (asked r.1 other a) fuel baseline attempted done r' found (
            rounds-complete fuel _ _ _ _
              (unlink_batch-AreDone s cfg quiet (batch_of s cfg torrents found attempted) attempted
                (done, s.elapse r')
                (batch_of-facts found attempted (s.elapse r').0 (listed (s.elapse r') found e))
                (subst (AreDone cfg attempted) (sym (quiet r')) d))
              (grew_again s cfg baseline (bad_hashes torrents) g)))

-- A run with --apply ends with 0 and leaves no redundant name: where nothing else touches the
-- files, the list of the torrents stays the same and names a path that can be mapped, and find lists
-- the regular files below the root, a run with a positive BATCH and one round more than there are
-- inodes finishes, and then each file below the root with a name below the temp directory and one
-- outside it has a name that a torrent holds.
pub main_complete :
    (s : Surroundings) (cfg : Settings) (torrents : List Torrent) (known : List Key) (fuel : ℕ)
    (r : Running s cfg)
    → ((r' : Running s cfg) → (s.elapse r').0 ≡ r'.0)
    → ((u : s.State) → (s.ask u).0 ≡ some torrents)
    → (not (is_empty torrents) && is_empty (mapped_paths cfg torrents)) ≡ false
    → ((r' : Running s cfg)
        → (found : List Found) × (s.find cfg.dataset_root r' ≡ some found)
          × IsListing cfg.dataset_root r'.0 found)
    → 1 ≤ cfg.batch
    → Covers known r.0
    → length known < fuel
    → ((main s cfg fuel true true r).0 ≡ finished)
      × IsClean cfg torrents (main s cfg fuel true true r).1.1.0
unfolding main
main_complete s cfg torrents known fuel r quiet asks mapped finds some_batch c h =
    rounds-complete s cfg torrents quiet asks mapped finds some_batch fuel none [] 0 r
      (λ _ _ _ _ _ _. refl) refl
      (main-enough s cfg known fuel true true r
        (λ r' found e. (listed s cfg torrents quiet asks mapped finds some_batch r' found e).0)
        (λ r' c'. subst (Covers known) (sym (quiet r')) c') c h)
