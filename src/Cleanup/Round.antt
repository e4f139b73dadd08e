-- ===== src/Cleanup/Round.antt =====
-- The ways in which a round of `main` of 0-truenas/scripts/temp-redundant-name-unlink.py goes.
use epaflix.Base.{
  ◌≡◌, refl, ◌⊎◌, inl, inr, ℕ, suc, Bool, true, false, not, Option, some, none, List, map, ◌++◌,
  ◌||◌, ◌&&◌, Bool-cases, Option-cases, is_empty, Text,
}
use epaflix.Cleanup.Files.{Key, Found}
use epaflix.Cleanup.{
  Settings, Torrent, Row, Surroundings, Exit, finished, aborted, failed, Running, mapped_paths,
  bad_hashes, grew, baseline_of, groups, next_batch, unlink_batch, work, rounds,
}

or_ended : (a b : Bool) → (not a || b) ≡ true → (a ≡ false) ⊎ (b ≡ true)
or_ended true b h = inr h
or_ended false b h = inl refl

not_or : (a b : Bool) → (not a || b) ≡ false → (a ≡ true) × (b ≡ false)
not_or true b h = (refl, h)
not_or false b h = cc

module _ (s : Surroundings) (cfg : Settings) where
  abbrev pub batch_of : List Torrent → List Found → List Key → List Row
  batch_of torrents found attempted =
      next_batch s cfg (groups s cfg (mapped_paths cfg torrents) found).redundant attempted

  module _ {ℓ} (M : Exit × (ℕ × Running s cfg) → Type ℓ) (apply : Bool) (torrents : List Torrent)
      (attempted : List Key) (done : ℕ) (r : Running s cfg) where
    -- What is to be shown where the run ends with the torrents known.
    abbrev pub Ends : Type ℓ
    Ends =
        (found : List Found)
        → s.find cfg.dataset_root (s.elapse r) ≡ some found
        → (apply ≡ false) ⊎ (is_empty (batch_of torrents found attempted) ≡ true)
        → M (finished, (done, s.elapse r))

    abbrev pub GoesOn : (List Key → ℕ × Running s cfg → Exit × (ℕ × Running s cfg)) → Type ℓ
    GoesOn again =
        (found : List Found)
        → s.find cfg.dataset_root (s.elapse r) ≡ some found
        → apply ≡ true
        → is_empty (batch_of torrents found attempted) ≡ false
        → M (
            again (map (λ (row : Row). row.key) (batch_of torrents found attempted) ++ attempted)
              (unlink_batch s cfg (batch_of torrents found attempted) (done, s.elapse r)))

    work-split :
        (again : List Key → ℕ × Running s cfg → Exit × (ℕ × Running s cfg))
        → ((not (is_empty torrents) && is_empty (mapped_paths cfg torrents)) ≡ true
            → M (failed, (done, r)))
        → (s.find cfg.dataset_root (s.elapse r) ≡ none → M (failed, (done, s.elapse r)))
        → Ends
        → GoesOn again
        → M (work s cfg again apply torrents attempted (done, r))
    unfolding work
    work-split again f f' ends on =
        elim (Bool-cases (not (is_empty torrents) && is_empty (mapped_paths cfg torrents))) [
          | inl e ↦ rw (work, e) (f e)
          | inr e ↦ elim (Option-cases (s.find cfg.dataset_root (s.elapse r))) [
            | inl e' ↦ rw (work, e, e') (f' e')
            | inr (found, e') ↦
                elim (Bool-cases (not apply || is_empty (batch_of torrents found attempted))) [
                  | inl e2 ↦ rw (work, e, e', e2) (ends found e' (or_ended apply _ e2))
                  | inr e2 ↦
                      rw (work, e, e', e2) (on found e' (not_or apply _ e2).0 (not_or apply _ e2).1)
                ]
          ]
        ]

  -- A round keeps a predicate on what `main` returns.
  pub round-split {ℓ} :
      (M : Exit × (ℕ × Running s cfg) → Type ℓ) (fuel : ℕ) (apply : Bool)
      (baseline : Option (List Text)) (attempted : List Key) (done : ℕ) (r : Running s cfg)
      → ((s.ask r.1).0 ≡ none → M (failed, (done, (r.0, (s.ask r.1).1))))
      → ((torrents : List Torrent)
          → (s.ask r.1).0 ≡ some torrents
          → grew s cfg baseline (bad_hashes torrents) ≡ true
          → M (aborted, (done, (r.0, (s.ask r.1).1))))
      → ((torrents : List Torrent)
          → (s.ask r.1).0 ≡ some torrents
          → (not (is_empty torrents) && is_empty (mapped_paths cfg torrents)) ≡ true
          → M (failed, (done, (r.0, (s.ask r.1).1))))
      → (s.find cfg.dataset_root (s.elapse (r.0, (s.ask r.1).1)) ≡ none
          → M (failed, (done, s.elapse (r.0, (s.ask r.1).1))))
      → ((torrents : List Torrent)
          → (s.ask r.1).0 ≡ some torrents
          → Ends M apply torrents attempted done (r.0, (s.ask r.1).1))
      → ((torrents : List Torrent)
          → (s.ask r.1).0 ≡ some torrents
          → GoesOn M apply torrents attempted done
              (r.0, (s.ask r.1).1)
              (rounds s cfg fuel apply (some (baseline_of s cfg baseline (bad_hashes torrents)))))
      → M (rounds s cfg (suc fuel) apply baseline attempted (done, r))
  unfolding rounds
  round-split M fuel apply baseline attempted done r f stop fh f' ends on =
      elim (Option-cases (s.ask r.1).0) [
        | inl e ↦ rw (rounds, e) (f e)
        | inr (torrents, e) ↦ elim (Bool-cases (grew s cfg baseline (bad_hashes torrents))) [
          | inl g ↦ rw (rounds, e, g) (stop torrents e g)
          | inr g ↦
              rw (rounds, e, g)
                (work-split M apply torrents attempted done _ _ (fh torrents e) f' (ends torrents e)
                  (on torrents e))
        ]
      ]
