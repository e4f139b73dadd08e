-- ===== src/Cleanup.antt =====
-- 0-truenas/scripts/temp-redundant-name-unlink.py: `bad_hashes`, `held_paths`, `classify` and `main`.
-- The torrents are as the list of qBittorrent has them, after str(); `Surroundings` is what else
-- happens to the files between two steps of the script, and what qBittorrent and find answer.
-- Printing is left out, and BATCH is not negative.
pub mod Files
pub mod Rows
mod Round
mod Safe
mod Kept
mod Enough
mod Walk
mod Live
mod Gone
mod Listing
mod Attempted
mod Clean
mod Complete
mod Tests
use epaflix.Base.{
  ℕ, zero, suc, ◌+◌, Bool, true, false, not, ◌&&◌, ◌||◌, Option, none, some, List, [], ◌∷◌, ◌++◌,
  if◌then◌else◌, is_empty, keep, any, all, take, drop, length, map, Text, codes, text_eq, lower,
  Dict, sort_by, trim,
}
use epaflix.Scorer.Rows.{text_le}
use epaflix.Scorer.Ejection.{member}
use epaflix.Cleanup.Files.{
  Key, same_key, key_le, FileSystem, Found, under, rstrip_slash, Inode, walk, counterpart,
  unlink_temp_name,
}

-- The environment of the script.
pub record Settings : Type 0 where
  pub dataset_root : Text
  pub temp_dir : Text
  pub qbt_root : Text
  pub batch : ℕ

pub record Torrent : Type 0 where
  pub hash : Text
  pub state : Text
  pub content_path : Text

-- `BAD_STATES`
abbrev pub bad_states : List Text
bad_states = codes "missingFiles" ∷ codes "error" ∷ []

-- `bad_hashes`, as a list.
unfoldable pub bad_hashes : List Torrent → List Text
bad_hashes [] = []
bad_hashes (t ∷ ts) =
    let h = lower (trim t.hash) in
    if member t.state bad_states && not (is_empty h) then h ∷ bad_hashes ts else bad_hashes ts

-- `QBT_ROOT`
abbrev pub root_of : Settings → Text
root_of cfg = rstrip_slash cfg.qbt_root

unfoldable pub mapped_paths : Settings → List Torrent → List Text
mapped_paths cfg [] = []
mapped_paths cfg (t ∷ ts) =
    let p = trim t.content_path in
    if under p (root_of cfg)
    then (cfg.dataset_root ++ drop (length (root_of cfg)) p) ∷ mapped_paths cfg ts
    else mapped_paths cfg ts

-- `held_paths`; none where it fails.
abbrev pub held_paths : Settings → List Torrent → Option (List Text)
held_paths cfg torrents =
    if not (is_empty torrents) && is_empty (mapped_paths cfg torrents)
    then none
    else some (mapped_paths cfg torrents)

pub record Row : Type 0 where
  pub key : Key
  pub bytes : ℕ
  pub temp_paths : List Text
  pub lib_paths : List Text

pub record Groups : Type 0 where
  pub redundant : List Row
  pub in_use : List Row
  pub temp_only : List Row

abbrev pub row_of : Text → Key × Inode → Row
row_of temp_dir (k, i) = record {
  key = k;
  bytes = i.bytes;
  temp_paths = sort_by text_le (keep (λ p. under p temp_dir) i.paths);
  lib_paths = sort_by text_le (keep (λ p. not (under p temp_dir)) i.paths);
}

-- `any(under(p, h) for p in entry["paths"] for h in held)`
abbrev pub is_held : List Text → List Text → Bool
is_held held paths = any (λ p. any (under p) held) paths

-- The body of the loop of `classify`.
abbrev pub place : Text → List Text → Key × Inode → Groups → Groups
place temp_dir held (k, i) g =
    let row = row_of temp_dir (k, i) in
    if is_empty row.temp_paths
    then g
    else if is_empty row.lib_paths
    then record g { temp_only = row ∷ g.temp_only }
    else if is_held held i.paths
    then record g { in_use = row ∷ g.in_use }
    else record g { redundant = row ∷ g.redundant }

unfoldable pub classify_from : Text → List Text → List (Key × Inode) → Groups
classify_from temp_dir held [] = record { redundant = []; in_use = []; temp_only = [] }
classify_from temp_dir held (e ∷ es) = place temp_dir held e (classify_from temp_dir held es)

abbrev pub by_key : Key × Inode → Key × Inode → Bool
by_key (j, _) (k, _) = key_le j k

unfoldable pub classify : Text → List Text → Dict Key Inode → Groups
classify temp_dir held inodes = classify_from temp_dir held (sort_by by_key inodes)

-- What happens meanwhile.
pub record Surroundings : Type 1 where
  pub State : Type 0
  pub elapse : FileSystem × State → FileSystem × State
  -- The torrents, or a failure of the login or of the list.
  pub ask : State → Option (List Torrent) × State
  -- What find prints below a root, or a failure of find or of a record of its output.
  pub find : Text → FileSystem × State → Option (List Found)

-- How `main` ends: with 0, with 1, or with 2.
pub data Exit : Type 0 where
  finished aborted failed out_of_fuel : Exit

abbrev pub holds : List Key → Key → Bool
holds ks k = any (λ j. same_key j k) ks

module _ (s : Surroundings) (cfg : Settings) where
  abbrev pub Running : Type 0
  Running = FileSystem × s.State

  -- The loop over the names of one inode.
  unfoldable pub unlink_names : Key → List Text → List Text → ℕ × Running → ℕ × Running
  unlink_names k lib [] (done, r) = (done, r)
  unlink_names k lib (path ∷ paths) (done, r) =
      let now = s.elapse r in
      elim (counterpart now.0 k lib) [
        | none ↦ (done, now)
        | some kept ↦
            let cut = unlink_temp_name k path true now.0 in
            unlink_names k lib paths (if cut.0 then suc done else done, (cut.1, now.1))
      ]

  -- The loop over a batch.
  unfoldable pub unlink_batch : List Row → ℕ × Running → ℕ × Running
  unlink_batch [] st = st
  unlink_batch (row ∷ rows) st =
      unlink_batch rows (unlink_names row.key row.lib_paths row.temp_paths st)

  -- `[r for r in redundant if r["key"] not in attempted][:BATCH]`
  abbrev pub next_batch : List Row → List Key → List Row
  next_batch redundant attempted =
      take cfg.batch (keep (λ (row : Row). not (holds attempted row.key)) redundant)

  abbrev pub grew : Option (List Text) → List Text → Bool
  grew none bad = false
  grew (some baseline) bad = not (all (λ h. member h baseline) bad)

  abbrev pub baseline_of : Option (List Text) → List Text → List Text
  baseline_of none bad = bad
  baseline_of (some baseline) bad = baseline

  abbrev pub groups : List Text → List Found → Groups
  groups held found = classify cfg.temp_dir held (walk found)

  -- The round of a run that is going on, behind the comparison with the baseline; `again` is the
  -- next round.
  unfoldable pub work :
      (List Key → ℕ × Running → Exit × (ℕ × Running))
      → Bool
      → List Torrent
      → List Key
      → ℕ × Running
      → Exit × (ℕ × Running)
  work again apply torrents attempted (done, r0) = elim (held_paths cfg torrents) [
    | none ↦ (failed, (done, r0))
    | some held ↦
        let r = s.elapse r0 in
        elim (s.find cfg.dataset_root r) [
          | none ↦ (failed, (done, r))
          | some found ↦
              let batch = next_batch (groups held found).redundant attempted in
              if not apply || is_empty batch
              then (finished, (done, r))
              else again (map (λ (row : Row). row.key) batch ++ attempted)
                  (unlink_batch batch (done, r))
        ]
  ]

  -- `while True`, on fuel.
  unfoldable pub rounds :
      ℕ → Bool → Option (List Text) → List Key → ℕ × Running → Exit × (ℕ × Running)
  rounds zero apply baseline attempted st = (out_of_fuel, st)
  rounds (suc fuel) apply baseline attempted (done, r) =
      let asked = s.ask r.1 in
      elim asked.0 [
        | none ↦ (failed, (done, (r.0, asked.1)))
        | some torrents ↦
            let bad = bad_hashes torrents in
            if grew baseline bad
            then (aborted, (done, (r.0, asked.1)))
            else work (rounds fuel apply (some (baseline_of baseline bad))) apply torrents attempted
                (done, (r.0, asked.1))
      ]

  -- `main`
  unfoldable pub main : ℕ → Bool → Bool → Running → Exit × (ℕ × Running)
  main fuel temp_is_dir apply r =
      if temp_is_dir then rounds fuel apply none [] (0, r) else (failed, (0, r))
