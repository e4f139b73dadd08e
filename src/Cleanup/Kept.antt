-- ===== src/Cleanup/Kept.antt =====
-- What the run of 0-truenas/scripts/temp-redundant-name-unlink.py leaves alone.
use epaflix.Base.{
  ◌≡◌, ◌≢◌, refl, subst, inl, inr, ◌⊎◌, ℕ, zero, suc, Bool, true, false, some, List, any, Text,
  none, [], Option,
}
use epaflix.Cleanup.Files.{Key, Node, FileSystem, lstat, under, unlink_temp_name}
use epaflix.Cleanup.Files.Names.{HasName, unlink_temp_name-lstat, unlink_temp_name-HasName}
use epaflix.Cleanup.Round.{round-split}
use epaflix.Cleanup.Safe.{main-keeps}
use epaflix.Cleanup.{Settings, Torrent, Surroundings, Running, mapped_paths, rounds, main}

-- An inode that has a name before a run has one after it, in any mode and however the run ends,
-- where what else happens to the files leaves the inode a name.
pub main-HasName :
    (s : Surroundings) (cfg : Settings) (k : Key) (fuel : ℕ) (temp_is_dir apply : Bool)
    (r : Running s cfg)
    → ((r' : Running s cfg) → HasName k r'.0 → HasName k (s.elapse r').0)
    → HasName k r.0
    → HasName k (main s cfg fuel temp_is_dir apply r).1.1.0
main-HasName s cfg k fuel temp_is_dir apply r elapses h =
    main-keeps s cfg (HasName k) (λ _. Unit) elapses
      (λ k' path kept lib fs t _ l e i.
        unlink_temp_name-HasName cfg.temp_dir k' k path kept lib fs t l e i)
      (λ _ _ _ _ _. tt) fuel temp_is_dir apply r h

-- Outside the temp directory, or at or below what some torrent holds at each look at the list.
abbrev pub IsProtected : Surroundings → Settings → Text → Type 0
IsProtected s cfg path =
    (under path cfg.temp_dir ≡ false)
    ⊎ ((u : s.State) (torrents : List Torrent)
        → (s.ask u).0 ≡ some torrents
        → any (under path) (mapped_paths cfg torrents) ≡ true)

cut-lstat :
    (k : Key) (path q : Text) (n : Node) (fs : FileSystem)
    → path ≢ q
    → lstat fs q ≡ some n
    → lstat (unlink_temp_name k path true fs).1 q ≡ some n
cut-lstat k path q n fs differ e = elim (unlink_temp_name-lstat k path q n true fs e) [
  | inl stays ↦ stays
  | inr (same, _) ↦ elim (differ same) [ ]
]

-- A path outside the temp directory, and one at or below what a torrent holds each time that the
-- list is asked for, still stands for the same file after a run, in any mode and however it ends,
-- where what else happens to the files leaves it alone.
pub main-IsProtected :
    (s : Surroundings) (cfg : Settings) (path : Text) (n : Node) (fuel : ℕ)
    (temp_is_dir apply : Bool) (r : Running s cfg)
    → IsProtected s cfg path
    → ((r' : Running s cfg) → lstat r'.0 path ≡ some n → lstat (s.elapse r').0 path ≡ some n)
    → lstat r.0 path ≡ some n
    → lstat (main s cfg fuel temp_is_dir apply r).1.1.0 path ≡ some n
main-IsProtected s cfg path n fuel temp_is_dir apply r (inl outside) elapses h =
    main-keeps s cfg (λ fs. lstat fs path ≡ some n) (λ _. Unit) elapses
      (λ k q kept lib fs t _ l e i.
        cut-lstat k q path n fs
          (λ same. cc (subst (λ p. under p cfg.temp_dir ≡ true) same t, outside)) i)
      (λ _ _ _ _ _. tt) fuel temp_is_dir apply r h
main-IsProtected s cfg path n fuel temp_is_dir apply r (inr held) elapses h =
    main-keeps s cfg (λ fs. lstat fs path ≡ some n) (λ q. q ≢ path) elapses
      (λ k q kept lib fs t differ l e i. cut-lstat k q path n fs differ i)
      (λ u torrents q a free same. cc (
        subst (λ p. any (under p) (mapped_paths cfg torrents) ≡ false) same free,
        held u torrents a,
      ))
      fuel temp_is_dir apply r h

rounds-dry :
    (s : Surroundings) (cfg : Settings) (I : FileSystem → Type 0) (fuel : ℕ)
    (baseline : Option (List Text)) (attempted : List Key) (done : ℕ) (r : Running s cfg)
    → ((r' : Running s cfg) → I r'.0 → I (s.elapse r').0)
    → I r.0
    → I (rounds s cfg fuel false baseline attempted (done, r)).1.1.0
      × ((rounds s cfg fuel false baseline attempted (done, r)).1.0 ≡ done)
unfolding rounds
rounds-dry s cfg I zero baseline attempted done r elapses i = (i, refl)
rounds-dry s cfg I (suc fuel) baseline attempted done r elapses i =
    let asked : Running s cfg = (r.0, (s.ask r.1).1) in
    let later = elapses asked i in
    round-split s cfg (λ result. I result.1.1.0 × (result.1.0 ≡ done)) fuel false baseline attempted
      done r (λ _. (i, refl)) (λ _ _ _. (i, refl)) (λ _ _ _. (i, refl)) (λ _. (later, refl))
      (λ _ _ _ _ _. (later, refl)) (λ _ _ _ _ no' _. cc no')

-- Without --apply a run keeps whatever what else happens keeps, and counts no name as unlinked.
pub main-dry :
    (s : Surroundings) (cfg : Settings) (I : FileSystem → Type 0) (fuel : ℕ) (temp_is_dir : Bool)
    (r : Running s cfg)
    → ((r' : Running s cfg) → I r'.0 → I (s.elapse r').0)
    → I r.0
    → I (main s cfg fuel temp_is_dir false r).1.1.0
      × ((main s cfg fuel temp_is_dir false r).1.0 ≡ 0)
unfolding main
main-dry s cfg I fuel true r elapses i = rounds-dry s cfg I fuel none [] 0 r elapses i
main-dry s cfg I fuel false r elapses i = (i, refl)
