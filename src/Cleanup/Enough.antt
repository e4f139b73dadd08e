-- ===== src/Cleanup/Enough.antt =====
-- The rounds of 0-truenas/scripts/temp-redundant-name-unlink.py come to an end.
use epaflix.Base.{
  All-keep-true, count-lt, any-imp, count-le_length, ◌≡◌, ◌≢◌, refl, sym, subst, ℕ, zero, suc, ◌<◌,
  Bool, true, false, not, Option, none, some, List, [], ◌∷◌, ◌++◌, ◌&&◌, arith, count, is_empty,
  map, length, Text, All, All-keep, All-map, All-take, All-sort_by,
}
use epaflix.Cleanup.Files.{
  Key, same_key, Found, Node, lstat, FileSystem, under, counterpart, unlink_temp_name,
}
use epaflix.Cleanup.Files.Names.{unlink_temp_name-subset}
use epaflix.Cleanup.Safe.{unlink_batch-keeps, batch_of-IsGood}
use epaflix.Cleanup.Rows.{same_key_iff, classify_from-keys, walk_from-keys}
use epaflix.Cleanup.Round.{batch_of, round-split}
use epaflix.Cleanup.{
  Settings, Torrent, Row, Surroundings, out_of_fuel, Running, mapped_paths, rounds, unlink_batch,
  main, classify, by_key, holds,
}

holds-append : (js ks : List Key) (k : Key) → holds ks k ≡ true → holds (js ++ ks) k ≡ true
holds-append [] ks k h = h
holds-append (j ∷ js) ks k h = ground (arith, holds-append js ks k h)

-- The keys that were not attempted.
abbrev left : List Key → List Key → ℕ
left known attempted = count (λ k. not (holds attempted k)) known

left-lt :
    (known attempted : List Key) (batch : List Row)
    → is_empty batch ≡ false
    → All (λ (row : Row). not (holds attempted row.key) ≡ true) batch
    → All (λ (row : Row). holds known row.key ≡ true) batch
    → left known (map (λ (row : Row). row.key) batch ++ attempted) < left known attempted
left-lt known attempted [] e fresh inside = cc
left-lt known attempted (row ∷ rows) e fresh inside =
    let after = map (λ (r : Row). r.key) rows ++ attempted in
    let here : (not (holds attempted row.key) && not (not (holds (row.key ∷ after) row.key)))
        ≡ true =
      ground (arith, fresh.0, (same_key_iff row.key row.key).1 refl) in
    count-lt (λ k. not (holds (row.key ∷ after) k)) (λ k. not (holds attempted k)) known
      (λ k h. ground (arith, h, holds-append (map (λ (r : Row). r.key) (row ∷ rows)) attempted k))
      (any-imp (λ j. same_key j row.key) _ known
        (λ j q.
          subst (λ k. (not (holds attempted k) && not (not (holds (row.key ∷ after) k))) ≡ true)
            (sym ((same_key_iff j row.key).0 q)) here)
        inside.0)

-- A record of find is about a regular file that is there.
abbrev pub IsThere : FileSystem → Found → Type 0
IsThere fs f = (n : Node) × (lstat fs f.path ≡ some n) × (n.key ≡ f.key) × (n.regular ≡ true)

-- Each name is a name of one of the inodes.
abbrev pub Covers : List Key → FileSystem → Type 0
Covers known fs = (path : Text) (n : Node) → lstat fs path ≡ some n → holds known n.key ≡ true

IsThere-holds :
    (known : List Key) (fs : FileSystem) (f : Found)
    → Covers known fs
    → IsThere fs f
    → holds known f.key ≡ true
IsThere-holds known fs f c (n, e, same, _) = subst (λ k. holds known k ≡ true) same (c f.path n e)

module _ (s : Surroundings) (cfg : Settings) (known : List Key)
    (finds : (r : Running s cfg) (found : List Found)
      → s.find cfg.dataset_root r ≡ some found
      → All (IsThere r.0) found)
    (elapses : (r : Running s cfg) → Covers known r.0 → Covers known (s.elapse r).0) where
  batch_of-known :
      (torrents : List Torrent) (r : Running s cfg) (found : List Found) (attempted : List Key)
      → Covers known r.0
      → s.find cfg.dataset_root r ≡ some found
      → All (λ (row : Row). holds known row.key ≡ true) (batch_of s cfg torrents found attempted)
  unfolding classify
  batch_of-known torrents r found attempted c e =
      let there = All-map _ _ found (λ f. IsThere-holds known r.0 f c) (finds r found e) in
      let inside = walk_from-keys (λ k. holds known k ≡ true) found [] there tt in
      All-take _ cfg.batch _ (
        All-keep _ (λ (row : Row). not (holds attempted row.key)) _
          (classify_from-keys cfg.temp_dir (mapped_paths cfg torrents) (λ k. holds known k ≡ true) _
            (All-sort_by by_key _ _ inside)))

  cut-Covers :
      (k : Key) (path kept : Text) (lib : List Text) (fs : FileSystem)
      → under path cfg.temp_dir ≡ true
      → Unit {0}
      → All (λ p. under p cfg.temp_dir ≡ false) lib
      → counterpart fs k lib ≡ some kept
      → Covers known fs
      → Covers known (unlink_temp_name k path true fs).1
  cut-Covers k path kept lib fs _ _ _ _ c q n e =
      c q n (unlink_temp_name-subset k path q n true fs e)

  batch-Covers :
      (torrents : List Torrent) (found : List Found) (attempted : List Key) (u : s.State)
      (st : ℕ × Running s cfg)
      → (s.ask u).0 ≡ some torrents
      → Covers known st.1.0
      → Covers known (unlink_batch s cfg (batch_of s cfg torrents found attempted) st).1.0
  batch-Covers torrents found attempted u st a c =
      unlink_batch-keeps s cfg (Covers known) (λ _. Unit) elapses cut-Covers _ st
        (batch_of-IsGood s cfg (Covers known) (λ _. Unit) elapses cut-Covers (λ _ _ _ _ _. tt) u
          torrents found attempted a)
        c

  pub batch_of-fresh :
      (torrents : List Torrent) (found : List Found) (attempted : List Key)
      → All
          (λ (row : Row). not (holds attempted row.key) ≡ true)
          (batch_of s cfg torrents found attempted)
  batch_of-fresh torrents found attempted =
      All-take _ cfg.batch _ (All-keep-true (λ (row : Row). not (holds attempted row.key)) _)

  rounds-enough :
      (fuel : ℕ) (apply : Bool) (baseline : Option (List Text)) (attempted : List Key)
      (st : ℕ × Running s cfg)
      → Covers known st.1.0
      → left known attempted < fuel
      → (rounds s cfg fuel apply baseline attempted st).0 ≢ out_of_fuel
  rounds-enough zero apply baseline attempted st c h = λ _. omega (arith, h)
  rounds-enough (suc fuel) apply baseline attempted (done, r) c h =
      let asked : Running s cfg = (r.0, (s.ask r.1).1) in
      let later = elapses asked c in
      round-split s cfg (λ result. result.0 ≢ out_of_fuel) fuel apply baseline attempted done r
        (λ _ e. cc e) (λ _ _ _ e. cc e) (λ _ _ _ e. cc e) (λ _ e. cc e) (λ _ _ _ _ _ e. cc e)
        (λ torrents a found e _ more.
          rounds-enough fuel apply _ _ _
            (batch-Covers torrents found attempted r.1 (done, s.elapse asked) a later)
            (omega (
              arith,
              h,
              left-lt known attempted _ more (batch_of-fresh torrents found attempted)
                  (batch_of-known torrents _ found attempted later e),
            )))

-- A run ends: where find reports regular files that are there, and each name is and stays a name of
-- one of some inodes, as many rounds as there are such inodes and one more are enough, whatever
-- else happens meanwhile.
pub main-enough :
    (s : Surroundings) (cfg : Settings) (known : List Key) (fuel : ℕ) (temp_is_dir apply : Bool)
    (r : Running s cfg)
    → ((r' : Running s cfg) (found : List Found)
        → s.find cfg.dataset_root r' ≡ some found
        → All (IsThere r'.0) found)
    → ((r' : Running s cfg) → Covers known r'.0 → Covers known (s.elapse r').0)
    → Covers known r.0
    → length known < fuel
    → (main s cfg fuel temp_is_dir apply r).0 ≢ out_of_fuel
unfolding main
main-enough s cfg known fuel true apply r finds elapses c h =
    rounds-enough s cfg known finds elapses fuel apply none [] (0, r) c
      (omega (arith, h, count-le_length _ known))
main-enough s cfg known fuel false apply r finds elapses c h = λ e. cc e
