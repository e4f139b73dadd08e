-- ===== src/Cleanup/Gone.antt =====
-- What the loops of 0-truenas/scripts/temp-redundant-name-unlink.py unlink where nothing else
-- touches the files: each name that they were given.
use epaflix.Base.{
  ◌≡◌, refl, sym, subst, inl, inr, ℕ, suc, true, false, none, some, List, [], ◌∷◌, is_empty,
  if◌then◌else◌, Text, All, All-map, All-both, Option-cases,
}
use epaflix.Cleanup.Files.{Key, FileSystem, under, counterpart, unlink_temp_name}
use epaflix.Cleanup.Safe.{unlink_names-keeps, unlink_batch-keeps}
use epaflix.Cleanup.{Settings, Row, Surroundings, Running, unlink_names, unlink_batch}
use epaflix.Cleanup.Live.{
  IsLive, IsGone, stops-IsGone, cut-IsGone, IsGone-cut, IsInside, IsOutside, inside-differs,
  cut-IsLive,
}

-- A row whose library names are names of its inode.
abbrev pub IsWorkable : Text → FileSystem → Row → Type 0
IsWorkable temp_dir fs row =
    All (λ p. under p temp_dir ≡ true) row.temp_paths
    × All (λ p. under p temp_dir ≡ false) row.lib_paths
    × All (IsLive fs row.key) row.lib_paths
    × (is_empty row.lib_paths ≡ false)

module _ (s : Surroundings) (cfg : Settings)
    (quiet : (r : Running s cfg) → (s.elapse r).0 ≡ r.0) where
  still : (F : FileSystem → Type 0) (r : Running s cfg) → F r.0 → F (s.elapse r).0
  still F r = subst F (sym (quiet r))

  stops_at :
      (k : Key) (l : Text) (lib : List Text) (path : Text) (paths : List Text)
      (st : ℕ × Running s cfg)
      → counterpart (s.elapse st.1).0 k (l ∷ lib) ≡ none
      → unlink_names s cfg k (l ∷ lib) (path ∷ paths) st ≡ (st.0, s.elapse st.1)
  unfolding unlink_names
  stops_at k l lib path paths (done, r) e = rw (unlink_names, e) refl

  goes_on :
      (k : Key) (l : Text) (lib : List Text) (path : Text) (paths : List Text)
      (st : ℕ × Running s cfg) (kept : Text)
      → counterpart (s.elapse st.1).0 k (l ∷ lib) ≡ some kept
      → unlink_names s cfg k (l ∷ lib) (path ∷ paths) st
        ≡ unlink_names s cfg k (l ∷ lib) paths (
          if (unlink_temp_name k path true (s.elapse st.1).0).0 then suc st.0 else st.0,
          ((unlink_temp_name k path true (s.elapse st.1).0).1, (s.elapse st.1).1),
        )
  unfolding unlink_names
  goes_on k l lib path paths (done, r) kept e = rw (unlink_names, e) refl

  unlink_names-IsGone :
      (k : Key) (l : Text) (lib paths : List Text) (st : ℕ × Running s cfg)
      → All (IsInside cfg.temp_dir) paths
      → All (IsOutside cfg.temp_dir) (l ∷ lib)
      → IsLive st.1.0 k l
      → All (IsGone (unlink_names s cfg k (l ∷ lib) paths st).1.0 k) paths
  unfolding unlink_names
  unlink_names-IsGone k l lib [] st ts os live = tt
  unlink_names-IsGone k l lib (path ∷ paths) (done, r) ts os live =
      let live' = still (λ fs. IsLive fs k l) r live in
      elim (Option-cases (counterpart (s.elapse r).0 k (l ∷ lib))) [
        | inl e ↦
            subst (λ (o : ℕ × Running s cfg). All (IsGone o.1.0 k) (path ∷ paths))
              (sym (stops_at k l lib path paths (done, r) e))
              (All-map (IsInside cfg.temp_dir) _ (path ∷ paths)
                (λ p t.
                  stops-IsGone (s.elapse r).0 k l p lib e live'
                    (inside-differs cfg.temp_dir p l t os.0))
                ts)
        | inr (kept, e) ↦
            subst (λ (o : ℕ × Running s cfg). All (IsGone o.1.0 k) (path ∷ paths))
              (sym (goes_on k l lib path paths (done, r) kept e))
              (
                unlink_names-keeps s cfg (λ fs. IsGone fs k path) (λ _. Unit)
                    (still (λ fs. IsGone fs k path))
                    (λ j q _ _ fs _ _ _ _. IsGone-cut k j q path fs) k (l ∷ lib) paths _
                    (All-map (IsInside cfg.temp_dir) _ paths (λ _ t. (t, tt)) ts.1) os
                    (cut-IsGone k path _),
                unlink_names-IsGone k l lib paths _ ts.1 os
                    (cut-IsLive cfg.temp_dir k k path l _ ts.0 os.0 live'),
              )
      ]

  lib-IsGone :
      (k : Key) (lib paths : List Text) (st : ℕ × Running s cfg)
      → is_empty lib ≡ false
      → All (IsInside cfg.temp_dir) paths
      → All (IsOutside cfg.temp_dir) lib
      → All (IsLive st.1.0 k) lib
      → All (IsGone (unlink_names s cfg k lib paths st).1.0 k) paths
  lib-IsGone k [] paths st e ts os live = cc
  lib-IsGone k (l ∷ lib) paths st e ts os live = unlink_names-IsGone k l lib paths st ts os live.0

  -- The other rows of a batch.
  module _ (I : FileSystem → Type 0)
      (unlinks : (k : Key) (path : Text) (fs : FileSystem)
        → IsInside cfg.temp_dir path
        → I fs
        → I (unlink_temp_name k path true fs).1) where
    row-keeps :
        (row : Row) (st : ℕ × Running s cfg)
        → IsWorkable cfg.temp_dir st.1.0 row
        → I st.1.0
        → I (unlink_names s cfg row.key row.lib_paths row.temp_paths st).1.0
    row-keeps row st (t, o, _, _) =
        unlink_names-keeps s cfg I (λ _. Unit) (still I)
          (λ k path _ _ fs t _ _ _. unlinks k path fs t) row.key row.lib_paths row.temp_paths st
          (All-map _ _ row.temp_paths (λ _ t. (t, tt)) t) o

    pub batch-keeps :
        (rows : List Row) (st : ℕ × Running s cfg)
        → All (IsWorkable cfg.temp_dir st.1.0) rows
        → I st.1.0
        → I (unlink_batch s cfg rows st).1.0
    batch-keeps rows st ws =
        unlink_batch-keeps s cfg I (λ _. Unit) (still I)
          (λ k path _ _ fs t _ _ _. unlinks k path fs t) rows st
          (All-map _ _ rows (λ row w. (All-map _ _ row.temp_paths (λ _ t. (t, tt)) w.0, w.1)) ws)

  row-IsWorkable :
      (row other : Row) (st : ℕ × Running s cfg)
      → IsWorkable cfg.temp_dir st.1.0 row
      → IsWorkable cfg.temp_dir st.1.0 other
      → IsWorkable cfg.temp_dir
          (unlink_names s cfg row.key row.lib_paths row.temp_paths st).1.0
          other
  row-IsWorkable row other st w (t, o, live, some_lib) = (
    t,
    o,
    All-map _ _ other.lib_paths
        (λ l ol.
          row-keeps (λ fs. IsLive fs other.key l)
            (λ j q fs t. cut-IsLive cfg.temp_dir other.key j q l fs t ol.0) row st w ol.1)
        (All-both (IsOutside cfg.temp_dir) (IsLive st.1.0 other.key) other.lib_paths o live),
    some_lib,
  )

  -- The names of the rows of a batch are gone.
  pub unlink_batch-IsGone :
      (rows : List Row) (st : ℕ × Running s cfg)
      → All (IsWorkable cfg.temp_dir st.1.0) rows
      → All
          (λ (row : Row). All (IsGone (unlink_batch s cfg rows st).1.0 row.key) row.temp_paths)
          rows
  unfolding unlink_batch
  unlink_batch-IsGone [] st ws = tt
  unlink_batch-IsGone (row ∷ rows) st ws =
      let st' : ℕ × Running s cfg = unlink_names s cfg row.key row.lib_paths row.temp_paths st in
      let gone : All (IsGone st'.1.0 row.key) row.temp_paths =
        lib-IsGone row.key row.lib_paths row.temp_paths st ws.0.3 ws.0.0 ws.0.1 ws.0.2 in
      let ws' : All (IsWorkable cfg.temp_dir st'.1.0) rows =
        All-map _ _ rows (λ other w. row-IsWorkable row other st ws.0 w) ws.1 in
      (
        All-map _ _ row.temp_paths
            (λ p.
              batch-keeps (λ fs. IsGone fs row.key p) (λ j q fs _. IsGone-cut row.key j q p fs) rows
                st' ws')
            gone,
        unlink_batch-IsGone rows st' ws',
      )
