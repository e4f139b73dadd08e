-- ===== src/Cleanup/Rows.antt =====
-- The rows that `classify` of 0-truenas/scripts/temp-redundant-name-unlink.py makes.
use epaflix.Base.{
  is_empty, All-keep-true, any-All, any-keep-not, ◌≡◌, sym, subst, ◌↔◌, true, false, List, [], ◌∷◌,
  arith, any, Text, All, All-keep, All-sort_by, All-insert,
}
use epaflix.Scorer.Rows.{text_le}
use epaflix.Cleanup.Files.{Key, same_key, Found, under, Inode, walk_from}
use epaflix.Cleanup.{Row, row_of, is_held, classify_from}

pub same_key_iff : (j k : Key) → (same_key j k ≡ true) ↔ (j ≡ k)
unfolding same_key
same_key_iff j k = ground arith

module _ (temp_dir : Text) (held : List Text) where
  -- A row that may be worked on: what it unlinks is below the temp directory and held by no
  -- torrent, and what it keeps is not below it.
  abbrev pub IsOpen : Row → Type 0
  IsOpen row =
      All (λ p. under p temp_dir ≡ true) row.temp_paths
      × All (λ p. any (under p) held ≡ false) row.temp_paths
      × All (λ p. under p temp_dir ≡ false) row.lib_paths

  row_of-IsOpen : (e : Key × Inode) → is_held held e.1.paths ≡ false → IsOpen (row_of temp_dir e)
  row_of-IsOpen (k, i) h = (
    All-sort_by text_le _ _ (All-keep-true (λ p. under p temp_dir) i.paths),
    All-sort_by text_le _ _ (All-keep _ (λ p. under p temp_dir) i.paths (any-All _ i.paths h)),
    All-sort_by text_le _ _
        (any-All (λ p. under p temp_dir) _ (any-keep-not (λ p. under p temp_dir) i.paths)),
  )

  pub classify_from-IsOpen :
      (es : List (Key × Inode)) → All IsOpen (classify_from temp_dir held es).redundant
  unfolding classify_from
  classify_from-IsOpen [] = tt
  classify_from-IsOpen (e ∷ es) = ground (arith, classify_from-IsOpen es, row_of-IsOpen e)

  -- What is to be shown of the redundant rows.
  pub classify_from-All :
      (F : Key × Inode → Type 0) (Q : Row → Type 0)
      → ((e : Key × Inode)
          → F e
          → is_empty (row_of temp_dir e).lib_paths ≡ false
          → is_held held e.1.paths ≡ false
          → Q (row_of temp_dir e))
      → (es : List (Key × Inode)) → All F es
      → All Q (classify_from temp_dir held es).redundant
  unfolding classify_from
  classify_from-All F Q q [] h = tt
  classify_from-All F Q q (e ∷ es) h = ground (arith, classify_from-All F Q q es h.1, q e h.0)

  pub classify_from-keys :
      (P : Key → Type 0) (es : List (Key × Inode))
      → All (λ (e : Key × Inode). P e.0) es
      → All (λ (row : Row). P row.key) (classify_from temp_dir held es).redundant
  classify_from-keys P =
      classify_from-All (λ (e : Key × Inode). P e.0) (λ (row : Row). P row.key) (λ e p _ _. p)

pub walk_from-keys :
    (P : Key → Type 0) (found : List Found) (out : List (Key × Inode))
    → All (λ (f : Found). P f.key) found
    → All (λ (e : Key × Inode). P e.0) out
    → All (λ (e : Key × Inode). P e.0) (walk_from found out)
unfolding walk_from
walk_from-keys P [] out h o = o
walk_from-keys P (f ∷ found) out h o = walk_from-keys P found _ h.1 (
    All-insert same_key _ f.key _ out (λ j q. subst P (sym ((same_key_iff j f.key).0 q)) h.0) h.0 o)
