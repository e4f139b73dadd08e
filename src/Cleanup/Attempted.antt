-- ===== src/Cleanup/Attempted.antt =====
-- The inodes that a run of 0-truenas/scripts/temp-redundant-name-unlink.py has worked on: none has
-- a name left below the temp directory, where nothing else touches the files.
use epaflix.Base.{
  ◌≡◌, sym, subst, inl, inr, ℕ, true, false, some, List, [], ◌∷◌, ◌++◌, Bool-cases, arith, any,
  Text, text_eq, text_eq_iff, All, All-map, All-both, map,
}
use epaflix.Cleanup.Files.{Key, same_key, Node, FileSystem, lstat, under}
use epaflix.Cleanup.Files.Names.{unlink_temp_name-subset}
use epaflix.Cleanup.Rows.{same_key_iff}
use epaflix.Cleanup.Live.{IsGone}
use epaflix.Cleanup.Gone.{IsWorkable, batch-keeps, unlink_batch-IsGone}
use epaflix.Cleanup.Listing.{IsWhole}
use epaflix.Cleanup.{Settings, Row, Surroundings, Running, unlink_batch, holds}

abbrev pub AreDone : Settings → List Key → FileSystem → Type 0
AreDone cfg attempted fs =
    (path : Text) (n : Node)
    → lstat fs path ≡ some n
    → n.regular ≡ true
    → under path cfg.dataset_root ≡ true
    → under path cfg.temp_dir ≡ true
    → holds attempted n.key ≡ false

-- The names are among those that there were.
abbrev IsWithin : FileSystem → FileSystem → Type 0
IsWithin before fs = (path : Text) (n : Node) → lstat fs path ≡ some n → lstat before path ≡ some n

holds-append_false :
    (rows : List Row) (attempted : List Key) (k : Key)
    → All (λ (row : Row). same_key row.key k ≡ false) rows
    → holds attempted k ≡ false
    → holds (map (λ (row : Row). row.key) rows ++ attempted) k ≡ false
holds-append_false [] attempted k h e = e
holds-append_false (row ∷ rows) attempted k h e =
    ground (arith, h.0, holds-append_false rows attempted k h.1 e)

any-IsGone :
    (fs : FileSystem) (k : Key) (path : Text) (paths : List Text)
    → any (λ p. text_eq p path) paths ≡ true
    → All (IsGone fs k) paths
    → IsGone fs k path
any-IsGone fs k path [] h gone = cc
any-IsGone fs k path (p ∷ paths) h gone = elim (Bool-cases (text_eq p path)) [
  | inl e ↦ subst (IsGone fs k) ((text_eq_iff p path).0 e) gone.0
  | inr e ↦ any-IsGone fs k path paths (ground (arith, h, e)) gone.1
]

-- A name that is left is no name of a row's inode.
other_key :
    (cfg : Settings) (before fs : FileSystem) (row : Row) (path : Text) (n : Node)
    → IsWhole cfg.dataset_root cfg.temp_dir before row
    → All (IsGone fs row.key) row.temp_paths
    → lstat before path ≡ some n
    → lstat fs path ≡ some n
    → n.regular ≡ true
    → under path cfg.dataset_root ≡ true
    → under path cfg.temp_dir ≡ true
    → same_key row.key n.key ≡ false
other_key cfg before fs row path n whole gone eb e nr root temp =
    elim (Bool-cases (same_key row.key n.key)) [
      | inl same ↦
          let nk = sym ((same_key_iff row.key n.key).0 same) in
          elim (any-IsGone fs row.key path row.temp_paths (whole path n eb nr nk root temp) gone n e
            nk nr) [ ]
      | inr other ↦ other
    ]

module _ (s : Surroundings) (cfg : Settings)
    (quiet : (r : Running s cfg) → (s.elapse r).0 ≡ r.0) where
  pub unlink_batch-AreDone :
      (rows : List Row) (attempted : List Key) (st : ℕ × Running s cfg)
      → All
          (λ row.
            IsWorkable cfg.temp_dir st.1.0 row × IsWhole cfg.dataset_root cfg.temp_dir st.1.0 row)
          rows
      → AreDone cfg attempted st.1.0
      → AreDone cfg
          (map (λ (row : Row). row.key) rows ++ attempted)
          (unlink_batch s cfg rows st).1.0
  unlink_batch-AreDone rows attempted st ws d path n e nr root temp =
      let workable : All (IsWorkable cfg.temp_dir st.1.0) rows = All-map _ _ rows (λ _ w. w.0) ws in
      let before : lstat st.1.0 path ≡ some n =
        batch-keeps s cfg quiet (IsWithin st.1.0)
          (λ k q fs _ within p m em. within p m (unlink_temp_name-subset k q p m true fs em)) rows
          st workable (λ _ _ em. em) path n e in
      let gone = unlink_batch-IsGone s cfg quiet rows st workable in
      holds-append_false rows attempted n.key
        (All-map _ _ rows
          (λ row both.
            other_key cfg st.1.0 (unlink_batch s cfg rows st).1.0 row path n both.0.1 both.1 before
              e nr root temp)
          (All-both _ _ rows ws gone))
        (d path n before nr root temp)
