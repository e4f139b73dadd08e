-- ===== src/Cleanup/Listing.antt =====
-- The rows of `classify` in 0-truenas/scripts/temp-redundant-name-unlink.py, where find lists the
-- regular files that there are.
use epaflix.Base.{
  All-keep-true, any-All, any-keep-not, any-keep, ◌≡◌, sym, ap, subst, ◌∙◌, inl, inr, some, true,
  false, not, List, [], ◌∷◌, Bool-cases, arith, keep, any, is_empty, Text, text_eq, text_eq_iff,
  any-sort_by, All, All-keep, All-sort_by,
}
use epaflix.Scorer.Rows.{text_le}
use epaflix.Cleanup.Files.{Key, same_key, Node, FileSystem, lstat, Found, Inode, under, walk}
use epaflix.Cleanup.Rows.{classify_from-All, same_key_iff}
use epaflix.Cleanup.Walk.{paths_of, walk-All}
use epaflix.Cleanup.Live.{IsLive}
use epaflix.Cleanup.Gone.{IsWorkable}
use epaflix.Cleanup.Enough.{IsThere}
use epaflix.Cleanup.{Row, Groups, row_of, is_held, place, classify_from, by_key, classify}

-- The records are about files that are there, and each regular file below the root has one.
abbrev pub IsListing : Text → FileSystem → List Found → Type 0
IsListing root fs found =
    All (IsThere fs) found
    × ((path : Text) (n : Node)
        → lstat fs path ≡ some n
        → n.regular ≡ true
        → under path root ≡ true
        → any (λ p. text_eq p path) (paths_of found n.key) ≡ true)

pub paths_of-IsLive :
    (fs : FileSystem) (found : List Found) (k : Key)
    → All (IsThere fs) found
    → All (IsLive fs k) (paths_of found k)
paths_of-IsLive fs [] k h = tt
paths_of-IsLive fs (f ∷ found) k h = elim (Bool-cases (same_key f.key k)) [
  | inl e ↦
      let (n, en, nk, nr) = h.0 in
      let here : IsLive fs k f.path = (n, en, nk ∙ (same_key_iff f.key k).0 e, nr) in
      rw e (here, paths_of-IsLive fs found k h.1)
  | inr e ↦ rw e (paths_of-IsLive fs found k h.1)
]

module _ (temp_dir : Text) (held : List Text) where
  place-redundant :
      (Q : Row → Type 0) (e : Key × Inode) (g : Groups)
      → All Q (place temp_dir held e g).redundant
      → All Q g.redundant
        × (is_empty (row_of temp_dir e).temp_paths ≡ false
            → is_empty (row_of temp_dir e).lib_paths ≡ false
            → is_held held e.1.paths ≡ false
            → Q (row_of temp_dir e))
  place-redundant Q e g h = elim (Bool-cases (is_empty (row_of temp_dir e).temp_paths)) [
    | inl t ↦ ground (arith, h, t)
    | inr t ↦ elim (Bool-cases (is_empty (row_of temp_dir e).lib_paths)) [
      | inl l ↦ ground (arith, h, t, l)
      | inr l ↦ ground (arith, h, t, l)
    ]
  ]

  -- Each entry whose row has names on both sides and is held by no torrent is a redundant one.
  pub classify_from-entries :
      (Q : Row → Type 0) (es : List (Key × Inode))
      → All Q (classify_from temp_dir held es).redundant
      → All
          (λ (e : Key × Inode).
            is_empty (row_of temp_dir e).temp_paths ≡ false
            → is_empty (row_of temp_dir e).lib_paths ≡ false
            → is_held held e.1.paths ≡ false
            → Q (row_of temp_dir e))
          es
  unfolding classify_from
  classify_from-entries Q [] h = tt
  classify_from-entries Q (e ∷ es) h =
      let (rest, here) = place-redundant Q e (classify_from temp_dir held es) h in
      (here, classify_from-entries Q es rest)

-- Each name of the row's inode that stands below the temp directory is one of the row's.
abbrev pub IsWhole : Text → Text → FileSystem → Row → Type 0
IsWhole root temp_dir fs row =
    (path : Text) (n : Node)
    → lstat fs path ≡ some n
    → n.regular ≡ true
    → n.key ≡ row.key
    → under path root ≡ true
    → under path temp_dir ≡ true
    → any (λ p. text_eq p path) row.temp_paths ≡ true

row_of-IsWorkable :
    (temp_dir root : Text) (fs : FileSystem) (found : List Found) (e : Key × Inode)
    → IsListing root fs found
    → e.1.paths ≡ paths_of found e.0
    → is_empty (row_of temp_dir e).lib_paths ≡ false
    → IsWorkable temp_dir fs (row_of temp_dir e) × IsWhole root temp_dir fs (row_of temp_dir e)
row_of-IsWorkable temp_dir root fs found (k, i) (there, whole) e some_lib =
    let live : All (IsLive fs k) i.paths =
      subst (All (IsLive fs k)) (sym e) (paths_of-IsLive fs found k there) in
    (
      (
        All-sort_by text_le _ _ (All-keep-true (λ p. under p temp_dir) i.paths),
        All-sort_by text_le _ _
            (any-All (λ p. under p temp_dir) _ (any-keep-not (λ p. under p temp_dir) i.paths)),
        All-sort_by text_le _ _ (All-keep _ (λ p. not (under p temp_dir)) i.paths live),
        some_lib,
      ),
      λ path n en nr nk r t.
          any-sort_by text_le (λ p. text_eq p path) (keep (λ p. under p temp_dir) i.paths)
          ∙ any-keep (λ p. text_eq p path) (λ p. under p temp_dir) i.paths
              (λ p same. subst (λ q. under q temp_dir ≡ true) (sym ((text_eq_iff p path).0 same)) t)
              (subst (λ paths. any (λ p. text_eq p path) paths ≡ true)
                (ap (paths_of found) nk ∙ sym e) (whole path n en nr r)),
    )

-- The redundant rows of a listing.
pub classify-IsWorkable :
    (temp_dir root : Text) (held : List Text) (fs : FileSystem) (found : List Found)
    → IsListing root fs found
    → All
        (λ row. IsWorkable temp_dir fs row × IsWhole root temp_dir fs row)
        (classify temp_dir held (walk found)).redundant
unfolding classify
classify-IsWorkable temp_dir root held fs found l =
    classify_from-All temp_dir held (λ (e : Key × Inode). e.1.paths ≡ paths_of found e.0) _
      (λ e paths some_lib _. row_of-IsWorkable temp_dir root fs found e l paths some_lib) _
      (All-sort_by by_key _ (walk found) (walk-All found))
