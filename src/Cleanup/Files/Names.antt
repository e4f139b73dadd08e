-- ===== src/Cleanup/Files/Names.antt =====
-- What `unlink_temp_name` and `counterpart` of
-- 0-truenas/scripts/temp-redundant-name-unlink.py do to the names of an inode.
use epaflix.Base.{
  ◌≡◌, refl, sym, ap, subst, ◌∙◌, ◌⊎◌, inl, inr, Bool, true, false, not, Option, none, some, List,
  [], ◌∷◌, Bool-cases, arith, keep, Text, text_eq, text_eq_iff, Dict, lookup, All, if◌then◌else◌,
}
use epaflix.Cleanup.Files.{
  Key, Node, FileSystem, lstat, unlink, under, still_names, counterpart, unlink_stated,
  unlink_temp_name,
}
use epaflix.Cleanup.Rows.{same_key_iff}

-- Some path is a name of the inode.
abbrev pub HasName : Key → FileSystem → Type 0
HasName k fs = (path : Text) × (n : Node) × (lstat fs path ≡ some n) × (n.key ≡ k)

lookup-keep :
    (path q : Text) (d : Dict Text Node)
    → lookup text_eq q (keep (λ (entry : Text × Node). not (text_eq entry.0 path)) d)
      ≡ (if text_eq path q then none else lookup text_eq q d)
unfolding lookup
lookup-keep path q [] = ground arith
lookup-keep path q ((p, n) ∷ d) =
    ground (arith, lookup-keep path q d, text_eq_iff p path, text_eq_iff p q, text_eq_iff path q)

pub lstat-unlink :
    (path q : Text) (fs : FileSystem)
    → lstat (unlink path fs) q ≡ (if text_eq path q then none else lstat fs q)
unfolding lstat unlink
lstat-unlink path q fs = lookup-keep path q fs.names

unlink_stated-lstat :
    (k : Key) (path q : Text) (n : Node) (apply : Bool) (found : Option Node) (fs : FileSystem)
    → lstat fs path ≡ found
    → lstat fs q ≡ some n
    → (lstat (unlink_stated k path apply found fs).1 q ≡ some n) ⊎ ((path ≡ q) × (n.key ≡ k))
unlink_stated-lstat k path q n apply none fs em e = inl e
unlink_stated-lstat k path q n apply (some m) fs em e =
    let same = text_eq_iff path q in
    let here = λ (s : path ≡ q). subst (λ p. lstat fs p ≡ some m) s em in
    elim (Bool-cases (text_eq path q)) [
      | inl t ↦ ground (arith, same, here (same.0 t), lstat-unlink path q fs, same_key_iff m.key k)
      | inr f ↦ ground (arith, lstat-unlink path q fs)
    ]

unlink_stated-subset :
    (k : Key) (path q : Text) (n : Node) (apply : Bool) (found : Option Node) (fs : FileSystem)
    → lstat (unlink_stated k path apply found fs).1 q ≡ some n
    → lstat fs q ≡ some n
unlink_stated-subset k path q n apply none fs e = e
unlink_stated-subset k path q n apply (some m) fs e = ground (arith, e, lstat-unlink path q fs)

-- No name comes up.
pub unlink_temp_name-subset :
    (k : Key) (path q : Text) (n : Node) (apply : Bool) (fs : FileSystem)
    → lstat (unlink_temp_name k path apply fs).1 q ≡ some n
    → lstat fs q ≡ some n
unfolding unlink_temp_name
unlink_temp_name-subset k path q n apply fs e = unlink_stated-subset k path q n apply _ fs e

-- A name stays, or it is the one that went and it was a name of the inode.
pub unlink_temp_name-lstat :
    (k : Key) (path q : Text) (n : Node) (apply : Bool) (fs : FileSystem)
    → lstat fs q ≡ some n
    → (lstat (unlink_temp_name k path apply fs).1 q ≡ some n) ⊎ ((path ≡ q) × (n.key ≡ k))
unfolding unlink_temp_name
unlink_temp_name-lstat k path q n apply fs e = unlink_stated-lstat k path q n apply _ fs refl e

still_names-true :
    (fs : FileSystem) (k : Key) (found : Option Node)
    → still_names fs k found ≡ true
    → (n : Node) × (found ≡ some n) × (n.key ≡ k)
still_names-true fs k none h = cc
still_names-true fs k (some n) h = (n, refl, ground (arith, h, same_key_iff n.key k))

-- What `counterpart` returns is one of the paths and a name of the inode.
pub counterpart-lem :
    (P : Text → Type 0) (fs : FileSystem) (k : Key) (paths : List Text) (kept : Text)
    → All P paths
    → counterpart fs k paths ≡ some kept
    → P kept × (n : Node) × (lstat fs kept ≡ some n) × (n.key ≡ k)
unfolding counterpart
counterpart-lem P fs k [] kept ps e = cc
counterpart-lem P fs k (path ∷ paths) kept ps e =
    let rest = counterpart-lem P fs k paths kept ps.1 in
    elim (Bool-cases (still_names fs k (lstat fs path))) [
      | inl y ↦
          let same : path ≡ kept = ground (arith, y) in
          let (n, en, ek) = still_names-true fs k (lstat fs path) y in
          (subst P same ps.0, n, sym (ap (lstat fs) same) ∙ en, ek)
      | inr f ↦ rest (ground (arith, f))
    ]

-- The unlink that follows a counterpart leaves every inode a name that has one.
pub unlink_temp_name-HasName :
    (temp_dir : Text) (k j : Key) (path kept : Text) (lib : List Text) (fs : FileSystem)
    → under path temp_dir ≡ true
    → All (λ p. under p temp_dir ≡ false) lib
    → counterpart fs k lib ≡ some kept
    → HasName j fs
    → HasName j (unlink_temp_name k path true fs).1
unlink_temp_name-HasName temp_dir k j path kept lib fs t l e (q, n, en, ej) =
    elim (unlink_temp_name-lstat k path q n true fs en) [
      | inl stays ↦ (q, n, stays, ej)
      | inr (_, ek) ↦
          let (outside, m, em, mk) = counterpart-lem _ fs k lib kept l e in
          elim (unlink_temp_name-lstat k path kept m true fs em) [
            | inl stays ↦ (kept, m, stays, mk ∙ sym ek ∙ ej)
            | inr (same, _) ↦ cc (subst (λ p. under p temp_dir ≡ true) same t, outside)
          ]
    ]
