-- ===== src/Cleanup/Files.antt =====
-- The files that 0-truenas/scripts/temp-redundant-name-unlink.py works on, its `under` and `walk`,
-- and the two operations on names, `counterpart` and `unlink_temp_name`. A path that lstat refuses
-- is a path that is not there, and an unlink of a path that was just looked up succeeds.
pub mod Names
use epaflix.Base.{
  ℕ, ◌+◌, ◌*◌, Bool, true, false, not, ◌&&◌, ◌||◌, Option, none, some, List, [], ◌∷◌, ◌++◌, ltb,
  ◌==◌, if◌then◌else◌, is_empty, keep, count, Text, codes, text_eq, Dict, lookup, insert,
}

-- `(st_dev, st_ino)`
pub record Key : Type 0 where
  pub dev : ℕ
  pub ino : ℕ

unfoldable pub same_key : Key → Key → Bool
same_key j k = j.dev == k.dev && j.ino == k.ino

-- The order of tuples.
abbrev pub key_le : Key → Key → Bool
key_le j k = if j.dev == k.dev then not (ltb k.ino j.ino) else ltb j.dev k.dev

-- What lstat says of a path.
pub record Node : Type 0 where
  pub key : Key
  pub regular : Bool

-- The paths below the root, and how many more names an inode has elsewhere.
pub record FileSystem : Type 0 where
  pub names : Dict Text Node
  pub elsewhere : Key → ℕ

unfoldable pub lstat : FileSystem → Text → Option Node
lstat fs path = lookup text_eq path fs.names

-- `st.st_nlink`
abbrev pub nlink : FileSystem → Key → ℕ
nlink fs k = count (λ (entry : Text × Node). same_key entry.1.key k) fs.names + fs.elsewhere k

-- `os.unlink`
unfoldable pub unlink : Text → FileSystem → FileSystem
unlink path fs = record fs {
  names = keep (λ (entry : Text × Node). not (text_eq entry.0 path)) fs.names;
}

-- `text.rstrip("/")`
unfoldable pub rstrip_slash : Text → Text
rstrip_slash [] = []
rstrip_slash (c ∷ t) =
    let rest = rstrip_slash t in if is_empty rest && (c == b'/') then [] else c ∷ rest

-- `text.startswith(prefix)`
unfoldable pub starts_with : Text → Text → Bool
starts_with [] t = true
starts_with (a ∷ p) [] = false
starts_with (a ∷ p) (c ∷ t) = a == c && starts_with p t

unfoldable pub under : Text → Text → Bool
under path prefix =
    text_eq path (rstrip_slash prefix) || starts_with (rstrip_slash prefix ++ codes "/") path

-- A record that find prints: its fields after int() and the decoding.
pub record Found : Type 0 where
  pub key : Key
  pub blocks : ℕ
  pub path : Text

-- An entry of the walk.
pub record Inode : Type 0 where
  pub bytes : ℕ
  pub paths : List Text

-- `out.setdefault(key, ...)["paths"].append(path)`
abbrev pub with_path : Found → Option Inode → Inode
with_path f none = record { bytes = f.blocks * 512; paths = f.path ∷ [] }
with_path f (some i) = record i { paths = i.paths ++ f.path ∷ [] }

abbrev pub add_record : Found → Dict Key Inode → Dict Key Inode
add_record f out = insert same_key f.key (with_path f (lookup same_key f.key out)) out

-- `walk`, on what find prints for the regular files below the root.
unfoldable pub walk_from : List Found → Dict Key Inode → Dict Key Inode
walk_from [] out = out
walk_from (f ∷ found) out = walk_from found (add_record f out)

abbrev pub walk : List Found → Dict Key Inode
walk found = walk_from found []

-- Whether a path still is another name of this inode.
abbrev pub still_names : FileSystem → Key → Option Node → Bool
still_names fs k none = false
still_names fs k (some n) = same_key n.key k && n.regular && ltb 1 (nlink fs n.key)

unfoldable pub counterpart : FileSystem → Key → List Text → Option Text
counterpart fs k [] = none
counterpart fs k (path ∷ paths) =
    if still_names fs k (lstat fs path) then some path else counterpart fs k paths

-- By what lstat says of the path: whether the name is gone, and the files.
abbrev pub unlink_stated : Key → Text → Bool → Option Node → FileSystem → Bool × FileSystem
unlink_stated k path apply none fs = (true, fs)
unlink_stated k path apply (some n) fs =
    if not (same_key n.key k) || not n.regular
    then (false, fs)
    else (true, if apply then unlink path fs else fs)

unfoldable pub unlink_temp_name : Key → Text → Bool → FileSystem → Bool × FileSystem
unlink_temp_name k path apply fs = unlink_stated k path apply (lstat fs path) fs
