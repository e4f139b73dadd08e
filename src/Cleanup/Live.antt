-- ===== src/Cleanup/Live.antt =====
-- A file of an inode, and the last one: what one step of the loop over the names of an inode in
-- 0-truenas/scripts/temp-redundant-name-unlink.py does to them.
use epaflix.Base.{
  ◌≡◌, ◌≢◌, refl, sym, ap, subst, ◌∙◌, inl, inr, ℕ, ◌≤◌, true, false, none, some, List, [], ◌∷◌,
  arith, count, Text, text_eq, text_eq_iff, text_eq_refl, Dict, lookup, Bool-cases,
}
use epaflix.Cleanup.Files.{
  Key, same_key, Node, FileSystem, lstat, under, still_names, counterpart, unlink_stated,
  unlink_temp_name,
}
use epaflix.Cleanup.Files.Names.{unlink_temp_name-lstat, unlink_temp_name-subset, lstat-unlink}
use epaflix.Cleanup.Rows.{same_key_iff}

-- A regular file of the inode stands at the path.
abbrev pub IsLive : FileSystem → Key → Text → Type 0
IsLive fs k path = (n : Node) × (lstat fs path ≡ some n) × (n.key ≡ k) × (n.regular ≡ true)

-- None does.
abbrev pub IsGone : FileSystem → Key → Text → Type 0
IsGone fs k path = (n : Node) → lstat fs path ≡ some n → n.key ≡ k → n.regular ≡ true → ⊥

abbrev names_of : Key → Dict Text Node → ℕ
names_of k = count (λ (entry : Text × Node). same_key entry.1.key k)

names_of-one :
    (k : Key) (p : Text) (n : Node) (d : Dict Text Node)
    → lookup text_eq p d ≡ some n
    → same_key n.key k ≡ true
    → 1 ≤ names_of k d
unfolding lookup
names_of-one k p n [] e same = cc
names_of-one k p n ((q, m) ∷ d) e same = ground (arith, names_of-one k p n d, e, same)

names_of-two :
    (k : Key) (p q : Text) (n m : Node) (d : Dict Text Node)
    → text_eq p q ≡ false
    → lookup text_eq p d ≡ some n
    → lookup text_eq q d ≡ some m
    → same_key n.key k ≡ true
    → same_key m.key k ≡ true
    → 2 ≤ names_of k d
unfolding lookup
names_of-two k p q n m [] differ e e' same same' = cc
names_of-two k p q n m ((path, o) ∷ d) differ e e' same same' = ground (
  arith,
  names_of-two k p q n m d differ,
  names_of-one k p n d,
  names_of-one k q m d,
  e,
  e',
  same,
  same',
  text_eq_iff path p,
  text_eq_iff path q,
  text_eq_iff p q,
)

counterpart-some :
    (fs : FileSystem) (k : Key) (l : Text) (lib : List Text)
    → still_names fs k (lstat fs l) ≡ true
    → counterpart fs k (l ∷ lib) ≢ none
unfolding counterpart
counterpart-some fs k l lib still e = ground (arith, still, e)

-- Where no path is a counterpart, the inode's one name is the live one.
pub stops-IsGone :
    (fs : FileSystem) (k : Key) (l p : Text) (lib : List Text)
    → counterpart fs k (l ∷ lib) ≡ none
    → IsLive fs k l
    → text_eq p l ≡ false
    → IsGone fs k p
unfolding counterpart lstat
stops-IsGone fs k l p lib e (m, em, mk, mr) differ n en nk nr =
    let two =
      names_of-two m.key p l n m fs.names differ en em ((same_key_iff n.key m.key).1 (nk ∙ sym mk))
        ((same_key_iff m.key m.key).1 refl) in
    let still : still_names fs k (some m) ≡ true =
      ground (arith, two, (same_key_iff m.key k).1 mk, mr) in
    counterpart-some fs k l lib (ap (still_names fs k) em ∙ still) e

pub cut-IsGone :
    (k : Key) (path : Text) (fs : FileSystem) → IsGone (unlink_temp_name k path true fs).1 k path
unfolding unlink_temp_name
cut-IsGone k path fs n e nk nr =
    let before = unlink_temp_name-subset k path path n true fs e in
    let there = subst (λ o. lstat (unlink_stated k path true o fs).1 path ≡ some n) before e in
    ground
      (arith, there, (same_key_iff n.key k).1 nk, nr, lstat-unlink path path fs, text_eq_refl path)

pub IsGone-cut :
    (k j : Key) (path p : Text) (fs : FileSystem)
    → IsGone fs k p
    → IsGone (unlink_temp_name j path true fs).1 k p
IsGone-cut k j path p fs gone n e = gone n (unlink_temp_name-subset j path p n true fs e)

module _ (temp_dir : Text) where
  abbrev pub IsInside : Text → Type 0
  IsInside p = under p temp_dir ≡ true

  abbrev pub IsOutside : Text → Type 0
  IsOutside p = under p temp_dir ≡ false

  pub inside-differs : (p l : Text) → IsInside p → IsOutside l → text_eq p l ≡ false
  inside-differs p l t o = elim (Bool-cases (text_eq p l)) [
    | inl e ↦ cc (subst (λ q. under q temp_dir ≡ true) ((text_eq_iff p l).0 e) t, o)
    | inr e ↦ e
  ]

  pub cut-IsLive :
      (k j : Key) (path l : Text) (fs : FileSystem)
      → IsInside path
      → IsOutside l
      → IsLive fs k l
      → IsLive (unlink_temp_name j path true fs).1 k l
  cut-IsLive k j path l fs t o (n, e, nk, nr) = elim (unlink_temp_name-lstat j path l n true fs e) [
    | inl stays ↦ (n, stays, nk, nr)
    | inr (same, _) ↦ cc (subst IsInside same t, o)
  ]
