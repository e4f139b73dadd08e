-- ===== src/Cleanup/Walk.antt =====
-- What `walk` of 0-truenas/scripts/temp-redundant-name-unlink.py collects: for each inode, the paths
-- of its records.
use epaflix.Base.{
  ◌≡◌, refl, sym, ap, ◌∙◌, inl, inr, Option, none, some, List, [], ◌∷◌, ◌++◌, Bool-cases, arith,
  keep, Option-cases, is_empty, subst, false, map, Text, Dict, lookup, insert, lookup-insert, All,
  All-map, if◌then◌else◌,
}
use mathlib.Core.List.{append_assoc, append-nil}
use epaflix.Cleanup.Files.{Key, same_key, Found, Inode, with_path, add_record, walk_from, walk}
use epaflix.Cleanup.Rows.{same_key_iff}

abbrev paths_in : Option Inode → List Text
paths_in none = []
paths_in (some i) = i.paths

-- The paths of the records about an inode.
abbrev pub paths_of : List Found → Key → List Text
paths_of found k = map (λ (f : Found). f.path) (keep (λ (f : Found). same_key f.key k) found)

abbrev at : Key → Dict Key Inode → List Text
at k out = paths_in (lookup same_key k out)

with_path-paths : (f : Found) (o : Option Inode) → (with_path f o).paths ≡ paths_in o ++ f.path ∷ []
with_path-paths f none = refl
with_path-paths f (some i) = refl

add_record-paths :
    (k : Key) (f : Found) (out : Dict Key Inode)
    → at k (add_record f out) ≡ (if same_key f.key k then at k out ++ f.path ∷ [] else at k out)
add_record-paths k f out =
    let o = lookup same_key f.key out in
    let known = lookup-insert same_key same_key_iff f.key k (with_path f o) out in
    elim (Bool-cases (same_key f.key k)) [
      | inl e ↦
          rw (known, e)
            (with_path-paths f o ∙ ap (λ j. at j out ++ f.path ∷ []) ((same_key_iff f.key k).0 e))
      | inr e ↦ rw (known, e) refl
    ]

cons_record :
    (k : Key) (f : Found) (found : List Found) (paths : List Text)
    → (if same_key f.key k then paths ++ f.path ∷ [] else paths) ++ paths_of found k
      ≡ paths ++ paths_of (f ∷ found) k
cons_record k f found paths = elim (Bool-cases (same_key f.key k)) [
  | inl e ↦ rw e (append_assoc paths _ _)
  | inr e ↦ rw e refl
]

walk_from-paths :
    (k : Key) (found : List Found) (out : Dict Key Inode)
    → at k (walk_from found out) ≡ at k out ++ paths_of found k
unfolding walk_from
walk_from-paths k [] out = sym (append-nil _)
walk_from-paths k (f ∷ found) out =
    walk_from-paths k found (add_record f out)
    ∙ ap (λ paths. paths ++ paths_of found k) (add_record-paths k f out)
    ∙ cons_record k f found (at k out)

-- No key comes twice.
abbrev AreUnique : Dict Key Inode → Type 0
AreUnique [] = Unit {0}
AreUnique ((k, _) ∷ d) = (lookup same_key k d ≡ none) × AreUnique d

insert-AreUnique :
    (k : Key) (i : Inode) (d : Dict Key Inode) → AreUnique d → AreUnique (insert same_key k i d)
unfolding insert lookup
insert-AreUnique k i [] u = (refl, tt)
insert-AreUnique k i ((j, v) ∷ d) u = ground (
  arith,
  insert-AreUnique k i d u.1,
  lookup-insert same_key same_key_iff k j i d,
  u.0,
  same_key_iff k j,
  same_key_iff j k,
)

walk_from-AreUnique :
    (found : List Found) (out : Dict Key Inode) → AreUnique out → AreUnique (walk_from found out)
unfolding walk_from
walk_from-AreUnique [] out u = u
walk_from-AreUnique (f ∷ found) out u = walk_from-AreUnique found _ (insert-AreUnique f.key _ out u)

lookup-All :
    (d : Dict Key Inode)
    → AreUnique d
    → All (λ (e : Key × Inode). lookup same_key e.0 d ≡ some e.1) d
unfolding lookup
lookup-All [] u = tt
lookup-All ((k, i) ∷ d) u = (
  rw ((same_key_iff k k).1 refl) refl,
  All-map _ _ d (λ e h. ground (arith, h, same_key_iff k e.0, u.0)) (lookup-All d u.1),
)

-- Each entry has the paths of its inode's records.
pub walk-All :
    (found : List Found) → All (λ (e : Key × Inode). e.1.paths ≡ paths_of found e.0) (walk found)
unfolding lookup
walk-All found =
    All-map _ _ (walk found) (λ e h. sym (ap paths_in h) ∙ walk_from-paths e.0 found [])
      (lookup-All (walk found) (walk_from-AreUnique found [] tt))

lookup-some :
    (P : Key × Inode → Type 0) (k : Key) (i : Inode) (d : Dict Key Inode)
    → All P d
    → lookup same_key k d ≡ some i
    → P (k, i)
unfolding lookup
lookup-some P k i [] h e = cc
lookup-some P k i ((j, v) ∷ d) h e = elim (Bool-cases (same_key j k)) [
  | inl same ↦ subst P (ground (arith, e, same, same_key_iff j k)) h.0
  | inr other ↦ lookup-some P k i d h.1 (ground (arith, e, other))
]

-- An inode that some record is about has an entry.
pub walk-entry :
    (P : Key × Inode → Type 0) (found : List Found) (k : Key)
    → is_empty (paths_of found k) ≡ false
    → All P (walk found)
    → (i : Inode) × (i.paths ≡ paths_of found k) × P (k, i)
unfolding lookup
walk-entry P found k some_path h =
    let paths = walk_from-paths k found [] in
    elim (Option-cases (lookup same_key k (walk found))) [
      | inl e ↦ cc (sym paths ∙ ap paths_in e, some_path)
      | inr (i, e) ↦ (i, sym (ap paths_in e) ∙ paths, lookup-some P k i (walk found) h e)
    ]
