-- ===== src/Cleanup/Clean.antt =====
-- What is left to do for 0-truenas/scripts/temp-redundant-name-unlink.py: nothing, where each
-- redundant inode has been worked on.
use epaflix.Base.{
  any-keep, any-nonempty, ◌≡◌, refl, sym, subst, ◌∙◌, inl, inr, ℕ, zero, suc, ◌≤◌, Bool, true,
  false, not, Option, none, some, List, [], ◌∷◌, Bool-cases, arith, any, all, keep, take, is_empty,
  Text, text_eq, text_eq_iff, text_eq_refl, sort_by, All, All-sort_by_inv, any-sort_by,
}
use epaflix.Scorer.Ejection.{member}
use epaflix.Scorer.Rows.{text_le}
use epaflix.Cleanup.Files.{Key, Node, FileSystem, lstat, under, Found, walk}
use epaflix.Cleanup.Walk.{paths_of, walk-entry}
use epaflix.Cleanup.Live.{IsLive}
use epaflix.Cleanup.Listing.{IsListing, paths_of-IsLive, classify_from-entries}
use epaflix.Cleanup.Attempted.{AreDone}
use epaflix.Cleanup.{
  Settings, Torrent, Row, Surroundings, mapped_paths, grew, baseline_of, holds, classify, is_held,
  by_key,
}

-- A file below the root that has a name below the temp directory and one outside it has a name
-- that a torrent holds.
abbrev pub IsClean : Settings → List Torrent → FileSystem → Type 0
IsClean cfg torrents fs =
    (temp lib : Text) (n m : Node)
    → lstat fs temp ≡ some n
    → lstat fs lib ≡ some m
    → m.key ≡ n.key
    → n.regular ≡ true
    → m.regular ≡ true
    → under temp cfg.dataset_root ≡ true
    → under lib cfg.dataset_root ≡ true
    → under temp cfg.temp_dir ≡ true
    → under lib cfg.temp_dir ≡ false
    → (path : Text) × IsLive fs n.key path × (any (under path) (mapped_paths cfg torrents) ≡ true)

any-All-both :
    {A : Type 0} (f : A → Bool) (P : A → Type 0) (xs : List A)
    → any f xs ≡ true
    → All P xs
    → (x : A) × P x × (f x ≡ true)
any-All-both f P [] h ps = cc
any-All-both f P (x ∷ xs) h ps = elim (Bool-cases (f x)) [
  | inl e ↦ (x, ps.0, e)
  | inr e ↦ any-All-both f P xs (ground (arith, h, e)) ps.1
]

pub take_empty :
    {A : Type 0} (n : ℕ) (xs : List A) → 1 ≤ n → is_empty (take n xs) ≡ true → is_empty xs ≡ true
take_empty zero xs p h = ground (arith, p)
take_empty (suc n) [] p h = refl
take_empty (suc n) (x ∷ xs) p h = cc

pub keep_empty :
    {A : Type 0} (f : A → Bool) (xs : List A)
    → is_empty (keep (λ x. not (f x)) xs) ≡ true
    → All (λ x. f x ≡ true) xs
keep_empty f [] h = tt
keep_empty f (x ∷ xs) h = ground (arith, keep_empty f xs)

-- The hashes of a list have not grown when the list is the same.
all-member :
    (xs ys : List Text)
    → ((x : Text) → member x xs ≡ true → member x ys ≡ true)
    → all (λ x. member x ys) xs ≡ true
all-member [] ys i = refl
all-member (x ∷ xs) ys i =
    ground (arith, i x, text_eq_refl x, all-member xs ys (λ y h. i y (ground (arith, h))))

pub grew_again :
    (s : Surroundings) (cfg : Settings) (baseline : Option (List Text)) (bad : List Text)
    → grew s cfg baseline bad ≡ false
    → grew s cfg (some (baseline_of s cfg baseline bad)) bad ≡ false
grew_again s cfg none bad h = ground (arith, all-member bad bad (λ x e. e))
grew_again s cfg (some b) bad h = h

side_nonempty :
    (g : Text → Bool) (path : Text) (paths : List Text)
    → g path ≡ true
    → any (λ p. text_eq p path) paths ≡ true
    → is_empty (sort_by text_le (keep g paths)) ≡ false
side_nonempty g path paths e h =
    any-nonempty (λ p. text_eq p path) _
      (any-sort_by text_le (λ p. text_eq p path) (keep g paths)
        ∙ any-keep (λ p. text_eq p path) g paths
            (λ p same. subst (λ q. g q ≡ true) (sym ((text_eq_iff p path).0 same)) e) h)

-- Where each redundant inode has been worked on.
pub attempted-IsClean :
    (cfg : Settings) (torrents : List Torrent) (fs : FileSystem) (found : List Found)
    (attempted : List Key)
    → IsListing cfg.dataset_root fs found
    → All
        (λ (row : Row). holds attempted row.key ≡ true)
        (classify cfg.temp_dir (mapped_paths cfg torrents) (walk found)).redundant
    → AreDone cfg attempted fs
    → IsClean cfg torrents fs
unfolding classify
attempted-IsClean cfg torrents fs found attempted l worked d temp lib n m et el mk nr mr rt rl t o =
    let held = mapped_paths cfg torrents in
    let temp_in = l.1 temp n et nr rt in
    let lib_in : any (λ p. text_eq p lib) (paths_of found n.key) ≡ true =
      subst (λ k. any (λ p. text_eq p lib) (paths_of found k) ≡ true) mk (l.1 lib m el mr rl) in
    let (i, paths, here) = walk-entry _ found n.key (any-nonempty _ _ temp_in) (
      All-sort_by_inv by_key _ (walk found) (
        classify_from-entries cfg.temp_dir held (λ row. holds attempted row.key ≡ true) _
          worked)) in
    let in_paths = λ (p : Text). subst (λ ps. any (λ q. text_eq q p) ps ≡ true) (sym paths) in
    elim (Bool-cases (is_held held i.paths)) [
      | inl h ↦
          any-All-both (λ p. any (under p) held) (IsLive fs n.key) i.paths h
            (subst (All (IsLive fs n.key)) (sym paths) (paths_of-IsLive fs found n.key l.0))
      | inr h ↦ cc (
        here (side_nonempty (λ p. under p cfg.temp_dir) temp i.paths t (in_paths temp temp_in))
            (side_nonempty (λ p. not (under p cfg.temp_dir)) lib i.paths (ground (arith, o))
              (in_paths lib lib_in))
            h,
        d temp n et nr rt t,
      )
    ]
