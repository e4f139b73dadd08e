-- ===== src/Cleanup/Tests.antt =====
-- 0-truenas/scripts/temp-redundant-name-unlink.py on a small directory. What find prints is given
-- by a walk over the names.
use epaflix.Base.{
  ◌≡◌, ◌≢◌, refl, sym, subst, inl, inr, ◌&&◌, true, Option, none, some, List, [], ◌∷◌,
  if◌then◌else◌, Bool-cases, arith, any, Text, codes, text_eq, text_eq_iff, text_eq_refl, Dict,
  lookup, All, sort_by, lstrip, rstrip, lower, insert,
}
use epaflix.Cleanup.Files.{
  Key, same_key, Node, FileSystem, lstat, Found, under, starts_with, rstrip_slash, unlink,
  unlink_temp_name, counterpart, walk_from,
}
use epaflix.Cleanup.Files.Names.{HasName}
use epaflix.Cleanup.Rows.{same_key_iff}
use epaflix.Cleanup.Walk.{paths_of}
use epaflix.Cleanup.Listing.{IsListing}
use epaflix.Cleanup.Enough.{IsThere, Covers, main-enough}
use epaflix.Cleanup.Kept.{main-HasName, main-IsProtected}
use epaflix.Cleanup.Clean.{IsClean}
use epaflix.Cleanup.Complete.{main_complete}
use epaflix.Cleanup.{
  Settings, Torrent, Surroundings, Running, finished, out_of_fuel, mapped_paths, rounds, main, work,
  unlink_batch, unlink_names, classify, classify_from, bad_hashes, holds,
}

abbrev add_found : Text → Text → Option Node → List Found → List Found
add_found root path none rest = rest
add_found root path (some n) rest =
    if n.regular && under path root
    then record { key = n.key; blocks = 8; path = path } ∷ rest
    else rest

abbrev list_from : Text → FileSystem → Dict Text Node → List Found
list_from root fs [] = []
list_from root fs ((path, _) ∷ d) = add_found root path (lstat fs path) (list_from root fs d)

add_found-IsThere :
    (root path : Text) (fs : FileSystem) (o : Option Node) (rest : List Found)
    → lstat fs path ≡ o
    → All (IsThere fs) rest
    → All (IsThere fs) (add_found root path o rest)
add_found-IsThere root path fs none rest e h = h
add_found-IsThere root path fs (some n) rest e h =
    elim (Bool-cases (n.regular && under path root)) [
      | inl y ↦ rw y ((n, e, refl, ground (arith, y)), h)
      | inr f ↦ rw f h
    ]

list_from-IsThere :
    (root : Text) (fs : FileSystem) (d : Dict Text Node) → All (IsThere fs) (list_from root fs d)
list_from-IsThere root fs [] = tt
list_from-IsThere root fs ((path, _) ∷ d) =
    add_found-IsThere root path fs (lstat fs path) _ refl (list_from-IsThere root fs d)

add_found-old :
    (root path q : Text) (k : Key) (o : Option Node) (rest : List Found)
    → any (λ p. text_eq p q) (paths_of rest k) ≡ true
    → any (λ p. text_eq p q) (paths_of (add_found root path o rest) k) ≡ true
add_found-old root path q k none rest h = h
add_found-old root path q k (some n) rest h = ground (arith, h)

add_found-new :
    (root path : Text) (n : Node) (rest : List Found)
    → n.regular ≡ true
    → under path root ≡ true
    → any (λ p. text_eq p path) (paths_of (add_found root path (some n) rest) n.key) ≡ true
add_found-new root path n rest r u =
    ground (arith, r, u, (same_key_iff n.key n.key).1 refl, text_eq_refl path)

list_from-all :
    (root : Text) (fs : FileSystem) (d : Dict Text Node) (path : Text) (m n : Node)
    → lookup text_eq path d ≡ some m
    → lstat fs path ≡ some n
    → n.regular ≡ true
    → under path root ≡ true
    → any (λ p. text_eq p path) (paths_of (list_from root fs d) n.key) ≡ true
unfolding lookup
list_from-all root fs [] path m n e l r u = cc
list_from-all root fs ((q, _) ∷ d) path m n e l r u = elim (Bool-cases (text_eq q path)) [
  | inl same ↦
      let here = add_found-new root path n (list_from root fs d) r u in
      let there =
        subst
          (λ o.
            any (λ p. text_eq p path) (paths_of (add_found root path o (list_from root fs d)) n.key)
            ≡ true)
          (sym l) here in
      subst
        (λ p'.
          any (λ p. text_eq p path)
            (paths_of (add_found root p' (lstat fs p') (list_from root fs d)) n.key)
          ≡ true)
        (sym ((text_eq_iff q path).0 same)) there
  | inr other ↦
      add_found-old root q path n.key (lstat fs q) _
        (list_from-all root fs d path m n (ground (arith, e, other)) l r u)
]

list_from-IsListing :
    (root : Text) (fs : FileSystem) → IsListing root fs (list_from root fs fs.names)
unfolding lstat
list_from-IsListing root fs = (
  list_from-IsThere root fs fs.names,
  λ path n e r u. list_from-all root fs fs.names path n n e e r u,
)

lookup-holds :
    (known : List Key) (path : Text) (n : Node) (d : Dict Text Node)
    → lookup text_eq path d ≡ some n
    → All (λ (e : Text × Node). holds known e.1.key ≡ true) d
    → holds known n.key ≡ true
unfolding lookup
lookup-holds known path n [] e h = cc
lookup-holds known path n ((q, m) ∷ d) e h = ground (arith, e, h.0, lookup-holds known path n d)

abbrev film : Key
film = record { dev = 1; ino = 10 }

abbrev part : Key
part = record { dev = 1; ino = 11 }

abbrev seeding : Key
seeding = record { dev = 1; ino = 12 }

abbrev file : Key → Node
file k = record { key = k; regular = true }

-- A film with two names, a partial download, and a file that a torrent holds.
abbrev small : FileSystem
small = record {
  names =
      (codes "/m/t/a", file film)
      ∷ (codes "/m/s/a", file film)
      ∷ (codes "/m/t/b", file part)
      ∷ (codes "/m/t/c", file seeding)
      ∷ (codes "/m/s/c", file seeding)
      ∷ [];
  elsewhere = λ _. 0;
}

abbrev box : Settings
box = record {
  dataset_root = codes "/m";
  temp_dir = codes "/m/t";
  qbt_root = codes "/q/";
  batch = 1;
}

abbrev torrents : List Torrent
torrents =
    record { hash = codes "AB"; state = codes "uploading"; content_path = codes "/q/t/c " } ∷ []

abbrev calm : Surroundings
calm = record {
  State = Unit;
  elapse = λ r. r;
  ask = λ _. (some torrents, tt);
  find = λ root r. some (list_from root r.0 r.0.names);
}

abbrev start : Running calm box
start = (small, tt)

abbrev known : List Key
known = film ∷ part ∷ seeding ∷ []

small-Covers : Covers known small
unfolding lstat same_key
small-Covers path n e =
    lookup-holds known path n small.names e (refl, (refl, (refl, (refl, (refl, tt)))))

main-HasName_example : HasName film (main calm box 4 true true start).1.1.0
unfolding lstat lookup text_eq
main-HasName_example =
    main-HasName calm box film 4 true true start (λ _ h. h) (codes "/m/t/a", file film, refl, refl)

seeding-held :
    (u : Unit {0}) (other : List Torrent)
    → (calm.ask u).0 ≡ some other
    → any (under (codes "/m/t/c")) (mapped_paths box other) ≡ true
unfolding mapped_paths under rstrip_slash starts_with lstrip rstrip text_eq
seeding-held u other e =
    let same : torrents ≡ other = cc e in
    subst (λ t. any (under (codes "/m/t/c")) (mapped_paths box t) ≡ true) same refl

main-IsProtected_example :
    lstat (main calm box 4 true true start).1.1.0 (codes "/m/t/c") ≡ some (file seeding)
unfolding lstat lookup text_eq
main-IsProtected_example =
    main-IsProtected calm box (codes "/m/t/c") (file seeding) 4 true true start (inr seeding-held)
      (λ _ h. h) refl

list_from-found :
    (r : Running calm box) (found : List Found)
    → calm.find box.dataset_root r ≡ some found
    → All (IsThere r.0) found
list_from-found r found e =
    let same : list_from box.dataset_root r.0 r.0.names ≡ found = cc e in
    subst (All (IsThere r.0)) same (list_from-IsThere box.dataset_root r.0 r.0.names)

main-enough_example : (main calm box 4 true true start).0 ≢ out_of_fuel
main-enough_example =
    main-enough calm box known 4 true true start list_from-found (λ _ c. c) small-Covers
      (omega arith)

main_complete_example :
    ((main calm box 4 true true start).0 ≡ finished)
    × IsClean box torrents (main calm box 4 true true start).1.1.0
unfolding mapped_paths under rstrip_slash starts_with lstrip rstrip text_eq
main_complete_example =
    main_complete calm box torrents known 4 start (λ _. refl) (λ _. refl) refl
      (λ r.
        (list_from box.dataset_root r.0 r.0.names, refl, list_from-IsListing box.dataset_root r.0))
      (omega arith) small-Covers (omega arith)

one_unlinked : (main calm box 4 true true start).1.0 ≡ 1
unfolding main rounds work unlink_batch unlink_names classify classify_from sort_by bad_hashes
    mapped_paths unlink_temp_name counterpart walk_from insert lookup lstat unlink same_key lower
    under rstrip_slash starts_with lstrip rstrip text_eq
one_unlinked = refl
