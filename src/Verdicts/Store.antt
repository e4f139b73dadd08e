-- ===== src/Verdicts/Store.antt =====
-- The directory of verdicts: verdict_filename, persist_verdict and load_active_verdicts of
-- images/vpn-picker/vpn_picker.py. The write of a file is atomic, by os.replace: it is there whole
-- or it failed. A stamp before 1970 is taken for an invalid one; log lines are left out.
pub mod Persist
pub mod Newest
use epaflix.Base.{
  ℕ, zero, Bool, true, false, not, ◌&&◌, ◌||◌, Option, none, some, List, [], ◌∷◌, ◌++◌, ltb, ◌==◌,
  if◌then◌else◌, take, Text, codes, text_eq, lower, Dict, lookup, insert, values, sort_by, ◌>>=?◌,
  suc,
}
use epaflix.Base.Int.{ℤ, pos, negsuc}
use epaflix.Base.Json.{Json, int, str, float, obj, end, field, finite}
use epaflix.Base.Codec.{Codec}
use epaflix.Scorer.Rows.{Verdict, text_le}
use epaflix.Verdicts.Read.{Lease, Parsed, active, parse_verdict, verdict_max_bytes}

-- What `scandir` gives of an entry, and what reading it gives, where it can be read.
pub record DirEntry : Type 0 where
  pub name : Text
  pub is_file : Bool
  pub content : Option Text

-- `text.endswith(suffix)`
unfoldable pub ends_with : Text → Text → Bool
ends_with suffix [] = text_eq suffix []
ends_with suffix (c ∷ t) = text_eq suffix (c ∷ t) || ends_with suffix t

abbrev pub starts_with_dot : Text → Bool
starts_with_dot [] = false
starts_with_dot (c ∷ t) = c == b'.'

abbrev is_verdict_file : DirEntry → Bool
is_verdict_file e = e.is_file && not (starts_with_dot e.name) && ends_with (codes ".json") e.name

-- The key of `merged`.
abbrev pub key_of : Verdict → Text × Text
key_of v = (lower v.producer, lower v.server)

abbrev pub key_eq : Text × Text → Text × Text → Bool
key_eq (p, s) (q, t) = text_eq p q && text_eq s t

abbrev pub is_newer : Verdict → Option Verdict → Bool
is_newer v none = true
is_newer v (some w) = ltb w.observed_epoch v.observed_epoch

-- The newest observation of a producer and a server stays.
unfoldable pub merge : Verdict → Dict (Text × Text) Verdict → Dict (Text × Text) Verdict
merge v d = if is_newer v (lookup key_eq (key_of v) d) then insert key_eq (key_of v) v d else d

-- Newest first, then by producer and by server.
abbrev pub verdict_le : Verdict → Verdict → Bool
verdict_le v w =
    if not (v.observed_epoch == w.observed_epoch)
    then ltb w.observed_epoch v.observed_epoch
    else if not (text_eq (lower v.producer) (lower w.producer))
    then text_le (lower v.producer) (lower w.producer)
    else text_le (lower v.server) (lower w.server)

abbrev pub since_1970 : Option ℤ → Option ℕ
since_1970 (some (pos n)) = some n
since_1970 _ = none

module _ (c : Codec) (cfg : Lease) (now : ℕ) where
  -- `parse_verdict(payload, cfg, now_epoch)`
  abbrev pub parse_payload : Text → Parsed
  parse_payload = parse_verdict (λ t. since_1970 (c.strptime t)) cfg now c.loads

  abbrev active_of : Parsed → Option Verdict
  active_of (active v) = some v
  active_of _ = none

  -- An entry that is no verdict file, cannot be read, is invalid or is stale has none.
  unfoldable pub verdict_in : DirEntry → Option Verdict
  verdict_in e =
      if not (is_verdict_file e)
      then none
      else e.content >>=? λ (t : Text). active_of (parse_payload (take (suc verdict_max_bytes) t))

  abbrev pub merge_entry : Option Verdict → Dict (Text × Text) Verdict → Dict (Text × Text) Verdict
  merge_entry none d = d
  merge_entry (some v) d = merge v d

  unfoldable pub merge_all : List DirEntry → Dict (Text × Text) Verdict → Dict (Text × Text) Verdict
  merge_all [] d = d
  merge_all (e ∷ es) d = merge_all es (merge_entry (verdict_in e) d)

  -- `load_active_verdicts`, from the entries sorted by name; none where the directory cannot be read.
  unfoldable pub load_active_verdicts : Option (List DirEntry) → List Verdict
  load_active_verdicts none = []
  load_active_verdicts (some entries) = sort_by verdict_le (values (merge_all entries []))

-- The document that persist_verdict writes, its keys sorted.
abbrev pub persisted_json : Verdict → Text → Json
persisted_json v observed_at = obj (
    field (codes "bad_windows") (int (pos v.bad_windows)) (
      field (codes "loss_pct") (float (finite (pos v.loss_pct))) (
        field (codes "observed_at") (str observed_at) (
          field (codes "producer") (str v.producer) (
            field (codes "schema") (int (pos 1)) (
              field (codes "server") (str v.server) (
                field (codes "source") (str (codes "vpn-agent"))
                  (field (codes "ttl_seconds") (int (pos v.ttl_seconds)) end))))))))

-- `verdict_filename`, with the digest as a parameter.
abbrev pub verdict_filename : (Text → Text) → Text → Text → Text
verdict_filename digest producer server =
    take 24 (digest (producer ++ zero ∷ lower server)) ++ codes ".json"

-- The files of the directory by their names; a write that fails leaves it as it was, and the path
-- is returned where it does not.
unfoldable pub persist_verdict :
    (Text → Text)
    → (Json → Text)
    → Bool
    → Verdict
    → Text
    → Dict Text Text
    → Option Text × Dict Text Text
persist_verdict digest dumps ok v observed_at files =
    let name = verdict_filename digest v.producer v.server in
    if ok
    then (some name, insert text_eq name (dumps (persisted_json v observed_at)) files)
    else (none, files)
