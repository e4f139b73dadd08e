-- ===== src/Delivery.antt =====
-- How a verdict comes from the agent to the scorer: Agent._post_bad_server and
-- _write_bad_server of images/airvpn-bluetit/agent.py, with urlopen as a parameter, and the listing of the directory in
-- load_active_verdicts of images/vpn-picker/vpn_picker.py.
mod Accepted
mod Loaded
pub mod Ejected
pub mod Same
mod Tests
use epaflix.Base.{
  ℕ, Bool, true, some, ◌∷◌, ◌++◌, ◌==◌, List, map, Text, codes, length, Dict, sort_by,
  if◌then◌else◌, false, insert, text_eq,
}
use epaflix.Base.Int.{pos}
use epaflix.Base.Codec.{Codec}
use epaflix.Agent.Publisher.{Publication}
use epaflix.Scorer.Rows.{text_le}
use epaflix.Scorer.Intake.{Request, length_of, status_of, do_post}
use epaflix.Verdicts.Read.{Lease}
use epaflix.Verdicts.Store.{DirEntry}

-- The path in the agent's intake_url, and its intake_token.
pub record Intake : Type 0 where
  pub intake_path : Text
  pub intake_token : Text

-- The request, with the length that the client library puts in.
abbrev pub request_of : Intake → Publication → Request
request_of cfg d = record {
  path = cfg.intake_path;
  authorization = some (codes "Bearer " ++ cfg.intake_token);
  content_length = length_of (pos (length d.payload));
  stream = d.payload;
}

-- `_post_bad_server`: whether it returns. Any other status is raised.
unfoldable pub post_bad_server {ℓ} :
    {S : Type ℓ} → (Request → S → ℕ × S) → Intake → Publication → S → Bool × S
post_bad_server urlopen cfg d s =
    let answered = urlopen (request_of cfg d) s in (answered.0 == 202, answered.1)

-- `_write_bad_server`, on the files of the shared storage by their paths: the file is replaced as a
-- whole, or an exception leaves all as it was.
unfoldable pub write_bad_server : Bool → Publication → Dict Text Text → Bool × Dict Text Text
write_bad_server ok d files =
    if ok then (true, insert text_eq d.path d.payload files) else (false, files)

-- The scorer's end of it.
abbrev pub intake_of :
    (Text → Text) → Codec → Lease → ℕ → Bool → Text → Request → Dict Text Text → ℕ × Dict Text Text
intake_of digest c cfg now write_ok token r files =
    let done = do_post digest c cfg now write_ok token r files in (status_of done.0, done.1)

abbrev pub by_name : Text × Text → Text × Text → Bool
by_name (a, _) (b, _) = text_le a b

abbrev pub entry_of : Text × Text → DirEntry
entry_of (name, content) = record { name = name; is_file = true; content = some content }

-- `sorted(scan, key=lambda e: e.name)`
unfoldable pub listing : Dict Text Text → List DirEntry
listing files = map entry_of (sort_by by_name files)
