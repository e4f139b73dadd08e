-- ===== src/Scorer/Intake.antt =====
-- Handler.do_get and do_post of images/vpn-picker/vpn_picker.py. A request has its path as urlparse
-- gives it, its headers and the bytes that follow; the text of the metrics is a parameter. Only
-- white space of ASCII is stripped from a token. Log lines are left out.
pub mod Accepted
use epaflix.Base.{
  ℕ, Bool, true, false, not, ◌&&◌, ◌||◌, Option, none, some, List, [], ◌∷◌, ◌++◌, ltb, leb, ◌==◌,
  if◌then◌else◌, take, is_empty, Text, codes, text_eq, trim, Dict, ◌>>=?◌, ◌⊎◌, inl, inr,
}
use epaflix.Base.Int.{ℤ, pos, negsuc}
use epaflix.Base.Codec.{Codec}
use epaflix.Scorer.Rows.{Verdict}
use epaflix.Scorer.Cycle.{State}
use epaflix.Verdicts.Read.{Lease, Parsed, invalid, stale, active, verdict_max_bytes}
use epaflix.Verdicts.Store.{parse_payload, persist_verdict}

-- The header Content-Length after int().
pub data ContentLength : Type 0 where
  absent not_int : ContentLength
  length_of : ℤ → ContentLength

pub record Request : Type 0 where
  pub path : Text
  pub authorization : Option Text
  pub content_length : ContentLength
  pub stream : Text

-- The answers of do_post.
pub data Answer : Type 0 where
  not_found intake_disabled missing_token invalid_token bad_length too_large : Answer
  invalid_verdict stale_verdict not_persisted accepted : Answer

abbrev pub status_of : Answer → ℕ
status_of not_found = 404
status_of intake_disabled = 503
status_of missing_token = 401
status_of invalid_token = 401
status_of bad_length = 400
status_of too_large = 413
status_of invalid_verdict = 400
status_of stale_verdict = 400
status_of not_persisted = 500
status_of accepted = 202

-- The text behind a prefix: `startswith` and the cut.
unfoldable pub behind : Text → Text → Option Text
behind [] t = some t
behind (a ∷ p) [] = none
behind (a ∷ p) (c ∷ t) = if a == c then behind p t else none

-- `presented`; a header without the prefix has none.
abbrev pub presented : Option Text → Option Text
presented none = none
presented (some header) = behind (codes "Bearer ") header >>=? λ (t : Text). some (trim t)

-- The tests before the body is read.
unfoldable pub gate : Text → Request → Option Answer
gate intake_token r =
    if not (text_eq r.path (codes "/verdict"))
    then some not_found
    else if is_empty intake_token
    then some intake_disabled
    else elim (presented r.authorization) [
      | none ↦ some missing_token
      | some t ↦ if is_empty t || not (text_eq t intake_token) then some invalid_token else none
    ]

-- `length_int`
abbrev pub body_length : ContentLength → ℤ
body_length absent = pos 0
body_length not_int = negsuc 0
body_length (length_of n) = n

unfoldable pub read_body : ℤ → Text → Answer ⊎ Text
read_body (negsuc n) stream = inl bad_length
read_body (pos n) stream =
    if leb n 0
    then inl bad_length
    else if ltb verdict_max_bytes n
    then inl too_large
    else inr (take n stream)

-- The files of the verdict directory, and whether a write succeeds.
module _ (digest : Text → Text) (c : Codec) (cfg : Lease) (now : ℕ) (write_ok : Bool) where
  abbrev pub finish : Verdict → Option Text × Dict Text Text → Answer × Dict Text Text
  finish v (none, files) = (not_persisted, files)
  finish v (some name, files) = (accepted, files)

  unfoldable pub store : Parsed → Dict Text Text → Answer × Dict Text Text
  store invalid files = (invalid_verdict, files)
  store stale files = (stale_verdict, files)
  store (active v) files = finish v (persist_verdict digest c.dumps write_ok v v.observed_at files)

  unfoldable pub after_body : Answer ⊎ Text → Dict Text Text → Answer × Dict Text Text
  after_body (inl a) files = (a, files)
  after_body (inr body) files = store (parse_payload c cfg now body) files

  unfoldable pub after_gate : Option Answer → Request → Dict Text Text → Answer × Dict Text Text
  after_gate (some a) r files = (a, files)
  after_gate none r files = after_body (read_body (body_length r.content_length) r.stream) files

  -- `do_post`
  unfoldable pub do_post : Text → Request → Dict Text Text → Answer × Dict Text Text
  do_post intake_token r files = after_gate (gate intake_token r) r files

-- The answers of do_get: a status and a body.
pub record Page : Type 0 where
  pub status : ℕ
  pub body : Text

abbrev ranking_page : Option Text → Page
ranking_page none = record { status = 503; body = codes "no ranking yet\n" }
ranking_page (some payload) = record { status = 200; body = payload }

unfoldable pub do_get : (State → Text) → Text → State → Page
do_get render_metrics path st =
    if text_eq path (codes "/metrics")
    then record { status = 200; body = render_metrics st }
    else if text_eq path (codes "/") || text_eq path (codes "/ranking.json")
    then ranking_page st.payload
    else if text_eq path (codes "/healthz")
    then record { status = 200; body = codes "ok\n" }
    else record { status = 404; body = codes "not found\n" }
