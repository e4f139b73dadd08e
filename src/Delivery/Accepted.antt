-- ===== src/Delivery/Accepted.antt =====
-- The scorer takes what the agent posts.
use epaflix.Base.{
  take_all, ℕ, ◌≤◌, ◌≡◌, ◌≢◌, refl, true, false, none, some, [], ◌∷◌, ◌++◌, arith, length, is_empty,
  Text, codes, text_eq, text_eq_refl, trim, Dict, insert, inr,
}
use epaflix.Base.Int.{pos}
use epaflix.Base.Codec.{Codec}
use epaflix.Agent.Publisher.{Publication}
use epaflix.Scorer.Rows.{Verdict}
use epaflix.Scorer.Intake.{gate, behind, read_body, store, after_body, after_gate, do_post}
use epaflix.Verdicts.Read.{Lease, active, verdict_max_bytes}
use epaflix.Verdicts.Store.{parse_payload, persist_verdict, persisted_json, verdict_filename}
use epaflix.Delivery.{Intake, request_of, post_bad_server, intake_of}

not_empty : (t : Text) → t ≢ [] → is_empty t ≡ false
not_empty [] h = elim (h refl) [ ]
not_empty (c ∷ t) h = refl

bearer : (token : Text) → behind (codes "Bearer ") (codes "Bearer " ++ token) ≡ some token
unfolding behind
bearer token = refl

request-gate :
    (cfg : Intake) (d : Publication)
    → cfg.intake_path ≡ codes "/verdict"
    → cfg.intake_token ≢ []
    → trim cfg.intake_token ≡ cfg.intake_token
    → gate cfg.intake_token (request_of cfg d) ≡ none
unfolding gate
request-gate cfg d path token trimmed =
    let open_gate : gate cfg.intake_token (request_of cfg d) ≡ none =
      rw (bearer cfg.intake_token, trimmed)
        (ground (
          arith,
          path,
          text_eq_refl cfg.intake_path,
          not_empty cfg.intake_token token,
          text_eq_refl cfg.intake_token,
        )) in
    open_gate

whole_body :
    (payload : Text)
    → 1 ≤ length payload
    → length payload ≤ verdict_max_bytes
    → read_body (pos (length payload)) payload ≡ inr payload
unfolding read_body
whole_body payload some_bytes fits = rw (take_all payload) (ground (arith, some_bytes, fits))

-- A post is answered by 202, and the verdict's file is in the directory.
pub post_bad_server-stored :
    (digest : Text → Text) (c : Codec) (lease : Lease) (now : ℕ) (cfg : Intake) (d : Publication)
    (v : Verdict) (files : Dict Text Text)
    → cfg.intake_path ≡ codes "/verdict"
    → cfg.intake_token ≢ []
    → trim cfg.intake_token ≡ cfg.intake_token
    → 1 ≤ length d.payload
    → length d.payload ≤ verdict_max_bytes
    → parse_payload c lease now d.payload ≡ active v
    → post_bad_server (intake_of digest c lease now true cfg.intake_token) cfg d files ≡ (
      true,
      insert text_eq
          (verdict_filename digest v.producer v.server)
          (c.dumps (persisted_json v v.observed_at))
          files,
    )
unfolding post_bad_server do_post after_gate after_body store persist_verdict
post_bad_server-stored digest c lease now cfg d v files path token trimmed some_bytes fits e =
    rw (request-gate cfg d path token trimmed, whole_body d.payload some_bytes fits, e) refl
