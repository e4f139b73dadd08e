-- ===== src/Verdicts/Store/Persist.antt =====
-- What persist_verdict writes is read back as the same verdict.
use epaflix.Base.{ℕ, ◌≤◌, ◌≡◌, Option, arith, Text, text_eq, length}
use epaflix.Base.Codec.{Codec, IsFaithful}
use epaflix.Scorer.Rows.{Verdict}
use epaflix.Verdicts.Read.{Lease, active, parse_object, parse_verdict, verdict_max_bytes}
use epaflix.Verdicts.Read.Sound.{IsLeased, under_limit, parse_verdict-IsLeased}
use epaflix.Verdicts.Store.{persisted_json, parse_payload, since_1970}

persisted-active :
    (strptime : Text → Option ℕ) (cfg : Lease) (now : ℕ) (v : Verdict)
    → IsLeased strptime cfg now v
    → parse_object strptime cfg now (persisted_json v v.observed_at) ≡ active v
unfolding parse_object text_eq
persisted-active strptime cfg now v h = ground (
  arith, h.producer, h.server, h.stamp, h.begun, h.ttl_positive, h.ttl_bound, h.running, h.loss,
  h.windows_positive, h.windows_bound,
)

-- A verdict that was accepted from any payload, written by persist_verdict and read at the same
-- time, is the same verdict, as long as what is written fits the limit.
parse_payload-persisted_json :
    (c : Codec) (cfg : Lease) (now : ℕ) (payload : Text) (v : Verdict)
    → IsFaithful c
    → parse_payload c cfg now payload ≡ active v
    → length (c.dumps (persisted_json v v.observed_at)) ≤ verdict_max_bytes
    → parse_payload c cfg now (c.dumps (persisted_json v v.observed_at)) ≡ active v
unfolding parse_verdict
parse_payload-persisted_json c cfg now payload v faithful h fits =
    let leased =
      parse_verdict-IsLeased (λ t. since_1970 (c.strptime t)) cfg now c.loads payload v h in
    under_limit (length (c.dumps (persisted_json v v.observed_at))) _ _ fits (
      rw (faithful.reads_back (persisted_json v v.observed_at))
        (persisted-active (λ t. since_1970 (c.strptime t)) cfg now v leased))
