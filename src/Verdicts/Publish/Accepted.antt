-- ===== src/Verdicts/Publish/Accepted.antt =====
-- What the agent publishes is what the scorer acts on.
use epaflix.Base.{
  ℕ, ◌+◌, ◌*◌, ◌≤◌, ◌≡◌, Bool, true, Option, some, arith, Text, text_eq, text_eq_iff, length,
  lookup, lookup-insert,
}
use epaflix.Base.Int.{pos}
use epaflix.Base.Json.{Json, one, Float, finite}
use epaflix.Scorer.Rows.{Verdict}
use epaflix.Agent.Publisher.{Publisher, Publication, submit}
use epaflix.Verdicts.Read.{Lease, active, parse_object, parse_verdict, verdict_max_bytes}
use epaflix.Verdicts.Read.Sound.{under_limit}
use epaflix.Verdicts.Publish.{
  Producer, verdict_json, verdict_path, publication, publish_bad_server, is_publishable,
}

-- The verdict that a scorer should have of a bad server.
abbrev pub verdict_of : Producer → Text → Text → ℕ → ℕ → Verdict
verdict_of cfg server observed_at epoch loss = record {
  producer = cfg.verdict_producer_id;
  server = server;
  observed_at = observed_at;
  observed_epoch = epoch;
  ttl_seconds = cfg.verdict_ttl_seconds;
  loss_pct = loss;
  bad_windows = cfg.bad_windows;
}

read_back :
    (cfg : Producer) (lease : Lease) (strptime : Text → Option ℕ) (server observed_at : Text)
    (epoch loss now : ℕ)
    → is_publishable cfg server (finite (pos loss)) ≡ true
    → strptime observed_at ≡ some epoch
    → 1 ≤ cfg.bad_windows
    → cfg.bad_windows ≤ 1000
    → cfg.verdict_ttl_seconds ≤ lease.verdict_max_ttl_seconds
    → epoch ≤ now + lease.verdict_future_skew_seconds * one
    → now ≤ epoch + cfg.verdict_ttl_seconds * one
    → parse_object strptime lease now (verdict_json cfg server observed_at (finite (pos loss)))
      ≡ active (verdict_of cfg server observed_at epoch loss)
unfolding parse_object text_eq
read_back cfg lease strptime server observed_at epoch loss now ok e w1 w2 t1 t2 t3 = ground arith

submit-taken :
    (can_start : Bool) (d : Publication) (p q : Publisher)
    → submit can_start d p ≡ (true, q)
    → lookup text_eq d.path q.pending ≡ some d
unfolding submit
submit-taken can_start d p q h =
    ground (
      arith,
      lookup-insert text_eq text_eq_iff d.path d.path d p.pending,
      text_eq_iff d.path d.path,
    )

publish-taken :
    (digest : Text → Text) (dumps : Json → Text) (strftime : ℕ → Text) (cfg : Producer) (now : ℕ)
    (server : Text) (loss : Float) (can_start : Bool) (p q : Publisher)
    → publish_bad_server digest dumps strftime cfg now server loss can_start p ≡ (true, q)
    → (is_publishable cfg server loss ≡ true)
      × (submit can_start (publication digest dumps strftime cfg now server loss) p ≡ (true, q))
unfolding publish_bad_server
publish-taken digest dumps strftime cfg now server loss can_start p q h = ground arith

-- If the agent's publication of a bad server is accepted, the document is pending under the path of
-- that server, and the scorer that gets it has an active verdict with the server, the producer, the
-- loss and the count of windows that the agent put in. Conditions: the payload is read back as it
-- was written and fits the scorer's limit, the stamp is read as `epoch`, the agent's count of bad
-- windows is within 1 and 1000, the scorer allows the agent's time to live, and its clock is neither
-- further behind the stamp than its allowance nor past the lease.
pub publish_bad_server-parse_verdict :
    (digest : Text → Text) (dumps : Json → Text) (loads : Text → Option Json) (strftime : ℕ → Text)
    (strptime : Text → Option ℕ) (cfg : Producer) (lease : Lease) (now epoch later loss : ℕ)
    (server : Text) (can_start : Bool) (p q : Publisher)
    → publish_bad_server digest dumps strftime cfg now server (finite (pos loss)) can_start p
      ≡ (true, q)
    → loads (dumps (verdict_json cfg server (strftime now) (finite (pos loss))))
      ≡ some (verdict_json cfg server (strftime now) (finite (pos loss)))
    → length (dumps (verdict_json cfg server (strftime now) (finite (pos loss))))
      ≤ verdict_max_bytes
    → strptime (strftime now) ≡ some epoch
    → 1 ≤ cfg.bad_windows
    → cfg.bad_windows ≤ 1000
    → cfg.verdict_ttl_seconds ≤ lease.verdict_max_ttl_seconds
    → epoch ≤ later + lease.verdict_future_skew_seconds * one
    → later ≤ epoch + cfg.verdict_ttl_seconds * one
    → let d = publication digest dumps strftime cfg now server (finite (pos loss)) in
      (lookup text_eq (verdict_path digest dumps strftime cfg server) q.pending ≡ some d)
      × (parse_verdict strptime lease later loads d.payload
          ≡ active (verdict_of cfg server (strftime now) epoch loss))
unfolding parse_verdict
publish_bad_server-parse_verdict digest dumps loads strftime strptime cfg lease now epoch later loss
      server can_start p q h decodes fits e w1 w2 t1 t2 t3 =
    let (ok, taken) =
      publish-taken digest dumps strftime cfg now server (finite (pos loss)) can_start p q h in
    (
      submit-taken can_start _ p q taken,
      rw decodes (
          under_limit
            (length (publication digest dumps strftime cfg now server (finite (pos loss))).payload)
            _ _ fits
            (read_back cfg lease strptime server (strftime now) epoch loss later ok e w1 w2 t1 t2
              t3)),
    )
