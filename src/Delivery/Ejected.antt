-- ===== src/Delivery/Ejected.antt =====
-- From the agent's verdict to the ranking without the server.
use epaflix.Base.{
  ℕ, ◌+◌, ◌*◌, ◌/◌, ◌≤◌, ◌≡◌, ◌≢◌, ap, sym, subst, ◌⊎◌, Bool, true, false, any, some, [], List,
  length, map, All, Text, codes, trim, lower, Dict,
}
use epaflix.Base.Int.{pos}
use epaflix.Base.Json.{one, Float, finite}
use epaflix.Base.Codec.{Codec, IsFaithful}
use epaflix.Agent.Publisher.{Publisher, Publication}
use epaflix.Scorer.Rows.{Row, Verdict}
use epaflix.Scorer.Ejection.{apply_ejections, member, row_key, server_key}
use epaflix.Scorer.Ejection.Choice.{apply_ejections-rejected, IsWithout, names}
use epaflix.Scorer.Ejection.Bounds.{IsFull}
use epaflix.Verdicts.Publish.{Producer, publication, publish_bad_server}
use epaflix.Verdicts.Publish.Accepted.{verdict_of, publish_bad_server-parse_verdict}
use epaflix.Verdicts.Read.{Lease, active, verdict_max_bytes}
use epaflix.Verdicts.Store.{
  parse_payload, since_1970, starts_with_dot, verdict_filename, load_active_verdicts,
}
use epaflix.Delivery.{Intake, post_bad_server, intake_of, listing}
use epaflix.Delivery.Accepted.{post_bad_server-stored}
use epaflix.Delivery.Loaded.{load_active_verdicts-written}

-- The moment that a stamp in whole seconds stands for.
abbrev pub stamped : ℕ → ℕ
stamped now = now / one * one

-- What the agent hands to its publisher.
abbrev pub publication_of : (Text → Text) → Codec → Producer → ℕ → Text → ℕ → Publication
publication_of digest c cfg now server loss =
    publication digest c.dumps c.strftime cfg now server (finite (pos loss))

abbrev pub payload_of : (Text → Text) → Codec → Producer → ℕ → Text → ℕ → Text
payload_of digest c cfg now server loss = (publication_of digest c cfg now server loss).payload

-- The scorer's clock is within the lease of a verdict of `now`, its allowance included.
abbrev pub IsWithin : Producer → Lease → ℕ → ℕ → Type 0
IsWithin cfg lease now t =
    (stamped now ≤ t + lease.verdict_future_skew_seconds * one)
    × (t ≤ stamped now + cfg.verdict_ttl_seconds * one)

-- What the scorer reads in an accepted publication.
pub received :
    (digest : Text → Text) (c : Codec) (cfg : Producer) (lease : Lease) (now t loss : ℕ)
    (server : Text) (can_start : Bool) (p q : Publisher)
    → IsFaithful c
    → publish_bad_server digest c.dumps c.strftime cfg now server (finite (pos loss)) can_start p
      ≡ (true, q)
    → length (payload_of digest c cfg now server loss) ≤ verdict_max_bytes
    → 1 ≤ cfg.bad_windows
    → cfg.bad_windows ≤ 1000
    → cfg.verdict_ttl_seconds ≤ lease.verdict_max_ttl_seconds
    → IsWithin cfg lease now t
    → parse_payload c lease t (payload_of digest c cfg now server loss)
      ≡ active (verdict_of cfg server (c.strftime now) (stamped now) loss)
received digest c cfg lease now t loss server can_start p q faithful h fits w1 w2 ttl w =
    (publish_bad_server-parse_verdict digest c.dumps c.loads c.strftime
      (λ u. since_1970 (c.strptime u)) cfg lease now (stamped now) t loss server can_start p q h
      (faithful.reads_back _) fits (ap since_1970 (faithful.stamps_back now)) w1 w2 ttl w.0 w.1).1

-- Once the agent's publication of a ranked server is accepted, its post to the scorer returns, whatever else lies in the directory; and as long as
-- the lease runs, a scorer that then loads the directory acts on a verdict for the server, and no row
-- that it keeps has the server's name, up to case; or the verdicts that it acts on are all at least as
-- new, and one more would leave no row or be beyond its configured fraction. Conditions: both use one faithful codec
-- and the same token, which is not empty and has no white space around it, the address is the
-- intake's, the payload is not empty and fits the scorer's limit, the agent's count of bad windows
-- is within 1 and 1000, the scorer allows the agent's time to live, its write succeeds, its clock is
-- within the lease when the verdict comes and when it is loaded, and the name of the verdict's file
-- does not begin with a dot.
pub publish_bad_server-apply_ejections :
    (digest : Text → Text) (c : Codec) (cfg : Producer) (intake : Intake) (lease : Lease)
    (now later again loss : ℕ) (server : Text) (can_start : Bool) (p q : Publisher)
    (files : Dict Text Text) (survivors : List Row) (f : Float)
    → IsFaithful c
    → publish_bad_server digest c.dumps c.strftime cfg now server (finite (pos loss)) can_start p
      ≡ (true, q)
    → 1 ≤ length (payload_of digest c cfg now server loss)
    → length (payload_of digest c cfg now server loss) ≤ verdict_max_bytes
    → 1 ≤ cfg.bad_windows
    → cfg.bad_windows ≤ 1000
    → cfg.verdict_ttl_seconds ≤ lease.verdict_max_ttl_seconds
    → IsWithin cfg lease now later
    → IsWithin cfg lease now again
    → intake.intake_path ≡ codes "/verdict"
    → intake.intake_token ≢ []
    → trim intake.intake_token ≡ intake.intake_token
    → starts_with_dot (verdict_filename digest cfg.verdict_producer_id server) ≡ false
    → member (lower server) (map row_key survivors) ≡ true
    → let posted =
        post_bad_server
          (intake_of digest c lease later true intake.intake_token)
          intake
          (publication_of digest c cfg now server loss)
          files in
      let e =
        apply_ejections survivors
          (load_active_verdicts c lease again (some (listing posted.1)))
          f in
      (posted.0 ≡ true)
      × (((member (lower server) (map server_key e.ejected) ≡ true)
            × IsWithout (lower server) e.kept)
          ⊎ (IsFull f (length survivors) (length e.ejected)
              × All (λ (v : Verdict). stamped now ≤ v.observed_epoch) e.ejected))
publish_bad_server-apply_ejections digest c cfg intake lease now later again loss server can_start p
      q files survivors f faithful h some_bytes fits w1 w2 ttl in_time in_time' path token trimmed
      visible ranked =
    let v : Verdict = verdict_of cfg server (c.strftime now) (stamped now) loss in
    let d = publication digest c.dumps c.strftime cfg now server (finite (pos loss)) in
    let read_at = λ (t : ℕ).
      received digest c cfg lease now t loss server can_start p q faithful h fits w1 w2 ttl in
    let stored =
      post_bad_server-stored digest c lease later intake d v files path token trimmed some_bytes
        fits (read_at later in_time) in
    let loaded =
      load_active_verdicts-written c lease again v d.payload fits (read_at again in_time') digest
        files visible in
    (
      ap (λ o. o.0) stored,
      apply_ejections-rejected survivors _ f (lower server) (stamped now) ranked (
          subst
            (λ (o : Bool × Dict Text Text).
              any (names (lower server) (stamped now))
                (load_active_verdicts c lease again (some (listing o.1)))
              ≡ true)
            (sym stored) loaded),
    )
