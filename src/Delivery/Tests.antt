-- ===== src/Delivery/Tests.antt =====
-- A verdict on its way from the agent into the ranking of the scorer.
use epaflix.Base.{
  ◌*◌, ◌≤◌, ◌≡◌, refl, ◌⊎◌, true, false, some, [], ◌∷◌, List, arith, length, map, All, Text, codes,
  text_eq, lower, insert, lookup, lstrip, rstrip,
}
use epaflix.Base.Int.{pos}
use epaflix.Base.Json.{one, Float, finite}
use epaflix.Base.Codec.Tokens.{tokens, tokens-IsFaithful}
use epaflix.Agent.Publisher.{Publisher, submit}
use epaflix.Ranking.Check.{is_identity}
use epaflix.Scorer.Rows.{Row, Verdict}
use epaflix.Scorer.Ejection.{apply_ejections, member, server_key}
use epaflix.Scorer.Ejection.Bounds.{IsFull}
use epaflix.Scorer.Ejection.Choice.{IsWithout}
use epaflix.Verdicts.Publish.{Producer, verdict_path, publish_bad_server}
use epaflix.Verdicts.Read.{Lease}
use epaflix.Verdicts.Store.{load_active_verdicts}
use epaflix.Delivery.Same.{mounted, write_bad_server-post_bad_server}
use epaflix.Delivery.{Intake, write_bad_server, post_bad_server, intake_of, listing}
use epaflix.Delivery.Ejected.{stamped, publication_of, publish_bad_server-apply_ejections}

abbrev producer : Producer
producer = record {
  verdict_producer_id = codes "qbt-0";
  verdict_dir = codes "/verdicts";
  verdict_ttl_seconds = 21_600;
  bad_windows = 2;
}

abbrev lease : Lease
lease = record { verdict_max_ttl_seconds = 21_600; verdict_future_skew_seconds = 300 }

abbrev intake : Intake
intake = record { intake_path = codes "/verdict"; intake_token = codes "secret" }

abbrev digest : Text → Text
digest t = codes "0123456789abcdef0123456789abcdef"

abbrev idle : Publisher
idle = record {
  max_pending = 128;
  pending = [];
  active = false;
  logging = false;
  stopping = false;
  started = false;
}

abbrev queued : Publisher
queued = record idle {
  pending =
      (
        verdict_path digest tokens.dumps tokens.strftime producer (codes "Alpha"),
        publication_of digest tokens producer (1000 * one) (codes "Alpha") 7_500_000,
      )
      ∷ [];
  started = true;
}

published :
    publish_bad_server digest tokens.dumps tokens.strftime producer
      (1000 * one)
      (codes "Alpha")
      (finite (pos 7_500_000))
      true
      idle
    ≡ (true, queued)
unfolding publish_bad_server is_identity submit lookup insert text_eq
published = refl

abbrev row : Text → Row
row name = record {
  name = name;
  entry_ip = codes "192.0.2.1";
  loss_pct = finite (pos 0);
  rtt_ms = finite (pos (12 * one));
  load = pos 20;
  bw_max = pos 20000;
  headroom = pos 15000;
}

abbrev ranking : List Row
ranking = row (codes "Alpha") ∷ row (codes "Beta") ∷ []

abbrev half : Float
half = finite (pos 500_000)

publish_bad_server-apply_ejections_example :
    let posted =
      post_bad_server
        (intake_of digest tokens lease (1010 * one) true (codes "secret"))
        intake
        (publication_of digest tokens producer (1000 * one) (codes "Alpha") 7_500_000)
        [] in
    let e =
      apply_ejections ranking
        (load_active_verdicts tokens lease (1500 * one) (some (listing posted.1)))
        half in
    (posted.0 ≡ true)
    × (((member (lower (codes "Alpha")) (map server_key e.ejected) ≡ true)
          × IsWithout (lower (codes "Alpha")) e.kept)
        ⊎ (IsFull half (length ranking) (length e.ejected)
            × All (λ (v : Verdict). stamped (1000 * one) ≤ v.observed_epoch) e.ejected))
unfolding tokens lstrip rstrip text_eq lower
publish_bad_server-apply_ejections_example =
    publish_bad_server-apply_ejections digest tokens producer intake lease (1000 * one) (1010 * one)
      (1500 * one) 7_500_000 (codes "Alpha") true idle queued [] ranking half tokens-IsFaithful
      published (omega arith) (omega arith) (omega arith) (omega arith) (omega arith)
      (omega arith, omega arith) (omega arith, omega arith) refl (λ e. cc e) refl refl refl

write_bad_server-post_bad_server_example :
    let d = publication_of digest tokens producer (1000 * one) (codes "Alpha") 7_500_000 in
    let posted =
      post_bad_server
        (intake_of digest tokens lease (1010 * one) true (codes "secret"))
        intake
        d
        [] in
    write_bad_server true d (mounted (codes "/verdicts") [])
    ≡ (posted.0, mounted (codes "/verdicts") posted.1)
unfolding tokens lstrip rstrip
write_bad_server-post_bad_server_example =
    write_bad_server-post_bad_server digest tokens producer intake lease (1000 * one) (1010 * one)
      7_500_000 (codes "Alpha") true idle queued [] tokens-IsFaithful published (omega arith)
      (omega arith) (omega arith) (omega arith) (omega arith) (omega arith, omega arith) refl
      (λ e. cc e) refl
