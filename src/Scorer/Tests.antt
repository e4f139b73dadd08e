-- ===== src/Scorer/Tests.antt =====
-- The scorer's parts at concrete values.
use epaflix.Base.{
  lstrip, rstrip, ◌≡◌, ◌≢◌, refl, true, false, some, [], ◌∷◌, Text, codes, sort_by, text_eq, lower,
  ◌↔◌, ◌⊎◌, insert, lookup, inr,
}
use epaflix.Base.Int.{pos}
use epaflix.Base.Json.{Float, finite, one}
use epaflix.Base.Codec.Tokens.{tokens}
use epaflix.Scorer.Rows.{Row, Verdict}
use epaflix.Scorer.Journal.{is_ranked_subset, positions, in_order, row_eq}
use epaflix.Scorer.Journal.Equal.{Sublist}
use epaflix.Scorer.Journal.Subset.{is_ranked_subset-Sublist}
use epaflix.Scorer.Probe.{rank_survivors}
use epaflix.Ranking.Check.{is_identity, is_ipv4}
use epaflix.Ranking.Check.Laws.{is_valid, fresh_names}
use epaflix.Verdicts.Read.{Lease, active, parse_verdict, parse_object}
use epaflix.Verdicts.Store.{parse_payload, persisted_json, verdict_filename, persist_verdict}
use epaflix.Scorer.Intake.{
  Request, accepted, invalid_token, length_of, do_post, gate, behind, after_gate, read_body,
  after_body, store,
}
use epaflix.Scorer.Intake.Accepted.{IsAuthorised, do_post-Stored}

abbrev row : Text → Float → Row
row name loss = record {
  name = name;
  entry_ip = codes "10.0.0.1";
  loss_pct = loss;
  rtt_ms = finite (pos 20_000_000);
  load = pos 31;
  bw_max = pos 20_000;
  headroom = pos 13_800;
}

abbrev alpha : Row
alpha = row (codes "Alpha") (finite (pos 300_000))

abbrev beta : Row
beta = row (codes "Beta") (finite (pos 0))

abbrev gamma : Row
gamma = row (codes "Gamma") (finite (pos 5_000_000))

ranked : rank_survivors (alpha ∷ gamma ∷ beta ∷ []) (finite (pos one)) ≡ beta ∷ alpha ∷ []
unfolding rank_survivors sort_by
ranked = refl

out_of_order : is_ranked_subset (beta ∷ alpha ∷ []) (alpha ∷ gamma ∷ beta ∷ []) ≡ false
unfolding is_ranked_subset text_eq lower positions insert lookup in_order row_eq
out_of_order = refl

is_ranked_subset-Sublist_example :
    (is_ranked_subset (alpha ∷ beta ∷ []) (alpha ∷ gamma ∷ beta ∷ []) ≡ true) ↔ (
      (fresh_names [] (alpha ∷ gamma ∷ beta ∷ []) ≡ true)
      × Sublist (alpha ∷ beta ∷ []) (alpha ∷ gamma ∷ beta ∷ []))
unfolding is_valid is_identity is_ipv4
is_ranked_subset-Sublist_example =
    is_ranked_subset-Sublist (alpha ∷ beta ∷ []) (alpha ∷ gamma ∷ beta ∷ []) refl

abbrev lease : Lease
lease = record { verdict_max_ttl_seconds = 21_600; verdict_future_skew_seconds = 300 }

abbrev rejected : Verdict
rejected = record {
  producer = codes "qbt-0";
  server = codes "Alpha";
  observed_at = 1000 ∷ [];
  observed_epoch = 1_000_000_000;
  ttl_seconds = 21_600;
  loss_pct = 7_500_000;
  bad_windows = 2;
}

written : Text
unfolding tokens
written = tokens.dumps (persisted_json rejected rejected.observed_at)

abbrev request : Text → Request
request token = record {
  path = codes "/verdict";
  authorization = some token;
  content_length = length_of (pos 10_000);
  stream = written;
}

abbrev digest : Text → Text
digest t = codes "0123456789abcdef0123456789abcdef"

refused :
    do_post digest tokens lease 1_500_000_000 true
      (codes "secret")
      (request (codes "Bearer guess"))
      []
    ≡ (invalid_token, [])
unfolding do_post gate behind lstrip rstrip text_eq after_gate
refused = refl

do_post-Stored_example :
    let (answer, left) =
      do_post digest tokens lease 1_500_000_000 true
        (codes "secret")
        (request (codes "Bearer secret "))
        [] in
    ((answer ≢ accepted) × (left ≡ []))
    ⊎ ((answer ≡ accepted)
        × IsAuthorised (codes "secret") (request (codes "Bearer secret "))
        × ((v : Verdict) × (body : Text) × (read_body (pos 10_000) written ≡ inr body)
            × (parse_payload tokens lease 1_500_000_000 body ≡ active v)
            × (left
                ≡ insert text_eq
                    (verdict_filename digest v.producer v.server)
                    (tokens.dumps (persisted_json v v.observed_at))
                    [])))
do_post-Stored_example =
    do_post-Stored digest tokens lease 1_500_000_000 true (codes "secret")
      (request (codes "Bearer secret ")) []

taken :
    (do_post digest tokens lease 1_500_000_000 true
      (codes "secret")
      (request (codes "Bearer secret "))
      []).0
    ≡ accepted
unfolding do_post gate behind lstrip rstrip text_eq after_gate read_body after_body store
    persist_verdict parse_verdict parse_object tokens is_identity written insert
taken = refl
