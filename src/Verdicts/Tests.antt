-- ===== src/Verdicts/Tests.antt =====
-- A verdict on its way from the agent to the scorer.
use epaflix.Base.{
  ℕ, ◌*◌, ◌≡◌, refl, true, false, insert, Option, some, [], ◌∷◌, arith, Text, codes, text_eq,
  lookup,
}
use epaflix.Base.{List, any, count, sort_by, ◌≤◌, lower}
use epaflix.Base.Codec.Tokens.{tokens}
use epaflix.Scorer.Rows.{Verdict}
use epaflix.Verdicts.Read.Sound.{IsLeased, parse_verdict-IsLeased}
use epaflix.Verdicts.Store.{
  DirEntry, persisted_json, parse_payload, load_active_verdicts, merge_all, merge, verdict_in,
  ends_with, since_1970,
}
use epaflix.Verdicts.Store.Newest.{about, about_entry, is_of, load_active_verdicts-newest}
use epaflix.Base.Int.{pos}
use epaflix.Base.Json.{Json, one, finite}
use epaflix.Agent.Publisher.{Publisher, submit}
use epaflix.Ranking.Check.{is_identity}
use epaflix.Verdicts.Read.{Lease, active, stale, parse_object, parse_verdict}
use epaflix.Verdicts.Publish.{Producer, verdict_json, verdict_path, publication, publish_bad_server}
use epaflix.Verdicts.Publish.Accepted.{verdict_of, publish_bad_server-parse_verdict}

abbrev producer : Producer
producer = record {
  verdict_producer_id = codes "qbt-0";
  verdict_dir = codes "/verdicts";
  verdict_ttl_seconds = 21_600;
  bad_windows = 2;
}

abbrev lease : Lease
lease = record { verdict_max_ttl_seconds = 21_600; verdict_future_skew_seconds = 300 }

abbrev idle : Publisher
idle = record {
  max_pending = 128;
  pending = [];
  active = false;
  logging = false;
  stopping = false;
  started = false;
}

-- Stand-ins for the digest, the codec and the calendar on one verdict.
abbrev digest : Text → Text
digest t = codes "0123456789abcdef0123456789abcdef"

abbrev strftime : ℕ → Text
strftime t = codes "1970-01-01T00:16:40Z"

abbrev strptime : Text → Option ℕ
strptime t = some (1000 * one)

abbrev written : Json
written = verdict_json producer (codes "Alpha") (strftime 0) (finite (pos 7_500_000))

abbrev dumps : Json → Text
dumps j = codes "{}"

abbrev loads : Text → Option Json
loads t = some written

abbrev queued : Publisher
queued = record idle {
  pending =
      (
        verdict_path digest dumps strftime producer (codes "Alpha"),
        publication digest dumps strftime producer (1000 * one) (codes "Alpha")
            (finite (pos 7_500_000)),
      )
      ∷ [];
  started = true;
}

accepted_once :
    publish_bad_server digest dumps strftime producer
      (1000 * one)
      (codes "Alpha")
      (finite (pos 7_500_000))
      true
      idle
    ≡ (true, queued)
unfolding publish_bad_server is_identity submit lookup insert text_eq
accepted_once = refl

-- Six hours and a second later it is out of date.
late : parse_verdict strptime lease (22_601 * one) loads (codes "{}") ≡ stale
unfolding parse_verdict parse_object is_identity text_eq
late = refl

publish_bad_server-parse_verdict_example :
    (lookup text_eq (verdict_path digest dumps strftime producer (codes "Alpha")) queued.pending
      ≡ some (
          publication digest dumps strftime producer
            (1000 * one)
            (codes "Alpha")
            (finite (pos 7_500_000))))
    × (parse_verdict strptime lease (1500 * one) loads (codes "{}")
        ≡ active (
            verdict_of producer
              (codes "Alpha")
              (codes "1970-01-01T00:16:40Z")
              (1000 * one)
              7_500_000))
publish_bad_server-parse_verdict_example =
    publish_bad_server-parse_verdict digest dumps loads strftime strptime producer lease
      (1000 * one) (1000 * one) (1500 * one) 7_500_000 (codes "Alpha") true idle queued
      accepted_once refl (omega arith) refl (omega arith) (omega arith) (omega arith) (omega arith)
      (omega arith)

-- A file of the same verdict, a broken one and a temporary one.
abbrev entry : Text → Text → DirEntry
entry name content = record { name = name; is_file = true; content = some content }

abbrev observed : Verdict
observed = record {
  producer = codes "qbt-0";
  server = codes "Alpha";
  observed_at = 1000 ∷ [];
  observed_epoch = 1_000_000_000;
  ttl_seconds = 21_600;
  loss_pct = 7_500_000;
  bad_windows = 2;
}

stored_text : Text
unfolding tokens
stored_text = tokens.dumps (persisted_json observed observed.observed_at)

abbrev entries : List DirEntry
entries =
    entry (codes ".x.json.tmp") stored_text
    ∷ entry (codes "a.json") stored_text
    ∷ entry (codes "b.json") (codes "oops")
    ∷ []

merged : load_active_verdicts tokens lease 1_500_000_000 (some entries) ≡ observed ∷ []
unfolding load_active_verdicts merge_all merge verdict_in ends_with parse_verdict parse_object
    tokens stored_text text_eq lower is_identity insert lookup sort_by
merged = refl

read_active : parse_payload tokens lease 1_500_000_000 stored_text ≡ active observed
unfolding parse_verdict parse_object tokens stored_text text_eq is_identity
read_active = refl

load_active_verdicts-newest_example :
    let vs = load_active_verdicts tokens lease 1_500_000_000 (some entries) in
    (count (is_of (codes "qbt-0", codes "alpha")) vs ≤ 1)
    × (any (about (codes "qbt-0", codes "alpha") 1_000_000_000) vs
        ≡ any
            (λ e.
              about_entry
                (codes "qbt-0", codes "alpha")
                1_000_000_000
                (verdict_in tokens lease 1_500_000_000 e))
            entries)
load_active_verdicts-newest_example =
    load_active_verdicts-newest tokens lease 1_500_000_000 (codes "qbt-0", codes "alpha")
      1_000_000_000 entries

parse_verdict-IsLeased_example :
    IsLeased (λ t. since_1970 (tokens.strptime t)) lease 1_500_000_000 observed
parse_verdict-IsLeased_example =
    parse_verdict-IsLeased (λ t. since_1970 (tokens.strptime t)) lease 1_500_000_000 tokens.loads
      stored_text observed read_active
