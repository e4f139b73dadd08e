-- ===== src/Verdicts/Publish.antt =====
-- Agent.publish_bad_server and verdict_path of images/airvpn-bluetit/agent.py. The digest of a path,
-- json.dumps and strftime are parameters. `observed_at` is the text of the clock as it is read.
pub mod Accepted
use epaflix.Base.{
  ℕ, zero, Bool, true, false, not, ◌&&◌, ◌||◌, Option, none, some, List, [], ◌∷◌, ◌++◌, ◌*◌,
  if◌then◌else◌, Text, codes, leb, lower, take,
}
use epaflix.Base.Int.{ℤ, pos}
use epaflix.Base.Json.{Json, int, str, float, obj, Fields, end, field, one, Float}
use epaflix.Agent.Publisher.{Publisher, Publication, submit}
use epaflix.Ranking.Check.{is_identity, within}

abbrev verdict_ttl_limit : ℕ
verdict_ttl_limit = 21_600

-- The knobs of the agent that a verdict is made from.
pub record Producer : Type 0 where
  pub verdict_producer_id : Text
  pub verdict_dir : Text
  pub verdict_ttl_seconds : ℕ
  pub bad_windows : ℕ

-- `doc`, its keys sorted.
abbrev pub verdict_json : Producer → Text → Text → Float → Json
verdict_json cfg server observed_at loss = obj (
    field (codes "bad_windows") (int (pos cfg.bad_windows)) (
      field (codes "loss_pct") (float loss) (
        field (codes "observed_at") (str observed_at) (
          field (codes "producer") (str cfg.verdict_producer_id) (
            field (codes "schema") (int (pos 1)) (
              field (codes "server") (str server) (
                field (codes "source") (str (codes "vpn-agent"))
                  (field (codes "ttl_seconds") (int (pos cfg.verdict_ttl_seconds)) end))))))))

-- The tests before the document is made.
abbrev pub is_publishable : Producer → Text → Float → Bool
is_publishable cfg server loss =
    is_identity cfg.verdict_producer_id
    && is_identity server
    && (leb 1 cfg.verdict_ttl_seconds && leb cfg.verdict_ttl_seconds verdict_ttl_limit)
    && within (pos 0) (some (pos (100 * one))) loss

module _ (digest : Text → Text) (dumps : Json → Text) (strftime : ℕ → Text) (cfg : Producer) where
  -- The directory is joined by a slash.
  abbrev pub verdict_path : Text → Text
  verdict_path server =
      cfg.verdict_dir
      ++ codes "/"
      ++ take 24 (digest (cfg.verdict_producer_id ++ zero ∷ lower server))
      ++ codes ".json"

  abbrev pub publication : ℕ → Text → Float → Publication
  publication now server loss = record {
    path = verdict_path server;
    payload = dumps (verdict_json cfg server (strftime now) loss);
  }

  unfoldable pub publish_bad_server : ℕ → Text → Float → Bool → Publisher → Bool × Publisher
  publish_bad_server now server loss can_start p =
      if not (is_publishable cfg server loss)
      then (false, p)
      else submit can_start (publication now server loss) p
