-- ===== src/Verdicts/Read.antt =====
-- parse_verdict of images/vpn-picker/vpn_picker.py, with json.loads and strptime as parameters; the
-- times are in millionths of a second since 1970, and strptime is asked for none before that.
pub mod Sound
use epaflix.Base.{
  ℕ, ◌+◌, ◌*◌, Bool, false, not, ◌&&◌, Option, none, some, if◌then◌else◌, Text, codes, text_eq, ltb,
  leb, length, ◌>>=?◌,
}
use epaflix.Base.Int.{pos}
use epaflix.Base.Json.{Json, int, str, obj, Fields, get, one, Float, finite}
use epaflix.Scorer.Rows.{Verdict}
use epaflix.Ranking.Check.{is_identity, text_where, ranking_number}
use epaflix.Ranking.Document.{is_schema, positive, stamp_text}

abbrev pub verdict_max_bytes : ℕ
verdict_max_bytes = 65_536

-- The two knobs of the scorer that parse_verdict reads.
pub record Lease : Type 0 where
  pub verdict_max_ttl_seconds : ℕ
  pub verdict_future_skew_seconds : ℕ

-- A ValueError, None, or the normalised dict.
pub data Parsed : Type 0 where
  invalid stale : Parsed
  active : Verdict → Parsed

abbrev require {ℓ} : {A : Type ℓ} → Option A → (A → Parsed) → Parsed
require none f = invalid
require (some a) f = f a

abbrev is_source : Option Json → Bool
is_source (some (str t)) = text_eq t (codes "vpn-agent")
is_source _ = false

abbrev at_most_max : Lease → ℕ → Option ℕ
at_most_max cfg ttl = if leb ttl cfg.verdict_max_ttl_seconds then some ttl else none

-- A loss that passed, in millionths of a percent.
abbrev percent : Float → Option ℕ
percent (finite (pos n)) = some n
percent _ = none

abbrev windows : Option Json → Option ℕ
windows (some (int (pos n))) = if leb 1 n && leb n 1000 then some n else none
windows _ = none

module _ (strptime : Text → Option ℕ) (cfg : Lease) (now : ℕ) where
  abbrev parse_fields : Fields → Parsed
  parse_fields fs =
      if not (is_schema (get (codes "schema") fs))
      then invalid
      else if not (is_source (get (codes "source") fs))
      then invalid
      else require (get (codes "producer") fs >>=? text_where is_identity) λ (producer : Text).
        require (get (codes "server") fs >>=? text_where is_identity) λ (server : Text).
          require (stamp_text (get (codes "observed_at") fs)) λ (observed : Text).
            require (strptime observed) λ (epoch : ℕ).
              if ltb (now + cfg.verdict_future_skew_seconds * one) epoch
              then invalid
              else require (positive (get (codes "ttl_seconds") fs) >>=? at_most_max cfg)
                  λ (ttl : ℕ).
                    if ltb (epoch + ttl * one) now
                    then stale
                    else require
                        ((get (codes "loss_pct") fs
                            >>=? ranking_number (pos 0) (some (pos (100 * one))))
                          >>=? percent)
                        λ (loss : ℕ). require (windows (get (codes "bad_windows") fs)) λ (bad : ℕ).
                          active (record {
                            producer = producer;
                            server = server;
                            observed_at = observed;
                            observed_epoch = epoch;
                            ttl_seconds = ttl;
                            loss_pct = loss;
                            bad_windows = bad;
                          })

  -- From the decoded document.
  unfoldable pub parse_object : Json → Parsed
  parse_object (obj fs) = parse_fields fs
  parse_object _ = invalid

  -- `parse_verdict`, whose payload is the bytes of the document.
  unfoldable pub parse_verdict : (Text → Option Json) → Text → Parsed
  unfolding parse_object
  parse_verdict loads payload =
      if ltb verdict_max_bytes (length payload)
      then invalid
      else require (loads payload) parse_object
