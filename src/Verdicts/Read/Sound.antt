-- ===== src/Verdicts/Read/Sound.antt =====
-- What an active verdict may be relied on for.
use epaflix.Base.{
  ℕ, ◌+◌, ◌*◌, ◌≤◌, ◌≡◌, refl, Bool, true, false, not, Option, none, some, arith, if◌then◌else◌,
  Text, codes, ltb, length, subst, ◌>>=?◌,
}
use epaflix.Base.Int.{pos, negsuc}
use epaflix.Base.Json.{
  Json, null, bool, int, float, str, arr, obj, Fields, get, one, Float, nan, inf, neg_inf, finite,
}
use epaflix.Scorer.Rows.{Verdict}
use epaflix.Ranking.Check.{is_identity, text_where, ranking_number, within}
use epaflix.Ranking.Check.Laws.{bind-some, text_where-holds, ranking_number-holds}
use epaflix.Ranking.Document.{is_schema, positive, stamp_text}
use epaflix.Verdicts.Read.{
  Lease, Parsed, invalid, stale, active, require, is_source, at_most_max, percent, windows,
  parse_fields, parse_object, parse_verdict, verdict_max_bytes,
}

-- The document's fields are within their bounds, it is not from the future, and its lease runs.
pub record IsLeased (strptime : Text → Option ℕ) (cfg : Lease) (now : ℕ) (v : Verdict)
    : Type 0 where
  pub producer : is_identity v.producer ≡ true
  pub server : is_identity v.server ≡ true
  pub stamp : strptime v.observed_at ≡ some v.observed_epoch
  pub begun : v.observed_epoch ≤ now + cfg.verdict_future_skew_seconds * one
  pub ttl_positive : 1 ≤ v.ttl_seconds
  pub ttl_bound : v.ttl_seconds ≤ cfg.verdict_max_ttl_seconds
  pub running : now ≤ v.observed_epoch + v.ttl_seconds * one
  pub loss : v.loss_pct ≤ 100 * one
  pub windows_positive : 1 ≤ v.bad_windows
  pub windows_bound : v.bad_windows ≤ 1000

pub under_limit :
    (n : ℕ) (x y : Parsed)
    → n ≤ verdict_max_bytes
    → x ≡ y
    → (if ltb verdict_max_bytes n then invalid else x) ≡ y
under_limit n x y fits e = ground arith

require-active {ℓ} :
    {A : Type ℓ} (o : Option A) (f : A → Parsed) (v : Verdict)
    → require o f ≡ active v
    → (a : A) × (o ≡ some a) × (f a ≡ active v)
require-active none f v h = cc
require-active (some a) f v h = (a, refl, h)

test-active :
    (b : Bool) (p : Parsed) (q : Parsed) (v : Verdict)
    → (if b then p else q) ≡ active v
    → p ≡ invalid
    → (b ≡ false) × (q ≡ active v)
test-active true p q v h e = cc
test-active false p q v h e = (refl, h)

stale-active :
    (b : Bool) (q : Parsed) (v : Verdict)
    → (if b then stale else q) ≡ active v
    → (b ≡ false) × (q ≡ active v)
stale-active true q v h = cc
stale-active false q v h = (refl, h)

ttl-holds :
    (cfg : Lease) (o : Option Json) (n : ℕ)
    → (positive o >>=? at_most_max cfg) ≡ some n
    → (1 ≤ n) × (n ≤ cfg.verdict_max_ttl_seconds)
ttl-holds cfg none n h = cc
ttl-holds cfg (some (int (pos m))) n h = ground arith
ttl-holds cfg (some (int (negsuc m))) n h = cc
ttl-holds cfg (some null) n h = cc
ttl-holds cfg (some (bool b)) n h = cc
ttl-holds cfg (some (float x)) n h = cc
ttl-holds cfg (some (str t)) n h = cc
ttl-holds cfg (some (arr js)) n h = cc
ttl-holds cfg (some (obj fs)) n h = cc

percent-holds :
    (x : Float) (n : ℕ)
    → within (pos 0) (some (pos (100 * one))) x ≡ true
    → percent x ≡ some n
    → n ≤ 100 * one
percent-holds nan n w h = cc
percent-holds inf n w h = cc
percent-holds neg_inf n w h = cc
percent-holds (finite (pos m)) n w h = ground arith
percent-holds (finite (negsuc m)) n w h = cc

windows-holds : (o : Option Json) (n : ℕ) → windows o ≡ some n → (1 ≤ n) × (n ≤ 1000)
windows-holds none n h = cc
windows-holds (some (int (pos m))) n h = ground arith
windows-holds (some (int (negsuc m))) n h = cc
windows-holds (some null) n h = cc
windows-holds (some (bool b)) n h = cc
windows-holds (some (float x)) n h = cc
windows-holds (some (str t)) n h = cc
windows-holds (some (arr js)) n h = cc
windows-holds (some (obj fs)) n h = cc

active_inj : (v w : Verdict) → active v ≡ active w → v ≡ w
active_inj v w h = cc

module _ (strptime : Text → Option ℕ) (cfg : Lease) (now : ℕ) where
  parse_fields-IsLeased :
      (fs : Fields) (v : Verdict)
      → parse_fields strptime cfg now fs ≡ active v
      → IsLeased strptime cfg now v
  parse_fields-IsLeased fs v h0 =
      let (t1, h1) = test-active (not (is_schema (get (codes "schema") fs))) invalid _ v h0 refl in
      let (t2, h2) = test-active (not (is_source (get (codes "source") fs))) invalid _ v h1 refl in
      let (producer, e3, h3) =
        require-active (get (codes "producer") fs >>=? text_where is_identity) _ v h2 in
      let (server, e4, h4) =
        require-active (get (codes "server") fs >>=? text_where is_identity) _ v h3 in
      let (observed, e5, h5) = require-active (stamp_text (get (codes "observed_at") fs)) _ v h4 in
      let (epoch, e6, h6) = require-active (strptime observed) _ v h5 in
      let (t7, h7) =
        test-active (ltb (now + cfg.verdict_future_skew_seconds * one) epoch) invalid _ v h6 refl in
      let (ttl, e8, h8) =
        require-active (positive (get (codes "ttl_seconds") fs) >>=? at_most_max cfg) _ v h7 in
      let (t9, h9) = stale-active (ltb (epoch + ttl * one) now) _ v h8 in
      let (loss, e10, h10) =
        require-active
          ((get (codes "loss_pct") fs >>=? ranking_number (pos 0) (some (pos (100 * one))))
            >>=? percent)
          _ v h9 in
      let (bad, e11, h11) = require-active (windows (get (codes "bad_windows") fs)) _ v h10 in
      let (x, e12, e13) =
        bind-some (get (codes "loss_pct") fs >>=? ranking_number (pos 0) (some (pos (100 * one))))
          percent loss e10 in
      let bounds = ttl-holds cfg (get (codes "ttl_seconds") fs) ttl e8 in
      let count = windows-holds (get (codes "bad_windows") fs) bad e11 in
      subst (IsLeased strptime cfg now) (active_inj _ v h11) (record {
        producer = text_where-holds is_identity (get (codes "producer") fs) producer e3;
        server = text_where-holds is_identity (get (codes "server") fs) server e4;
        stamp = e6;
        begun = ground arith;
        ttl_positive = bounds.0;
        ttl_bound = bounds.1;
        running = ground arith;
        loss =
            percent-holds x loss
              (ranking_number-holds (pos 0) (some (pos (100 * one))) (get (codes "loss_pct") fs) x
                e12)
              e13;
        windows_positive = count.0;
        windows_bound = count.1;
      })

  parse_object-IsLeased :
      (j : Json) (v : Verdict)
      → parse_object strptime cfg now j ≡ active v
      → IsLeased strptime cfg now v
  unfolding parse_object
  parse_object-IsLeased null v h = cc
  parse_object-IsLeased (bool b) v h = cc
  parse_object-IsLeased (int n) v h = cc
  parse_object-IsLeased (float x) v h = cc
  parse_object-IsLeased (str t) v h = cc
  parse_object-IsLeased (arr js) v h = cc
  parse_object-IsLeased (obj fs) v h = parse_fields-IsLeased fs v h

  -- A verdict that the scorer acts on has a producer and a server that are identities, a stamp that
  -- is at most the allowance ahead of the clock, a lease within the scorer's bound that still runs,
  -- a loss of at most 100 percent, and between 1 and 1000 bad windows.
  pub parse_verdict-IsLeased :
      (loads : Text → Option Json) (payload : Text) (v : Verdict)
      → parse_verdict strptime cfg now loads payload ≡ active v
      → IsLeased strptime cfg now v
  unfolding parse_verdict
  parse_verdict-IsLeased loads payload v h =
      let (t1, h1) = test-active (ltb verdict_max_bytes (length payload)) invalid _ v h refl in
      let (doc, e2, h2) = require-active (loads payload) _ v h1 in parse_object-IsLeased doc v h2
