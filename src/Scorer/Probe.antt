-- ===== src/Scorer/Probe.antt =====
-- headroom, shortlist, probe_all and rank_survivors of images/vpn-picker/vpn_picker.py. A server of
-- the status API has the values that the code reads, after int and str; `probe` is a parameter that
-- says what ping measured at an address, if it ran. `shortlist_size` is not negative, and ping
-- gives no nan.
pub mod Best
use epaflix.Base.{
  ℕ, ◌+◌, Bool, true, false, not, ◌&&◌, Option, none, some, List, [], ◌∷◌, if◌then◌else◌, take,
  keep, Text, codes, text_eq, lower, sort_by,
}
use epaflix.Base.Int.{sub_ℤ, ℤ, pos, pos_part, neg_part, leb_ℤ}
use epaflix.Base.Json.{Float, nan, inf, neg_inf, finite}
use epaflix.Scorer.Rows.{Row}
use epaflix.Scorer.Ejection.{member}
use epaflix.Scorer.Journal.{eq_float, eq_ℤ}
use epaflix.Verdicts.Read.{Lease}

-- The knobs of class Config that the scoring reads.
pub record Config : Type 0 where
  pub countries : List Text
  pub max_load : ℤ
  pub shortlist_size : ℕ
  pub max_loss_pct : Float
  pub ttl_seconds : ℕ
  pub max_ejection_fraction : Float
  pub lease : Lease

pub record Server : Type 0 where
  pub public_name : Text
  pub ip_v4_in1 : Text
  pub health : Option Text
  pub country_code : Option Text
  pub currentload : Option ℤ
  pub bw_max : Option ℤ
  pub bw : Option ℤ

-- `server.get(key, default)`
abbrev get_or {ℓ} : {A : Type ℓ} → A → Option A → A
get_or a none = a
get_or a (some b) = b

abbrev pub headroom : Server → ℤ
headroom s = sub_ℤ (get_or (pos 0) s.bw_max) (get_or (pos 0) s.bw)

abbrev is_ok : Option Text → Bool
is_ok none = false
is_ok (some t) = text_eq t (codes "ok")

abbrev is_eligible : Config → Server → Bool
is_eligible cfg s =
    is_ok s.health
    && member (lower (get_or [] s.country_code)) cfg.countries
    && leb_ℤ (get_or (pos 100) s.currentload) cfg.max_load

-- Most headroom first; servers with the same keep their order.
unfoldable pub shortlist : Config → List Server → List Server
shortlist cfg servers =
    take cfg.shortlist_size
      (sort_by (λ s t. leb_ℤ (headroom t) (headroom s)) (keep (is_eligible cfg) servers))

abbrev row_of : Server → Float × Float → Row
row_of s (loss, rtt) = record {
  name = s.public_name;
  entry_ip = s.ip_v4_in1;
  loss_pct = loss;
  rtt_ms = rtt;
  load = get_or (pos 0) s.currentload;
  bw_max = get_or (pos 0) s.bw_max;
  headroom = headroom s;
}

abbrev add_row : Server → Option (Float × Float) → List Row → List Row
add_row s none rows = rows
add_row s (some m) rows = row_of s m ∷ rows

-- A probe that fails drops its server only.
unfoldable pub probe_all : (Text → Option (Float × Float)) → List Server → List Row
probe_all probe [] = []
probe_all probe (s ∷ ss) = add_row s (probe s.ip_v4_in1) (probe_all probe ss)

-- `x <= y`
abbrev pub leb_float : Float → Float → Bool
leb_float nan y = false
leb_float neg_inf nan = false
leb_float neg_inf y = true
leb_float (finite m) (finite n) = leb_ℤ m n
leb_float (finite m) inf = true
leb_float (finite m) _ = false
leb_float inf inf = true
leb_float inf _ = false

-- The key: loss, then round-trip time, then load.
abbrev pub as_good : Row → Row → Bool
as_good r s =
    if not (eq_float r.loss_pct s.loss_pct)
    then leb_float r.loss_pct s.loss_pct
    else if not (eq_float r.rtt_ms s.rtt_ms)
    then leb_float r.rtt_ms s.rtt_ms
    else leb_ℤ r.load s.load

unfoldable pub rank_survivors : List Row → Float → List Row
rank_survivors probed max_loss_pct =
    sort_by as_good (keep (λ r. leb_float r.loss_pct max_loss_pct) probed)
