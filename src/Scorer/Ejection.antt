-- ===== src/Scorer/Ejection.antt =====
-- apply_ejections of images/vpn-picker/vpn_picker.py: which servers a set of verdicts takes out
-- of a ranking. `len(survivors) * fraction` is exact here, in millionths.
pub mod Bounds
mod Order
pub mod Choice
pub mod Kept
pub mod Left
mod Tests
use epaflix.Base.{
  ℕ, suc, ◌+◌, ◌-◌, ◌*◌, ◌/◌, ◌≤◌, min, ◌≡◌, refl, Bool, true, false, not, ◌&&◌, Option, none, some,
  List, [], ◌∷◌, map, arith, ltb, ◌==◌, if◌then◌else◌, length, take, drop, keep, any, Text, text_eq,
  lower, sort_by, Dict, values, lookup, insert,
}
use epaflix.Base.Int.{ℤ, pos, negsuc}
use epaflix.Base.Json.{Float, nan, inf, neg_inf, finite, one}
use epaflix.Scorer.Rows.{Row, Verdict, text_le}

abbrev pub server_key : Verdict → Text
server_key v = lower v.server

abbrev pub row_key : Row → Text
row_key r = lower r.name

-- `x in names`
abbrev pub member : Text → List Text → Bool
member x = any (λ y. text_eq y x)

-- The dict keeps the newest verdict for each server that is ranked.
abbrev newer : Verdict → Option Verdict → Bool
newer v none = true
newer v (some w) = ltb w.observed_epoch v.observed_epoch

pub note_verdict : List Text → Dict Text Verdict → Verdict → Dict Text Verdict
note_verdict available d v =
    if member (server_key v) available && newer v (lookup text_eq (server_key v) d)
    then insert text_eq (server_key v) v d
    else d

pub by_server : List Text → Dict Text Verdict → List Verdict → Dict Text Verdict
unfolding note_verdict
by_server available d [] = d
by_server available d (v ∷ vs) = by_server available (note_verdict available d v) vs

-- Newest first, then by name.
abbrev pub priority : Verdict → Verdict → Bool
priority v w =
    if v.observed_epoch == w.observed_epoch
    then text_le (server_key v) (server_key w)
    else ltb w.observed_epoch v.observed_epoch

-- Not finite is 0; else within 0 and 1.
abbrev pub fraction : Float → ℕ
fraction (finite (pos n)) = min one n
fraction _ = 0

abbrev pub limit : ℕ → Float → ℕ
limit n f = min (n * fraction f / one) (n - 1)

pub record Ejections : Type 0 where
  pub kept : List Row
  pub ejected : List Verdict
  pub capped : List Verdict

abbrev pub ordered : List Row → List Verdict → List Verdict
ordered survivors verdicts =
    sort_by priority (values (by_server (map row_key survivors) [] verdicts))

abbrev split_at_limit : List Row → ℕ → List Verdict → Ejections
split_at_limit survivors n vs = record {
  kept = keep (λ s. not (member (row_key s) (map server_key (take n vs)))) survivors;
  ejected = take n vs;
  capped = drop n vs;
}

unfoldable pub apply_ejections : List Row → List Verdict → Float → Ejections
unfolding by_server
apply_ejections [] verdicts f = record { kept = []; ejected = []; capped = [] }
apply_ejections (s ∷ ss) verdicts f =
    let survivors = s ∷ ss in
    split_at_limit survivors (limit (length survivors) f) (ordered survivors verdicts)
