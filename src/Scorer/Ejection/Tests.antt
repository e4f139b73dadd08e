-- ===== src/Scorer/Ejection/Tests.antt =====
-- Ejections from a small ranking.
use epaflix.Base.{
  ℕ, ◌*◌, ◌+◌, ◌≤◌, ◌<◌, ◌≡◌, refl, ◌⊎◌, true, List, [], ◌∷◌, map, Text, codes, length, All,
  text_eq, lower, sort_by, lookup, insert,
}
use epaflix.Base.Int.{pos}
use epaflix.Base.Json.{Float, finite, one}
use epaflix.Scorer.Rows.{Row, Verdict}
use epaflix.Scorer.Ejection.{apply_ejections, server_key, member}
use epaflix.Scorer.Ejection.Bounds.{IsWithinFraction, IsFull, apply_ejections-bounds}
use epaflix.Scorer.Ejection.Choice.{IsWithout, apply_ejections-rejected}

abbrev row : Text → Row
row name = record {
  name = name;
  entry_ip = codes "192.0.2.1";
  loss_pct = finite (pos 0);
  rtt_ms = finite (pos (12 * one));
  load = pos 20;
  bw_max = pos 20000;
  headroom = pos 15000;
}

abbrev verdict : Text → ℕ → Verdict
verdict server t = record {
  producer = codes "k3s";
  server = server;
  observed_at = codes "2026-09-06T12:00:00Z";
  observed_epoch = t;
  ttl_seconds = 21600;
  loss_pct = 22 * one;
  bad_windows = 3;
}

abbrev half : Float
half = finite (pos 500_000)

abbrev ranking : List Row
ranking = row (codes "Dalim") ∷ row (codes "Anser") ∷ row (codes "Menkar") ∷ []

abbrev rejections : List Verdict
rejections =
    verdict (codes "ANSER") 10 ∷ verdict (codes "dalim") 20 ∷ verdict (codes "Gone") 30 ∷ []

-- Two of three are rejected, one may go: the newest.
dalim_goes :
    let e = apply_ejections ranking rejections half in
    (map (λ (r : Row). r.name) e.kept ≡ codes "Anser" ∷ codes "Menkar" ∷ [])
    × (e.ejected ≡ verdict (codes "dalim") 20 ∷ [])
    × (e.capped ≡ verdict (codes "ANSER") 10 ∷ [])
unfolding apply_ejections text_eq lower sort_by lookup insert
dalim_goes = (refl, refl, refl)

apply_ejections-bounds_example :
    let e = apply_ejections ranking rejections half in
    (length ranking ≤ length e.kept + length e.ejected)
    × IsWithinFraction half (length ranking) (length e.ejected)
    × (0 < length e.kept)
unfolding text_eq lower
apply_ejections-bounds_example =
    apply_ejections-bounds ranking rejections half (λ e. cc) (refl, (refl, (refl, tt)))

apply_ejections-rejected_example :
    let e = apply_ejections ranking rejections half in
    ((member (codes "anser") (map server_key e.ejected) ≡ true) × IsWithout (codes "anser") e.kept)
    ⊎ (IsFull half (length ranking) (length e.ejected) × All (λ v. 10 ≤ v.observed_epoch) e.ejected)
unfolding text_eq lower
apply_ejections-rejected_example =
    apply_ejections-rejected ranking rejections half (codes "anser") 10 refl refl
