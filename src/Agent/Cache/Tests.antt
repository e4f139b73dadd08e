-- ===== src/Agent/Cache/Tests.antt =====
-- A cached ranking of two servers, one of which is the current one.
use epaflix.Base.{
  ◌*◌, ◌≡◌, refl, true, Option, none, some, List, [], ◌∷◌, Text, codes, text_eq, lower,
}
use epaflix.Base.Int.{ℤ, pos}
use epaflix.Base.Json.{Json, finite, one}
use epaflix.Scorer.Rows.{Row}
use epaflix.Ranking.Check.{read_row, read_from, is_identity, is_ipv4}
use epaflix.Ranking.Document.{document_json, parse_document}
use epaflix.Ranking.Walk.{candidate_names}
use epaflix.Agent.Cache.{
  Cache, cache, nothing, holds, missing, new_cache, adopt_fresh_ranking, cached_ranking, candidates,
  ranking_age_now,
}
use epaflix.Agent.Cache.Lease.{IsBacked, candidates-IsBacked, cached_ranking-restart}

abbrev row : Text → Text → Row
row name ip = record {
  name = name;
  entry_ip = ip;
  loss_pct = finite (pos 0);
  rtt_ms = finite (pos 20_000_000);
  load = pos 31;
  bw_max = pos 20_000;
  headroom = pos 13_800;
}

abbrev rows : List Row
rows = row (codes "Alpha") (codes "10.0.0.1") ∷ row (codes "Beta") (codes "10.0.0.2") ∷ []

abbrev strptime : Text → Option ℤ
strptime t = some (pos (1000 * one))

abbrev loads : Text → Option Json
loads t = some (document_json (codes "1970-01-01T00:16:40Z") 2100 rows)

-- What an earlier process left on disk.
abbrev left : Cache
left = new_cache (holds (codes "{}"))

from_disk :
    (candidates strptime loads true (1600 * one) (1600 * one) none 5 (some (codes "alpha")) left).0
    ≡ (codes "Beta" ∷ [], cache)
unfolding candidates cached_ranking candidate_names parse_document read_row read_from is_identity
    is_ipv4 text_eq lower
from_disk = refl

-- Ten minutes beyond the lease there is nothing, on disk neither.
expired :
    candidates strptime loads true (3700 * one) (3700 * one) none 5 none left
    ≡ (([], nothing), new_cache missing)
unfolding candidates cached_ranking parse_document read_row read_from is_identity is_ipv4 text_eq
    lower
expired = refl

age : ranking_age_now strptime loads (1600 * one) (some (codes "{}")) ≡ some (pos (600 * one))
unfolding ranking_age_now parse_document read_row read_from is_identity is_ipv4 text_eq lower
age = refl

candidates-IsBacked_example :
    IsBacked strptime loads
      (1600 * one)
      (1600 * one)
      none
      5
      (some (codes "alpha"))
      left
      (candidates strptime loads true (1600 * one) (1600 * one) none 5 (some (codes "alpha")) left)
candidates-IsBacked_example =
    candidates-IsBacked strptime loads true (1600 * one) (1600 * one) 5 none (some (codes "alpha"))
      left

cached_ranking-restart_example :
    cached_ranking strptime loads true
      (1600 * one)
      (new_cache (adopt_fresh_ranking true (codes "{}") rows left).file)
    ≡ cached_ranking strptime loads true
        (1600 * one)
        (adopt_fresh_ranking true (codes "{}") rows left)
cached_ranking-restart_example =
    cached_ranking-restart strptime loads true (1600 * one) (codes "{}") rows left
