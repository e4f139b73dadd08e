-- ===== src/Scorer/Cycle/Tests.antt =====
-- A scorer that measures two servers, is restarted, and reconciles with no verdict.
use epaflix.Base.{
  ◌*◌, ◌≡◌, refl, true, false, none, some, [], ◌∷◌, arith, Text, codes, text_eq, lower, sort_by,
}
use epaflix.Base.Int.{pos}
use epaflix.Base.Json.{finite, one}
use epaflix.Base.Codec.Tokens.{tokens, tokens-IsFaithful}
use epaflix.Scorer.Rows.{Row}
use epaflix.Scorer.Ejection.{apply_ejections}
use epaflix.Scorer.Probe.{Config, Server, shortlist, probe_all, rank_survivors}
use epaflix.Scorer.Cycle.{
  State, Files, Inputs, new_state, probed, measured, document, run_cycle, refresh_ejections,
  load_existing, after,
}
use epaflix.Scorer.Cycle.Steps.{Reach, started, next, cycles, IsUsual}
use epaflix.Scorer.Cycle.Promises.{
  run_cycle-failed, load_existing-Reach, refresh_ejections-restores, Reach-parse_ranking, Adopts,
}
use epaflix.Ranking.Check.{is_identity, is_ipv4}
use epaflix.Ranking.Check.Laws.{is_valid}
use epaflix.Scorer.Journal.{with_served}
use epaflix.Verdicts.Store.{load_active_verdicts, merge_all}

abbrev config : Config
config = record {
  countries = codes "nl" ∷ [];
  max_load = pos 75;
  shortlist_size = 5;
  max_loss_pct = finite (pos one);
  ttl_seconds = 2100;
  max_ejection_fraction = finite (pos 500_000);
  lease = record { verdict_max_ttl_seconds = 21_600; verdict_future_skew_seconds = 300 };
}

abbrev server : Text → Text → Server
server name ip = record {
  public_name = name;
  ip_v4_in1 = ip;
  health = some (codes "ok");
  country_code = some (codes "NL");
  currentload = some (pos 31);
  bw_max = some (pos 20_000);
  bw = some (pos 6_200);
}

abbrev inputs : Inputs
inputs = record {
  fetched =
      some
        (server (codes "Alpha") (codes "10.0.0.1") ∷ server (codes "Beta") (codes "10.0.0.2") ∷ []);
  probe = λ ip. some (finite (pos 0), finite (pos 20_000_000));
  entries = some [];
  now = 1000 * one;
  stamped = 1000 * one;
  journal_ok = true;
  ranking_ok = true;
}

-- The second write of the next cycle fails.
abbrev cut_short : Inputs
cut_short = record inputs { stamped = 1900 * one; ranking_ok = false }

abbrev row : Text → Text → Row
row name ip = record {
  name = name;
  entry_ip = ip;
  loss_pct = finite (pos 0);
  rtt_ms = finite (pos 20_000_000);
  load = pos 31;
  bw_max = pos 20_000;
  headroom = pos 13_800;
}

rows_measured :
    measured config inputs
    ≡ row (codes "Alpha") (codes "10.0.0.1") ∷ row (codes "Beta") (codes "10.0.0.2") ∷ []
unfolding measured probed shortlist probe_all rank_survivors sort_by text_eq lower
rows_measured = refl

first : State × Files
unfolding run_cycle measured probed shortlist probe_all rank_survivors sort_by text_eq lower
    apply_ejections load_active_verdicts
first =
    after (run_cycle tokens config inputs (new_state, record { ranking = none; journal = none }))

usual : IsUsual tokens config inputs new_state
unfolding measured probed shortlist probe_all rank_survivors sort_by text_eq lower is_valid
    is_identity is_ipv4 with_served tokens
usual = record { valid = refl; distinct = refl; stamp_new = λ e. cc; fits = omega arith }

abbrev lives : Reach tokens config (first.0, first.1)
unfolding first
lives = next started (cycles inputs)

load_existing-Reach_example :
    let u = load_existing tokens config first.1 new_state in
    (u.payload ≡ first.0.payload)
    × (u.base_servers ≡ first.0.base_servers)
    × (u.base_generated_at ≡ first.0.base_generated_at)
unfolding lives
load_existing-Reach_example =
    load_existing-Reach tokens tokens-IsFaithful config (omega arith) first.0 first.1 lives
      (tt, usual)

refresh_ejections-restores_example :
    (refresh_ejections tokens config inputs (first.0, first.1)).2.ranking
    ≡ some (document tokens config (1000 ∷ []) first.0.base_servers)
unfolding first load_active_verdicts sort_by tokens merge_all
refresh_ejections-restores_example =
    refresh_ejections-restores tokens tokens-IsFaithful config (omega arith) first.0 first.1
      (1000 ∷ []) inputs lives (tt, usual) refl refl refl

run_cycle-failed_example :
    let (ok, u, fs) = run_cycle tokens config cut_short (first.0, first.1) in
    (fs.ranking ≡ first.1.ranking)
    × (u.payload ≡ first.0.payload)
    × (u.base_servers ≡ first.0.base_servers)
    × (u.base_generated_at ≡ first.0.base_generated_at)
unfolding run_cycle measured probed shortlist probe_all rank_survivors sort_by text_eq lower
run_cycle-failed_example =
    run_cycle-failed tokens config cut_short first.0
      (run_cycle tokens config cut_short (first.0, first.1)).1 first.1
      (run_cycle tokens config cut_short (first.0, first.1)).2 refl

published : Text
unfolding first
published = document tokens config (1000 ∷ []) first.0.base_servers

Reach-parse_ranking_example : Adopts tokens config published (1600 * one) first.0
unfolding first published tokens merge_all
Reach-parse_ranking_example =
    Reach-parse_ranking tokens tokens-IsFaithful config (omega arith) first.0 first.1 published
      (1600 * one) lives (tt, usual) refl (omega arith)
