-- ===== src/Agent/Tests.antt =====
-- The control loop in small surroundings: a clock that only sleep moves, a Bluetit that reports
-- one server, and a ping that loses nothing.
use native.Mathlib.Nat.{le_refl}
use epaflix.Base.{
  true, ℕ, ◌+◌, ◌*◌, ◌≤◌, ◌≡◌, ◌≢◌, refl, false, none, some, [], ◌∷◌, arith, codes, lower, text_eq,
  count,
}
use epaflix.Base.Int.{pos}
use epaflix.Base.Json.{one}
use epaflix.Agent.Budget.Disk.{missing}
use epaflix.Agent.State.{Config, Agent, degradation, init}
use epaflix.Agent.Window.{Window, judge, trips}
use epaflix.Agent.Window.Counts.{watched}
use epaflix.Agent.Window.Streaks.{TripBacked, judge-trips}
use epaflix.Agent.Window.Trips.{judge_streak-trips}
use epaflix.Agent.World.{World, IsSteady}
use epaflix.Agent.Output.{parse_status}
use epaflix.Agent.Bluetit.{connected, out_of_fuel, connect}
use epaflix.Agent.Bluetit.Connect.{connect-returns}
use epaflix.Agent.Switch.{switch}
use epaflix.Agent.Switch.Outcome.{SwitchPost, switch-outcome}
use epaflix.Agent.Budget.{is_escape}
use epaflix.Agent.Budget.Cap.{is_switch}
use epaflix.Agent.Publisher.{Publisher}
use epaflix.Agent.Cache.{Cache, new_cache, missing}
use epaflix.Agent.Loop.{Peers, Imports, running, watch_once, cycles}
use epaflix.Agent.Loop.Watched.{Watched, aside, watch_once-Watched}
use epaflix.Agent.Loop.Life.{IsLife, cycles-IsLife, cycles-cap}
use epaflix.Agent.Boot.{out_of_fuel as waiting, wait_for_tunnel, boot_check}
use epaflix.Agent.Boot.Checked.{Booted, wait_for_tunnel-returns, boot_check-Booted}

abbrev cfg : Config
cfg = record {
  band = 5;
  probe_target = codes "10.128.0.1";
  probe_count = 50;
  probe_interval = 60 * one;
  packet_interval = 200_000;
  bad_loss_pct = pos (5 * one);
  bad_windows = 2;
  cooldown_seconds = 21_600 * one;
  max_switches_per_day = 3;
  escape_window_seconds = 7_200 * one;
  verify_seconds = 30 * one;
  verify_interval = 2 * one;
  verify_probe_count = 5;
  verify_max_loss_pct = pos (50 * one);
  failed_cooldown_seconds = 300 * one;
  attempts_per_candidate = 2;
  retry_backoff = 5 * one;
  recovery_budget = 120 * one;
  quick_reserve = 35 * one;
  jitter_seconds = 30 * one;
  boot_wait_seconds = 300 * one;
  air_key = codes "Default";
  tun_device = codes "tun0";
  dry_run = false;
}

abbrev quiet_world : World
quiet_world = record {
  State = ℕ;
  clock = λ s. (s, s);
  wallclock = λ s. (s, s);
  sleep = λ d s. s + d;
  uniform = λ a b s. (a, s);
  goldcrest = λ c s. (codes "OK: Connected to AirVPN server Dalim (Netherlands)", s);
  ping = λ p s. (some (codes "5 packets transmitted, 5 received, 0% packet loss"), s);
  list_net = λ s. (some (codes "lo" ∷ codes "tun0" ∷ []), s);
  write_history = λ s. (some tt, s);
}

quiet_world-IsSteady : IsSteady quiet_world
quiet_world-IsSteady = record {
  at = λ s. s;
  clock_reads = λ s. refl;
  clock_on = λ s. le_refl s;
  sleep_on = λ d s. le_refl (s + d);
  goldcrest_on = λ c s. le_refl s;
}

connect-returns_example : (connect quiet_world cfg (some (codes "Anser")) none 7).0 ≢ out_of_fuel
connect-returns_example =
    connect-returns quiet_world cfg quiet_world-IsSteady (some (codes "Anser")) none 7 (omega arith)

connect_dalim :
    (connect quiet_world cfg (some (codes "dalim")) none 7).0 ≡ connected (codes "Dalim")
unfolding connect parse_status text_eq lower
connect_dalim = refl

abbrev agent : Agent
agent =
    init (record { cooldown = 21_600 * one; max_per_day = 3; path = none; history = [] }) missing

switch-outcome_example :
    SwitchPost cfg false false agent
      (switch quiet_world cfg (codes "Dalim" ∷ []) degradation false (agent, 7))
switch-outcome_example =
    switch-outcome quiet_world cfg (codes "Dalim" ∷ []) degradation false agent 7

abbrev bad_window : Window
bad_window = record {
  server_before = some (codes "Anser");
  generation_before = some 11;
  loss = some (pos (22 * one));
  lan_loss = some (pos 0);
  throughput = none;
  current = some (codes "anser");
  generation_after = some 11;
}

-- At two bad windows the second trips.
second_trips :
    (judge cfg bad_window (watched cfg agent (bad_window ∷ []))).0
    ≡ trips (codes "anser") (pos (22 * one))
unfolding judge watched init text_eq lower
second_trips = refl

judge-trips_example :
    TripBacked cfg
      (bad_window ∷ [])
      bad_window
      (judge cfg bad_window (watched cfg agent (bad_window ∷ []))).0
unfolding init
judge-trips_example = judge-trips cfg agent (bad_window ∷ []) bad_window refl refl

-- The same, with a ping that loses 11 of 50 packets.
abbrev lossy_world : World
lossy_world = record {
  State = ℕ;
  clock = λ s. (s, s);
  wallclock = λ s. (s, s);
  sleep = λ d s. s + d;
  uniform = λ a b s. (a, s);
  goldcrest = λ c s. (codes "OK: Connected to AirVPN server Dalim (Netherlands)", s);
  ping = λ p s. (some (codes "50 packets transmitted, 39 received, 22% packet loss"), s);
  list_net = λ s. (some (codes "lo" ∷ codes "tun0" ∷ []), s);
  write_history = λ s. (some tt, s);
}

lossy_world-IsSteady : IsSteady lossy_world
lossy_world-IsSteady = record {
  at = λ s. s;
  clock_reads = λ s. refl;
  clock_on = λ s. le_refl s;
  sleep_on = λ d s. le_refl (s + d);
  goldcrest_on = λ c s. le_refl s;
}

abbrev idle : Publisher
idle = record {
  max_pending = 16;
  pending = [];
  active = false;
  logging = false;
  stopping = false;
  started = false;
}

-- Neighbours that have no ranking, and a device whose counters stand still.
abbrev peers : Peers lossy_world
peers = record {
  snapshot = λ s. (none, s);
  adoptions = λ s. ([], s);
  wait_initial = λ s. (tt, s);
  unlink = λ s. (true, s);
  read_int = λ t s. (some (pos 11), s);
  ping_hop = λ s. (none, s);
  on_publisher = λ f s. ((f true idle).0, s);
}

abbrev imports : Imports
imports = record {
  strptime = λ t. none;
  loads = λ t. none;
  dumps = λ j. [];
  strftime = λ t. [];
  digest = λ t. t;
  producer = record {
    verdict_producer_id = codes "qbt-0";
    verdict_dir = codes "/verdicts";
    verdict_ttl_seconds = 21_600;
    bad_windows = 2;
  };
}

abbrev no_cache : Cache
no_cache = new_cache missing

watch_once-Watched_example : Watched cfg agent (
    aside lossy_world peers cfg imports
      (watch_once lossy_world peers cfg imports ((agent, 7), no_cache)))
watch_once-Watched_example = watch_once-Watched lossy_world peers cfg imports agent 7 no_cache

cycles-IsLife_example :
    IsLife lossy_world peers cfg imports 3 agent.budget
      (cycles lossy_world peers cfg imports 3 ((agent, 7), no_cache)).1.0.0.budget
cycles-IsLife_example = cycles-IsLife lossy_world peers cfg imports 3 agent 7 no_cache

cycles-cap_example :
    let h = (cycles lossy_world peers cfg imports 3 ((agent, 7), no_cache)).1.0.0.budget.history in
    (count is_switch h ≤ 3) × (count is_escape h ≤ 1)
unfolding init
cycles-cap_example = cycles-cap lossy_world peers cfg imports 3 agent 7 no_cache refl

wait_for_tunnel-returns_example : (wait_for_tunnel lossy_world peers cfg (agent, 7)).0 ≢ waiting
wait_for_tunnel-returns_example =
    wait_for_tunnel-returns lossy_world peers cfg lossy_world-IsSteady agent 7

boot_check-Booted_example :
    Booted lossy_world peers cfg imports agent
      (running lossy_world peers cfg (wait_for_tunnel lossy_world peers cfg) ((agent, 7), no_cache))
      (boot_check lossy_world peers cfg imports ((agent, 7), no_cache))
boot_check-Booted_example = boot_check-Booted lossy_world peers cfg imports agent 7 no_cache

judge_streak-trips_example :
    (judge cfg bad_window (watched cfg agent (bad_window ∷ []))).0
    ≡ trips (codes "anser") (pos (22 * one))
unfolding init text_eq lower
judge_streak-trips_example =
    judge_streak-trips cfg (codes "anser") (some 11) agent (bad_window ∷ []) bad_window
      (codes "anser") (pos (22 * one)) refl refl refl refl refl
