-- ===== src/Agent/Loop.antt =====
-- discover_router, throughput_since, watch_once, wait_for_tunnel, boot_check and run of class Agent,
-- with tun_generation and tun_bytes of class Bluetit (images/airvpn-bluetit/agent.py). The state is
-- the agent in its surroundings and the local cache. The two pings of a window run at the same time
-- in two threads; here the one on the LAN comes first. The wall clock is read for the snapshot and
-- for the cache, also where there is nothing to compare it with. No call raises; log lines are left
-- out.
pub mod Watched
pub mod Life
use epaflix.Base.{
  ℕ, zero, suc, ◌+◌, ◌-◌, ◌*◌, ◌/◌, Bool, true, false, not, Option, none, some, List, [], ◌∷◌, ltb,
  leb, if◌then◌else◌, is_some, Text, codes, ◌>>=?◌,
}
use epaflix.Base.Int.{ℤ, pos, negsuc, sub_ℤ, add_ℤ}
use epaflix.Base.Json.{Json, one, finite}
use epaflix.Scorer.Rows.{Row}
use epaflix.Ranking.Walk.{candidate_names, in_band}
use epaflix.Verdicts.Publish.{Producer, publish_bad_server}
use epaflix.Agent.Budget.{Budget, Decision, Refusal, allowed, allowed_or_escape}
use epaflix.Agent.State.{Config, Agent, Rate, degradation, boot_upgrade}
use epaflix.Agent.Window.{Window, Judgement, quiet, trips, judge}
use epaflix.Agent.World.{World, Action, pure, ◌>>=◌, ◌>>◌}
use epaflix.Agent.Output.{parse_router}
use epaflix.Agent.Bluetit.{status}
use epaflix.Agent.Publisher.{Publisher}
use epaflix.Agent.Switch.{probe, switch}
use epaflix.Agent.Cache.{
  Cache, Source, adopt_fresh_ranking, read_ranking, candidates, cached_ranking, load_cache,
}

-- A call of `_adopt_fresh_ranking` by the reader's thread, and whether its write succeeds.
pub record Adoption : Type 0 where
  pub payload : Text
  pub servers : List Row
  pub write_ok : Bool

-- What the control loop finds in the other threads and in the file system: the reader's snapshot,
-- what the reader adopted since the cache was last looked at, the wait for the first read, whether
-- an unlink succeeds, int() of a file of the tunnel device under /sys/class/net, the output of the
-- ping with a time to live of two hops, and an operation on the verdict publisher, which is told
-- whether a thread can be started.
pub record Peers (w : World) : Type 0 where
  pub snapshot : Action w.State (Option Text)
  pub adoptions : Action w.State (List Adoption)
  pub wait_initial : Action w.State (Unit {0})
  pub unlink : Action w.State Bool
  pub read_int : Text → Action w.State (Option ℤ)
  pub ping_hop : Action w.State (Option Text)
  pub on_publisher : (Bool → Publisher → Bool × Publisher) → Action w.State Bool

-- What is imported: the codec, the digest, and the knobs of a verdict.
pub record Imports : Type 0 where
  pub strptime : Text → Option ℤ
  pub loads : Text → Option Json
  pub dumps : Json → Text
  pub strftime : ℕ → Text
  pub digest : Text → Text
  pub producer : Producer

abbrev lan_interface : Text
lan_interface = codes "eth0"

-- `value if value > 0 else None`
abbrev generation_of : Option ℤ → Option ℕ
generation_of (some (pos (suc n))) = some (suc n)
generation_of _ = none

-- `delta / elapsed`, unless the counters were reset.
abbrev rate_of : ℤ → ℕ → Option Rate
rate_of (pos n) elapsed = some (record { bytes = n; elapsed = elapsed })
rate_of (negsuc n) elapsed = none

-- `throughput_since`, with what it reads.
unfoldable pub throughput_since : Option ℤ → Option ℤ → ℕ → Option Rate
throughput_since (some before) (some after) elapsed =
    if ltb elapsed one then none else rate_of (sub_ℤ after before) elapsed
throughput_since _ _ elapsed = none

-- `discover_router` behind the ping: what it found, and that the log line is out.
abbrev pub with_router : Option Text → Agent → Agent
with_router none a = record a { lan_router = none; lan_discovery_logged = true }
with_router (some r) a = record a { lan_router = some r }

module _ (w : World) (peers : Peers w) (cfg : Config) where
  abbrev pub Running : Type 0
  Running = Agent × w.State

  abbrev pub around : {A : Type 0} → Action w.State A → Action Running A
  around m (a, s) = let (x, s') = m s in (x, (a, s'))

  unfoldable pub tun_generation : Action w.State (Option ℕ)
  tun_generation = do v ← peers.read_int (codes "ifindex"); pure (generation_of v)

  abbrev plus_tx : Option ℤ → Action w.State (Option ℤ)
  plus_tx none = pure none
  plus_tx (some rx) = do
    tx ← peers.read_int (codes "statistics/tx_bytes")
    pure (tx >>=? λ (n : ℤ). some (add_ℤ rx n))

  unfoldable pub tun_bytes : Action w.State (Option ℤ)
  tun_bytes = do rx ← peers.read_int (codes "statistics/rx_bytes"); plus_tx rx

  abbrev pub router_from : Option Text → Action Running (Option Text)
  router_from (some r) (a, s) = (some r, (a, s))
  router_from none (a, s) =
      let (out, s') = peers.ping_hop s in
      let a' = with_router (out >>=? parse_router) a in (a'.lan_router, (a', s'))

  unfoldable pub discover_router : Action Running (Option Text)
  discover_router (a, s) = router_from a.lan_router (a, s)

  abbrev lan_probe : Option Text → Action w.State (Option ℤ)
  lan_probe none = pure none
  lan_probe (some router) = probe w cfg none (some router) (some lan_interface)

  -- The measurements of `watch_once`.
  unfoldable pub window_from : Option Text → Action w.State Window
  window_from router = do
    server_before ← status w cfg
    generation_before ← tun_generation
    before ← tun_bytes
    started ← w.clock
    lan_loss ← lan_probe router
    loss ← probe w cfg none none none
    after ← tun_bytes
    now ← w.clock
    current ← status w cfg
    generation_after ← tun_generation
    pure (record {
      server_before = server_before;
      generation_before = generation_before;
      loss = loss;
      lan_loss = lan_loss;
      throughput = throughput_since before after (now - started);
      current = current;
      generation_after = generation_after;
    })

  abbrev pub Looping : Type 0
  Looping = Running × Cache

  abbrev pub running : {A : Type 0} → Action Running A → Action Looping A
  running m (r, c) = let (x, r') = m r in (x, (r', c))

  abbrev pub outside : {A : Type 0} → Action w.State A → Action Looping A
  outside m ((a, s), c) = let (x, s') = m s in (x, ((a, s'), c))

  -- The adoptions so far, in their order.
  unfoldable pub adopt_all : List Adoption → Cache → Cache
  adopt_all [] c = c
  adopt_all (x ∷ xs) c = adopt_all xs (adopt_fresh_ranking x.write_ok x.payload x.servers c)

  abbrev pub adopted_now : Action Looping (Unit {0})
  adopted_now ((a, s), c) = let (xs, s') = peers.adoptions s in (tt, ((a, s'), adopt_all xs c))

  abbrev pub on_cache : {A : Type 0} → (Cache → A × Cache) → Action Looping A
  on_cache f (r, c) = let (x, c') = f c in (x, (r, c'))

  -- `allowed_or_escape`, which reads the clock again when `allowed` refuses.
  abbrev again_unless : Bool → ℕ → Action w.State ℕ
  again_unless true now = pure now
  again_unless false now = w.wallclock

  unfoldable pub ask_budget : Action Running Decision
  ask_budget (a, s) =
      let (now, s1) = w.wallclock s in
      let (later, s2) = again_unless (allowed now a.budget).0.0 now s1 in
      let (d, b) = allowed_or_escape cfg.escape_window_seconds now later a.budget in
      (d, (record a { budget = b }, s2))

  module _ (i : Imports) where
    -- `candidates`
    unfoldable pub find_candidates : Option Text → Action Looping (List Text × Source)
    find_candidates exclude = do
      snapshot ← outside peers.snapshot
      now ← outside w.wallclock
      later ← outside w.wallclock
      unlink_ok ← outside peers.unlink
      adopted_now
      on_cache (candidates i.strptime i.loads unlink_ok now later snapshot cfg.band exclude)

    -- `publish_bad_server`, unless this is a dry run.
    abbrev publish_verdict : Bool → Text → ℤ → Action w.State Bool
    publish_verdict true server loss = pure false
    publish_verdict false server loss = do
      now ← w.wallclock
      peers.on_publisher
          (publish_bad_server i.digest i.dumps i.strftime i.producer now server (finite loss))

    -- From the decision of the budget on.
    abbrev pub after_decision : Decision → Text → Action Looping Bool
    after_decision d server =
        if d.allowed
        then (do
          (names, source) ← find_candidates (some server)
          running (switch w cfg names degradation d.escape)
          pure true)
        else pure false

    unfoldable pub handle_trip : Text → ℤ → Action Looping Bool
    handle_trip server loss = do
      outside (publish_verdict cfg.dry_run server loss)
      d ← running ask_budget
      after_decision d server

    abbrev pub after_judgement : Judgement → Action Looping Bool
    after_judgement quiet = pure false
    after_judgement (trips server loss) = handle_trip server loss

    abbrev judged : Window → Action Running Judgement
    judged win (a, s) = let (j, a') = judge cfg win a in (j, (a', s))

    -- Behind the discovery of the router.
    abbrev pub watch_with : Option Text → Action Looping Bool
    watch_with router = do
      win ← outside (window_from router)
      j ← running (judged win)
      after_judgement j

    unfoldable pub watch_once : Action Looping Bool
    watch_once = do router ← running discover_router; watch_with router

    -- The loop of `run`, so many times.
    unfoldable pub cycles : ℕ → Action Looping (Unit {0})
    cycles zero st = (tt, st)
    cycles (suc n) ((a, s), c) = cycles n (watch_once ((a, w.sleep cfg.probe_interval s), c)).1
