-- ===== src/Agent/Switch.antt =====
-- Agent.switch, _quick, _fall_back, verify_tunnel, _earned_cooldown, _finish and probe of
-- images/airvpn-bluetit/agent.py. The state is the agent in its surroundings. Log lines are left
-- out; `mandatory` is only logged. `switch` is left by a return on every path, so the reset of
-- `switching` in `finally` is the last step.
pub mod Entries
pub mod Paths
pub mod Outcome
use epaflix.Base.{
  ℕ, zero, suc, ◌+◌, ◌-◌, ◌*◌, ◌/◌, ◌≤◌, ◌≡◌, Bool, true, false, not, ◌&&◌, Option, none, some,
  List, [], ◌∷◌, leb, ltb, if◌then◌else◌, is_some, Text, ◌>>=?◌,
}
use epaflix.Base.Int.{ℤ, ltb_ℤ}
use epaflix.Agent.Budget.{Kind}
use epaflix.Agent.Budget.{switch as plain, escape as past_budget}
use epaflix.Agent.Budget.Disk.{record_switch}
use epaflix.Agent.State.{
  Config, Agent, Reason, degradation, boot_upgrade, fallback, tally, reset_bad,
}
use epaflix.Agent.World.{World, Ping, Action, pure, ◌>>=◌, ◌>>◌, skip}
use epaflix.Agent.Output.{parse_loss}
use epaflix.Agent.Bluetit.{Poll, server_of, connect, disconnect, tun_ok}

-- `probe(count, target, interface)`
pub probe : (w : World) → Config → Option ℕ → Option Text → Option Text → Action w.State (Option ℤ)
probe w cfg count target interface = do
  out ← w.ping (record {
    count = elim count [ none ↦ cfg.probe_count | some n ↦ n ];
    interval = cfg.packet_interval;
    interface = interface;
    target = elim target [ none ↦ cfg.probe_target | some t ↦ t ];
  })
  pure (out >>=? parse_loss)

abbrev pub kind_of : Bool → Kind
kind_of true = past_budget
kind_of false = plain

-- FULL_COOLDOWN_REASONS
abbrev pub earned_cooldown : Config → Reason → ℕ
earned_cooldown cfg degradation = cfg.cooldown_seconds
earned_cooldown cfg boot_upgrade = cfg.failed_cooldown_seconds
earned_cooldown cfg fallback = cfg.failed_cooldown_seconds

-- `self._earned_cooldown(reason) if cooldown is None else cooldown`
abbrev pub armed : Config → Reason → Option ℕ → ℕ
armed cfg reason none = earned_cooldown cfg reason
armed cfg reason (some c) = c

-- `if connected and counted_as: self.switches[counted_as] += 1`
abbrev pub count_switch : Option Text → Option Reason → Agent → Agent
count_switch (some (c ∷ t)) (some r) a = record a { switches = tally r a.switches }
count_switch _ _ a = a

-- The tunnel passes traffic: the burst ran and lost no more than it may.
abbrev pub passes : Config → Option ℤ → Bool
passes cfg none = false
passes cfg (some loss) = not (ltb_ℤ cfg.verify_max_loss_pct loss)

-- A truthy name.
abbrev pub named : Option Text → Option Text
named (some (c ∷ t)) = some (c ∷ t)
named _ = none

-- How the walk over the candidates ends: with a result, or with nothing tried that held.
pub data Walk : Type 0 where
  done : Option Text → Walk
  moving_on spent : Walk

module _ (w : World) (cfg : Config) where
  abbrev pub Running : Type 0
  Running = Agent × w.State

  abbrev lift : {A : Type 0} → Action w.State A → Action Running A
  lift m (a, s) = let (x, s') = m s in (x, (a, s'))

  abbrev modify : (Agent → Agent) → Action Running (Unit {0})
  modify f (a, s) = (tt, (f a, s))

  abbrev pause : ℕ → Action Running (Unit {0})
  pause d (a, s) = (tt, (a, w.sleep d s))

  -- `self.budget.record(...)`, on the wall clock and the disk of the moment.
  pub record_budget : Option ℕ → Bool → Action Running (Unit {0})
  record_budget c escape (a, s) =
      let (now, s1) = w.wallclock s in
      let (written, s2) = w.write_history s1 in
      let (b, stored) =
        record_switch (is_some written) now c (kind_of escape) (a.budget, a.stored) in
      (tt, (record a { budget = b; stored = stored }, s2))

  pub verify_tunnel : Action Running Bool
  unfolding probe
  verify_tunnel = do
    loss ← lift (probe w cfg (some cfg.verify_probe_count) none none)
    pure (passes cfg loss)

  pub finish : Option Text → Reason → Option Reason → Option ℕ → Bool → Action Running (Option Text)
  unfolding record_budget
  finish server reason counted_as cooldown escape = do
    modify (λ a. count_switch server counted_as (reset_bad (record a { current_server = server })))
    record_budget (some (armed cfg reason cooldown)) escape
    pure server

  -- The device is looked at for the log.
  abbrev checked : Option Text → Action Running (Option Text)
  checked none = pure none
  checked (some server) = lift (tun_ok w cfg) >> pure (some server)

  -- `_quick`
  pub quick : ℕ → Action Running (Option Text)
  quick deadline = do
    poll ← lift (connect w cfg none (some deadline))
    checked (named (server_of poll))

  verified_when : Option Text → Action Running Bool
  unfolding verify_tunnel
  verified_when none = pure false
  verified_when (some server) = verify_tunnel

  pub fall_back : ℕ → Reason → Bool → Action Running (Option Text)
  unfolding quick verified_when finish
  fall_back hard_deadline reason escape = do
    server ← quick hard_deadline
    verified ← verified_when server
    finish server reason (some fallback)
        (if verified then none else some cfg.failed_cooldown_seconds) escape

  module _ (reason : Reason) (escape : Bool) (walk_deadline : ℕ) where
    -- A connect that reported a server: the device, then traffic.
    pub judge_connected : Text → Action Running Walk
    unfolding finish verify_tunnel
    judge_connected server = do
      device ← lift (tun_ok w cfg)
      if device
          then (do
            verified ← verify_tunnel
            if verified
                then (do r ← finish (some server) reason (some reason) none escape; pure (done r))
                else (lift (disconnect w cfg) >> pure moving_on))
          else (do
            r ← finish (some server) reason none (some cfg.cooldown_seconds) escape
            pure (done r))

    -- `if attempt < attempts: sleep(uniform(0.5, 1.5) * retry_backoff)`, in thousandths.
    backoff : ℕ → Action Running (Unit {0})
    backoff zero = skip
    backoff (suc left) = do
      factor ← lift (w.uniform 500 1_500)
      pause (factor * cfg.retry_backoff / 1_000)

    abbrev try_server : Option Text → Action Running Walk → Action Running Walk
    try_server none again = again
    try_server (some server) again = judge_connected server

    -- The attempts at one candidate, by how many are left.
    pub attempts : ℕ → Text → Action Running Walk
    unfolding judge_connected backoff
    attempts zero name = pure moving_on
    attempts (suc left) name = do
      now ← lift w.clock
      if leb walk_deadline now then pure spent else (do
        poll ← lift (connect w cfg (some name) (some walk_deadline))
        try_server (named (server_of poll)) (backoff left >> attempts left name))

    abbrev or_next : Walk → Action Running Walk → Action Running Walk
    or_next (done r) next = pure (done r)
    or_next spent next = pure spent
    or_next moving_on next = next

    -- The candidates in their order.
    pub walk : List Text → Action Running Walk
    unfolding attempts
    walk [] = pure moving_on
    walk (name ∷ names) = do
      end ← attempts cfg.attempts_per_candidate name
      or_next end (walk names)

  abbrev or_quick : Walk → Action Running (Option Text) → Action Running (Option Text)
  or_quick (done r) quickly = pure r
  or_quick spent quickly = quickly
  or_quick moving_on quickly = quickly

  -- Between the two writes of `switching`.
  pub recover : ℕ → List Text → Reason → Bool → Action Running (Option Text)
  unfolding walk fall_back
  recover hard_deadline names reason escape = do
    lift (disconnect w cfg)
    end ← walk reason escape (hard_deadline - cfg.quick_reserve) names
    or_quick end (fall_back hard_deadline reason escape)

  -- DRY RUN: only the budget is charged.
  pub rehearse : Reason → Bool → Action Running (Option Text)
  unfolding record_budget
  rehearse reason escape = record_budget (some (earned_cooldown cfg reason)) escape >> pure none

  pub carry_out : List Text → Reason → Bool → Action Running (Option Text)
  unfolding recover
  carry_out names reason escape = do
    delay ← lift (w.uniform 0 cfg.jitter_seconds)
    pause delay
    started ← lift w.clock
    modify (λ a. record a { switching = true })
    r ← recover (started + cfg.recovery_budget) names reason escape
    modify (λ a. record a { switching = false })
    pure r

  pub switch : List Text → Reason → Bool → Action Running (Option Text)
  unfolding rehearse carry_out
  switch names reason escape =
      if cfg.dry_run then rehearse reason escape else carry_out names reason escape
