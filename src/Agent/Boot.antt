-- ===== src/Agent/Boot.antt =====
-- wait_for_tunnel, boot_check and run of class Agent (images/airvpn-bluetit/agent.py), in the
-- surroundings of the control loop. `while True` of `run` goes through a number of windows. The
-- start of the reader's thread is an operation of Agent/Reader.
pub mod Checked
use epaflix.Base.{
  ℕ, zero, suc, ◌+◌, ◌*◌, ◌/◌, Bool, true, false, Option, none, some, List, [], ◌∷◌, leb,
  if◌then◌else◌, Text,
}
use epaflix.Base.Json.{one}
use epaflix.Scorer.Rows.{Row}
use epaflix.Ranking.Walk.{candidate_names, in_band}
use epaflix.Agent.State.{Config, Agent, boot_upgrade}
use epaflix.Agent.World.{World, Action, pure, ◌>>=◌, ◌>>◌, skip}
use epaflix.Agent.Bluetit.{status}
use epaflix.Agent.Switch.{switch}
use epaflix.Agent.Cache.{read_ranking, cached_ranking, load_cache}
use epaflix.Agent.Loop.{
  Peers, Imports, Running, Looping, around, running, outside, adopted_now, on_cache, cycles,
}

-- How the wait for the tunnel ends.
pub data Wait : Type 0 where
  up : Text → Wait
  given_up out_of_fuel : Wait

abbrev pub at_server : Wait → Agent → Agent
at_server (up current) a = record a { current_server = some current }
at_server _ a = a

-- `self.sleep(5)`
abbrev pub wait_interval : ℕ
wait_interval = 5 * one

module _ (w : World) (peers : Peers w) (cfg : Config) where
  -- Behind a look at the status: the end, or one more look.
  abbrev pub wait_round : ℕ → Option Text → Action w.State Wait → Action w.State Wait
  wait_round limit (some (c ∷ t)) again s = (up (c ∷ t), s)
  wait_round limit _ again s =
      let (now, s') = w.clock s in
      if leb limit now then (given_up, s') else again (w.sleep wait_interval s')

  -- `while True`, on fuel.
  unfoldable pub wait_poll : ℕ → ℕ → Action w.State Wait
  wait_poll zero limit s = (out_of_fuel, s)
  wait_poll (suc fuel) limit s =
      let (current, s') = status w cfg s in wait_round limit current (wait_poll fuel limit) s'

  -- A round sleeps for `wait_interval`, so this many cover `boot_wait_seconds`.
  abbrev pub wait_rounds : ℕ
  wait_rounds = suc (cfg.boot_wait_seconds / wait_interval + 1)

  abbrev wait_until : ℕ → Action w.State Wait
  wait_until now = wait_poll wait_rounds (now + cfg.boot_wait_seconds)

  unfoldable pub wait_for_tunnel : Action (Running w peers cfg) Wait
  wait_for_tunnel (a, s) =
      let (now, s1) = w.clock s in let (r, s2) = wait_until now s1 in (r, (at_server r a, s2))

  module _ (i : Imports) where
    -- `servers`: of the snapshot, or else of the cache.
    abbrev fresh_or_cached : Bool → ℕ → List Row → Action (Looping w peers cfg) (List Row)
    fresh_or_cached unlink_ok later (s ∷ ss) = pure (s ∷ ss)
    fresh_or_cached unlink_ok later [] =
        on_cache w peers cfg (cached_ranking i.strptime i.loads unlink_ok later)

    unfoldable pub find_servers : Action (Looping w peers cfg) (List Row)
    find_servers = do
      snapshot ← outside w peers cfg peers.snapshot
      now ← outside w peers cfg w.wallclock
      later ← outside w peers cfg w.wallclock
      unlink_ok ← outside w peers cfg peers.unlink
      adopted_now w peers cfg
      fresh_or_cached unlink_ok later (read_ranking i.strptime i.loads now snapshot)

    -- From the servers on.
    abbrev pub upgrade : Text → List Row → Action (Looping w peers cfg) (Option Text)
    upgrade current [] = pure none
    upgrade current (s ∷ ss) =
        if in_band (some current) (s ∷ ss) cfg.band
        then pure none
        else running w peers cfg
            (switch w cfg (candidate_names (s ∷ ss) cfg.band (some current)) boot_upgrade false)

    abbrev pub after_wait : Wait → Action (Looping w peers cfg) (Option Text)
    after_wait (up current) = do
      outside w peers cfg peers.wait_initial
      servers ← find_servers
      upgrade current servers
    after_wait _ = pure none

    -- `boot_check`, with the server that its switch reports.
    unfoldable pub boot_check : Action (Looping w peers cfg) (Option Text)
    boot_check = do r ← running w peers cfg wait_for_tunnel; after_wait r

    -- `run`, through so many windows.
    unfoldable pub run : ℕ → Action (Looping w peers cfg) (Unit {0})
    run n = do
      now ← outside w peers cfg w.wallclock
      unlink_ok ← outside w peers cfg peers.unlink
      on_cache w peers cfg (load_cache i.strptime i.loads unlink_ok now)
      boot_check
      cycles w peers cfg i n
