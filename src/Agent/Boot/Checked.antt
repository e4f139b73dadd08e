-- ===== src/Agent/Boot/Checked.antt =====
-- The wait for the tunnel ends, and what the check at boot does to the agent.
use epaflix.Base.{
  ℕ, zero, suc, ◌+◌, ◌-◌, ◌*◌, ◌/◌, ◌≤◌, ◌≡◌, ◌≢◌, Bool, false, Bool-cases, ◌⊎◌, refl, subst, true,
  inl, inr, Option, none, some, List, [], ◌∷◌, leb, le→leb, Text, arith,
}
use epaflix.Scorer.Rows.{Row}
use epaflix.Ranking.Walk.{candidate_names, in_band}
use epaflix.Agent.State.{Config, Agent, boot_upgrade}
use epaflix.Agent.World.{World, IsSteady, Action, bluetit_status}
use epaflix.Agent.Bluetit.{status}
use epaflix.Agent.Switch.{switch}
use epaflix.Agent.Switch.Outcome.{SwitchPost, switch-outcome}
use epaflix.Agent.Cache.{Cache, read_ranking}
use epaflix.Agent.Cache.Usable.{IsRanking, read_ranking-IsRanking, cached_ranking-IsRanking}
use epaflix.Agent.Loop.{Peers, Imports, Looping, running, outside, adopted_now}
use epaflix.Agent.Boot.{
  Wait, up, given_up, out_of_fuel, at_server, wait_interval, wait_round, wait_poll, wait_rounds,
  wait_for_tunnel, upgrade, after_wait, boot_check, find_servers, fresh_or_cached,
}

module _ (w : World) (peers : Peers w) (cfg : Config) where
  module _ (steady : IsSteady w) where
    open steady use {at}

    -- What the rounds that are left achieve.
    abbrev Rest : ℕ → ℕ → Action w.State Wait → Type 0
    Rest zero limit again = Unit {0}
    Rest (suc fuel) limit again =
        (u : w.State) → limit ≤ at u + fuel * wait_interval → (again u).0 ≢ out_of_fuel

    clock_round :
        (fuel limit : ℕ) (again : Action w.State Wait) (s : w.State)
        → limit ≤ at s + fuel * wait_interval
        → Rest fuel limit again
        → (wait_round w peers cfg limit none again s).0 ≢ out_of_fuel
    clock_round zero limit again s h rest =
        rw (le→leb limit (w.clock s).0 (omega (arith, steady.clock_on s))) (λ e. cc)
    clock_round (suc fuel) limit again s h rest = elim (Bool-cases (leb limit (w.clock s).0)) [
      | inl over ↦ rw over (λ e. cc)
      | inr more ↦ rw more (
          rest (w.sleep wait_interval (w.clock s).1) (
            omega (
              arith,
              steady.clock_on s,
              steady.clock_reads s,
              steady.sleep_on wait_interval (w.clock s).1,
            )))
    ]

    round-returns :
        (fuel limit : ℕ) (o : Option Text) (again : Action w.State Wait) (s : w.State)
        → limit ≤ at s + fuel * wait_interval
        → Rest fuel limit again
        → (wait_round w peers cfg limit o again s).0 ≢ out_of_fuel
    round-returns fuel limit none again s h rest = clock_round fuel limit again s h rest
    round-returns fuel limit (some []) again s h rest = clock_round fuel limit again s h rest
    round-returns fuel limit (some (c ∷ t)) again s h rest = λ e. cc

    poll-returns :
        (fuel limit : ℕ) (s : w.State)
        → limit ≤ at s + fuel * wait_interval
        → (wait_poll w peers cfg (suc fuel) limit s).0 ≢ out_of_fuel
    unfolding wait_poll status
    poll-returns zero limit s h =
        round-returns zero limit (status w cfg s).0 (wait_poll w peers cfg zero limit)
          (status w cfg s).1 (omega (arith, steady.goldcrest_on bluetit_status s)) tt
    poll-returns (suc fuel) limit s h =
        round-returns (suc fuel) limit (status w cfg s).0 (wait_poll w peers cfg (suc fuel) limit)
          (status w cfg s).1 (omega (arith, steady.goldcrest_on bluetit_status s))
          (poll-returns fuel limit)

    enough : cfg.boot_wait_seconds ≤ (wait_rounds w peers cfg - 1) * wait_interval
    enough = omega arith

    -- On a clock that does not step back, the wait for the tunnel comes to an end within the rounds
    -- that it is given, whatever goldcrest prints: with a server, or without one.
    pub wait_for_tunnel-returns :
        (a : Agent) (s : w.State) → (wait_for_tunnel w peers cfg (a, s)).0 ≢ out_of_fuel
    unfolding wait_for_tunnel
    wait_for_tunnel-returns a s =
        poll-returns (cfg.boot_wait_seconds / wait_interval + 1)
          ((w.clock s).0 + cfg.boot_wait_seconds) (w.clock s).1
          (omega (arith, steady.clock_reads s, enough))

  abbrev agent_of : Looping w peers cfg → Agent
  agent_of ((a, s), c) = a

  abbrev pub beside_cache : Option Text × Looping w peers cfg → Option Text × (Agent × w.State)
  beside_cache (r, (run, c)) = (r, run)

  module _ (i : Imports) where
    -- The servers that the check looks at, once the wait for the tunnel has ended.
    abbrev pub found : Wait × Looping w peers cfg → List Row
    found (r, state) =
        let (u, state') = outside w peers cfg peers.wait_initial state in
        (find_servers w peers cfg i state').0

    -- Those servers are the usable ones of the reader's snapshot, or else of the cache as the adoptions
    -- so far have left it, or none.
    abbrev pub IsFound : Wait × Looping w peers cfg → Type 0
    IsFound (r, state) =
        let (u, state0) = outside w peers cfg peers.wait_initial state in
        let (snapshot, state1) = outside w peers cfg peers.snapshot state0 in
        let (now, state2) = outside w peers cfg w.wallclock state1 in
        let (later, state3) = outside w peers cfg w.wallclock state2 in
        let (unlink_ok, state4) = outside w peers cfg peers.unlink state3 in
        let (v, state5) = adopted_now w peers cfg state4 in
        IsRanking i.strptime i.loads now later snapshot state5.1 (found (r, state))

    -- How the check at boot ends, by how its wait for the tunnel did.
    pub data Booted (a : Agent) (waited : Wait × Looping w peers cfg)
        (out : Option Text × Looping w peers cfg) : Type 0 where
      no_tunnel :
          ((current : Text) → waited.0 ≢ up current)
          → out.0 ≡ none
          → out.1.0.0 ≡ a
          → Booted a waited out
      stayed :
          (current : Text)
          → waited.0 ≡ up current
          → IsFound waited
          → (found waited ≡ []) ⊎ (in_band (some current) (found waited) cfg.band ≡ true)
          → out.0 ≡ none
          → out.1.0.0 ≡ record a { current_server = some current }
          → Booted a waited out
      upgraded :
          (current : Text)
          → waited.0 ≡ up current
          → IsFound waited
          → found waited ≢ []
          → in_band (some current) (found waited) cfg.band ≡ false
          → SwitchPost cfg cfg.dry_run false
              (record a { current_server = some current })
              (beside_cache out)
          → Booted a waited out

    fresh_or_cached-IsRanking :
        (unlink_ok : Bool) (now later : ℕ) (snapshot : Option Text) (rows : List Row)
        (state : Looping w peers cfg)
        → read_ranking i.strptime i.loads now snapshot ≡ rows
        → IsRanking i.strptime i.loads now later snapshot state.1
            (fresh_or_cached w peers cfg i unlink_ok later rows state).0
    fresh_or_cached-IsRanking unlink_ok now later snapshot [] state e =
        cached_ranking-IsRanking i.strptime i.loads unlink_ok now later snapshot state.1 e
    fresh_or_cached-IsRanking unlink_ok now later snapshot (r ∷ rs) state e =
        read_ranking-IsRanking i.strptime i.loads unlink_ok now later snapshot state.1 r rs e

    find_servers-IsFound : (waited : Wait × Looping w peers cfg) → IsFound waited
    unfolding find_servers
    find_servers-IsFound waited = fresh_or_cached-IsRanking _ _ _ _ _ _ refl

    kept_agent :
        (unlink_ok : Bool) (later : ℕ) (rows : List Row) (state : Looping w peers cfg)
        → agent_of (fresh_or_cached w peers cfg i unlink_ok later rows state).1 ≡ agent_of state
    kept_agent unlink_ok later [] state = refl
    kept_agent unlink_ok later (r ∷ rs) state = refl

    find_servers-agent :
        (state : Looping w peers cfg)
        → agent_of (find_servers w peers cfg i state).1 ≡ agent_of state
    unfolding find_servers
    find_servers-agent state = kept_agent _ _ _ _

    upgrade-Booted :
        (a : Agent) (current : Text) (waited : Wait × Looping w peers cfg) (servers : List Row)
        (state : Looping w peers cfg)
        → waited.0 ≡ up current
        → found waited ≡ servers
        → agent_of state ≡ record a { current_server = some current }
        → Booted a waited (upgrade w peers cfg i current servers state)
    upgrade-Booted a current waited [] state ended e here =
        stayed current ended (find_servers-IsFound waited) (inl e) refl here
    upgrade-Booted a current waited (r ∷ rs) ((b, s), c) ended e here =
        let names = candidate_names (r ∷ rs) cfg.band (some current) in
        elim (Bool-cases (in_band (some current) (r ∷ rs) cfg.band)) [
          | inl inside ↦
              rw inside
                (stayed current ended (find_servers-IsFound waited) (inr (rw e inside)) refl here)
          | inr beyond ↦ rw beyond (
              upgraded current ended (find_servers-IsFound waited) (rw e (λ q. cc)) (rw e beyond) (
                subst
                  (λ (x : Agent).
                    SwitchPost cfg cfg.dry_run false x
                      (switch w cfg names boot_upgrade false (b, s)))
                  here (switch-outcome w cfg names boot_upgrade false b s)))
        ]

    after_wait-Booted :
        (a : Agent) (r : Wait) (s : w.State) (c : Cache)
        → let waited : Wait × Looping w peers cfg = (r, ((at_server r a, s), c)) in
          Booted a waited (after_wait w peers cfg i r waited.1)
    after_wait-Booted a given_up s c = no_tunnel (λ x e. cc) refl refl
    after_wait-Booted a out_of_fuel s c = no_tunnel (λ x e. cc) refl refl
    after_wait-Booted a (up current) s c =
        upgrade-Booted a current (up current, ((at_server (up current) a, s), c)) _ _ refl refl
          (find_servers-agent _)

    -- In any surroundings, the check at boot ends in one of three ways, by what its wait for the tunnel
    -- and its look at the ranking give. Without a tunnel, the agent is as it was. With one, the servers
    -- found are the rows of the reader's snapshot while its lease runs, or else those of the cache
    -- while that lease runs, or none. When there are none, or the server of the tunnel is in their
    -- band, the agent changes in nothing but that this server is the current one. Otherwise the check
    -- switches, which leaves the agent as a switch does, and is never an escape.
    pub boot_check-Booted :
        (a : Agent) (s : w.State) (c : Cache)
        → Booted a
            (running w peers cfg (wait_for_tunnel w peers cfg) ((a, s), c))
            (boot_check w peers cfg i ((a, s), c))
    unfolding boot_check wait_for_tunnel
    boot_check-Booted a s c = after_wait-Booted a _ _ c
