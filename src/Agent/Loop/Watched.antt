-- ===== src/Agent/Loop/Watched.antt =====
-- What one window of the control loop comes to, and what many windows do to the budget.
use epaflix.Base.{ℕ, ◌≡◌, inl, inr, Bool, true, false, Option, none, some, Text, Bool-cases, ◌>>=?◌}
use epaflix.Base.Int.{ℤ}
use epaflix.Agent.Budget.{allowed_or_escape}
use epaflix.Agent.State.{Config, Agent, degradation}
use epaflix.Agent.Window.{Window, Judgement, quiet, trips, judge}
use epaflix.Agent.World.{World}
use epaflix.Agent.Switch.Outcome.{SwitchPost, switch-outcome}
use epaflix.Agent.Output.{parse_router}
use epaflix.Agent.Cache.{Cache}
use epaflix.Agent.Loop.{
  Peers, Imports, Looping, discover_router, router_from, watch_once, after_judgement, handle_trip,
  after_decision, ask_budget, find_candidates, window_from, watch_with, with_router,
}

-- The agent with what the discovery of the router may change of it.
abbrev pub found_router : Option Text → Bool → Agent → Agent
found_router router logged a = record a { lan_router = router; lan_discovery_logged = logged }

module _ (cfg : Config) where
  -- From the agent behind the window, which tripped, to the end.
  pub data Tripped (a : Agent) {S : Type 0} : Bool × (Agent × S) → Type 0 where
    suppressed :
        (now later : ℕ) (s : S)
        → (allowed_or_escape cfg.escape_window_seconds now later a.budget).0.allowed ≡ false
        → Tripped a (
          false,
          (
            record a {
              budget = (allowed_or_escape cfg.escape_window_seconds now later a.budget).1;
            },
            s,
          ),
        )
    switched :
        (now later : ℕ) (out : Option Text × (Agent × S))
        → (allowed_or_escape cfg.escape_window_seconds now later a.budget).0.allowed ≡ true
        → SwitchPost cfg cfg.dry_run
            (allowed_or_escape cfg.escape_window_seconds now later a.budget).0.escape
            (record a {
              budget = (allowed_or_escape cfg.escape_window_seconds now later a.budget).1;
            })
            out
        → Tripped a (true, out.1)

  -- By what the judge says of the window.
  pub data Judged (a : Agent) {S : Type 0} : Judgement → Bool × (Agent × S) → Type 0 where
    stays : (s : S) → Judged a quiet (false, (a, s))
    trips_on :
        {r : Bool × (Agent × S)} (server : Text) (loss : ℤ)
        → Tripped a r
        → Judged a (trips server loss) r

  pub data Watched (a : Agent) {S : Type 0} : Bool × (Agent × S) → Type 0 where
    window_of :
        {r : Bool × (Agent × S)} (router : Option Text) (logged : Bool) (win : Window)
        → Judged
            (judge cfg win (found_router router logged a)).1
            (judge cfg win (found_router router logged a)).0
            r
        → Watched a r

module _ (w : World) (peers : Peers w) (cfg : Config) (i : Imports) where
  -- The cache aside.
  abbrev pub aside : Bool × Looping w peers cfg → Bool × (Agent × w.State)
  aside (r, (run, c)) = (r, run)

  after_decision-Tripped :
      (a : Agent) (now later : ℕ) (server : Text) (s : w.State) (c : Cache)
      → let (d, b) = allowed_or_escape cfg.escape_window_seconds now later a.budget in
        Tripped cfg a
          (aside (after_decision w peers cfg i d server ((record a { budget = b }, s), c)))
  unfolding find_candidates
  after_decision-Tripped a now later server s c =
      let (d, b) = allowed_or_escape cfg.escape_window_seconds now later a.budget in
      let a1 : Agent = record a { budget = b } in
      let ((names, source), ((_, s1), _)) =
        find_candidates w peers cfg i (some server) ((a1, s), c) in
      elim (Bool-cases d.allowed) [
        | inl yes_ ↦
            rw yes_
              (switched now later _ yes_ (switch-outcome w cfg names degradation d.escape a1 s1))
        | inr no_ ↦ rw no_ (suppressed now later s no_)
      ]

  handle_trip-Tripped :
      (a : Agent) (server : Text) (loss : ℤ) (s : w.State) (c : Cache)
      → Tripped cfg a (aside (handle_trip w peers cfg i server loss ((a, s), c)))
  unfolding handle_trip ask_budget
  handle_trip-Tripped a server loss s c = after_decision-Tripped a _ _ server _ c

  after_judgement-Judged :
      (a : Agent) (j : Judgement) (s : w.State) (c : Cache)
      → Judged cfg a j (aside (after_judgement w peers cfg i j ((a, s), c)))
  after_judgement-Judged a quiet s c = stays s
  after_judgement-Judged a (trips server loss) s c =
      trips_on server loss (handle_trip-Tripped a server loss s c)

  watch_with-Watched :
      (a : Agent) (router known : Option Text) (logged : Bool) (s : w.State) (c : Cache)
      → Watched cfg a
          (aside (watch_with w peers cfg i router ((found_router known logged a, s), c)))
  watch_with-Watched a router known logged s c =
      let (win, s') = window_from w peers cfg router s in
      let (j, a1) = judge cfg win (found_router known logged a) in
      window_of known logged win (after_judgement-Judged a1 j s' c)

  found-Watched :
      (a : Agent) (found : Option Text) (s : w.State) (c : Cache)
      → Watched cfg a (
          aside (
            watch_with w peers cfg i
              (with_router found a).lan_router
              ((with_router found a, s), c)))
  found-Watched a none s c = watch_with-Watched a none none true s c
  found-Watched a (some r) s c = watch_with-Watched a (some r) (some r) a.lan_discovery_logged s c

  from_router :
      (o : Option Text) (a : Agent) (s : w.State) (c : Cache)
      → let (router, run) = router_from w peers cfg o (a, s) in
        Watched cfg a (aside (watch_with w peers cfg i router (run, c)))
  from_router (some r) a s c = watch_with-Watched a (some r) a.lan_router a.lan_discovery_logged s c
  from_router none a s c =
      found-Watched a ((peers.ping_hop s).0 >>=? parse_router) (peers.ping_hop s).1 c

  -- In any surroundings, a window of the control loop does to the agent what the judge says of some
  -- measurements, beside the router that was found. If they do not trip, that is all, and no switch
  -- is reported. If they trip and the budget refuses, nothing else but the budget's pruned history
  -- changes, and no switch is reported. Otherwise the switch is reported and leaves the agent as a
  -- switch leaves it, marked as an escape exactly when the budget says so.
  pub watch_once-Watched :
      (a : Agent) (s : w.State) (c : Cache)
      → Watched cfg a (aside (watch_once w peers cfg i ((a, s), c)))
  unfolding watch_once discover_router
  watch_once-Watched a s c = from_router a.lan_router a s c
