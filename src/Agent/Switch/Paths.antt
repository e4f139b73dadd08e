-- ===== src/Agent/Switch/Paths.antt =====
-- Every path through `switch` of images/airvpn-bluetit/agent.py ends with one record on the budget.
use epaflix.Base.{
  ℕ, zero, suc, ◌-◌, ◌≡◌, refl, ap, sym, subst, inl, inr, Bool, true, false, Option, none, some,
  List, [], ◌∷◌, leb, if◌then◌else◌, Text, Bool-cases,
}
use epaflix.Base.Int.{ℤ}
use epaflix.Agent.Budget.{arm}
use epaflix.Agent.Budget.Disk.{record_switch}
use epaflix.Agent.State.{Config, Agent, Reason, fallback, reset_bad}
use epaflix.Agent.World.{World, Action}
use epaflix.Agent.Bluetit.{Poll, server_of, connect, disconnect, tun_ok}
use epaflix.Agent.Switch.{
  kind_of, armed, passes, probe, named, Walk, done, moving_on, spent, Running, verify_tunnel,
  finish, quick, checked, verified_when, fall_back, judge_connected, try_server, backoff, attempts,
  or_next, walk, or_quick, recover,
}
use epaflix.Agent.Switch.Entries.{Finished, Known, Known-armed, count-only, count-total}

module _ (w : World) (cfg : Config) where
  finish-Finished :
      (a : Agent) (s : w.State) (server : Option Text) (reason : Reason) (counted : Option Reason)
      (cooldown : Option ℕ) (escape : Bool)
      → Known cfg cooldown
      → let (r, (a', _)) = finish w cfg server reason counted cooldown escape (a, s) in
        Finished cfg escape a r a'
  unfolding finish record_switch
  finish-Finished a s server reason counted cooldown escape known =
      let b = reset_bad (record a { current_server = server }) in
      let (n, only) = count-only server counted b in
      let now = (w.wallclock s).0 in
      let c = armed cfg reason cooldown in
      record {
        recorded = (
          now,
          c,
          ap (λ (x : Agent). arm now (some c) (kind_of escape) x.budget) only,
          Known-armed cfg reason cooldown known,
        );
        server = ap (λ (x : Agent). x.current_server) only;
        cleared = (
          ap (λ (x : Agent). x.consecutive_bad) only,
          ap (λ (x : Agent). x.consecutive_bad_server) only,
          ap (λ (x : Agent). x.consecutive_bad_generation) only,
        );
        counted = count-total server counted b;
        uncounted = λ e. rw e;
      }

  -- A walk that ends with a result has finished; any other has left the agent alone.
  abbrev Walked : Bool → Agent → Walk × Running w cfg → Type 0
  Walked escape a (done r, (a', s)) = Finished cfg escape a r a'
  Walked escape a (spent, (a', s)) = a' ≡ a
  Walked escape a (moving_on, (a', s)) = a' ≡ a

  module _ (reason : Reason) (escape : Bool) (deadline : ℕ) (a : Agent) where
    judge_connected-Walked :
        (server : Text) (s : w.State)
        → Walked escape a (judge_connected w cfg reason escape deadline server (a, s))
    unfolding judge_connected verify_tunnel
    judge_connected-Walked server s = elim (Bool-cases (tun_ok w cfg s).0) [
      | inr gone ↦ rw gone (
          finish-Finished a _ (some server) reason none (some cfg.cooldown_seconds) escape
            (inl refl))
      | inl here ↦ elim (Bool-cases (passes cfg (burst (tun_ok w cfg s).1).0)) [
        | inl traffic ↦
            rw (here, traffic)
              (finish-Finished a _ (some server) reason (some reason) none escape tt)
        | inr silent ↦ rw (here, silent) refl
      ]
    ]
      where
        burst : Action w.State (Option ℤ)
        burst = probe w cfg (some cfg.verify_probe_count) none none

    try_server-Walked :
        (o : Option Text) (again : Action (Running w cfg) Walk) (s : w.State)
        → ((u : w.State) → Walked escape a (again (a, u)))
        → Walked escape a (try_server w cfg reason escape deadline o again (a, s))
    try_server-Walked none again s rest = rest s
    try_server-Walked (some server) again s rest = judge_connected-Walked server s

    after_backoff :
        (left : ℕ) (next : Action (Running w cfg) Walk)
        → ((u : w.State) → Walked escape a (next (a, u)))
        → (s : w.State)
        → Walked escape a (next (backoff w cfg reason escape deadline left (a, s)).1)
    unfolding backoff
    after_backoff zero next rest s = rest s
    after_backoff (suc left) next rest s = rest _

    attempts-Walked :
        (left : ℕ) (name : Text) (s : w.State)
        → Walked escape a (attempts w cfg reason escape deadline left name (a, s))
    unfolding attempts
    attempts-Walked zero name s = refl
    attempts-Walked (suc left) name s = elim (Bool-cases (leb deadline (w.clock s).0)) [
      | inl late ↦ rw late refl
      | inr time ↦ rw time (
          try_server-Walked (named (server_of (found s).0)) _ (found s).1 (
            after_backoff left (attempts w cfg reason escape deadline left name)
              (attempts-Walked left name)))
    ]
      where
        found : Action w.State Poll
        found u = connect w cfg (some name) (some deadline) (w.clock u).1

    or_next-Walked :
        (x : Walk × Running w cfg) (next : Action (Running w cfg) Walk)
        → Walked escape a x
        → ((u : w.State) → Walked escape a (next (a, u)))
        → Walked escape a (or_next w cfg reason escape deadline x.0 next x.1)
    or_next-Walked (done r, (a', u)) next h rest = h
    or_next-Walked (spent, (a', u)) next h rest = h
    or_next-Walked (moving_on, (a', u)) next h rest =
        subst (λ (b : Agent). Walked escape a (next (b, u))) (sym h) (rest u)

    walk-Walked :
        (names : List Text) (s : w.State)
        → Walked escape a (walk w cfg reason escape deadline names (a, s))
    unfolding walk
    walk-Walked [] s = refl
    walk-Walked (name ∷ names) s =
        or_next-Walked
          (attempts w cfg reason escape deadline cfg.attempts_per_candidate name (a, s))
          (walk w cfg reason escape deadline names)
          (attempts-Walked cfg.attempts_per_candidate name s) (walk-Walked names)

  -- An outcome that has finished, of an action that ends with a result.
  abbrev pub Ended : Bool → Agent → Option Text × Running w cfg → Type 0
  Ended escape a (r, (a', s)) = Finished cfg escape a r a'

  module _ (escape : Bool) (a : Agent) where
    after_checked :
        (o : Option Text) (next : Option Text → Action (Running w cfg) (Option Text))
        → ((r : Option Text) (u : w.State) → Ended escape a (next r (a, u)))
        → (s : w.State)
        → Ended escape a (next (checked w cfg o (a, s)).0 (checked w cfg o (a, s)).1)
    after_checked none next rest s = rest none s
    after_checked (some server) next rest s = rest (some server) _

    after_verified :
        (o : Option Text) (next : Bool → Action (Running w cfg) (Option Text))
        → ((b : Bool) (u : w.State) → Ended escape a (next b (a, u)))
        → (s : w.State)
        → Ended escape a (next (verified_when w cfg o (a, s)).0 (verified_when w cfg o (a, s)).1)
    unfolding verified_when verify_tunnel
    after_verified none next rest s = rest false s
    after_verified (some server) next rest s = rest _ _

    fall_back-Ended :
        (hard_deadline : ℕ) (reason : Reason) (s : w.State)
        → Ended escape a (fall_back w cfg hard_deadline reason escape (a, s))
    unfolding fall_back quick
    fall_back-Ended hard_deadline reason s =
        let (poll, u) = connect w cfg none (some hard_deadline) s in
        after_checked (named (server_of poll)) last_steps
          (λ r t. after_verified r (close r) (closed r) t) u
      where
        cooldown : Bool → Option ℕ
        cooldown b = if b then none else some cfg.failed_cooldown_seconds

        close : Option Text → Bool → Action (Running w cfg) (Option Text)
        close r b = finish w cfg r reason (some fallback) (cooldown b) escape

        last_steps : Option Text → Action (Running w cfg) (Option Text)
        last_steps r x = let (b, y) = verified_when w cfg r x in close r b y

        closed : (r : Option Text) (b : Bool) (t : w.State) → Ended escape a (close r b (a, t))
        closed r true t = finish-Finished a t r reason (some fallback) none escape tt
        closed r false t =
            finish-Finished a t r reason (some fallback) (some cfg.failed_cooldown_seconds) escape
              (inr refl)

    or_quick-Ended :
        (x : Walk × Running w cfg) (quickly : Action (Running w cfg) (Option Text))
        → Walked escape a x
        → ((u : w.State) → Ended escape a (quickly (a, u)))
        → Ended escape a (or_quick w cfg x.0 quickly x.1)
    or_quick-Ended (done r, (a', u)) quickly h rest = h
    or_quick-Ended (spent, (a', u)) quickly h rest =
        subst (λ (b : Agent). Ended escape a (quickly (b, u))) (sym h) (rest u)
    or_quick-Ended (moving_on, (a', u)) quickly h rest =
        subst (λ (b : Agent). Ended escape a (quickly (b, u))) (sym h) (rest u)

    pub recover-Ended :
        (hard_deadline : ℕ) (names : List Text) (reason : Reason) (s : w.State)
        → Ended escape a (recover w cfg hard_deadline names reason escape (a, s))
    unfolding recover
    recover-Ended hard_deadline names reason s =
        let deadline = hard_deadline - cfg.quick_reserve in
        let u = (disconnect w cfg s).1 in
        or_quick-Ended (walk w cfg reason escape deadline names (a, u))
          (fall_back w cfg hard_deadline reason escape)
          (walk-Walked reason escape deadline a names u) (fall_back-Ended hard_deadline reason)
