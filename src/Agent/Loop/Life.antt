-- ===== src/Agent/Loop/Life.antt =====
-- Many windows of the control loop, as a history of the switch budget.
use epaflix.Base.{
  ℕ, zero, suc, ◌≤◌, ◌≡◌, refl, sym, ◌∙◌, ap, subst, ◌⊎◌, inl, inr, Bool, true, false, Option, none,
  some, List, [], ◌∷◌, length, count, arith, Text, Bool-cases,
}
use epaflix.Agent.Budget.{Budget, allowed_or_escape, is_escape}
use epaflix.Agent.Window.Budget.{judge-budget}
use epaflix.Agent.Budget.Trace.{Event, trip, placement, Trace, step, run, start}
use epaflix.Agent.Budget.Trace.{kind_of as of_trace}
use epaflix.Agent.Switch.{kind_of as of_switch}
use epaflix.Agent.Budget.Cap.{AllTrips, is_switch, run_cap}
use epaflix.Agent.State.{Config, Agent}
use epaflix.Agent.Window.{Judgement}
use epaflix.Agent.World.{World}
use epaflix.Agent.Switch.Entries.{Recorded}
use epaflix.Agent.Switch.Outcome.{SwitchPost}
use epaflix.Agent.Cache.{Cache}
use epaflix.Agent.Loop.{Peers, Imports, Looping, cycles, watch_once}
use epaflix.Agent.Loop.Watched.{
  Watched, window_of, Judged, stays, trips_on, Tripped, suppressed, switched, found_router,
  watch_once-Watched,
}

-- What an event does to a budget does not depend on which escapes are remembered.
step-budget :
    (window : ℕ) (t : Trace) (e : Event)
    → (step window t e).budget ≡ (step window (start t.budget) e).budget
unfolding step
step-budget window t (placement now c) = refl
step-budget window t (trip now later done c) =
    elim (Bool-cases (allowed_or_escape window now later t.budget).0.allowed) [
      | inl yes_ ↦ rw yes_ refl
      | inr no_ ↦ rw no_ refl
    ]

run-budget :
    (window : ℕ) (es : List Event) (t u : Trace)
    → t.budget ≡ u.budget
    → (run window t es).budget ≡ (run window u es).budget
unfolding run
run-budget window [] t u e = e
run-budget window (x ∷ es) t u e = run-budget window es (step window t x) (step window u x) (
    step-budget window t x
    ∙ ap (λ (b : Budget). (step window (start b) x).budget) e
    ∙ sym (step-budget window u x))

same_kind : (escaped : Bool) → of_trace escaped ≡ of_switch escaped
same_kind true = refl
same_kind false = refl

-- Carried out or rehearsed, a switch is on record.
SwitchPost-Recorded :
    (cfg : Config) {S : Type 0} (dry escaped : Bool) (a : Agent) (out : Option Text × (Agent × S))
    → SwitchPost cfg dry escaped a out
    → Recorded cfg escaped a out.1.0
SwitchPost-Recorded cfg dry escaped a out (inl (d, none_, recorded, rest)) = recorded
SwitchPost-Recorded cfg dry escaped a out (inr (d, finished, rest)) = finished.recorded

-- What a window does to a budget: nothing, or one trip.
abbrev OneTrip : ℕ → Budget → Budget → Type 0
OneTrip window b b' =
    (b' ≡ b)
    ⊎ ((now : ℕ) × (later : ℕ) × (done : ℕ) × (c : Option ℕ) × ((step window (start b)
            (trip now later done c)).budget
          ≡ b'))

module _ (cfg : Config) where
  Tripped-OneTrip :
      {S : Type 0} (a : Agent) (r : Bool × (Agent × S))
      → Tripped cfg a r
      → OneTrip cfg.escape_window_seconds a.budget r.1.0.budget
  unfolding step
  Tripped-OneTrip a r (suppressed now later s no_) = inr (now, later, later, none, rw no_ refl)
  Tripped-OneTrip a r (switched now later out yes_ post) =
      let (d, b) = allowed_or_escape cfg.escape_window_seconds now later a.budget in
      let (done, c, recorded, which) = SwitchPost-Recorded cfg _ _ _ out post in
      inr (now, later, done, some c, rw yes_ (rw (same_kind d.escape) (sym recorded)))

  Judged-OneTrip :
      {S : Type 0} (a : Agent) (j : Judgement) (r : Bool × (Agent × S))
      → Judged cfg a j r
      → OneTrip cfg.escape_window_seconds a.budget r.1.0.budget
  Judged-OneTrip a j r (stays s) = inl refl
  Judged-OneTrip a j r (trips_on server loss t) = Tripped-OneTrip a r t

  Watched-OneTrip :
      {S : Type 0} (a : Agent) (r : Bool × (Agent × S))
      → Watched cfg a r
      → OneTrip cfg.escape_window_seconds a.budget r.1.0.budget
  Watched-OneTrip a r (window_of router logged win j) =
      subst (λ (b : Budget). OneTrip cfg.escape_window_seconds b r.1.0.budget)
        (judge-budget cfg win (found_router router logged a)) (Judged-OneTrip _ _ r j)

module _ (w : World) (peers : Peers w) (cfg : Config) (i : Imports) where
  -- A history of trips, at most so many, that turns one budget into the other.
  pub record IsLife (n : ℕ) (b b' : Budget) : Type 0 where
    pub events : List Event
    pub trips_only : AllTrips events
    pub at_most : length events ≤ n
    pub budget : (run cfg.escape_window_seconds (start b) events).budget ≡ b'

  abbrev budget_of : Looping w peers cfg → Budget
  budget_of ((a, s), c) = a.budget

  prepend :
      (n : ℕ) (b b1 b' : Budget)
      → OneTrip cfg.escape_window_seconds b b1
      → IsLife n b1 b'
      → IsLife (suc n) b b'
  unfolding run
  prepend n b b1 b' (inl same) l = record {
    events = l.events;
    trips_only = l.trips_only;
    at_most = omega (arith, l.at_most);
    budget =
        subst (λ (x : Budget). (run cfg.escape_window_seconds (start x) l.events).budget ≡ b') same
          l.budget;
  }
  prepend n b b1 b' (inr (now, later, done, c, e)) l = record {
    events = trip now later done c ∷ l.events;
    trips_only = l.trips_only;
    at_most = omega (arith, l.at_most);
    budget =
        run-budget cfg.escape_window_seconds l.events
          (step cfg.escape_window_seconds (start b) (trip now later done c)) (start b1) e
        ∙ l.budget;
  }

  -- However many windows the control loop goes through, in any surroundings, its budget is the one
  -- that some history of at most as many trips leaves, in the model of the budget alone.
  pub cycles-IsLife :
      (n : ℕ) (a : Agent) (s : w.State) (c : Cache)
      → IsLife n a.budget (budget_of (cycles w peers cfg i n ((a, s), c)).1)
  unfolding cycles run
  cycles-IsLife zero a s c = record {
    events = [];
    trips_only = tt;
    at_most = omega arith;
    budget = refl;
  }
  cycles-IsLife (suc n) a s c =
      let out = watch_once w peers cfg i ((a, w.sleep cfg.probe_interval s), c) in
      let ((a1, s1), c1) = out.1 in
      prepend n a.budget a1.budget _
        (Watched-OneTrip cfg a _
          (watch_once-Watched w peers cfg i a (w.sleep cfg.probe_interval s) c))
        (cycles-IsLife n a1 s1 c1)

  -- An agent that starts with nothing on its budget's record never has more plain switches there
  -- than the daily cap, nor more than one escape, through any number of windows, whatever the clocks, the
  -- probes, the ranking and Bluetit do.
  pub cycles-cap :
      (n : ℕ) (a : Agent) (s : w.State) (c : Cache)
      → a.budget.history ≡ []
      → let h = (budget_of (cycles w peers cfg i n ((a, s), c)).1).history in
        (count is_switch h ≤ a.budget.max_per_day) × (count is_escape h ≤ 1)
  cycles-cap n a s c empty =
      let l = cycles-IsLife n a s c in
      subst
        (λ (b : Budget).
          (count is_switch b.history ≤ a.budget.max_per_day) × (count is_escape b.history ≤ 1))
        l.budget (run_cap cfg.escape_window_seconds a.budget l.events empty l.trips_only)
