-- ===== src/Agent/Switch/Outcome.antt =====
-- What a switch leaves behind, on every path and in any surroundings.
use epaflix.Base.{
  ◌+◌, ◌≡◌, refl, ◌⊎◌, inl, inr, Bool, true, false, Option, none, List, if◌then◌else◌, Text,
}
use epaflix.Agent.Budget.Disk.{record_switch}
use epaflix.Agent.State.{Config, Agent, Reason}
use epaflix.Agent.World.{World, Action}
use epaflix.Agent.Switch.{earned_cooldown, record_budget, recover, switch, rehearse, carry_out}
use epaflix.Agent.Switch.Entries.{Finished, Recorded, earned-cases}
use epaflix.Agent.Switch.Paths.{Ended, recover-Ended}

-- What a switch comes to, in a dry run or not.
abbrev pub SwitchPost :
    (cfg : Config) → {S : Type 0} → Bool → Bool → Agent → Option Text × (Agent × S) → Type 0
SwitchPost cfg dry escape a (r, (a', _)) =
    ((dry ≡ true)
      × (r ≡ none)
      × Recorded cfg escape a a'
      × (a' ≡ record a { budget = a'.budget; stored = a'.stored }))
    ⊎ ((dry ≡ false) × Finished cfg escape a r a' × (a'.switching ≡ false))

module _ (w : World) (cfg : Config) (reason : Reason) (escape : Bool) (a : Agent)
    (s : w.State) where
  rehearse-post : SwitchPost cfg true escape a (rehearse w cfg reason escape (a, s))
  unfolding rehearse record_budget record_switch
  rehearse-post = inl (
    refl,
    refl,
    ((w.wallclock s).0, earned_cooldown cfg reason, refl, earned-cases cfg reason),
    refl,
  )

  carry_out-post :
      (names : List Text)
      → SwitchPost cfg false escape a (carry_out w cfg names reason escape (a, s))
  unfolding carry_out
  carry_out-post names =
      let (delay, s1) = w.uniform 0 cfg.jitter_seconds s in
      let (started, s2) = w.clock (w.sleep delay s1) in
      let limit = started + cfg.recovery_budget in
      let b = record a { switching = true } in
      let f : Ended w cfg escape b (recover w cfg limit names reason escape (b, s2)) =
        recover-Ended w cfg escape b limit names reason s2 in
      inr (
        refl,
        record {
          recorded = f.recorded;
          server = f.server;
          cleared = f.cleared;
          counted = f.counted;
          uncounted = f.uncounted;
        },
        refl,
      )

either_way :
    (cfg : Config) {S : Type 0} (dry escape : Bool) (a : Agent)
    (x y : Action (Agent × S) (Option Text)) (s : S)
    → SwitchPost cfg true escape a (x (a, s))
    → SwitchPost cfg false escape a (y (a, s))
    → SwitchPost cfg dry escape a ((if dry then x else y) (a, s))
either_way cfg true escape a x y s h k = h
either_way cfg false escape a x y s h k = k

-- Whatever the surroundings do, a switch puts exactly one entry on the budget's record, marked as
-- an escape exactly when it is one, with the full or the short cooldown. A dry run reports no
-- server and changes nothing else of the agent but its budget and the file of its history. Any
-- other switch ends with `switching` off, remembers the server that it reports, starts the count
-- of bad windows anew, adds at most one to the counters of switches, and none where it ends
-- without a tunnel.
pub switch-outcome :
    (w : World) (cfg : Config) (names : List Text) (reason : Reason) (escape : Bool) (a : Agent)
    (s : w.State)
    → SwitchPost cfg cfg.dry_run escape a (switch w cfg names reason escape (a, s))
unfolding switch
switch-outcome w cfg names reason escape a s =
    either_way cfg cfg.dry_run escape a (rehearse w cfg reason escape)
      (carry_out w cfg names reason escape) s (rehearse-post w cfg reason escape a s)
      (carry_out-post w cfg reason escape a s names)
