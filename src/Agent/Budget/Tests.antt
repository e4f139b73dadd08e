-- ===== src/Agent/Budget/Tests.antt =====
-- Runs of the switch budget at concrete histories, and its theorems at them.
use epaflix.Base.{
  ℕ, ◌*◌, ◌≡◌, refl, ◌↔◌, true, false, Option, none, some, List, [], ◌∷◌, arith, codes, length,
}
use epaflix.Base.Int.{pos}
use epaflix.Base.Json.{Json, one, float, finite}
use epaflix.Agent.Budget.{Budget, switch, snapshot, allowed, allowed_or_escape, arm}
use epaflix.Agent.Budget.Trace.{Event, trip, placement, step, run, start}
use epaflix.Agent.Budget.Escapes.{Spaced, run-escapes-Spaced}
use epaflix.Agent.Budget.Gates.{snapshot-allowed, IsDecided, allowed_or_escape-IsDecided}
use epaflix.Agent.Budget.Disk.{missing, open_budget, save, allowed_or_escape-restart}

abbrev hour : ℕ
hour = 3_600 * one

-- Six hours of cooldown, three switches a day.
abbrev new_budget : Budget
new_budget = record {
  cooldown = 6 * hour;
  max_per_day = 3;
  path = some (codes "/var/cache/vpn-agent/switches.json");
  history = [];
}

abbrev window : ℕ
window = 2 * hour

-- A switch, a trip an hour later that only the hatch lets through, one more hour later that is
-- refused, and one on the next day.
abbrev events : List Event
events =
    placement (100 * hour) none
    ∷ trip (101 * hour) (101 * hour) (101 * hour) none
    ∷ trip (102 * hour) (102 * hour) (102 * hour) none
    ∷ trip (130 * hour) (130 * hour) (130 * hour) none
    ∷ []

one_escape : (run window (start new_budget) events).escapes ≡ 101 * hour ∷ []
unfolding run step allowed_or_escape arm
one_escape = refl

run-escapes-Spaced_example : Spaced (run window (start new_budget) events).escapes
run-escapes-Spaced_example = run-escapes-Spaced window 0 new_budget events (omega arith)

abbrev placed : Budget
placed = record new_budget {
  history = record { placed = 100 * hour; armed = 6 * hour; kind = switch } ∷ [];
}

snapshot-allowed_example : ((allowed (101 * hour) placed).0.0 ≡ true) ↔ (
    ((snapshot (101 * hour) placed).exhausted ≡ false) × ((snapshot (101 * hour) placed).left ≡ 0))
snapshot-allowed_example = snapshot-allowed (101 * hour) placed

allowed_or_escape-IsDecided_example :
    IsDecided window
      (101 * hour)
      (101 * hour)
      placed
      (allowed_or_escape window (101 * hour) (101 * hour) placed).0
allowed_or_escape-IsDecided_example =
    allowed_or_escape-IsDecided window (101 * hour) (101 * hour) placed

abbrev trips : List Event
trips =
    trip (100 * hour) (100 * hour) (100 * hour) none
    ∷ trip (101 * hour) (101 * hour) (101 * hour) none
    ∷ trip (102 * hour) (102 * hour) (102 * hour) none
    ∷ []

two_recorded : length (run window (start new_budget) trips).budget.history ≡ 2
unfolding run step allowed_or_escape arm
two_recorded = refl

abbrev seconds : Json → Option ℕ
seconds (float (finite (pos n))) = some n
seconds _ = none

allowed_or_escape-restart_example :
    allowed_or_escape window
      (101 * hour)
      (101 * hour)
      (open_budget seconds (6 * hour) 3 placed.path (100 * hour) (save true placed missing))
    ≡ allowed_or_escape window (101 * hour) (101 * hour) placed
allowed_or_escape-restart_example =
    allowed_or_escape-restart seconds (λ n. refl) window (100 * hour) (101 * hour) (101 * hour)
      placed (codes "/var/cache/vpn-agent/switches.json") missing refl (omega arith)
