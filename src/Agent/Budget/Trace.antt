-- ===== src/Agent/Budget/Trace.antt =====
-- Histories of a budget: the sequences of trips and other switches that it goes through.
use epaflix.Base.{ℕ, ◌≤◌, Bool, true, false, Option, List, [], ◌∷◌, if◌then◌else◌}
use epaflix.Agent.Budget.{Budget, Kind, switch, escape, allowed_or_escape, arm}

-- What happens to a budget: a degradation trip, judged at `now` and, if it is refused, again at
-- `later`, that arms a cooldown at `done` once it is let through; or a switch that never asks.
pub data Event : Type 0 where
  trip : (now later done : ℕ) → Option ℕ → Event
  placement : (now : ℕ) → Option ℕ → Event

-- The state, and the moments at which an escape was granted, the latest first.
pub record Trace : Type 0 where
  pub budget : Budget
  pub escapes : List ℕ

abbrev pub kind_of : Bool → Kind
kind_of true = escape
kind_of false = switch

unfoldable pub step : ℕ → Trace → Event → Trace
step window t (placement now c) = record t { budget = arm now c switch t.budget }
step window t (trip now later done c) =
    let (d, b) = allowed_or_escape window now later t.budget in
    if d.allowed
    then record {
      budget = arm done c (kind_of d.escape) b;
      escapes = if d.escape then done ∷ t.escapes else t.escapes;
    }
    else record t { budget = b }

unfoldable pub run : ℕ → Trace → List Event → Trace
run window t [] = t
run window t (e ∷ es) = run window (step window t e) es

abbrev pub start : Budget → Trace
start b = record { budget = b; escapes = [] }

-- The clock does not step back along the events, from `from` on.
abbrev pub InOrder : ℕ → List Event → Type 0
InOrder from [] = Unit {0}
InOrder from (trip now later done c ∷ es) =
    (from ≤ now) × (now ≤ later) × (later ≤ done) × InOrder done es
InOrder from (placement now c ∷ es) = (from ≤ now) × InOrder now es
