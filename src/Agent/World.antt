-- ===== src/Agent/World.antt =====
-- What the agent's control loop asks of its surroundings: clocks, sleep, randomness, goldcrest,
-- ping and /sys/class/net. The operations take and return a state of the surroundings, of which
-- nothing is known; `IsSteady` is what the termination of a loop needs of the monotonic clock.
use epaflix.Base.{ℕ, ◌+◌, ◌≤◌, ◌≡◌, Option, List, Text}

-- The three calls of goldcrest that the agent makes.
pub data Call : Type 0 where
  bluetit_status disconnects : Call
  air_connect : (air_key : Text) (air_server : Option Text) → Call

-- `ping -n -q -c count -i interval -W 2 [-I interface] target`
pub record Ping : Type 0 where
  pub count : ℕ
  pub interval : ℕ
  pub interface : Option Text
  pub target : Text

pub record World : Type 1 where
  pub State : Type 0
  pub clock : State → ℕ × State
  pub wallclock : State → ℕ × State
  pub sleep : ℕ → State → State
  -- `random.uniform(a, b)`
  pub uniform : ℕ → ℕ → State → ℕ × State
  -- The output of one goldcrest call.
  pub goldcrest : Call → State → Text × State
  -- What ping printed, or nothing where the run failed.
  pub ping : Ping → State → Option Text × State
  -- os.listdir("/sys/class/net")
  pub list_net : State → Option (List Text) × State
  -- Whether a write of the switch history succeeds.
  pub write_history : State → Option (Unit {0}) × State

-- The monotonic clock: `at` is its value in a state, which no operation moves back, and sleep
-- moves on by what was asked at least.
pub record IsSteady (w : World) : Type 0 where
  pub at : w.State → ℕ
  pub clock_reads : (s : w.State) → at (w.clock s).1 ≡ (w.clock s).0
  pub clock_on : (s : w.State) → at s ≤ (w.clock s).0
  pub sleep_on : (d : ℕ) (s : w.State) → at s + d ≤ at (w.sleep d s)
  pub goldcrest_on : (c : Call) (s : w.State) → at s ≤ at (w.goldcrest c s).1

-- An action on a state: the surroundings alone, or the agent in them.
abbrev pub Action : Type 0 → Type 0 → Type 0
Action S A = S → A × S

infixl 5 ◌>>=◌ ◌>>◌
abbrev pub pure : {S A : Type 0} → A → Action S A
pure a s = (a, s)

abbrev pub ◌>>=◌ : {S A B : Type 0} → Action S A → (A → Action S B) → Action S B
◌>>=◌ m f s = let (a, s') = m s in f a s'

abbrev pub ◌>>◌ : {S A B : Type 0} → Action S A → Action S B → Action S B
◌>>◌ m k s = k (m s).1

abbrev pub skip : {S : Type 0} → Action S (Unit {0})
skip s = (tt, s)

abbrev pub pause : (w : World) → ℕ → Action w.State (Unit {0})
pause w d s = (tt, w.sleep d s)
