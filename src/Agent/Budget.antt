-- ===== src/Agent/Budget.antt =====
-- class SwitchBudget of images/airvpn-bluetit/agent.py: the cooldown and the daily cap, with the
-- one escape slot. Times and cooldowns are in millionths of a second; a difference `now - when`
-- is compared as `now` against a sum, so a wall clock that steps back is covered.
pub mod Trace
pub mod Escapes
pub mod Gates
pub mod Cap
pub mod Disk
mod Tests
use epaflix.Base.{
  ℕ, ◌+◌, ◌-◌, ◌*◌, ◌≡◌, Bool, true, false, not, ◌&&◌, Option, none, some, List, [], ◌∷◌, ◌++◌,
  Text, codes, text_eq, ltb, leb, if◌then◌else◌, length, last?, keep, any, count,
}
use epaflix.Base.Json.{Json, str, arr, to_list, Items, nil, cons, one, float, finite}
use epaflix.Base.Int.{pos}

pub data Kind : Type 0 where
  switch escape : Kind

-- `[when, cooldown, kind]`
pub record Entry : Type 0 where
  pub placed : ℕ
  pub armed : ℕ
  pub kind : Kind

pub record Budget : Type 0 where
  pub cooldown : ℕ
  pub max_per_day : ℕ
  pub path : Option Text
  pub history : List Entry

abbrev pub day : ℕ
day = 86_400 * one

abbrev pub is_escape : Entry → Bool
is_escape e = elim e.kind [ switch ↦ false | escape ↦ true ]

-- `now - e[0] < 86400`
abbrev pub is_fresh : ℕ → Entry → Bool
is_fresh now e = ltb now (e.placed + day)

abbrev pub fresh : ℕ → Budget → List Entry
fresh now b = keep (is_fresh now) b.history

abbrev pub prune : ℕ → Budget → Budget
prune now b = record b { history = fresh now b }

-- The texts that go with a decision, for the log line.
pub data Refusal : Type 0 where
  no_refusal : Refusal
  cooldown_left : ℕ → Refusal
  cap_reached : ℕ → Refusal

pub data Gate : Type 0 where
  no_gate escape_spent short_cooldown outside_window inside_window : Gate

pub record Decision : Type 0 where
  pub allowed : Bool
  pub why : Refusal
  pub gate : Gate
  pub escape : Bool

pub record Snapshot : Type 0 where
  pub used : ℕ
  pub exhausted : Bool
  pub left : ℕ
  pub escapes : ℕ

abbrev left_of : ℕ → Option Entry → ℕ
left_of now none = 0
left_of now (some e) = (e.placed + e.armed) - now

-- What the metrics read; it changes nothing.
pub snapshot : ℕ → Budget → Snapshot
snapshot now b = record {
  used = length (fresh now b);
  exhausted = leb b.max_per_day (length (fresh now b));
  left = left_of now (last? (fresh now b));
  escapes = count is_escape (fresh now b);
}

-- `now - entry[0] < entry[1]`
abbrev cooling : ℕ → Option Entry → Bool
cooling now none = false
cooling now (some e) = ltb now (e.placed + e.armed)

-- `allowed` on a history that is pruned already.
abbrev front_door : ℕ → Budget → Bool × Refusal
front_door now b =
    if cooling now (last? b.history)
    then (false, cooldown_left (left_of now (last? b.history)))
    else if leb b.max_per_day (length b.history)
    then (false, cap_reached b.max_per_day)
    else (true, no_refusal)

-- The pruned history stays behind.
pub allowed : ℕ → Budget → (Bool × Refusal) × Budget
allowed now b = (front_door now (prune now b), prune now b)

abbrev refused : Refusal → Gate → Decision
refused why g = record { allowed = false; why = why; gate = g; escape = false }

-- The rules of the escape slot, for a refusal at a pruned history with the given last entry.
abbrev hatch : ℕ → ℕ → Budget → Refusal → Option Entry → Decision
hatch window now b why none = refused why no_gate
hatch window now b why (some e) =
    if any is_escape b.history
    then refused why escape_spent
    else if ltb (length b.history) b.max_per_day && ltb e.armed b.cooldown
    then refused why short_cooldown
    else if leb (e.placed + window) now
    then refused why outside_window
    else record { allowed = true; why = why; gate = inside_window; escape = true }

-- The rest of `allowed_or_escape`, by what `allowed` said and left behind.
abbrev decided : (window later : ℕ) → Budget → Bool × Refusal → Decision × Budget
decided window later b (true, why) =
    (record { allowed = true; why = no_refusal; gate = no_gate; escape = false }, b)
decided window later b (false, why) =
    (hatch window later (prune later b) why (last? (prune later b).history), prune later b)

-- The clock is read twice: once in `allowed`, and again when that refuses.
pub allowed_or_escape : (window now later : ℕ) → Budget → Decision × Budget
unfolding allowed
allowed_or_escape window now later b =
    let (door, b') = allowed now b in decided window later b' door

-- `record`, as far as memory goes; `none` is the full cooldown.
pub arm : ℕ → Option ℕ → Kind → Budget → Budget
arm now c k b = record b {
  history =
      fresh now b
      ++ record { placed = now; armed = elim c [ none ↦ b.cooldown | some d ↦ d ]; kind = k } ∷ [];
}
