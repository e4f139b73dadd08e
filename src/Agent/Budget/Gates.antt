-- ===== src/Agent/Budget/Gates.antt =====
-- What the gates of the budget enforce: the cooldown, the daily cap and the escape slot.
use epaflix.Base.{
  ℕ, ◌+◌, ◌≤◌, ◌<◌, ◌≡◌, refl, ◌↔◌, ◌⊎◌, inl, inr, Bool, true, false, Option, none, some, List, [],
  ◌∷◌, count, arith, length, ltb, last?, keep, any, keep-append, last?-append_one, dec_lt,
}
use epaflix.Agent.Budget.{
  Budget, Entry, Kind, Refusal, Decision, decided, hatch, day, is_escape, is_fresh, fresh, prune,
  snapshot, allowed, allowed_or_escape, arm, front_door,
}

-- At every moment the front door is open exactly when the metrics, read at that moment, show a
-- budget that is not exhausted and no cooldown left.
pub snapshot-allowed :
    (now : ℕ) (b : Budget)
    → ((allowed now b).0.0 ≡ true)
      ↔ (((snapshot now b).exhausted ≡ false) × ((snapshot now b).left ≡ 0))
unfolding snapshot allowed
snapshot-allowed now b = (λ h. ground arith, λ h. ground arith)

last-fresh-arm :
    (now later : ℕ) (c : Option ℕ) (k : Kind) (b : Budget)
    → later < now + day
    → last? (fresh later (arm now c k b))
      ≡ some (record { placed = now; armed = elim c [ none ↦ b.cooldown | some d ↦ d ]; kind = k })
unfolding arm
last-fresh-arm now later c k b h =
    let e : Entry = record {
      placed = now;
      armed = elim c [ none ↦ b.cooldown | some d ↦ d ];
      kind = k;
    } in
    rw (keep-append (is_fresh later) (fresh now b) (e ∷ []))
      (ground (arith, last?-append_one (keep (is_fresh later) (fresh now b)) e))

-- A switch that was recorded with a cooldown shuts the front door, the cap or no cap, until the
-- cooldown is over or a day has passed, whichever is first.
allowed-arm :
    (now later : ℕ) (c : ℕ) (k : Kind) (b : Budget)
    → (allowed later (arm now (some c) k b)).0.0 ≡ true
    → (now + c ≤ later) ⊎ (now + day ≤ later)
unfolding allowed
allowed-arm now later c k b h = elim (dec_lt later (now + day)) [
  | yes soon ↦ ground (arith, last-fresh-arm now later (some c) k b soon)
  | no late ↦ inr (omega arith)
]

-- The cap has room, and the last switch's cooldown is over.
abbrev pub IsOpen : (now cap used : ℕ) → Option Entry → Type 0
IsOpen now cap used o =
    (used < cap) × (elim o [ none ↦ Unit {0} | some e ↦ e.placed + e.armed ≤ now ])

-- The last switch was made less than the window ago, no escape is on record, and the lockout would
-- not clear by itself: the cap is full, or the last switch armed at least the full cooldown.
abbrev pub IsStranded : (window later : ℕ) → Budget → List Entry → Option Entry → Type 0
IsStranded window later b history o = elim o [
  | none ↦ ⊥
  | some e ↦
      (later < e.placed + window)
      × (count is_escape history ≡ 0)
      × ((b.max_per_day ≤ length history) ⊎ (b.cooldown ≤ e.armed))
]

-- How a trip is decided: by the history of the last day as of the first reading of the clock, and by
-- what is left of that as of the second.
abbrev pub IsDecided : (window now later : ℕ) → Budget → Decision → Type 0
IsDecided window now later b d =
    let first = keep (λ (e : Entry). ltb now (e.placed + day)) b.history in
    let second = keep (λ (e : Entry). ltb later (e.placed + day)) first in
    let Open = IsOpen now b.max_per_day (length first) (last? first) in
    let Stranded = IsStranded window later b second (last? second) in
    (Open × (d.allowed ≡ true) × (d.escape ≡ false))
    ⊎ (¬ Open × Stranded × (d.allowed ≡ true) × (d.escape ≡ true))
    ⊎ (¬ Open × ¬ Stranded × (d.allowed ≡ false) × (d.escape ≡ false))

none-count : (xs : List Entry) → (any is_escape xs ≡ false) ↔ (count is_escape xs ≡ 0)
none-count [] = (λ h. refl, λ h. refl)
none-count (x ∷ xs) =
    let ih = none-count xs in (λ h. ground (arith, ih.0), λ h. ground (arith, ih.1))

hatch-IsStranded :
    (window later : ℕ) (b : Budget) (why : Refusal) (o : Option Entry)
    → let d = hatch window later b why o in
      (IsStranded window later b b.history o × (d.allowed ≡ true) × (d.escape ≡ true))
      ⊎ (¬ IsStranded window later b b.history o × (d.allowed ≡ false) × (d.escape ≡ false))
hatch-IsStranded window later b why none = inr (λ f. f, refl, refl)
hatch-IsStranded window later b why (some e) =
    let (free, unused) = none-count b.history in ground (arith, free, unused)

front_door-IsOpen :
    (now : ℕ) (b : Budget) (o : Option Entry)
    → last? b.history ≡ o
    → (IsOpen now b.max_per_day (length b.history) o × ((front_door now b).0 ≡ true))
      ⊎ (¬ IsOpen now b.max_per_day (length b.history) o × ((front_door now b).0 ≡ false))
front_door-IsOpen now b none e = rw e (ground arith)
front_door-IsOpen now b (some last) e = rw e (ground arith)

decided-IsDecided :
    (window now later : ℕ) (b : Budget) (door : Bool × Refusal)
    → let Open = IsOpen now b.max_per_day (length (fresh now b)) (last? (fresh now b)) in
      (Open × (door.0 ≡ true)) ⊎ (¬ Open × (door.0 ≡ false))
      → IsDecided window now later b (decided window later (prune now b) door).0
decided-IsDecided window now later b (true, why) (inl (free, e)) = inl (free, refl, refl)
decided-IsDecided window now later b (true, why) (inr (shut, e)) = cc
decided-IsDecided window now later b (false, why) (inl (free, e)) = cc
decided-IsDecided window now later b (false, why) (inr (shut, e)) =
    let b2 = prune later (prune now b) in
    elim (hatch-IsStranded window later b2 why (last? b2.history)) [
      | inl passed ↦ inr (inl (shut, passed.0, passed.1, passed.2))
      | inr held ↦ inr (inr (shut, held.0, held.1, held.2))
    ]

-- Each trip is decided in one of three ways. The door is open, and the trip passes as no escape, when
-- the switches of the last day are fewer than the cap and the last of them has served its cooldown.
-- Otherwise it passes as an escape when the last switch is less than the window old, no escape is
-- on record for the last day, and the cap is full or that switch armed at least the full
-- cooldown. Otherwise it is refused. The door goes by the first reading of the clock, the escape
-- by the second.
pub allowed_or_escape-IsDecided :
    (window now later : ℕ) (b : Budget)
    → IsDecided window now later b (allowed_or_escape window now later b).0
unfolding allowed_or_escape allowed
allowed_or_escape-IsDecided window now later b =
    decided-IsDecided window now later b (front_door now (prune now b))
      (front_door-IsOpen now (prune now b) (last? (fresh now b)) refl)
