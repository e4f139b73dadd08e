-- ===== src/Agent/Budget/Cap.antt =====
-- The daily cap over any sequence of degradation trips.
use epaflix.Base.{
  count-le_length, ℕ, ◌+◌, ◌≤◌, ◌<◌, ◌≡◌, Bool, true, false, not, Option, none, some, List, [], ◌∷◌,
  arith, length, keep, any, count, count-append, Bool-cases, last?, refl, inl, inr,
}
use epaflix.Agent.Budget.{
  Budget, Entry, Kind, switch, escape, Refusal, is_escape, is_fresh, fresh, prune, allowed,
  allowed_or_escape, arm, front_door, decided, hatch,
}
use epaflix.Agent.Budget.Trace.{Event, trip, placement, Trace, step, run, start, kind_of}

abbrev pub is_switch : Entry → Bool
is_switch e = not (is_escape e)

count-keep-le : (p q : Entry → Bool) (xs : List Entry) → count p (keep q xs) ≤ count p xs
count-keep-le p q [] = omega arith
count-keep-le p q (x ∷ xs) = ground (arith, count-keep-le p q xs)

count-of_none : (p : Entry → Bool) (xs : List Entry) → any p xs ≡ false → count p xs ≡ 0
count-of_none p [] h = omega arith
count-of_none p (x ∷ xs) h = ground (arith, count-of_none p xs)

-- The cap on plain switches, and the single escape.
record Within (limit : ℕ) (b : Budget) : Type 0 where
  same_cap : b.max_per_day ≡ limit
  switches : count is_switch b.history ≤ limit
  escapes : count is_escape b.history ≤ 1

prune-Within : (limit now : ℕ) (b : Budget) → Within limit b → Within limit (prune now b)
prune-Within limit now b v = record {
  same_cap = v.same_cap;
  switches = omega (arith, count-keep-le is_switch (is_fresh now) b.history, v.switches);
  escapes = omega (arith, count-keep-le is_escape (is_fresh now) b.history, v.escapes);
}

-- What a decision leaves room for.
abbrev Room : Bool → Budget → Type 0
Room true b = any is_escape b.history ≡ false
Room false b = length b.history < b.max_per_day

decided-Within :
    (limit window later : ℕ) (b : Budget) (door : Bool × Refusal)
    → Within limit b
    → Within limit (decided window later b door).1
decided-Within limit window later b (true, why) v = v
decided-Within limit window later b (false, why) v = prune-Within limit later b v

front_door-room :
    (now : ℕ) (b : Budget) → (front_door now b).0 ≡ true → length b.history < b.max_per_day
front_door-room now b h = ground arith

hatch-Room :
    (window later : ℕ) (b : Budget) (why : Refusal) (o : Option Entry)
    → (hatch window later b why o).allowed ≡ true
    → Room (hatch window later b why o).escape b
hatch-Room window later b why none h = cc
hatch-Room window later b why (some e) h = elim (Bool-cases (any is_escape b.history)) [
  | inl spent ↦ absurd (ground arith)
  | inr free ↦ ground arith
]

arm_count :
    (p : Entry → Bool) (now : ℕ) (c : Option ℕ) (k : Kind) (b : Budget)
    → count p (arm now c k b).history
      ≡ count p (fresh now b)
        + count p (
            record { placed = now; armed = elim c [ none ↦ b.cooldown | some d ↦ d ]; kind = k }
            ∷ [])
unfolding arm
arm_count p now c k b = count-append p (fresh now b) _

decided-Room :
    (window later : ℕ) (b : Budget) (door : Bool × Refusal)
    → (door.0 ≡ true → length b.history < b.max_per_day)
    → (decided window later b door).0.allowed ≡ true
    → Room (decided window later b door).0.escape (decided window later b door).1
decided-Room window later b (true, why) open_door h = open_door refl
decided-Room window later b (false, why) open_door h =
    hatch-Room window later (prune later b) why (last? (prune later b).history) h

arm-Within :
    (limit done : ℕ) (c : Option ℕ) (escaped : Bool) (b : Budget)
    → Room escaped b
    → Within limit b
    → Within limit (arm done c (kind_of escaped) b)
unfolding arm
arm-Within limit done c true b room v = record {
  same_cap = v.same_cap;
  switches = ground (arith, arm_count is_switch done c escape b, kept is_switch, v.switches);
  escapes = ground (
    arith,
    arm_count is_escape done c escape b,
    kept is_escape,
    count-of_none is_escape b.history room,
  );
}
  where
    kept : (p : Entry → Bool) → count p (fresh done b) ≤ count p b.history
    kept p = count-keep-le p (is_fresh done) b.history
arm-Within limit done c false b room v = record {
  same_cap = v.same_cap;
  switches = ground (
    arith,
    arm_count is_switch done c switch b,
    kept is_switch,
    count-le_length is_switch b.history,
    v.same_cap,
  );
  escapes = ground (arith, arm_count is_escape done c switch b, kept is_escape, v.escapes);
}
  where
    kept : (p : Entry → Bool) → count p (fresh done b) ≤ count p b.history
    kept p = count-keep-le p (is_fresh done) b.history

-- Every event is a trip: no switch is made without asking the budget.
abbrev pub AllTrips : List Event → Type 0
AllTrips [] = Unit {0}
AllTrips (trip now later done c ∷ es) = AllTrips es
AllTrips (placement now c ∷ es) = ⊥

step-Within :
    (limit window now later done : ℕ) (c : Option ℕ) (t : Trace)
    → Within limit t.budget
    → Within limit (step window t (trip now later done c)).budget
unfolding step allowed_or_escape allowed
step-Within limit window now later done c t v =
    let b = prune now t.budget in
    let door = front_door now b in
    let d = decided window later b door in
    let kept : Within limit d.1 =
      decided-Within limit window later b door (prune-Within limit now t.budget v) in
    elim (Bool-cases d.0.allowed) [
      | inl e ↦ rw e (
          arm-Within limit done c d.0.escape d.1
            (decided-Room window later b door (front_door-room now b) e) kept)
      | inr e ↦ rw e kept
    ]

run-Within :
    (limit window : ℕ) (t : Trace) (es : List Event)
    → AllTrips es
    → Within limit t.budget
    → Within limit (run window t es).budget
unfolding run
run-Within limit window t [] trips v = v
run-Within limit window t (trip now later done c ∷ es) trips v =
    run-Within limit window (step window t (trip now later done c)) es trips
      (step-Within limit window now later done c t v)
run-Within limit window t (placement now c ∷ es) trips v = absurd trips

-- As long as every switch is a degradation trip, a budget that starts empty never has more than
-- its daily cap of plain switches on record, nor more than one escape, whatever the clock does.
pub run_cap :
    (window : ℕ) (b : Budget) (es : List Event)
    → b.history ≡ []
    → AllTrips es
    → let h = (run window (start b) es).budget.history in
      (count is_switch h ≤ b.max_per_day) × (count is_escape h ≤ 1)
run_cap window b es empty trips =
    let v = run-Within b.max_per_day window (start b) es trips fresh_start in
    (v.switches, v.escapes)
  where
    fresh_start : Within b.max_per_day b
    fresh_start = record {
      same_cap = refl;
      switches = rw empty (omega arith);
      escapes = rw empty (omega arith);
    }
