-- ===== src/Agent/Budget/Escapes.antt =====
-- The one escape slot of a rolling day, over any sequence of trips and other switches.
use epaflix.Base.{
  ℕ, ◌+◌, ◌≤◌, ◌<◌, ◌≡◌, ◌⊎◌, ◌&&◌, ◌==◌, dec_lt, refl, Bool, true, false, Option, List, [], ◌∷◌,
  ◌++◌, arith, if◌then◌else◌, keep, any, inl, inr, Bool-cases,
}
use epaflix.Agent.Budget.{
  Budget, Entry, Kind, switch, day, is_escape, is_fresh, fresh, prune, allowed, front_door, decided,
  Refusal, allowed_or_escape, arm,
}
use epaflix.Agent.Budget.Trace.{Event, trip, placement, Trace, step, run, start, kind_of, InOrder}

-- Each escape stands a whole day behind the one before it.
abbrev pub Spaced : List ℕ → Type 0
Spaced [] = Unit {0}
Spaced (t ∷ []) = Unit {0}
Spaced (t ∷ s ∷ ts) = (s + day ≤ t) × Spaced (s ∷ ts)

-- An escape that was granted at `t` is on record.
abbrev Holds : ℕ → List Entry → Type 0
Holds t xs = any (λ e. is_escape e && e.placed == t) xs ≡ true

Holds-fresh :
    (now t : ℕ) (xs : List Entry) → now < t + day → Holds t xs → Holds t (keep (is_fresh now) xs)
Holds-fresh now t [] h p = p
Holds-fresh now t (x ∷ xs) h p = ground (arith, Holds-fresh now t xs h)

any-of-Holds : (t : ℕ) (xs : List Entry) → Holds t xs → any is_escape xs ≡ true
any-of-Holds t [] p = cc
any-of-Holds t (x ∷ xs) p = ground (arith, any-of-Holds t xs)

Holds-append : (t : ℕ) (xs ys : List Entry) → Holds t xs → Holds t (xs ++ ys)
Holds-append t [] ys p = cc
Holds-append t (x ∷ xs) ys p = ground (arith, Holds-append t xs ys)

Holds-append_last :
    (xs : List Entry) (e : Entry) → is_escape e ≡ true → Holds e.placed (xs ++ e ∷ [])
Holds-append_last [] e h = ground arith
Holds-append_last (x ∷ xs) e h = ground (arith, Holds-append_last xs e h)

-- The latest escape is on record until a day has passed.
abbrev Tracked : ℕ → List Entry → List ℕ → Type 0
Tracked from h [] = Unit {0}
Tracked from h (t ∷ ts) = (t ≤ from) × ((t + day ≤ from) ⊎ Holds t h)

Tracked-fresh :
    (from now : ℕ) (h : List Entry) (ts : List ℕ)
    → from ≤ now
    → Tracked from h ts
    → Tracked now (keep (is_fresh now) h) ts
Tracked-fresh from now h [] le p = tt
Tracked-fresh from now h (t ∷ ts) le (before, inl old) = (omega arith, inl (omega arith))
Tracked-fresh from now h (t ∷ ts) le (before, inr held) = elim (dec_lt now (t + day)) [
  | yes soon ↦ (omega arith, inr (Holds-fresh now t h soon held))
  | no late ↦ (omega arith, inl (omega arith))
]

-- Time alone keeps it.
later_Tracked :
    (from now : ℕ) (h : List Entry) (ts : List ℕ)
    → from ≤ now
    → Tracked from h ts
    → Tracked now h ts
later_Tracked from now h [] le p = tt
later_Tracked from now h (t ∷ ts) le (before, inl old) = (omega arith, inl (omega arith))
later_Tracked from now h (t ∷ ts) le (before, inr held) = (omega arith, inr held)

Tracked-append :
    (from : ℕ) (h k : List Entry) (ts : List ℕ) → Tracked from h ts → Tracked from (h ++ k) ts
Tracked-append from h k [] p = tt
Tracked-append from h k (t ∷ ts) (before, inl old) = (before, inl old)
Tracked-append from h k (t ∷ ts) (before, inr held) = (before, inr (Holds-append t h k held))

Tracked-arm :
    (from now : ℕ) (c : Option ℕ) (k : Kind) (b : Budget) (ts : List ℕ)
    → from ≤ now
    → Tracked from b.history ts
    → Tracked now (arm now c k b).history ts
unfolding arm
Tracked-arm from now c k b ts le p =
    Tracked-append now (fresh now b) _ ts (Tracked-fresh from now b.history ts le p)

-- An escape is granted only where no escape of the last day is on record.
escape-Spaced :
    (from : ℕ) (h : List Entry) (ts : List ℕ) (done : ℕ)
    → any is_escape h ≡ false
    → from ≤ done
    → Tracked from h ts
    → Spaced ts
    → Spaced (done ∷ ts)
escape-Spaced from h [] done n le p s = tt
escape-Spaced from h (t ∷ ts) done n le (before, inl old) s = (omega arith, s)
escape-Spaced from h (t ∷ ts) done n le (before, inr held) s = ground (arith, any-of-Holds t h held)

decided-Tracked :
    (window now later : ℕ) (b : Budget) (door : Bool × Refusal) (ts : List ℕ)
    → now ≤ later
    → Tracked now b.history ts
    → Tracked later (decided window later b door).1.history ts
decided-Tracked window now later b (true, why) ts le p = later_Tracked now later b.history ts le p
decided-Tracked window now later b (false, why) ts le p = Tracked-fresh now later b.history ts le p

-- What an escape rests on: no other escape in the pruned history.
decided-escape :
    (window later : ℕ) (b : Budget) (door : Bool × Refusal)
    → (decided window later b door).0.escape ≡ true
    → any is_escape (decided window later b door).1.history ≡ false
decided-escape window later b (true, why) h = cc
decided-escape window later b (false, why) h = ground arith

allowed_or_escape-Tracked :
    (window from now later : ℕ) (b : Budget) (ts : List ℕ)
    → from ≤ now
    → now ≤ later
    → Tracked from b.history ts
    → Tracked later (allowed_or_escape window now later b).1.history ts
unfolding allowed_or_escape allowed
allowed_or_escape-Tracked window from now later b ts le le' p =
    decided-Tracked window now later (prune now b) (front_door now (prune now b)) ts le'
      (Tracked-fresh from now b.history ts le p)

allowed_or_escape-escape :
    (window now later : ℕ) (b : Budget)
    → (allowed_or_escape window now later b).0.escape ≡ true
    → any is_escape (allowed_or_escape window now later b).1.history ≡ false
unfolding allowed_or_escape allowed
allowed_or_escape-escape window now later b =
    decided-escape window later (prune now b) (front_door now (prune now b))

record Inv (from : ℕ) (t : Trace) : Type 0 where
  tracked : Tracked from t.budget.history t.escapes
  spaced : Spaced t.escapes

-- A trip that was let through.
granted-Inv :
    (from done : ℕ) (c : Option ℕ) (escaped : Bool) (b : Budget) (ts : List ℕ)
    → from ≤ done
    → (escaped ≡ true → any is_escape b.history ≡ false)
    → Tracked from b.history ts
    → Spaced ts
    → Inv done (record {
      budget = arm done c (kind_of escaped) b;
      escapes = if escaped then done ∷ ts else ts;
    })
unfolding arm
granted-Inv from done c true b ts le none_held p s = record {
  tracked = (omega arith, inr (Holds-append_last (fresh done b) _ refl));
  spaced = escape-Spaced from b.history ts done (none_held refl) le p s;
}
granted-Inv from done c false b ts le none_held p s = record {
  tracked = Tracked-arm from done c switch b ts le p;
  spaced = s;
}

abbrev ends : Event → ℕ
ends (trip now later done c) = done
ends (placement now c) = now

abbrev Follows : ℕ → Event → Type 0
Follows from (trip now later done c) = (from ≤ now) × (now ≤ later) × (later ≤ done)
Follows from (placement now c) = from ≤ now

later-Inv : (from now : ℕ) (t : Trace) → from ≤ now → Inv from t → Inv now t
later-Inv from now t le v = record {
  tracked = later_Tracked from now t.budget.history t.escapes le v.tracked;
  spaced = v.spaced;
}

step-Inv :
    (window from : ℕ) (t : Trace) (e : Event)
    → Follows from e
    → Inv from t
    → Inv (ends e) (step window t e)
unfolding step
step-Inv window from t (placement now c) le v = record {
  tracked = Tracked-arm from now c switch t.budget t.escapes le v.tracked;
  spaced = v.spaced;
}
step-Inv window from t (trip now later done c) (le, le', le'') v =
    let (d, b) = allowed_or_escape window now later t.budget in
    let kept : Tracked later b.history t.escapes =
      allowed_or_escape-Tracked window from now later t.budget t.escapes le le' v.tracked in
    elim (Bool-cases d.allowed) [
      | inl yes_ ↦ rw yes_ (
          granted-Inv later done c d.escape b t.escapes le''
            (allowed_or_escape-escape window now later t.budget) kept v.spaced)
      | inr no_ ↦ rw no_ (
          later-Inv later done (record t { budget = b }) le''
            (record { tracked = kept; spaced = v.spaced }))
    ]

run-Spaced :
    (window from : ℕ) (t : Trace) (es : List Event)
    → InOrder from es
    → Inv from t
    → Spaced (run window t es).escapes
unfolding run
run-Spaced window from t [] order v = v.spaced
run-Spaced window from t (trip now later done c ∷ es) (le, le', le'', rest) v =
    run-Spaced window done _ es rest
      (step-Inv window from t (trip now later done c) (le, le', le'') v)
run-Spaced window from t (placement now c ∷ es) (le, rest) v =
    run-Spaced window now _ es rest (step-Inv window from t (placement now c) le v)

-- Along any sequence of degradation trips and unasked switches on a wall clock that does not step
-- back, from any budget whatever its cooldown, cap and history, and for any escape window, two
-- granted escapes are at least a day apart.
pub run-escapes-Spaced :
    (window from : ℕ) (b : Budget) (es : List Event)
    → InOrder from es
    → Spaced (run window (start b) es).escapes
run-escapes-Spaced window from b es order =
    run-Spaced window from (start b) es order (record { tracked = tt; spaced = tt })
