-- ===== src/Agent/Bluetit/Connect.antt =====
-- The polling loop of `connect` ends, and what it reports is what was asked for.
use native.Mathlib.Nat.{div-add-mod, mod-lt}
use epaflix.Base.{
  ℕ, zero, suc, ◌+◌, ◌-◌, ◌*◌, ◌/◌, ◌≤◌, ◌<◌, ◌≡◌, refl, ◌≢◌, Bool, true, false, Option, none, some,
  leb, le→leb, is_some, Text, text_eq_iff, lower, arith, Bool-cases, inl, inr, [], ◌∷◌, subst,
}
use epaflix.Agent.State.{Config}
use epaflix.Agent.Output.{parse_status, refusal}
use epaflix.Agent.World.{World, IsSteady, Action, bluetit_status, air_connect}
use epaflix.Agent.Bluetit.{
  Poll, connected, out_of_fuel, accepted, status, poll, poll_round, rounds, connect, or_limit,
  server_arg,
}

module _ (w : World) (cfg : Config) (steady : IsSteady w) where
  open steady use {at}

  -- What the rounds that are left achieve.
  abbrev Rest : ℕ → ℕ → Action w.State Poll → Type 0
  Rest zero limit again = Unit {0}
  Rest (suc fuel) limit again =
      (u : w.State) → limit ≤ at u + fuel * cfg.verify_interval → (again u).0 ≢ out_of_fuel

  slept :
      (s : w.State) → at s + cfg.verify_interval ≤ at (w.sleep cfg.verify_interval (w.clock s).1)
  slept s = omega (
    arith,
    steady.clock_on s,
    steady.clock_reads s,
    steady.sleep_on cfg.verify_interval (w.clock s).1,
  )

  round-returns :
      (fuel limit : ℕ) (no_way : Bool) (o : Option Text) (again : Action w.State Poll) (s : w.State)
      → limit ≤ at s + fuel * cfg.verify_interval
      → Rest fuel limit again
      → (poll_round w cfg no_way limit o again s).0 ≢ out_of_fuel
  round-returns fuel limit no_way (some server) again s h rest = λ e. cc
  round-returns fuel limit true none again s h rest = λ e. cc
  round-returns zero limit false none again s h rest =
      rw (le→leb limit (w.clock s).0 (omega (arith, steady.clock_on s))) (λ e. cc)
  round-returns (suc fuel) limit false none again s h rest =
      elim (Bool-cases (leb limit (w.clock s).0)) [
        | inl over ↦ rw over (λ e. cc)
        | inr more ↦
            rw more (rest (w.sleep cfg.verify_interval (w.clock s).1) (omega (arith, slept s)))
      ]

  poll-returns :
      (fuel limit : ℕ) (no_way : Bool) (name : Option Text) (s : w.State)
      → limit ≤ at s + fuel * cfg.verify_interval
      → (poll w cfg (suc fuel) no_way limit name s).0 ≢ out_of_fuel
  unfolding poll status
  poll-returns zero limit no_way name s h =
      let (out, s') = w.goldcrest bluetit_status s in
      round-returns zero limit no_way (accepted name (parse_status out))
        (λ u. poll w cfg zero no_way limit name u) s'
        (omega (arith, steady.goldcrest_on bluetit_status s)) tt
  poll-returns (suc fuel) limit no_way name s h =
      let (out, s') = w.goldcrest bluetit_status s in
      round-returns (suc fuel) limit no_way (accepted name (parse_status out))
        (λ u. poll w cfg (suc fuel) no_way limit name u) s'
        (omega (arith, steady.goldcrest_on bluetit_status s))
        (λ u le. poll-returns fuel limit no_way name u le)

  limit-le : (limit : ℕ) (deadline : Option ℕ) → or_limit limit deadline ≤ limit
  limit-le limit none = omega arith
  limit-le limit (some d) = omega arith

  enough : 0 < cfg.verify_interval → cfg.verify_seconds ≤ (rounds w cfg - 1) * cfg.verify_interval
  enough pos_ = grind (arith, div-add-mod cfg.verify_seconds cfg.verify_interval, mod-lt)

  -- On a clock that does not step back, with a positive interval between two looks, a connect comes
  -- to an end within the rounds that it is given, whatever goldcrest prints.
  pub connect-returns :
      (name : Option Text) (deadline : Option ℕ) (s : w.State)
      → 0 < cfg.verify_interval
      → (connect w cfg name deadline s).0 ≢ out_of_fuel
  unfolding connect
  connect-returns name deadline s pos_ =
      let (out, s') = w.goldcrest (air_connect cfg.air_key (server_arg name)) s in
      let (now, u) = w.clock s' in
      poll-returns (cfg.verify_seconds / cfg.verify_interval + 1)
        (or_limit (now + cfg.verify_seconds) deadline) (is_some (refusal out)) name u
        (omega
          (arith, limit-le (now + cfg.verify_seconds) deadline, steady.clock_reads s', enough pos_))

-- The server that a connect reports is one that it accepts.
accepted-some :
    (name o : Option Text) (c : Text) → accepted name o ≡ some c → accepted name (some c) ≡ some c
accepted-some name none c e = cc
accepted-some name (some []) c e = cc
accepted-some none (some (a ∷ t)) c e = ground arith
accepted-some (some n) (some (a ∷ t)) c e = ground arith

module _ (w : World) (cfg : Config) where
  abbrev Accepts : Option Text → Poll → Type 0
  Accepts name (connected c) = accepted name (some c) ≡ some c
  Accepts name _ = Unit {0}

  round-Accepts :
      (no_way : Bool) (limit : ℕ) (name o : Option Text) (again : Action w.State Poll) (s : w.State)
      → ((c : Text) → o ≡ some c → accepted name (some c) ≡ some c)
      → ((u : w.State) → Accepts name (again u).0)
      → Accepts name (poll_round w cfg no_way limit o again s).0
  round-Accepts no_way limit name (some c) again s ok rest = ok c refl
  round-Accepts true limit name none again s ok rest = tt
  round-Accepts false limit name none again s ok rest =
      elim (Bool-cases (leb limit (w.clock s).0)) [
        | inl over ↦ rw over tt
        | inr more ↦ rw more (rest (w.sleep cfg.verify_interval (w.clock s).1))
      ]

  poll-Accepts :
      (fuel : ℕ) (no_way : Bool) (limit : ℕ) (name : Option Text) (s : w.State)
      → Accepts name (poll w cfg fuel no_way limit name s).0
  unfolding poll status
  poll-Accepts zero no_way limit name s = tt
  poll-Accepts (suc fuel) no_way limit name s =
      let (out, s') = w.goldcrest bluetit_status s in
      round-Accepts no_way limit name (accepted name (parse_status out)) _ s'
        (accepted-some name (parse_status out)) (λ u. poll-Accepts fuel no_way limit name u)

  pub connect-Accepts :
      (name : Option Text) (deadline : Option ℕ) (s : w.State)
      → Accepts name (connect w cfg name deadline s).0
  unfolding connect
  connect-Accepts name deadline s = poll-Accepts (rounds w cfg) _ _ name _

-- A connect to a named server reports success only with a server of that name, up to case, that is
-- not empty; it never takes another server for it.
connect-named :
    (w : World) (cfg : Config) (name : Text) (deadline : Option ℕ) (s : w.State) (c : Text)
    → (connect w cfg (some name) deadline s).0 ≡ connected c
    → (lower c ≡ lower name) × (c ≢ [])
connect-named w cfg name deadline s c e =
    named c (subst (Accepts w cfg (some name)) e (connect-Accepts w cfg (some name) deadline s))
  where
    named : (d : Text) → accepted (some name) (some d) ≡ some d → (lower d ≡ lower name) × (d ≢ [])
    named [] h = cc
    named (a ∷ t) h = ground (arith, text_eq_iff (lower (a ∷ t)) (lower name))
