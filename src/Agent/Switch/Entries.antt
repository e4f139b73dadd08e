-- ===== src/Agent/Switch/Entries.antt =====
-- What a switch puts on record, and what it counts (images/airvpn-bluetit/agent.py, `_finish`).
use epaflix.Base.{
  ℕ, ◌+◌, ◌≤◌, ◌≡◌, refl, ◌⊎◌, inl, inr, Bool, Option, none, some, [], ◌∷◌, Text, arith,
}
use epaflix.Agent.Budget.{arm}
use epaflix.Agent.State.{
  Config, Agent, Reason, degradation, boot_upgrade, fallback, Switches, tally,
}
use epaflix.Agent.Switch.{kind_of, earned_cooldown, armed, count_switch}

abbrev pub total : Switches → ℕ
total n = n.degradations + n.boot_upgrades + n.fallbacks

-- One entry more in the budget, of the right kind, with one of the two cooldowns.
abbrev pub Recorded : Config → Bool → Agent → Agent → Type 0
Recorded cfg escape a a' =
    (now : ℕ) × (c : ℕ) × (a'.budget ≡ arm now (some c) (kind_of escape) a.budget)
    × ((c ≡ cfg.cooldown_seconds) ⊎ (c ≡ cfg.failed_cooldown_seconds))

-- How a switch that was carried out ends, with the server that it reports.
pub record Finished (cfg : Config) (escape : Bool) (a : Agent) (r : Option Text) (a' : Agent)
    : Type 0 where
  pub recorded : Recorded cfg escape a a'
  pub server : a'.current_server ≡ r
  pub cleared :
      (a'.consecutive_bad ≡ 0)
      × (a'.consecutive_bad_server ≡ none)
      × (a'.consecutive_bad_generation ≡ none)
  pub counted : total a'.switches ≤ total a.switches + 1
  pub uncounted : r ≡ none → a'.switches ≡ a.switches

pub earned-cases :
    (cfg : Config) (r : Reason)
    → (earned_cooldown cfg r ≡ cfg.cooldown_seconds)
      ⊎ (earned_cooldown cfg r ≡ cfg.failed_cooldown_seconds)
earned-cases cfg degradation = inl refl
earned-cases cfg boot_upgrade = inr refl
earned-cases cfg fallback = inr refl

-- The cooldowns that the paths hand to `finish`.
abbrev pub Known : Config → Option ℕ → Type 0
Known cfg none = Unit {0}
Known cfg (some c) = (c ≡ cfg.cooldown_seconds) ⊎ (c ≡ cfg.failed_cooldown_seconds)

pub Known-armed :
    (cfg : Config) (reason : Reason) (o : Option ℕ)
    → Known cfg o
    → (armed cfg reason o ≡ cfg.cooldown_seconds)
      ⊎ (armed cfg reason o ≡ cfg.failed_cooldown_seconds)
Known-armed cfg reason none h = earned-cases cfg reason
Known-armed cfg reason (some c) h = h

-- Counting a switch changes the counters alone.
pub count-only :
    (o : Option Text) (c : Option Reason) (a : Agent)
    → (n : Switches) × (count_switch o c a ≡ record a { switches = n })
count-only none c a = (a.switches, refl)
count-only (some []) c a = (a.switches, refl)
count-only (some (x ∷ t)) none a = (a.switches, refl)
count-only (some (x ∷ t)) (some r) a = (tally r a.switches, refl)

pub count-total :
    (o : Option Text) (c : Option Reason) (a : Agent)
    → total (count_switch o c a).switches ≤ total a.switches + 1
count-total none c a = omega arith
count-total (some []) c a = omega arith
count-total (some (x ∷ t)) none a = omega arith
count-total (some (x ∷ t)) (some degradation) a = omega arith
count-total (some (x ∷ t)) (some boot_upgrade) a = omega arith
count-total (some (x ∷ t)) (some fallback) a = omega arith
