-- ===== src/Agent/State.antt =====
-- The fields of class Agent that its control loop reads and writes, and the knobs of class Config
-- that it consults (images/airvpn-bluetit/agent.py). Losses are percentages and times are seconds,
-- both in millionths.
use epaflix.Base.{ℕ, suc, Bool, false, Option, none, Text}
use epaflix.Base.Int.{ℤ}
use epaflix.Agent.Budget.{Budget}
use epaflix.Agent.Budget.Disk.{Stored}

pub record Config : Type 0 where
  pub band : ℕ
  pub probe_target : Text
  pub probe_count : ℕ
  pub probe_interval : ℕ
  pub packet_interval : ℕ
  pub bad_loss_pct : ℤ
  pub bad_windows : ℕ
  pub cooldown_seconds : ℕ
  pub max_switches_per_day : ℕ
  pub escape_window_seconds : ℕ
  pub verify_seconds : ℕ
  pub verify_interval : ℕ
  pub verify_probe_count : ℕ
  pub verify_max_loss_pct : ℤ
  pub failed_cooldown_seconds : ℕ
  pub attempts_per_candidate : ℕ
  pub retry_backoff : ℕ
  pub recovery_budget : ℕ
  pub quick_reserve : ℕ
  pub jitter_seconds : ℕ
  pub boot_wait_seconds : ℕ
  pub air_key : Text
  pub tun_device : Text
  pub dry_run : Bool

-- Why a switch is made, and what it is counted as.
pub data Reason : Type 0 where
  degradation boot_upgrade fallback : Reason

pub record Switches : Type 0 where
  pub degradations : ℕ
  pub boot_upgrades : ℕ
  pub fallbacks : ℕ

-- `self.switches[reason] += 1`
abbrev pub tally : Reason → Switches → Switches
tally degradation n = record n { degradations = suc n.degradations }
tally boot_upgrade n = record n { boot_upgrades = suc n.boot_upgrades }
tally fallback n = record n { fallbacks = suc n.fallbacks }

-- Bytes and the time that they took.
pub record Rate : Type 0 where
  pub bytes : ℕ
  pub elapsed : ℕ

pub record Agent : Type 0 where
  pub current_server : Option Text
  pub current_loss_pct : Option ℤ
  pub lan_router : Option Text
  pub lan_loss_pct : Option ℤ
  pub home_side_windows_total : ℕ
  pub lan_discovery_logged : Bool
  pub throughput_bps : Option Rate
  pub consecutive_bad : ℕ
  pub consecutive_bad_server : Option Text
  pub consecutive_bad_generation : Option ℕ
  pub switching : Bool
  pub switches : Switches
  pub budget : Budget
  pub stored : Stored

unfoldable pub init : Budget → Stored → Agent
init b stored = record {
  current_server = none;
  current_loss_pct = none;
  lan_router = none;
  lan_loss_pct = none;
  home_side_windows_total = 0;
  lan_discovery_logged = false;
  throughput_bps = none;
  consecutive_bad = 0;
  consecutive_bad_server = none;
  consecutive_bad_generation = none;
  switching = false;
  switches = record { degradations = 0; boot_upgrades = 0; fallbacks = 0 };
  budget = b;
  stored = stored;
}

abbrev pub reset_bad : Agent → Agent
reset_bad a = record a {
  consecutive_bad = 0;
  consecutive_bad_server = none;
  consecutive_bad_generation = none;
}
