-- ===== src/Agent/Window.antt =====
-- Agent.watch_once of images/airvpn-bluetit/agent.py, from the measurements of one probe window
-- to the decision whether it trips: what the agent counts, and what it discards.
pub mod Counts
pub mod Streaks
pub mod Budget
pub mod Trips
use epaflix.Base.{
  ℕ, suc, ◌+◌, ◌≤◌, ◌≡◌, Bool, true, false, not, ◌&&◌, ◌||◌, Option, none, some, ltb, leb, ◌==◌,
  if◌then◌else◌, is_some, Text, text_eq, lower, [], ◌∷◌,
}
use epaflix.Base.Int.{ℤ, leb_ℤ, ltb_ℤ}
use epaflix.Agent.State.{Config, Agent, Rate, reset_bad}

-- What was read before, during and after the probe.
pub record Window : Type 0 where
  pub server_before : Option Text
  pub generation_before : Option ℕ
  pub loss : Option ℤ
  pub lan_loss : Option ℤ
  pub throughput : Option Rate
  pub current : Option Text
  pub generation_after : Option ℕ

-- `bool(a and b and a.lower() == b.lower())`
abbrev pub same_name : Option Text → Option Text → Bool
same_name (some ([])) _ = false
same_name (some (a ∷ s)) (some t) = text_eq (lower (a ∷ s)) (lower t)
same_name _ _ = false

-- `a is not None and a == b`
abbrev same_generation : Option ℕ → Option ℕ → Bool
same_generation (some a) (some b) = a == b
same_generation _ _ = false

abbrev pub same_session : Window → Bool
same_session w =
    same_name w.server_before w.current && same_generation w.generation_before w.generation_after

-- The first `with self.lock` block.
abbrev note_window : Window → Agent → Agent
note_window w a =
    let seen = record a {
      current_server = w.current;
      throughput_bps = if same_session w then w.throughput else none;
      current_loss_pct = if same_session w then w.loss else none;
      lan_loss_pct = if same_session w then w.lan_loss else none;
    } in
    if same_session w then seen else reset_bad seen

-- `self.consecutive_bad_server != server_key`
abbrev pub on_server : Option Text → Text → Bool
on_server none k = false
on_server (some j) k = text_eq j k

abbrev pub on_generation : Option ℕ → Option ℕ → Bool
on_generation none none = true
on_generation (some a) (some b) = a == b
on_generation _ _ = false

-- One more bad window, of the same run or of a new one.
unfoldable pub count_bad : Text → Option ℕ → Agent → Agent
count_bad server generation a =
    let k = lower server in
    if on_server a.consecutive_bad_server k && on_generation a.consecutive_bad_generation generation
    then record a { consecutive_bad = suc a.consecutive_bad }
    else record a {
      consecutive_bad = 1;
      consecutive_bad_server = some k;
      consecutive_bad_generation = generation;
    }

-- `lan_loss is not None and lan_loss >= bad_loss_pct`
abbrev pub home_side : Config → Option ℤ → Bool
home_side cfg none = false
home_side cfg (some l) = leb_ℤ cfg.bad_loss_pct l

-- What a window comes to: nothing, or a trip on a server with a loss.
pub data Judgement : Type 0 where
  quiet : Judgement
  trips : Text → ℤ → Judgement

-- The count has reached `bad_windows`, or not.
abbrev after_count : Config → Text → ℤ → Agent → Judgement × Agent
after_count cfg server loss a =
    if ltb a.consecutive_bad cfg.bad_windows then (quiet, a) else (trips server loss, reset_bad a)

abbrev judge_bad : Config → Window → ℤ → Option Text → Agent → Judgement × Agent
judge_bad cfg w loss none a = (quiet, a)
judge_bad cfg w loss (some []) a = (quiet, a)
judge_bad cfg w loss (some (c ∷ s)) a =
    after_count cfg (c ∷ s) loss (count_bad (c ∷ s) w.generation_after a)

abbrev judge_loss : Config → Window → Option ℤ → Agent → Judgement × Agent
judge_loss cfg w none a = (quiet, a)
judge_loss cfg w (some loss) a =
    if ltb_ℤ loss cfg.bad_loss_pct
    then (quiet, reset_bad a)
    else if home_side cfg w.lan_loss
    then (quiet, record a { home_side_windows_total = suc a.home_side_windows_total })
    else judge_bad cfg w loss w.current a

unfoldable pub judge : Config → Window → Agent → Judgement × Agent
unfolding count_bad
judge cfg w a =
    let a' = note_window w a in if same_session w then judge_loss cfg w w.loss a' else (quiet, a')
