-- ===== src/Agent/Window/Budget.antt =====
-- A window's judgement leaves the switch budget alone.
use epaflix.Base.{
  ◌≡◌, refl, ◌∙◌, Bool, true, false, Option, none, some, [], ◌∷◌, ltb, if◌then◌else◌, Text,
}
use epaflix.Base.Int.{ℤ, ltb_ℤ}
use epaflix.Agent.Budget.{Budget}
use epaflix.Agent.State.{Config, Agent, reset_bad}
use epaflix.Agent.Window.{
  Window, Judgement, quiet, trips, judge, judge_loss, judge_bad, note_window, count_bad,
  same_session, home_side,
}

-- An agent with this budget, whichever way a test goes.
either_agent :
    (b : Budget) (test : Bool) (x y : Agent)
    → x.budget ≡ b
    → y.budget ≡ b
    → (if test then x else y).budget ≡ b
either_agent b true x y h k = h
either_agent b false x y h k = k

either_judged :
    (b : Budget) (test : Bool) (x y : Judgement × Agent)
    → x.1.budget ≡ b
    → y.1.budget ≡ b
    → (if test then x else y).1.budget ≡ b
either_judged b true x y h k = h
either_judged b false x y h k = k

judge_bad-budget :
    (cfg : Config) (w : Window) (loss : ℤ) (o : Option Text) (a : Agent)
    → (judge_bad cfg w loss o a).1.budget ≡ a.budget
unfolding count_bad
judge_bad-budget cfg w loss none a = refl
judge_bad-budget cfg w loss (some []) a = refl
judge_bad-budget cfg w loss (some (c ∷ s)) a =
    let counted = count_bad (c ∷ s) w.generation_after a in
    let same : counted.budget ≡ a.budget = either_agent a.budget _ _ _ refl refl in
    either_judged a.budget (ltb counted.consecutive_bad cfg.bad_windows) (quiet, counted)
      (trips (c ∷ s) loss, reset_bad counted) same same

judge_loss-budget :
    (cfg : Config) (w : Window) (o : Option ℤ) (a : Agent)
    → (judge_loss cfg w o a).1.budget ≡ a.budget
judge_loss-budget cfg w none a = refl
judge_loss-budget cfg w (some loss) a =
    either_judged a.budget (ltb_ℤ loss cfg.bad_loss_pct) _ _ refl (
      either_judged a.budget (home_side cfg w.lan_loss) _ _ refl
        (judge_bad-budget cfg w loss w.current a))

pub judge-budget : (cfg : Config) (w : Window) (a : Agent) → (judge cfg w a).1.budget ≡ a.budget
unfolding judge
judge-budget cfg w a =
    let noted = note_window w a in
    let same : noted.budget ≡ a.budget = either_agent a.budget (same_session w) _ _ refl refl in
    either_judged a.budget (same_session w) (judge_loss cfg w w.loss noted) (quiet, noted)
      (judge_loss-budget cfg w w.loss noted ∙ same) same
