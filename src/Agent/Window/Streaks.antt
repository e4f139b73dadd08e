-- ===== src/Agent/Window/Streaks.antt =====
-- A trip against the windows that led to it.
use epaflix.Base.{
  ℕ, ◌≤◌, ◌≡◌, refl, sym, subst, ◌⊎◌, true, false, Option, none, some, List, [], ◌∷◌, arith, ltb,
  Text, text_eq, lower, Bool-cases, inl, inr,
}
use epaflix.Base.Int.{ℤ, ltb_ℤ}
use epaflix.Agent.State.{Config, Agent, reset_bad}
use epaflix.Agent.Window.{
  Window, same_session, home_side, count_bad, Judgement, quiet, trips, judge, judge_loss, judge_bad,
  after_count, same_name,
}
use epaflix.Agent.Window.Counts.{
  AgentBacked, count-Backed, counts, counts_self, lossy, silent, silent-Backed, streak, watched,
}

-- What a trip says of the window that it ends on, and of the history before.
abbrev pub TripBacked : Config → List Window → Window → Judgement → Type 0
TripBacked cfg ws w quiet = Unit {0}
TripBacked cfg ws w (trips s l) =
    (w.current ≡ some s)
    × (w.loss ≡ some l)
    × (cfg.bad_windows ≤ streak cfg (lower s) w.generation_after (w ∷ ws))

abbrev Justified : Config → List Window → Window → Judgement × Agent → Type 0
Justified cfg ws w (j, a) = TripBacked cfg ws w j × AgentBacked cfg (w ∷ ws) a

-- In one session the server has a name.
pub session-named :
    (w : Window) → same_session w ≡ true → (c : ℕ) × (s : Text) × (w.current ≡ some (c ∷ s))
unfolding text_eq lower
session-named w h = named w.server_before w.current (ground arith)
  where
    named :
        (before after : Option Text)
        → same_name before after ≡ true
        → (c : ℕ) × (s : Text) × (after ≡ some (c ∷ s))
    named none after e = cc
    named (some []) after e = cc
    named (some (a ∷ r)) none e = cc
    named (some (a ∷ r)) (some []) e = cc
    named (some (a ∷ r)) (some (c ∷ s)) e = (c, s, refl)

judge-reset :
    (cfg : Config) (ws : List Window) (w : Window) (a : Agent)
    → Justified cfg ws w (quiet, reset_bad a)
judge-reset cfg ws w a = (tt, refl)

after_count-Justified :
    (cfg : Config) (ws : List Window) (w : Window) (s : Text) (l : ℤ) (a : Agent)
    → w.current ≡ some s
    → w.loss ≡ some l
    → AgentBacked cfg (w ∷ ws) a
    → a.consecutive_bad ≤ streak cfg (lower s) w.generation_after (w ∷ ws)
    → Justified cfg ws w (after_count cfg s l a)
after_count-Justified cfg ws w s l a on bad h le =
    elim (Bool-cases (ltb a.consecutive_bad cfg.bad_windows)) [
      | inl more ↦ rw more (tt, h)
      | inr full ↦ rw full ((on, bad, omega (arith, reached)), refl)
    ]
  where
    reached : ltb a.consecutive_bad cfg.bad_windows ≡ false → cfg.bad_windows ≤ a.consecutive_bad
    reached e = ground arith

counts-lossy :
    (cfg : Config) (k : Text) (g : Option ℕ) (w : Window)
    → (lossy cfg w ≡ false) ⊎ (home_side cfg w.lan_loss ≡ true)
    → counts cfg k g w ≡ false
counts-lossy cfg k g w (inl e) = rw e
counts-lossy cfg k g w (inr e) = elim (Bool-cases (lossy cfg w)) [
  | inl l ↦ rw (l, e)
  | inr l ↦ rw l
]

lossy-none : (cfg : Config) (w : Window) → w.loss ≡ none → lossy cfg w ≡ false
lossy-none cfg w e = ground arith

lossy-some :
    (cfg : Config) (w : Window) (l : ℤ)
    → w.loss ≡ some l
    → same_session w ≡ true
    → ltb_ℤ l cfg.bad_loss_pct ≡ false
    → lossy cfg w ≡ true
lossy-some cfg w l e same bad = ground arith

silent-none :
    (cfg : Config) (w : Window) → w.loss ≡ none → same_session w ≡ true → silent cfg w ≡ true
silent-none cfg w e same = ground arith

silent_home :
    (cfg : Config) (w : Window) (l : ℤ)
    → w.loss ≡ some l
    → same_session w ≡ true
    → lossy cfg w ≡ true
    → home_side cfg w.lan_loss ≡ true
    → silent cfg w ≡ true
silent_home cfg w l e same bad home = ground arith

-- The steps of `judge` inside one session.
judge_bad-Justified :
    (cfg : Config) (ws : List Window) (w : Window) (l : ℤ) (a : Agent)
    → same_session w ≡ true
    → w.loss ≡ some l
    → lossy cfg w ≡ true
    → home_side cfg w.lan_loss ≡ false
    → AgentBacked cfg ws a
    → Justified cfg ws w (judge_bad cfg w l w.current a)
judge_bad-Justified cfg ws w l a same e bad away h =
    let (c, s, on) = session-named w same in
    let counted = counts_self cfg w (c ∷ s) bad away on in
    let next = count-Backed cfg ws w (c ∷ s) a counted h in
    subst (λ (o : Option Text). Justified cfg ws w (judge_bad cfg w l o a)) (sym on)
      (after_count-Justified cfg ws w (c ∷ s) l (count_bad (c ∷ s) w.generation_after a) on e next.0
        next.1)

judge_loss-Justified :
    (cfg : Config) (ws : List Window) (w : Window) (o : Option ℤ) (a : Agent)
    → same_session w ≡ true
    → w.loss ≡ o
    → AgentBacked cfg ws a
    → Justified cfg ws w (judge_loss cfg w o a)
judge_loss-Justified cfg ws w none a same e h = (
  tt,
  silent-Backed cfg ws w a.consecutive_bad_server a.consecutive_bad_generation a.consecutive_bad
      (silent-none cfg w e same)
      (λ k. counts-lossy cfg k a.consecutive_bad_generation w (inl (lossy-none cfg w e))) h,
)
judge_loss-Justified cfg ws w (some l) a same e h = elim (Bool-cases (ltb_ℤ l cfg.bad_loss_pct)) [
  | inl good ↦ rw good (judge-reset cfg ws w a)
  | inr bad ↦ elim (Bool-cases (home_side cfg w.lan_loss)) [
    | inl home ↦
        rw (bad, home)
          (
            tt,
            silent-Backed cfg ws w a.consecutive_bad_server a.consecutive_bad_generation
                a.consecutive_bad (silent_home cfg w l e same (lossy-some cfg w l e same bad) home)
                (λ k. counts-lossy cfg k a.consecutive_bad_generation w (inr home)) h,
          )
    | inr away ↦
        rw (bad, away)
          (judge_bad-Justified cfg ws w l a same e (lossy-some cfg w l e same bad) away h)
  ]
]

judge-Justified :
    (cfg : Config) (ws : List Window) (w : Window) (a : Agent)
    → AgentBacked cfg ws a
    → Justified cfg ws w (judge cfg w a)
unfolding judge
judge-Justified cfg ws w a h = elim (Bool-cases (same_session w)) [
  | inl same ↦ rw same (judge_loss-Justified cfg ws w w.loss _ same refl h)
  | inr other ↦ rw other (tt, refl)
]

watched-Backed :
    (cfg : Config) (a : Agent) (ws : List Window)
    → AgentBacked cfg [] a
    → AgentBacked cfg ws (watched cfg a ws)
unfolding watched
watched-Backed cfg a [] h = h
watched-Backed cfg a (w ∷ ws) h =
    (judge-Justified cfg ws w (watched cfg a ws) (watched-Backed cfg a ws h)).1

-- From an agent that has counted nothing, through any windows: a window that trips names the
-- server and the loss that it measured, and ends a run of at least `bad_windows` windows that are
-- bad on that server and that device generation. Between them stand only windows that say nothing:
-- a probe that did not run, or loss at home.
pub judge-trips :
    (cfg : Config) (a : Agent) (ws : List Window) (w : Window)
    → a.consecutive_bad ≡ 0
    → a.consecutive_bad_server ≡ none
    → TripBacked cfg ws w (judge cfg w (watched cfg a ws)).0
judge-trips cfg a ws w zero_count no_server =
    (judge-Justified cfg ws w (watched cfg a ws)
      (watched-Backed cfg a ws (rw no_server zero_count))).0
