-- ===== src/Agent/Window/Counts.antt =====
-- The runs of bad windows that a history ends on, and what the agent counts of them. Companion of
-- watch_once of images/airvpn-bluetit/agent.py.
use epaflix.Base.{
  ℕ, suc, ◌≤◌, ◌≡◌, refl, ap, Bool, true, false, not, ◌&&◌, Option, none, some, List, [], ◌∷◌,
  arith, if◌then◌else◌, Text, text_eq, text_eq_iff, lower, Bool-cases, inl, inr,
}
use epaflix.Base.Int.{ltb_ℤ}
use epaflix.Agent.State.{Config, Agent}
use epaflix.Agent.Window.{
  Window, same_session, home_side, on_generation, count_bad, judge, on_server,
}

-- A window whose loss is bad, inside one session.
abbrev pub lossy : Config → Window → Bool
lossy cfg w = elim w.loss [
  | none ↦ false
  | some l ↦ same_session w && not (ltb_ℤ l cfg.bad_loss_pct)
]

-- It counts against the server `k` on the device generation `g`.
abbrev pub counts : Config → Text → Option ℕ → Window → Bool
counts cfg k g w =
    lossy cfg w
    && not (home_side cfg w.lan_loss)
    && elim w.current [ none ↦ false | some s ↦ text_eq (lower s) k ]
    && on_generation g w.generation_after

-- It says nothing: the probe did not run, or the loss is at home.
abbrev pub silent : Config → Window → Bool
silent cfg w =
    same_session w && elim w.loss [ none ↦ true | some l ↦ lossy cfg w && home_side cfg w.lan_loss ]

-- The bad windows against `k` on `g` at the end of a history, the latest first.
unfoldable pub streak : Config → Text → Option ℕ → List Window → ℕ
streak cfg k g [] = 0
streak cfg k g (w ∷ ws) =
    if counts cfg k g w
    then suc (streak cfg k g ws)
    else if silent cfg w
    then streak cfg k g ws
    else 0

-- The agent after a history.
unfoldable pub watched : Config → Agent → List Window → Agent
watched cfg a [] = a
watched cfg a (w ∷ ws) = (judge cfg w (watched cfg a ws)).1

-- What the agent counts is backed by the history.
abbrev Backed : Config → List Window → Option Text → Option ℕ → ℕ → Type 0
Backed cfg ws none g n = n ≡ 0
Backed cfg ws (some k) g n = n ≤ streak cfg k g ws

abbrev pub AgentBacked : Config → List Window → Agent → Type 0
AgentBacked cfg ws a =
    Backed cfg ws a.consecutive_bad_server a.consecutive_bad_generation a.consecutive_bad

pub on_generation_refl : (g : Option ℕ) → on_generation g g ≡ true
on_generation_refl none = refl
on_generation_refl (some g) = ground arith

pub on_generation→eq : (g h : Option ℕ) → on_generation g h ≡ true → g ≡ h
on_generation→eq none none e = refl
on_generation→eq none (some h) e = cc
on_generation→eq (some g) none e = cc
on_generation→eq (some g) (some h) e = ground arith

pub on_server→eq : (o : Option Text) (k : Text) → on_server o k ≡ true → o ≡ some k
on_server→eq none k e = cc
on_server→eq (some j) k e = ground (arith, text_eq_iff j k)

pub counts_self :
    (cfg : Config) (w : Window) (s : Text)
    → lossy cfg w ≡ true
    → home_side cfg w.lan_loss ≡ false
    → w.current ≡ some s
    → counts cfg (lower s) w.generation_after w ≡ true
counts_self cfg w s bad home on =
    rw (bad, home, on)
      (ground (arith, text_eq_iff (lower s) (lower s), on_generation_refl w.generation_after))

-- One more bad window on the server `s`.
pub count-Backed :
    (cfg : Config) (ws : List Window) (w : Window) (s : Text) (a : Agent)
    → counts cfg (lower s) w.generation_after w ≡ true
    → AgentBacked cfg ws a
    → let b = count_bad s w.generation_after a in
      AgentBacked cfg (w ∷ ws) b
      × (b.consecutive_bad ≤ streak cfg (lower s) w.generation_after (w ∷ ws))
unfolding count_bad streak
count-Backed cfg ws w s a counted h = elim (Bool-cases again) [
  | inl e ↦
      let on : a.consecutive_bad_server ≡ some k =
        on_server→eq a.consecutive_bad_server k (ground arith) in
      let gen : a.consecutive_bad_generation ≡ g =
        on_generation→eq a.consecutive_bad_generation g (ground arith) in
      let n : a.consecutive_bad ≤ streak cfg k g ws = rw (on, gen) at h in
      let same : streak cfg k a.consecutive_bad_generation (w ∷ ws) ≡ streak cfg k g (w ∷ ws) =
        ap (λ (j : Option ℕ). streak cfg k j (w ∷ ws)) gen in
      let more : streak cfg k g (w ∷ ws) ≡ suc (streak cfg k g ws) = rw (counted, streak) in
      rw (e, on) (omega arith, omega arith)
  | inr e ↦
      let more : streak cfg k g (w ∷ ws) ≡ suc (streak cfg k g ws) = rw (counted, streak) in
      rw e (omega arith, omega arith)
]
  where
    k : Text
    k = lower s

    g : Option ℕ
    g = w.generation_after

    again : Bool
    again = on_server a.consecutive_bad_server k && on_generation a.consecutive_bad_generation g

pub silent-Backed :
    (cfg : Config) (ws : List Window) (w : Window) (o : Option Text) (g : Option ℕ) (n : ℕ)
    → silent cfg w ≡ true
    → ((k : Text) → counts cfg k g w ≡ false)
    → Backed cfg ws o g n
    → Backed cfg (w ∷ ws) o g n
unfolding streak
silent-Backed cfg ws w none g n quiet_ uncounted h = h
silent-Backed cfg ws w (some k) g n quiet_ uncounted h = rw (uncounted k, quiet_) h
