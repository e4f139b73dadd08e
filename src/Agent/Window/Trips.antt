-- ===== src/Agent/Window/Trips.antt =====
-- A server that stays bad trips in time.
use epaflix.Base.{
  ℕ, suc, ◌<◌, ◌≡◌, refl, sym, ◌∙◌, ap, subst, lt→ltb, ◌⊎◌, inl, inr, Bool, true, false, ◌&&◌,
  Option, none, some, List, [], ◌∷◌, arith, ltb, Text, text_eq, text_eq_iff, lower, all, length,
  Bool-cases, not,
}
use epaflix.Base.Int.{ℤ, ltb_ℤ}
use epaflix.Agent.State.{Config, Agent}
use epaflix.Agent.Window.{
  Window, same_session, home_side, on_generation, count_bad, trips, judge, after_count, on_server,
  note_window,
}
use epaflix.Agent.Window.Counts.{
  on_server→eq, counts, lossy, watched, on_generation→eq, on_generation_refl,
}
use epaflix.Agent.Window.Streaks.{session-named}

-- What a window that counts is made of.
record Counts (cfg : Config) (k : Text) (g : Option ℕ) (w : Window) : Type 0 where
  session : same_session w ≡ true
  amount : ℤ
  server : ℕ × Text
  loss : w.loss ≡ some amount
  bad : ltb_ℤ amount cfg.bad_loss_pct ≡ false
  away : home_side cfg w.lan_loss ≡ false
  current : w.current ≡ some (server.0 ∷ server.1)
  key : lower (server.0 ∷ server.1) ≡ k
  generation : g ≡ w.generation_after

-- The parts of the test.
and_parts : (a b : Bool) → (a && b) ≡ true → (a ≡ true) × (b ≡ true)
and_parts true b h = (refl, h)
and_parts false b h = cc

not-false : (b : Bool) → not b ≡ true → b ≡ false
not-false true h = cc
not-false false h = refl

lossy-amount :
    (cfg : Config) (w : Window)
    → lossy cfg w ≡ true
    → (l : ℤ) × (w.loss ≡ some l) × (same_session w ≡ true) × (ltb_ℤ l cfg.bad_loss_pct ≡ false)
lossy-amount cfg w h = by_loss w.loss refl h
  where
    by_loss :
        (o : Option ℤ)
        → w.loss ≡ o
        → (elim o [ none ↦ false | some l ↦ same_session w && not (ltb_ℤ l cfg.bad_loss_pct) ])
          ≡ true
        → (l : ℤ) × (w.loss ≡ some l) × (same_session w ≡ true) × (ltb_ℤ l cfg.bad_loss_pct ≡ false)
    by_loss none e h' = cc
    by_loss (some l) e h' =
        let (session, bad) = and_parts (same_session w) _ h' in
        (l, e, session, not-false (ltb_ℤ l cfg.bad_loss_pct) bad)

counts-Counts :
    (cfg : Config) (k : Text) (g : Option ℕ) (w : Window)
    → counts cfg k g w ≡ true
    → Counts cfg k g w
counts-Counts cfg k g w h =
    let (h1, again) = and_parts _ (on_generation g w.generation_after) h in
    let (h2, named) = and_parts (lossy cfg w && not (home_side cfg w.lan_loss)) _ h1 in
    let (lossy_, away) = and_parts (lossy cfg w) (not (home_side cfg w.lan_loss)) h2 in
    let (l, loss, session, bad) = lossy-amount cfg w lossy_ in
    let (c, t, current) = session-named w session in
    let named' : text_eq (lower (c ∷ t)) k ≡ true = rw current at named in
    record {
      session = session;
      amount = l;
      server = (c, t);
      loss = loss;
      bad = bad;
      away = not-false (home_side cfg w.lan_loss) away;
      current = current;
      key = (text_eq_iff (lower (c ∷ t)) k).0 named';
      generation = on_generation→eq g w.generation_after again;
    }

-- The agent that such a window leaves, before the count is compared.
abbrev counted :
    (cfg : Config) (k : Text) (g : Option ℕ) (w : Window) → Counts cfg k g w → Agent → Agent
counted cfg k g w v a = count_bad (v.server.0 ∷ v.server.1) w.generation_after (note_window w a)

counted-judge :
    (cfg : Config) (k : Text) (g : Option ℕ) (w : Window) (a : Agent) (v : Counts cfg k g w)
    → judge cfg w a ≡ after_count cfg (v.server.0 ∷ v.server.1) v.amount (counted cfg k g w v a)
unfolding judge
counted-judge cfg k g w a v = rw (v.session, v.loss, v.bad, v.away, v.current)

-- So many windows of the run have counted.
abbrev IsAt : Text → Option ℕ → ℕ → Agent → Type 0
IsAt k g n a =
    (a.consecutive_bad ≡ n)
    × ((n ≡ 0) ⊎ ((a.consecutive_bad_server ≡ some k) × (a.consecutive_bad_generation ≡ g)))

noted-IsAt :
    (k : Text) (g : Option ℕ) (n : ℕ) (w : Window) (a : Agent)
    → same_session w ≡ true
    → IsAt k g n a
    → IsAt k g n (note_window w a)
noted-IsAt k g n w a session h = rw session h

count_bad-IsAt :
    (s : Text) (g : Option ℕ) (n : ℕ) (a : Agent)
    → IsAt (lower s) g n a
    → IsAt (lower s) g (suc n) (count_bad s g a)
unfolding count_bad
count_bad-IsAt s g n a (count, before) =
    let same = on_server a.consecutive_bad_server (lower s) in
    let again = same && on_generation a.consecutive_bad_generation g in
    elim (Bool-cases again) [
      | inl e ↦
          let (on, gen) = and_parts same _ e in
          rw e (
            ap suc count,
            inr (
              on_server→eq a.consecutive_bad_server (lower s) on,
              on_generation→eq a.consecutive_bad_generation g gen,
            ),
          )
      | inr e ↦ rw e (fresh_run n a e before, inr (refl, refl))
    ]
  where
    fresh_run :
        (m : ℕ) (b : Agent)
        → (on_server b.consecutive_bad_server (lower s)
            && on_generation b.consecutive_bad_generation g)
          ≡ false
        → ((m ≡ 0)
            ⊎ ((b.consecutive_bad_server ≡ some (lower s)) × (b.consecutive_bad_generation ≡ g)))
        → 1 ≡ suc m
    fresh_run m b e (inl z) = omega arith
    fresh_run m b e (inr (srv, gen)) =
        let e' : (on_server (some (lower s)) (lower s) && on_generation g g) ≡ false =
          rw (srv, gen) at e in
        ground (arith, text_eq_iff (lower s) (lower s), on_generation_refl g)

moved :
    (k k' : Text) (g g' : Option ℕ) (n : ℕ) (a : Agent)
    → k ≡ k'
    → g ≡ g'
    → IsAt k g n a
    → IsAt k' g' n a
moved k k' g g' n a e e' h =
    subst (λ (x : Text). IsAt x g' n a) e (subst (λ (y : Option ℕ). IsAt k y n a) e' h)

-- One more window that counts.
counted-IsAt :
    (cfg : Config) (k : Text) (g : Option ℕ) (n : ℕ) (w : Window) (a : Agent) (v : Counts cfg k g w)
    → IsAt k g n a
    → IsAt k g (suc n) (counted cfg k g w v a)
counted-IsAt cfg k g n w a v h =
    let s : Text = v.server.0 ∷ v.server.1 in
    moved (lower s) k w.generation_after g (suc n) (counted cfg k g w v a) v.key (sym v.generation)
      (count_bad-IsAt s w.generation_after n (note_window w a) (
        moved k (lower s) g w.generation_after n (note_window w a) (sym v.key) v.generation
          (noted-IsAt k g n w a v.session h)))

-- Any number of windows that count, from no count.
watched-IsAt :
    (cfg : Config) (k : Text) (g : Option ℕ) (a : Agent) (ws : List Window)
    → a.consecutive_bad ≡ 0
    → all (counts cfg k g) ws ≡ true
    → length ws < cfg.bad_windows
    → IsAt k g (length ws) (watched cfg a ws)
unfolding watched
watched-IsAt cfg k g a [] z h le = (z, inl refl)
watched-IsAt cfg k g a (w ∷ ws) z h le =
    let (h1, h2) = and_parts (counts cfg k g w) _ h in
    let v = counts-Counts cfg k g w h1 in
    let b = watched cfg a ws in
    let at : IsAt k g (suc (length ws)) (counted cfg k g w v b) =
      counted-IsAt cfg k g (length ws) w b v (watched-IsAt cfg k g a ws z h2 (omega arith)) in
    let more : ltb (counted cfg k g w v b).consecutive_bad cfg.bad_windows ≡ true =
      rw at.0 (lt→ltb (suc (length ws)) cfg.bad_windows le) in
    let left : (judge cfg w b).1 ≡ counted cfg k g w v b =
      rw (counted-judge cfg k g w b v, more) refl in
    subst (IsAt k g (suc (length ws))) (sym left) at

-- A server that stays bad trips in time: from an agent that has counted nothing, through
-- `bad_windows` windows in a row each of which is bad on the same server and the same device
-- generation, the last one trips, on the server and the loss that it measured.
pub judge_streak-trips :
    (cfg : Config) (k : Text) (g : Option ℕ) (a : Agent) (ws : List Window) (w : Window) (s : Text)
    (l : ℤ)
    → a.consecutive_bad ≡ 0
    → all (counts cfg k g) (w ∷ ws) ≡ true
    → length (w ∷ ws) ≡ cfg.bad_windows
    → w.current ≡ some s
    → w.loss ≡ some l
    → (judge cfg w (watched cfg a ws)).0 ≡ trips s l
judge_streak-trips cfg k g a ws w s l z h full on lost =
    let (h1, h2) = and_parts (counts cfg k g w) _ h in
    let v = counts-Counts cfg k g w h1 in
    let b = watched cfg a ws in
    let at : IsAt k g (suc (length ws)) (counted cfg k g w v b) =
      counted-IsAt cfg k g (length ws) w b v (watched-IsAt cfg k g a ws z h2 (omega arith)) in
    let reached : ltb (counted cfg k g w v b).consecutive_bad cfg.bad_windows ≡ false =
      rw (at.0, full) (ground arith) in
    let server : some (v.server.0 ∷ v.server.1) ≡ some s = sym v.current ∙ on in
    let amount : some v.amount ≡ some l = sym v.loss ∙ lost in
    rw (counted-judge cfg k g w b v, reached) cc
