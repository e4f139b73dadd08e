-- ===== src/Scorer/Ejection/Order.antt =====
-- The order in which verdicts are acted on: a total order, newest first.
use epaflix.Base.{◌≤◌, ◌≡◌, refl, true, false, [], ◌∷◌, arith, Text}
use epaflix.Scorer.Rows.{Verdict, text_le}
use epaflix.Scorer.Ejection.{priority, server_key}

text_le_total : (s t : Text) → text_le s t ≡ false → text_le t s ≡ true
text_le_total [] t h = cc
text_le_total (a ∷ s) [] h = refl
text_le_total (a ∷ s) (b ∷ t) h = ground (arith, text_le_total s t)

text_le_trans : (s t u : Text) → text_le s t ≡ true → text_le t u ≡ true → text_le s u ≡ true
text_le_trans [] t u h k = refl
text_le_trans (a ∷ s) [] u h k = cc
text_le_trans (a ∷ s) (b ∷ t) [] h k = cc
text_le_trans (a ∷ s) (b ∷ t) (c ∷ u) h k = ground (arith, text_le_trans s t u)

pub priority_total : (v w : Verdict) → priority v w ≡ false → priority w v ≡ true
priority_total v w h = ground (arith, text_le_total (server_key v) (server_key w))

pub priority_trans :
    (u v w : Verdict) → priority u v ≡ true → priority v w ≡ true → priority u w ≡ true
priority_trans u v w h k =
    ground (arith, text_le_trans (server_key u) (server_key v) (server_key w))

pub priority-newer : (v w : Verdict) → priority v w ≡ true → w.observed_epoch ≤ v.observed_epoch
priority-newer v w h = ground arith
