-- ===== src/Scorer/Rows.antt =====
-- One server of a ranking and one verdict, as both programs exchange them.
use epaflix.Base.{ℕ, Bool, Text, ltb, ◌==◌, if◌then◌else◌, true, false, [], ◌∷◌}
use epaflix.Base.Int.{ℤ}
use epaflix.Base.Json.{Float}

-- A row of `servers`: the keys RANKING_SERVER_KEYS.
pub record Row : Type 0 where
  pub name : Text
  pub entry_ip : Text
  pub loss_pct : Float
  pub rtt_ms : Float
  pub load : ℤ
  pub bw_max : ℤ
  pub headroom : ℤ

-- The normalised dict that parse_verdict returns; `schema` and `source` are constants.
pub record Verdict : Type 0 where
  pub producer : Text
  pub server : Text
  pub observed_at : Text
  pub observed_epoch : ℕ
  pub ttl_seconds : ℕ
  pub loss_pct : ℕ
  pub bad_windows : ℕ

-- Python's order on texts.
abbrev pub text_le : Text → Text → Bool
text_le [] _ = true
text_le (_ ∷ _) [] = false
text_le (a ∷ s) (b ∷ t) = if a == b then text_le s t else ltb a b
