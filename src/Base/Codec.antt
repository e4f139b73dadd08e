-- ===== src/Base/Codec.antt =====
-- What the programs use of json and datetime: a parameter of the modules that write and read
-- documents, with the laws that the theorems rest on.
pub mod Machine
pub mod Tokens
use Prim.Native.Nat.{ℕ, ◌*◌, ◌/◌}
use mathlib.Core.Path.{◌≡◌}
use mathlib.Core.Logic.{◌≢◌}
use mathlib.Core.List.{[]}
use mathlib.Core.Option.{Option, some}
use epaflix.Base.Texts.{Text}
use epaflix.Base.Int.{ℤ, pos}
use epaflix.Base.Json.{Json, one}

-- `json.dumps`, `json.loads`, and `strptime` and `strftime` with the format of the documents. Times
-- are in millionths of a second since 1970; a text that does not parse has no value.
pub record Codec : Type 0 where
  pub dumps : Json → Text
  pub loads : Text → Option Json
  pub strptime : Text → Option ℤ
  pub strftime : ℕ → Text

-- What was written is read back; a stamp keeps whole seconds and is not empty.
pub record IsFaithful (c : Codec) : Type 0 where
  pub reads_back : (j : Json) → c.loads (c.dumps j) ≡ some j
  pub stamps_back : (t : ℕ) → c.strptime (c.strftime t) ≡ some (pos (t / one * one))
  pub stamps_written : (t : ℕ) → c.strftime t ≢ []
