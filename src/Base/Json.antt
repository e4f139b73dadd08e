-- ===== src/Base/Json.antt =====
-- The values that `json.loads` returns. A float is a multiple of a millionth, or one of the
-- three values that are not finite; an integer is kept apart from a float, as Python keeps it.
use Prim.Native.Nat.{ℕ}
use mathlib.Core.Bool.{Bool}
use mathlib.Core.Option.{Option, none, some}
use mathlib.Core.List.{List, [], ◌∷◌}
use epaflix.Base.Tests.{if◌then◌else◌}
use epaflix.Base.Texts.{Text, text_eq}
use epaflix.Base.Int.{ℤ}

-- The units in 1.0, and in one second.
abbrev pub one : ℕ
one = 1_000_000

pub data Float : Type 0 where
  nan inf neg_inf : Float
  finite : ℤ → Float

mutual
  pub data Json : Type 0 where
    null : Json
    bool : Bool → Json
    int : ℤ → Json
    float : Float → Json
    str : Text → Json
    arr : Items → Json
    obj : Fields → Json

  pub data Items : Type 0 where
    nil : Items
    cons : Json → Items → Items

  pub data Fields : Type 0 where
    end : Fields
    field : Text → Json → Fields → Fields

abbrev pub to_list : Items → List Json
to_list nil = []
to_list (cons j js) = j ∷ to_list js

abbrev from_list : List Json → Items
from_list [] = nil
from_list (j ∷ js) = cons j (from_list js)

-- `doc.get(k)`; the decoder keeps one value for each key.
abbrev pub get : Text → Fields → Option Json
get k end = none
get k (field j v fs) = if text_eq j k then some v else get k fs

abbrev pub keys : Fields → List Text
keys end = []
keys (field k v fs) = k ∷ keys fs
