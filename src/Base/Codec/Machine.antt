-- ===== src/Base/Codec/Machine.antt =====
-- A machine that builds a JSON value from a text of tokens, one token for each step.
use epaflix.Base.Tests.{ltb, ◌==◌, if◌then◌else◌}
use epaflix.Base.Texts.{Text}
use epaflix.Base.Int.{pos, negsuc}
use epaflix.Base.Json.{
  Json, null, bool, int, float, str, arr, obj, Items, nil, cons, Fields, end, field, nan, inf,
  neg_inf, finite,
}
use Prim.Native.Nat.{ℕ, ◌-◌}
use mathlib.Core.Bool.{true, false}
use mathlib.Core.List.{List, [], ◌∷◌}

-- What stands on the stack.
pub data Cell : Type 0 where
  lit : ℕ → Cell
  text : Text → Cell
  value : Json → Cell
  items : Items → Cell
  fields : Fields → Cell

-- The commands.
pub data Op : Type 0 where
  empty_text add_code a_null a_true a_false a_pos a_negsuc a_nan an_inf a_neg_inf : Op
  a_finite_pos a_finite_negsuc a_str no_items add_item an_arr no_fields add_field an_obj : Op

unfoldable pub code_of : Op → ℕ
code_of empty_text = 0
code_of add_code = 1
code_of a_null = 2
code_of a_true = 3
code_of a_false = 4
code_of a_pos = 5
code_of a_negsuc = 6
code_of a_nan = 7
code_of an_inf = 8
code_of a_neg_inf = 9
code_of a_finite_pos = 10
code_of a_finite_negsuc = 11
code_of a_str = 12
code_of no_items = 13
code_of add_item = 14
code_of an_arr = 15
code_of no_fields = 16
code_of add_field = 17
code_of an_obj = 18

op_of : ℕ → Op
op_of n =
    if n == 0
    then empty_text
    else if n == 1
    then add_code
    else if n == 2
    then a_null
    else if n == 3
    then a_true
    else if n == 4
    then a_false
    else if n == 5
    then a_pos
    else if n == 6
    then a_negsuc
    else if n == 7
    then a_nan
    else if n == 8
    then an_inf
    else if n == 9
    then a_neg_inf
    else if n == 10
    then a_finite_pos
    else if n == 11
    then a_finite_negsuc
    else if n == 12
    then a_str
    else if n == 13
    then no_items
    else if n == 14
    then add_item
    else if n == 15
    then an_arr
    else if n == 16
    then no_fields
    else if n == 17
    then add_field
    else an_obj

-- A command that finds nothing to work on leaves the stack.
unfoldable pub perform : Op → List Cell → List Cell
perform empty_text st = text [] ∷ st
perform add_code (lit c ∷ text t ∷ st) = text (c ∷ t) ∷ st
perform a_null st = value null ∷ st
perform a_true st = value (bool true) ∷ st
perform a_false st = value (bool false) ∷ st
perform a_pos (lit n ∷ st) = value (int (pos n)) ∷ st
perform a_negsuc (lit n ∷ st) = value (int (negsuc n)) ∷ st
perform a_nan st = value (float nan) ∷ st
perform an_inf st = value (float inf) ∷ st
perform a_neg_inf st = value (float neg_inf) ∷ st
perform a_finite_pos (lit n ∷ st) = value (float (finite (pos n))) ∷ st
perform a_finite_negsuc (lit n ∷ st) = value (float (finite (negsuc n))) ∷ st
perform a_str (text t ∷ st) = value (str t) ∷ st
perform no_items st = items nil ∷ st
perform add_item (value j ∷ items js ∷ st) = items (cons j js) ∷ st
perform an_arr (items js ∷ st) = value (arr js) ∷ st
perform no_fields st = fields end ∷ st
perform add_field (value j ∷ text k ∷ fields fs ∷ st) = fields (field k j fs) ∷ st
perform an_obj (fields fs ∷ st) = value (obj fs) ∷ st
perform _ st = st

-- A number below 20 is a command, another a literal.
pub step : ℕ → List Cell → List Cell
unfolding perform op_of
step c st = if ltb c 20 then perform (op_of c) st else lit (c - 20) ∷ st

unfoldable pub run : Text → List Cell → List Cell
unfolding step
run [] st = st
run (c ∷ t) st = run t (step c st)
