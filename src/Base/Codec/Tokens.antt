-- ===== src/Base/Codec/Tokens.antt =====
-- A codec that meets the laws: documents in postfix order, read back by a machine with a stack.
use epaflix.Base.Texts.{Text}
use epaflix.Base.Int.{ℤ, pos, negsuc}
use epaflix.Base.Json.{
  Json, null, bool, int, float, str, arr, obj, Items, nil, cons, Fields, end, field, nan, inf,
  neg_inf, finite, one,
}
use epaflix.Base.Codec.{Codec, IsFaithful}
use Prim.Native.Nat.{ℕ, ◌+◌, ◌*◌, ◌/◌}
use mathlib.Core.Path.{◌≡◌, refl, ◌∙◌, ap}
use mathlib.Core.Bool.{true, false}
use mathlib.Core.Option.{Option, none, some}
use mathlib.Core.List.{List, [], ◌∷◌}
use native.Mathlib.Omega.{arith}
use epaflix.Base.Codec.Machine.{
  a_false, a_finite_negsuc, a_finite_pos, a_nan, a_neg_inf, a_negsuc, a_null, a_pos, a_str, a_true,
  add_code, add_field, add_item, an_arr, an_inf, an_obj, empty_text, no_fields, no_items, Cell, Op,
  code_of, fields, items, lit, perform, run, step, text, value,
}

put : Op → Text → Text
unfolding code_of
put o rest = code_of o ∷ rest

-- From the last code to the first.
put_text : Text → Text → Text
unfolding put
put_text [] rest = put empty_text rest
put_text (c ∷ t) rest = put_text t ((20 + c) ∷ put add_code rest)

mutual
  unfolding put_text

  put_json : Json → Text → Text
  put_json null rest = put a_null rest
  put_json (bool true) rest = put a_true rest
  put_json (bool false) rest = put a_false rest
  put_json (int (pos n)) rest = (20 + n) ∷ put a_pos rest
  put_json (int (negsuc n)) rest = (20 + n) ∷ put a_negsuc rest
  put_json (float nan) rest = put a_nan rest
  put_json (float inf) rest = put an_inf rest
  put_json (float neg_inf) rest = put a_neg_inf rest
  put_json (float (finite (pos n))) rest = (20 + n) ∷ put a_finite_pos rest
  put_json (float (finite (negsuc n))) rest = (20 + n) ∷ put a_finite_negsuc rest
  put_json (str t) rest = put_text t (put a_str rest)
  put_json (arr js) rest = put_items js (put an_arr rest)
  put_json (obj fs) rest = put_fields fs (put an_obj rest)

  put_items : Items → Text → Text
  put_items nil rest = put no_items rest
  put_items (cons j js) rest = put_items js (put_json j (put add_item rest))

  put_fields : Fields → Text → Text
  put_fields end rest = put no_fields rest
  put_fields (field k j fs) rest = put_fields fs (put_text k (put_json j (put add_field rest)))

run-put : (o : Op) (rest : Text) (st : List Cell) → run (put o rest) st ≡ run rest (perform o st)
unfolding run put
run-put empty_text rest st = refl
run-put add_code rest st = refl
run-put a_null rest st = refl
run-put a_true rest st = refl
run-put a_false rest st = refl
run-put a_pos rest st = refl
run-put a_negsuc rest st = refl
run-put a_nan rest st = refl
run-put an_inf rest st = refl
run-put a_neg_inf rest st = refl
run-put a_finite_pos rest st = refl
run-put a_finite_negsuc rest st = refl
run-put a_str rest st = refl
run-put no_items rest st = refl
run-put add_item rest st = refl
run-put an_arr rest st = refl
run-put no_fields rest st = refl
run-put add_field rest st = refl
run-put an_obj rest st = refl

run-literal :
    (n : ℕ) (rest : Text) (st : List Cell) → run ((20 + n) ∷ rest) st ≡ run rest (lit n ∷ st)
unfolding run
run-literal n rest st = ap (run rest) (literal n)
  where
    literal : (n : ℕ) → step (20 + n) st ≡ lit n ∷ st
    literal n = ground arith

run-put_text : (t rest : Text) (st : List Cell) → run (put_text t rest) st ≡ run rest (text t ∷ st)
unfolding put_text perform
run-put_text [] rest st = run-put empty_text rest st
run-put_text (c ∷ t) rest st =
    run-put_text t ((20 + c) ∷ put add_code rest) st
    ∙ run-literal c (put add_code rest) (text t ∷ st)
    ∙ run-put add_code rest (lit c ∷ text t ∷ st)

mutual
  unfolding put_json perform

  run-put_json :
      (j : Json) (rest : Text) (st : List Cell) → run (put_json j rest) st ≡ run rest (value j ∷ st)
  run-put_json null rest st = run-put a_null rest st
  run-put_json (bool true) rest st = run-put a_true rest st
  run-put_json (bool false) rest st = run-put a_false rest st
  run-put_json (int (pos n)) rest st =
      run-literal n (put a_pos rest) st ∙ run-put a_pos rest (lit n ∷ st)
  run-put_json (int (negsuc n)) rest st =
      run-literal n (put a_negsuc rest) st ∙ run-put a_negsuc rest (lit n ∷ st)
  run-put_json (float nan) rest st = run-put a_nan rest st
  run-put_json (float inf) rest st = run-put an_inf rest st
  run-put_json (float neg_inf) rest st = run-put a_neg_inf rest st
  run-put_json (float (finite (pos n))) rest st =
      run-literal n (put a_finite_pos rest) st ∙ run-put a_finite_pos rest (lit n ∷ st)
  run-put_json (float (finite (negsuc n))) rest st =
      run-literal n (put a_finite_negsuc rest) st ∙ run-put a_finite_negsuc rest (lit n ∷ st)
  run-put_json (str t) rest st =
      run-put_text t (put a_str rest) st ∙ run-put a_str rest (text t ∷ st)
  run-put_json (arr js) rest st =
      run-put_items js (put an_arr rest) st ∙ run-put an_arr rest (items js ∷ st)
  run-put_json (obj fs) rest st =
      run-put_fields fs (put an_obj rest) st ∙ run-put an_obj rest (fields fs ∷ st)

  run-put_items :
      (js : Items) (rest : Text) (st : List Cell)
      → run (put_items js rest) st ≡ run rest (items js ∷ st)
  run-put_items nil rest st = run-put no_items rest st
  run-put_items (cons j js) rest st =
      run-put_items js (put_json j (put add_item rest)) st
      ∙ run-put_json j (put add_item rest) (items js ∷ st)
      ∙ run-put add_item rest (value j ∷ items js ∷ st)

  run-put_fields :
      (fs : Fields) (rest : Text) (st : List Cell)
      → run (put_fields fs rest) st ≡ run rest (fields fs ∷ st)
  run-put_fields end rest st = run-put no_fields rest st
  run-put_fields (field k j fs) rest st =
      run-put_fields fs (put_text k (put_json j (put add_field rest))) st
      ∙ run-put_text k (put_json j (put add_field rest)) (fields fs ∷ st)
      ∙ run-put_json j (put add_field rest) (text k ∷ fields fs ∷ st)
      ∙ run-put add_field rest (value j ∷ text k ∷ fields fs ∷ st)

abbrev only_value : List Cell → Option Json
only_value (value j ∷ []) = some j
only_value _ = none

abbrev whole_second : Text → Option ℤ
whole_second (n ∷ []) = some (pos (n * one))
whole_second _ = none

-- A stamp is the number of the second.
unfoldable pub tokens : Codec
unfolding run put_json
tokens = record {
  dumps = λ j. put_json j [];
  loads = λ t. only_value (run t []);
  strptime = whole_second;
  strftime = λ t. (t / one) ∷ [];
}

pub tokens-IsFaithful : IsFaithful tokens
unfolding tokens
tokens-IsFaithful = record {
  reads_back = λ j. ap only_value (run-put_json j [] []);
  stamps_back = λ t. refl;
  stamps_written = λ t e. cc;
}
