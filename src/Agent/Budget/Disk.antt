-- ===== src/Agent/Budget/Disk.antt =====
-- SwitchBudget._load, _save, __init__ and record of images/airvpn-bluetit/agent.py: the history
-- file. `float(x)` on a decoded value is a parameter; a file that is not a list of lists is
-- unusable.
use epaflix.Base.{
  ℕ, ◌≤◌, ◌≡◌, refl, ap, Bool, true, Option, none, some, List, [], ◌∷◌, arith, if◌then◌else◌, Text,
  codes, text_eq, keep,
}
use epaflix.Base.Int.{pos}
use epaflix.Base.Json.{Json, arr, str, float, finite, Items, nil, cons}
use epaflix.Agent.Budget.{
  Budget, Entry, Kind, switch, escape, is_fresh, prune, arm, allowed, allowed_or_escape, decided,
  front_door,
}

-- What opening and decoding the file gives.
pub data Stored : Type 0 where
  missing unusable : Stored
  document : Json → Stored

abbrev kind_text : Kind → Text
kind_text switch = codes "switch"
kind_text escape = codes "escape"

-- `entry[2] == "escape"`, with the length tested first.
abbrev kind_of_rest : Items → Kind
kind_of_rest (cons (str s) rest) = if text_eq s (codes "escape") then escape else switch
kind_of_rest _ = switch

entry_of : Option ℕ → Option ℕ → Kind → Option Entry
entry_of (some t) (some c) k = some (record { placed = t; armed = c; kind = k })
entry_of (some t) none k = none
entry_of none _ k = none

prepend : Option Entry → Option (List Entry) → Option (List Entry)
prepend (some e) (some es) = some (e ∷ es)
prepend (some e) none = none
prepend none _ = none

module _ (to_float : Json → Option ℕ) where
  decode_entry : Json → Option Entry
  unfolding entry_of
  decode_entry (arr (cons a (cons b rest))) = entry_of (to_float a) (to_float b) (kind_of_rest rest)
  decode_entry _ = none

  -- One entry that does not decode makes the whole file unusable.
  decode_items : Items → Option (List Entry)
  unfolding decode_entry prepend
  decode_items nil = some []
  decode_items (cons j js) = prepend (decode_entry j) (decode_items js)

  decode_history : Stored → Option (List Entry)
  unfolding decode_items
  decode_history (document (arr js)) = decode_items js
  decode_history _ = none

  adopt : ℕ → Budget → Option (List Entry) → Budget
  adopt now b none = b
  adopt now b (some es) = prune now (record b { history = es })

  load : ℕ → Stored → Budget → Budget
  unfolding decode_history adopt
  load now stored b = elim b.path [ none ↦ b | some _ ↦ adopt now b (decode_history stored) ]

  -- `SwitchBudget(cooldown_seconds, max_per_day, clock, path)`
  pub open_budget : (cooldown max_per_day : ℕ) → Option Text → ℕ → Stored → Budget
  unfolding load
  open_budget cooldown max_per_day path now stored =
      load now stored
        (record { cooldown = cooldown; max_per_day = max_per_day; path = path; history = [] })

encode_entry : Entry → Json
encode_entry e = arr (
    cons (float (finite (pos e.placed)))
      (cons (float (finite (pos e.armed))) (cons (str (kind_text e.kind)) nil)))

encode_items : List Entry → Items
unfolding encode_entry
encode_items [] = nil
encode_items (e ∷ es) = cons (encode_entry e) (encode_items es)

-- A write that fails leaves the file as it was: the new text goes to another name first.
pub save : (written : Bool) → Budget → Stored → Stored
unfolding encode_items
save written b stored = elim b.path [
  | none ↦ stored
  | some _ ↦ if written then document (arr (encode_items b.history)) else stored
]

-- `record`: the memory first, then the file.
unfoldable pub record_switch :
    (written : Bool) → ℕ → Option ℕ → Kind → Budget × Stored → Budget × Stored
unfolding save
record_switch written now c k (b, stored) = let b' = arm now c k b in (b', save written b' stored)

module _ (to_float : Json → Option ℕ)
    (decodes : (n : ℕ) → to_float (float (finite (pos n))) ≡ some n) where
  decode-encode_entry : (e : Entry) → decode_entry to_float (encode_entry e) ≡ some e
  unfolding decode_entry encode_entry text_eq
  decode-encode_entry e = rw (decodes e.placed, decodes e.armed) (kinds e.kind)
    where
      kinds :
          (k : Kind)
          → entry_of (some e.placed) (some e.armed) (kind_of_rest (cons (str (kind_text k)) nil))
            ≡ some (record { placed = e.placed; armed = e.armed; kind = k })
      kinds switch = refl
      kinds escape = refl

  decode-encode_items : (es : List Entry) → decode_items to_float (encode_items es) ≡ some es
  unfolding decode_items encode_items
  decode-encode_items [] = refl
  decode-encode_items (e ∷ es) = ground (arith, decode-encode_entry e, decode-encode_items es)

  reopened :
      (b : Budget) (p : Text) (boot : ℕ) (stored : Stored)
      → b.path ≡ some p
      → open_budget to_float b.cooldown b.max_per_day b.path boot (save true b stored)
        ≡ prune boot b
  unfolding open_budget save decode_history adopt
  reopened b p boot stored e = ground (arith, decode-encode_items b.history)

  keep_fresh_later :
      (boot now : ℕ) (es : List Entry)
      → boot ≤ now
      → keep (is_fresh now) (keep (is_fresh boot) es) ≡ keep (is_fresh now) es
  keep_fresh_later boot now [] le = refl
  keep_fresh_later boot now (e ∷ es) le = ground (arith, keep_fresh_later boot now es le)

  -- An agent that is started again with the same knobs, after a successful write of the history
  -- and no later than `now`, decides about a trip as the stopped agent would have, and is left
  -- with the same budget.
  pub allowed_or_escape-restart :
      (window boot now later : ℕ) (b : Budget) (p : Text) (stored : Stored)
      → b.path ≡ some p
      → boot ≤ now
      → allowed_or_escape window now later
          (open_budget to_float b.cooldown b.max_per_day b.path boot (save true b stored))
        ≡ allowed_or_escape window now later b
  unfolding allowed_or_escape allowed
  allowed_or_escape-restart window boot now later b p stored e le =
      rw (reopened b p boot stored e) (
        ap
          (λ (h : List Entry).
            let c = record b { history = h } in decided window later c (front_door now c))
          (keep_fresh_later boot now b.history le))
