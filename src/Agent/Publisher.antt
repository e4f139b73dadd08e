-- ===== src/Agent/Publisher.antt =====
-- class VerdictPublisher of images/airvpn-bluetit/agent.py: one daemon writer behind a bounded set
-- of pending documents, one for each destination. Each definition is one block under the
-- Condition, which is atomic; what lies between two blocks is a step of `Publisher.Steps`.
pub mod Steps
mod Tests
use epaflix.Base.{
  ℕ, Bool, true, false, not, ◌&&◌, ◌||◌, Option, none, some, List, [], ◌∷◌, ltb, leb, if◌then◌else◌,
  is_some, length, Text, text_eq, Dict, lookup, insert,
}

-- VerdictPublication; the payload is the document's bytes.
pub record Publication : Type 0 where
  pub path : Text
  pub payload : Text

pub record Publisher : Type 0 where
  pub max_pending : ℕ
  pub pending : Dict Text Publication
  pub active : Bool
  pub logging : Bool
  pub stopping : Bool
  pub started : Bool

-- The constructor; it raises on a bound below 1.
unfoldable pub new_publisher : ℕ → Option Publisher
new_publisher n =
    if ltb n 1
    then none
    else some (record {
      max_pending = n;
      pending = [];
      active = false;
      logging = false;
      stopping = false;
      started = false;
    })

abbrev accept : Publication → Publisher → Bool × Publisher
accept d p = (true, record p { pending = insert text_eq d.path d p.pending; started = true })

-- `submit`; the flag says whether a thread can be started, should it be needed.
unfoldable pub submit : Bool → Publication → Publisher → Bool × Publisher
submit can_start d p =
    if p.stopping
    then (false, p)
    else if not (is_some (lookup text_eq d.path p.pending)) && leb p.max_pending (length p.pending)
    then (false, p)
    else if p.started || can_start
    then accept d p
    else (false, p)

-- What the worker is doing. A document that it has taken is no longer pending, and not yet handed to
-- storage.
pub data Phase : Type 0 where
  waiting ended reporting : Phase
  taken writing : Publication → Phase

-- The head of the worker's loop: it goes on to wait, ends, or takes the oldest destination.
abbrev pub take_next : Publisher → Phase × Publisher
take_next p =
    if p.stopping then (ended, record p { pending = []; active = false }) else elim p.pending [
      | [] ↦ (waiting, p)
      | e ∷ rest ↦ (taken e.1, record p { pending = rest; active = true })
    ]

-- Behind the storage call, whether it failed or not.
abbrev pub after_write : Publisher → Phase × Publisher
after_write p =
    if p.stopping
    then (ended, record p { active = false })
    else (reporting, record p { logging = true })

-- Behind the log line.
abbrev pub after_report : Publisher → Phase × Publisher
after_report p = (waiting, record p { logging = false; active = false })

-- `shutdown`, as far as its first wait; it returns once `logging` is off.
abbrev pub shut_down : Publisher → Publisher
shut_down p = record p { stopping = true; pending = [] }

abbrev may_return : Publisher → Bool
may_return p = not p.logging
