-- ===== src/Agent/Publisher/Steps.antt =====
-- The publisher, its worker and its callers as interleaved atomic steps.
use epaflix.Base.{
  ℕ, ◌≤◌, ◌≡◌, refl, Bool, true, false, some, List, [], ◌∷◌, ◌++◌, ap, inl, inr, arith,
  if◌then◌else◌, length, length-insert, lookup-insert, Text, text_eq, text_eq_iff, Dict, lookup,
  subst, sym, ◌∙◌, ◌⊎◌,
}
use epaflix.Agent.Publisher.{
  Publication, Publisher, Phase, waiting, ended, reporting, taken, writing, submit, take_next,
  after_write, after_report, shut_down, new_publisher,
}

-- `begun` holds the documents handed to storage so far, the latest first.
pub record System : Type 0 where
  pub publisher : Publisher
  pub phase : Phase
  pub begun : List Publication

abbrev pub worker : Phase × Publisher → System → System
worker (ph, p) s = record s { publisher = p; phase = ph }

-- The call of the writer, which is outside the Condition.
abbrev pub begin : Publication → System → System
begin d s = record s { phase = writing d; begun = d ∷ s.begun }

-- Who moves next is open: a caller, the worker, or the shutdown.
pub data Step (s : System) : System → Type 0 where
  submits :
      (can_start : Bool) (d : Publication)
      → Step s (record s { publisher = (submit can_start d s.publisher).1 })
  takes : s.phase ≡ waiting → Step s (worker (take_next s.publisher) s)
  begins : (d : Publication) → s.phase ≡ taken d → Step s (begin d s)
  wrote : (d : Publication) → s.phase ≡ writing d → Step s (worker (after_write s.publisher) s)
  reported : s.phase ≡ reporting → Step s (worker (after_report s.publisher) s)
  shuts : Step s (record s { publisher = shut_down s.publisher })

pub data Reach (s : System) : System → Type 0 where
  here : Reach s s
  next : {t u : System} → Reach s t → Step t u → Reach s u

-- The flags, as the worker's phase explains them.
abbrev Flags : Phase → Bool → Bool → Type 0
Flags waiting active logging = (active ≡ false) × (logging ≡ false)
Flags ended active logging = (active ≡ false) × (logging ≡ false)
Flags reporting active logging = (active ≡ true) × (logging ≡ true)
Flags (taken d) active logging = (active ≡ true) × (logging ≡ false)
Flags (writing d) active logging = (active ≡ true) × (logging ≡ false)

pub record Inv (s : System) : Type 0 where
  pub bounded : length s.publisher.pending ≤ s.publisher.max_pending
  pub flags : Flags s.phase s.publisher.active s.publisher.logging

submit-bounded :
    (can_start : Bool) (d : Publication) (p : Publisher)
    → length p.pending ≤ p.max_pending
    → length (submit can_start d p).1.pending ≤ (submit can_start d p).1.max_pending
unfolding submit
submit-bounded can_start d p h = ground (arith, length-insert text_eq d.path d p.pending)

submit-flags :
    (can_start : Bool) (d : Publication) (p : Publisher)
    → ((submit can_start d p).1.active ≡ p.active) × ((submit can_start d p).1.logging ≡ p.logging)
unfolding submit
submit-flags can_start d p = ground arith

takes-Inv :
    (s : System) (pending : Dict Text Publication)
    → s.publisher.pending ≡ pending
    → Inv s
    → s.phase ≡ waiting
    → Inv (worker (take_next s.publisher) s)
takes-Inv s [] e v idle = ground arith
takes-Inv s ((k, d) ∷ rest) e v idle = ground arith

-- A step keeps the pending set within its bound, and the two flags in line with the worker.
Step-Inv : {s t : System} → Step s t → Inv s → Inv t
Step-Inv {s} (submits can_start d) v = record {
  bounded = submit-bounded can_start d s.publisher v.bounded;
  flags =
      let (e, e') = submit-flags can_start d s.publisher in
      subst (λ (b : Bool). Flags s.phase b (submit can_start d s.publisher).1.logging) (sym e)
        (subst (λ (b : Bool). Flags s.phase s.publisher.active b) (sym e') v.flags);
}
Step-Inv {s} (takes idle) v = takes-Inv s s.publisher.pending refl v idle
Step-Inv (begins d e) v = ground arith
Step-Inv (wrote d e) v = ground arith
Step-Inv (reported e) v = ground arith
Step-Inv shuts v = ground arith

abbrev pub initial : Publisher → System
initial p = record { publisher = p; phase = waiting; begun = [] }

-- In every state that a new publisher reaches, in any interleaving of callers, worker and shutdown,
-- at most `max_pending` destinations are pending, and `active` and `logging` say what the worker
-- is doing: `logging` is on exactly while a finished write is reported.
pub Reach-Inv :
    (n : ℕ) (p : Publisher) {s : System} → new_publisher n ≡ some p → Reach (initial p) s → Inv s
unfolding new_publisher
Reach-Inv n p e here = ground arith
Reach-Inv n p e (next r st) = Step-Inv st (Reach-Inv n p e r)

-- What the storage may still be handed behind a shutdown that found the worker in this phase.
abbrev pub held : Phase → List Publication
held (taken d) = d ∷ []
held _ = []

-- The storage has got nothing yet, or just the document that the worker held.
abbrev Handed : System → System → Type 0
Handed before s =
    ((s.phase ≡ before.phase) × (s.begun ≡ before.begun))
    ⊎ ((held s.phase ≡ []) × (s.begun ≡ held before.phase ++ before.begun))

-- After a shutdown nothing is pending, and what the storage has been handed since is at most the
-- document that the worker held.
record Stopped (before : System) (s : System) : Type 0 where
  stopping : s.publisher.stopping ≡ true
  empty : s.publisher.pending ≡ []
  handed : Handed before s

submit-Stopped :
    (can_start : Bool) (d : Publication) (p : Publisher)
    → p.stopping ≡ true
    → (submit can_start d p).1 ≡ p
unfolding submit
submit-Stopped can_start d p e = rw e

-- A step that starts no write.
quiet-Handed :
    (before s t : System)
    → t.begun ≡ s.begun
    → held s.phase ≡ []
    → held t.phase ≡ []
    → Handed before s
    → Handed before t
quiet-Handed before s t same before_none after_none (inl (p, b)) = inr (
  after_none,
  same
      ∙ b
      ∙ ap (λ (ds : List Publication). ds ++ before.begun) (sym (ap held (sym p) ∙ before_none)),
)
quiet-Handed before s t same before_none after_none (inr (p, b)) = inr (after_none, same ∙ b)

begin-Handed :
    (before s : System) (d : Publication)
    → s.phase ≡ taken d
    → Handed before s
    → Handed before (begin d s)
begin-Handed before s d e (inl (p, b)) = inr (
  refl,
  ap (λ (ds : List Publication). d ∷ ds) b
      ∙ ap (λ (ds : List Publication). ds ++ before.begun) (ap held (sym e ∙ p)),
)
begin-Handed before s d e (inr (p, b)) = absurd (none_held (sym (ap held e) ∙ p))
  where
    none_held : ¬ (held (taken d) ≡ [])
    none_held q = cc

Step-Stopped : {b s t : System} → Step s t → Stopped b s → Stopped b t
Step-Stopped {b} {s} (submits can_start d) v =
    let e = submit-Stopped can_start d s.publisher v.stopping in
    record {
      stopping = subst (λ (p : Publisher). p.stopping ≡ true) (sym e) v.stopping;
      empty = subst (λ (p : Publisher). p.pending ≡ []) (sym e) v.empty;
      handed = v.handed;
    }
Step-Stopped {b} {s} (takes idle) v = record {
  stopping = ground (arith, v.stopping);
  empty = ground (arith, v.stopping);
  handed =
      quiet-Handed b s (worker (take_next s.publisher) s) refl (ap held idle)
        (ground (arith, v.stopping)) v.handed;
}
Step-Stopped {b} {s} (begins d e) v = record {
  stopping = v.stopping;
  empty = v.empty;
  handed = begin-Handed b s d e v.handed;
}
Step-Stopped {b} {s} (wrote d e) v = record {
  stopping = ground (arith, v.stopping);
  empty = ground (arith, v.stopping, v.empty);
  handed =
      quiet-Handed b s (worker (after_write s.publisher) s) refl (ap held e)
        (ground (arith, v.stopping)) v.handed;
}
Step-Stopped {b} {s} (reported e) v = record {
  stopping = v.stopping;
  empty = v.empty;
  handed = quiet-Handed b s (worker (after_report s.publisher) s) refl (ap held e) refl v.handed;
}
Step-Stopped shuts v = record { stopping = refl; empty = refl; handed = v.handed }

Reach-Stopped : {b s t : System} → Stopped b s → Reach s t → Stopped b t
Reach-Stopped v here = v
Reach-Stopped v (next r st) = Step-Stopped st (Reach-Stopped v r)

Handed-held :
    (before s : System)
    → Handed before s
    → (s.begun ≡ before.begun) ⊎ (s.begun ≡ held before.phase ++ before.begun)
Handed-held before s (inl (p, b)) = inl b
Handed-held before s (inr (p, b)) = inr b

-- Once shutdown has claimed the publisher, from any state and in any interleaving, every document
-- that is submitted is refused, nothing is pending, and no document is handed to storage but one
-- that the worker had taken before the claim without having begun its write.
pub shutdown-final :
    (s t : System) (can_start : Bool) (d : Publication)
    → Reach (record s { publisher = shut_down s.publisher }) t
    → ((t.begun ≡ s.begun) ⊎ (t.begun ≡ held s.phase ++ s.begun))
      × (t.publisher.pending ≡ [])
      × (submit can_start d t.publisher ≡ (false, t.publisher))
unfolding submit
shutdown-final s t can_start d r =
    let v =
      Reach-Stopped {b = s} {s = record s { publisher = shut_down s.publisher }}
        (record { stopping = refl; empty = refl; handed = inl (refl, refl) }) r in
    (Handed-held s t v.handed, v.empty, rw v.stopping)

-- A document that is accepted is pending afterwards under its own path, and every other
-- destination holds what it held; a document that is refused changes nothing.
submit-pending :
    (can_start : Bool) (d : Publication) (p : Publisher) (path : Text)
    → let (accepted, q) = submit can_start d p in
      ((accepted ≡ true)
        × (lookup text_eq path q.pending
            ≡ (if text_eq d.path path then some d else lookup text_eq path p.pending)))
      ⊎ ((accepted ≡ false) × (q ≡ p))
unfolding submit
submit-pending can_start d p path =
    ground (arith, lookup-insert text_eq text_eq_iff d.path path d p.pending)
