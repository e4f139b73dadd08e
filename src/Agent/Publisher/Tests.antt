-- ===== src/Agent/Publisher/Tests.antt =====
-- The publisher at a bound of two destinations.
use epaflix.Base.{◌≡◌, refl, true, false, [], ◌∷◌, ◌++◌, ◌⊎◌, Text, codes, lookup, insert}
use epaflix.Agent.Publisher.{Publication, Publisher, submit, new_publisher, take_next, shut_down}
use epaflix.Agent.Publisher.Steps.{
  System, worker, begin, submits, takes, begins, Reach, here, next, Inv, initial, held, Reach-Inv,
  shutdown-final,
}

abbrev document : Text → Publication
document path = record { path = path; payload = codes "loss" }

abbrev two_slots : Publisher
two_slots = record {
  max_pending = 2;
  pending = [];
  active = false;
  logging = false;
  stopping = false;
  started = false;
}

abbrev anser : Publication
anser = document (codes "anser.json")

-- One document is accepted and taken up by the worker.
abbrev accepted_one : System
accepted_one = record (initial two_slots) { publisher = (submit true anser two_slots).1 }

abbrev taken_one : System
taken_one = worker (take_next accepted_one.publisher) accepted_one

abbrev path_to_taken : Reach (initial two_slots) taken_one
path_to_taken = next (next here (submits true anser)) (takes refl)

-- The worker has the document, and the storage does not yet.
still_held : (held taken_one.phase ≡ anser ∷ []) × (taken_one.begun ≡ [])
unfolding submit insert lookup
still_held = (refl, refl)

Reach-Inv_example : Inv taken_one
unfolding new_publisher
Reach-Inv_example = Reach-Inv 2 two_slots refl path_to_taken

abbrev claimed : System
claimed = record taken_one { publisher = shut_down taken_one.publisher }

-- The worker begins its write behind the shutdown.
shutdown-final_example :
    let t = begin anser claimed in
    ((t.begun ≡ taken_one.begun) ⊎ (t.begun ≡ held taken_one.phase ++ taken_one.begun))
    × (t.publisher.pending ≡ [])
    × (submit true anser t.publisher ≡ (false, t.publisher))
unfolding submit insert lookup
shutdown-final_example =
    shutdown-final taken_one (begin anser claimed) true anser (next here (begins anser refl))
