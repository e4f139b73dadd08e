-- ===== src/Agent/Reader/Steps.antt =====
-- The interleavings of RankingReader with the threads that start it and shut it down, and what a
-- snapshot can be.
use epaflix.Base.{
  All, ℕ, ◌∙◌, ◌≡◌, refl, Bool, true, false, Option, none, some, List, [], ◌∷◌, arith, Text, ltb,
  length,
}
use epaflix.Base.Int.{ℤ}
use epaflix.Base.Json.{Json}
use epaflix.Scorer.Rows.{Row}
use epaflix.Ranking.Document.{parse_ranking}
use epaflix.Agent.Reader.{
  Reader, new_reader, Fetched, Phase, fetching, adopting, publishing, sleeping, start, examine,
  after_fetch, publish_snapshot, after_wait, shut_down,
}

-- The reader, its thread, and the payloads that `on_fresh` was called with.
pub record System : Type 0 where
  pub reader : Reader
  pub phase : Phase
  pub cached : List Text

abbrev pub initial : System
initial = record { reader = new_reader; phase = fetching; cached = [] }

module _ (strptime : Text → Option ℤ) (loads : Text → Option Json) (max_bytes : ℕ) where
  -- A thread that was not started stays before its first fetch.
  pub data Step : System → System → Type 0 where
    starts :
        {s : System} (can_start : Bool) → Step s (record s { reader = start can_start s.reader })
    fetches :
        {s : System} (now : ℕ) (f : Fetched)
        → s.phase ≡ fetching
        → s.reader.started ≡ true
        → Step s
            (record s { phase = after_fetch (examine strptime loads max_bytes now f) s.reader })
    adopts :
        {s : System} (p : Text)
        → s.phase ≡ adopting p
        → Step s (record s { phase = publishing (some p); cached = p ∷ s.cached })
    publishes :
        {s : System} (o : Option Text)
        → s.phase ≡ publishing o
        → Step s (record s {
          reader = (publish_snapshot o s.reader).0;
          phase = (publish_snapshot o s.reader).1;
        })
    wakes : {s : System} → s.phase ≡ sleeping → Step s (record s { phase = after_wait s.reader })
    shuts : {s : System} → Step s (record s { reader = shut_down s.reader })

  pub data Reach (s : System) : System → Type 0 where
    here : Reach s s
    next : {t u : System} → Reach s t → Step t u → Reach s u

  -- A payload within the limit that parse_ranking accepted at some time.
  abbrev pub WasValid : Text → Type 0
  WasValid p =
      (now : ℕ) × (rows : List Row) × (age : ℤ) × (parse_ranking strptime loads p now
        ≡ some (rows, age))
      × (ltb max_bytes (length p) ≡ false)

  abbrev IsBacked : Option Text → Type 0
  IsBacked none = Unit {0}
  IsBacked (some p) = WasValid p

  abbrev PhaseBacked : Phase → Type 0
  PhaseBacked (adopting p) = WasValid p
  PhaseBacked (publishing o) = IsBacked o
  PhaseBacked _ = Unit {0}

  pub record Backing (s : System) : Type 0 where
    pub snapshot_valid : IsBacked s.reader.snapshot
    pub phase_valid : PhaseBacked s.phase
    pub cached_valid : All WasValid s.cached

  after_stop :
      {s t : System}
      → Step s t
      → s.reader.stopping ≡ true
      → (t.reader.stopping ≡ true) × (t.reader.snapshot ≡ s.reader.snapshot)
  unfolding start publish_snapshot
  after_stop (starts can_start) h = ground arith
  after_stop (fetches now f e st) h = (h, refl)
  after_stop (adopts p e) h = (h, refl)
  after_stop (publishes o e) h = ground arith
  after_stop (wakes e) h = (h, refl)
  after_stop shuts h = (refl, refl)

  -- From the moment of a shutdown on, in any interleaving, the reader stays stopped and the
  -- snapshot is the one that was there.
  shut_down-frozen :
      (s t : System)
      → Reach (record s { reader = shut_down s.reader }) t
      → (t.reader.stopping ≡ true) × (t.reader.snapshot ≡ s.reader.snapshot)
  shut_down-frozen s t here = (refl, refl)
  shut_down-frozen s u (next {t = t} r st) =
      let (e1, e2) = shut_down-frozen s t r in let (f1, f2) = after_stop st e1 in (f1, f2 ∙ e2)
