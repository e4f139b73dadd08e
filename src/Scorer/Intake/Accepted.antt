-- ===== src/Scorer/Intake/Accepted.antt =====
-- What an answer of the intake means.
use epaflix.Base.{
  ℕ, ◌≡◌, ◌≢◌, refl, Bool, true, false, Option, none, some, [], ◌∷◌, arith, Text, codes, text_eq,
  text_eq_iff, is_empty, Dict, insert, ◌⊎◌, inl, inr, Option-cases,
}
use epaflix.Base.Int.{ℤ, pos, negsuc}
use epaflix.Base.Codec.{Codec}
use epaflix.Scorer.Rows.{Verdict}
use epaflix.Verdicts.Read.{Lease, Parsed, invalid, stale, active}
use epaflix.Verdicts.Store.{parse_payload, persist_verdict, persisted_json, verdict_filename}
use epaflix.Scorer.Intake.{
  Request, Answer, accepted, gate, presented, read_body, body_length, store, after_body, after_gate,
  do_post, finish,
}

-- The request carries the token, and it is not empty.
pub record IsAuthorised (token : Text) (r : Request) : Type 0 where
  pub path : r.path ≡ codes "/verdict"
  pub token_set : token ≢ []
  pub token_sent : presented r.authorization ≡ some token

gate-IsAuthorised : (token : Text) (r : Request) → gate token r ≡ none → IsAuthorised token r
unfolding gate
gate-IsAuthorised token r h = elim (Option-cases (presented r.authorization)) [
  | inl e ↦ absurd (ground (arith, text_eq_iff r.path (codes "/verdict")))
  | inr (t, e) ↦ record {
    path = ground (arith, text_eq_iff r.path (codes "/verdict"));
    token_set = set token (ground arith);
    token_sent = ground (arith, text_eq_iff t token);
  }
]
  where
    set : (t : Text) → is_empty t ≡ false → t ≢ []
    set [] k = cc
    set (c ∷ t) k = cc

module _ (digest : Text → Text) (c : Codec) (cfg : Lease) (now : ℕ) (write_ok : Bool) where
  -- Either nothing was written, or the verdict's file holds the verdict of the body.
  abbrev pub Stored : Answer ⊎ Text → Dict Text Text → Answer × Dict Text Text → Type 0
  Stored o files (answer, left) =
      ((answer ≢ accepted) × (left ≡ files))
      ⊎ ((answer ≡ accepted)
          × ((v : Verdict) × (body : Text) × (o ≡ inr body)
              × (parse_payload c cfg now body ≡ active v)
              × (left
                  ≡ insert text_eq (verdict_filename digest v.producer v.server)
                      (c.dumps (persisted_json v v.observed_at)) files)))

  store-Stored :
      (p : Parsed) (body : Text) (files : Dict Text Text)
      → parse_payload c cfg now body ≡ p
      → Stored (inr body) files (store digest c cfg now write_ok p files)
  unfolding store persist_verdict
  store-Stored invalid body files e = inl (λ h. cc, refl)
  store-Stored stale body files e = inl (λ h. cc, refl)
  store-Stored (active v) body files e = by_write write_ok
    where
      by_write :
          (ok : Bool)
          → Stored (inr body) files (
              finish digest c cfg now write_ok v
                (persist_verdict digest c.dumps ok v v.observed_at files))
      by_write true = inr (refl, (v, body, refl, e, refl))
      by_write false = inl (λ h. cc, refl)

  after_body-Stored :
      (o : Answer ⊎ Text) (files : Dict Text Text)
      → ((answer : Answer) → o ≡ inl answer → answer ≢ accepted)
      → Stored o files (after_body digest c cfg now write_ok o files)
  unfolding after_body
  after_body-Stored (inl answer) files h = inl (h answer refl, refl)
  after_body-Stored (inr body) files h = store-Stored (parse_payload c cfg now body) body files refl

  read_body-refuses :
      (n : ℤ) (stream : Text) (answer : Answer)
      → read_body n stream ≡ inl answer
      → answer ≢ accepted
  unfolding read_body
  read_body-refuses (negsuc n) stream answer h = ground arith
  read_body-refuses (pos n) stream answer h = ground arith

  gate-refuses :
      (token : Text) (r : Request) (answer : Answer)
      → gate token r ≡ some answer
      → answer ≢ accepted
  unfolding gate
  gate-refuses token r answer h = ground arith

  -- Every request to the intake that is not answered by 202 leaves the directory of verdicts as it
  -- was. One that is answered by 202 came to /verdict with the configured token, which is not empty,
  -- and its body is an active verdict, whose document is then the file of its producer and server;
  -- no other file is touched.
  pub do_post-Stored :
      (token : Text) (r : Request) (files : Dict Text Text)
      → let (answer, left) = do_post digest c cfg now write_ok token r files in
        ((answer ≢ accepted) × (left ≡ files))
        ⊎ ((answer ≡ accepted)
            × IsAuthorised token r
            × ((v : Verdict) × (body : Text) × (read_body (body_length r.content_length) r.stream
                  ≡ inr body)
                × (parse_payload c cfg now body ≡ active v)
                × (left
                    ≡ insert text_eq
                        (verdict_filename digest v.producer v.server)
                        (c.dumps (persisted_json v v.observed_at))
                        files)))
  unfolding do_post after_gate
  do_post-Stored token r files = by_gate (gate token r) refl
    where
      by_gate :
          (o : Option Answer)
          → gate token r ≡ o
          → let (answer, left) = after_gate digest c cfg now write_ok o r files in
            ((answer ≢ accepted) × (left ≡ files))
            ⊎ ((answer ≡ accepted)
                × IsAuthorised token r
                × ((v : Verdict) × (body : Text) × (read_body
                        (body_length r.content_length)
                        r.stream
                      ≡ inr body)
                    × (parse_payload c cfg now body ≡ active v)
                    × (left
                        ≡ insert text_eq
                            (verdict_filename digest v.producer v.server)
                            (c.dumps (persisted_json v v.observed_at))
                            files)))
      by_gate (some answer) e = inl (gate-refuses token r answer e, refl)
      by_gate none e =
          elim (after_body-Stored (read_body (body_length r.content_length) r.stream) files
            (read_body-refuses (body_length r.content_length) r.stream)) [
              | inl kept ↦ inl kept
              | inr (ok, found) ↦ inr (ok, gate-IsAuthorised token r e, found)
            ]
