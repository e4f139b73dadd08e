-- ===== src/Delivery/Same.antt =====
-- The two ways in which a verdict comes into the directory of the scorer.
use epaflix.Base.{
  ℕ, ◌≤◌, ◌≡◌, ◌≢◌, refl, sym, ap, ◌∙◌, Bool, true, [], ◌∷◌, ◌++◌, arith, length, map, Text, codes,
  text_eq, trim, Dict, insert, take, lower, zero,
}
use mathlib.Core.List.{append_assoc}
use epaflix.Base.Codec.{Codec, IsFaithful}
use epaflix.Base.Json.{finite}
use epaflix.Base.Int.{pos}
use epaflix.Agent.Publisher.{Publisher}
use epaflix.Scorer.Rows.{Verdict}
use epaflix.Verdicts.Publish.{Producer, publish_bad_server}
use epaflix.Verdicts.Publish.Accepted.{verdict_of}
use epaflix.Verdicts.Read.{Lease, verdict_max_bytes}
use epaflix.Verdicts.Store.{verdict_filename}
use epaflix.Delivery.{Intake, post_bad_server, write_bad_server, intake_of}
use epaflix.Delivery.Accepted.{post_bad_server-stored}
use epaflix.Delivery.Ejected.{IsWithin, publication_of, payload_of, received, stamped}

-- The files of a directory by their paths.
abbrev pub mounted : Text → Dict Text Text → Dict Text Text
mounted directory files =
    map (λ (file : Text × Text). (directory ++ codes "/" ++ file.0, file.1)) files

text_eq-append : (p a b : Text) → text_eq (p ++ a) (p ++ b) ≡ text_eq a b
unfolding text_eq
text_eq-append [] a b = refl
text_eq-append (c ∷ p) a b = ground (arith, text_eq-append p a b)

insert-mounted :
    (directory name text : Text) (files : Dict Text Text)
    → insert text_eq (directory ++ codes "/" ++ name) text (mounted directory files)
      ≡ mounted directory (insert text_eq name text files)
unfolding insert
insert-mounted directory name text [] = refl
insert-mounted directory name text ((j, t) ∷ files) = ground (
  arith,
  insert-mounted directory name text files,
  text_eq-append (directory ++ codes "/") j name,
)

-- The post is a swap of the transport: once a publication is accepted, posting it to the scorer, or
-- writing it to the storage that the scorer's directory is mounted from, leaves the same files, and
-- both succeed. Conditions: both programs use one faithful codec and the same token, which is not
-- empty and has no white space around it, the address is the intake's, the payload is not empty and
-- fits the scorer's limit, the agent's count of bad windows is within 1 and 1000, the scorer allows
-- the agent's time to live, the writes succeed, and the scorer's clock is within the lease.
pub write_bad_server-post_bad_server :
    (digest : Text → Text) (c : Codec) (cfg : Producer) (intake : Intake) (lease : Lease)
    (now later loss : ℕ) (server : Text) (can_start : Bool) (p q : Publisher)
    (files : Dict Text Text)
    → IsFaithful c
    → publish_bad_server digest c.dumps c.strftime cfg now server (finite (pos loss)) can_start p
      ≡ (true, q)
    → 1 ≤ length (payload_of digest c cfg now server loss)
    → length (payload_of digest c cfg now server loss) ≤ verdict_max_bytes
    → 1 ≤ cfg.bad_windows
    → cfg.bad_windows ≤ 1000
    → cfg.verdict_ttl_seconds ≤ lease.verdict_max_ttl_seconds
    → IsWithin cfg lease now later
    → intake.intake_path ≡ codes "/verdict"
    → intake.intake_token ≢ []
    → trim intake.intake_token ≡ intake.intake_token
    → let d = publication_of digest c cfg now server loss in
      let posted =
        post_bad_server (intake_of digest c lease later true intake.intake_token) intake d files in
      write_bad_server true d (mounted cfg.verdict_dir files)
      ≡ (posted.0, mounted cfg.verdict_dir posted.1)
unfolding write_bad_server
write_bad_server-post_bad_server digest c cfg intake lease now later loss server can_start p q files
      faithful h some_bytes fits w1 w2 ttl in_time path token trimmed =
    let d = publication_of digest c cfg now server loss in
    let v : Verdict = verdict_of cfg server (c.strftime now) (stamped now) loss in
    let stored =
      post_bad_server-stored digest c lease later intake d v files path token trimmed some_bytes
        fits
        (received digest c cfg lease now later loss server can_start p q faithful h fits w1 w2 ttl
          in_time) in
    ap (λ where_to. (true, insert text_eq where_to d.payload (mounted cfg.verdict_dir files)))
      (append_assoc (cfg.verdict_dir ++ codes "/")
        (take 24 (digest (cfg.verdict_producer_id ++ zero ∷ lower server))) (codes ".json"))
    ∙ ap (λ o. (true, o))
        (insert-mounted cfg.verdict_dir (verdict_filename digest cfg.verdict_producer_id server)
          d.payload files)
    ∙ sym (ap (λ (o : Bool × Dict Text Text). (o.0, mounted cfg.verdict_dir o.1)) stored)
