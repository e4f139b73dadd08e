-- ===== src/Delivery/Loaded.antt =====
-- The scorer reads what lies in the directory of verdicts.
use epaflix.Base.{
  any-map, ℕ, ◌≤◌, ◌≡◌, refl, ◌∙◌, zero, suc, Bool, true, false, some, List, [], ◌∷◌, ◌++◌, arith,
  any, any-sort_by, take, length, Text, codes, text_eq, text_eq_iff, text_eq_refl, Dict, insert,
  subst, sym, lower,
}
use epaflix.Base.Codec.{Codec}
use epaflix.Scorer.Rows.{Verdict}
use epaflix.Scorer.Ejection.{server_key}
use epaflix.Scorer.Ejection.Choice.{names}
use epaflix.Verdicts.Read.{Lease, active, verdict_max_bytes}
use epaflix.Verdicts.Store.{
  DirEntry, ends_with, starts_with_dot, parse_payload, verdict_in, verdict_filename,
  load_active_verdicts, key_of,
}
use epaflix.Verdicts.Store.Newest.{about, about_entry, load_active_verdicts-newest}
use epaflix.Delivery.{listing, entry_of, by_name}

ends_with-append : (t suffix : Text) → ends_with suffix (t ++ suffix) ≡ true
unfolding ends_with
ends_with-append [] [] = text_eq_refl []
ends_with-append [] (c ∷ t) = ground (arith, text_eq_refl (c ∷ t))
ends_with-append (c ∷ t) suffix = ground (arith, ends_with-append t suffix)

take_fits : (n : ℕ) (t : Text) → length t ≤ n → take (suc n) t ≡ t
take_fits n [] h = refl
take_fits zero (c ∷ t) h = ground (arith, h)
take_fits (suc n) (c ∷ t) h = cc (take_fits n t (omega (arith, h)))

any-insert :
    (f : Text × Text → Bool) (name text : Text) (files : Dict Text Text)
    → f (name, text) ≡ true
    → any f (insert text_eq name text files) ≡ true
unfolding insert
any-insert f name text [] h = ground (arith, h)
any-insert f name text ((j, t) ∷ files) h =
    ground (arith, h, any-insert f name text files h, text_eq_iff j name)

about→names :
    (v : Verdict) (vs : List Verdict)
    → any (about (key_of v) v.observed_epoch) vs ≡ true
    → any (names (server_key v) v.observed_epoch) vs ≡ true
about→names v [] h = h
about→names v (w ∷ ws) h = ground (arith, h, about→names v ws)

module _ (c : Codec) (lease : Lease) (now : ℕ) (v : Verdict) (text : Text)
    (fits : length text ≤ verdict_max_bytes)
    (is_active : parse_payload c lease now text ≡ active v) where
  verdict_in-written :
      (name : Text)
      → ends_with (codes ".json") name ≡ true
      → starts_with_dot name ≡ false
      → verdict_in c lease now (entry_of (name, text)) ≡ some v
  unfolding verdict_in
  verdict_in-written name json visible =
      rw (take_fits verdict_max_bytes text fits, is_active) (ground (arith, json, visible))

  -- A verdict whose file was written is loaded, or a newer one of its producer is.
  pub load_active_verdicts-written :
      (digest : Text → Text) (files : Dict Text Text)
      → starts_with_dot (verdict_filename digest v.producer v.server) ≡ false
      → any (names (server_key v) v.observed_epoch) (
          load_active_verdicts c lease now (
            some
              (listing (insert text_eq (verdict_filename digest v.producer v.server) text files))))
        ≡ true
  unfolding listing
  load_active_verdicts-written digest files visible =
      let name = verdict_filename digest v.producer v.server in
      let new = insert text_eq name text files in
      let found =
        λ (e : DirEntry). about_entry (key_of v) v.observed_epoch (verdict_in c lease now e) in
      about→names v _ (
        (load_active_verdicts-newest c lease now (key_of v) v.observed_epoch (listing new)).1
        ∙ any-map found entry_of _
        ∙ any-sort_by by_name (λ e. found (entry_of e)) new
        ∙ any-insert (λ e. found (entry_of e)) name text files
            (subst (λ o. about_entry (key_of v) v.observed_epoch o ≡ true)
              (sym (verdict_in-written name (ends_with-append _ (codes ".json")) visible))
              (ground (arith, text_eq_refl (lower v.producer), text_eq_refl (lower v.server)))))
