-- ===== src/Scorer/Journal/Recover.antt =====
-- What the journal gives back: the bases that were written, and the one behind a public ranking.
use epaflix.Base.{
  sym, subst, ◌∙◌, ◌≤◌, ◌≡◌, ◌≢◌, refl, Bool, true, false, not, ◌&&◌, ◌||◌, Option, none, some,
  List, [], ◌∷◌, arith, if◌then◌else◌, is_some, is_empty, length, all, All, Text, text_eq,
  text_eq_iff, text_eq_refl,
}
use epaflix.Base.Json.{arr}
use epaflix.Base.Codec.{Codec, IsFaithful}
use epaflix.Scorer.Rows.{Row}
use epaflix.Scorer.Ejection.{row_key, member}
use epaflix.Ranking.Check.Laws.{is_valid, fresh_names}
use epaflix.Ranking.Document.Agree.{read_rows-rows_json}
use epaflix.Scorer.Journal.{
  Base, base_json, bases_json, state_json, with_served, read_base, read_bases, read_entries,
  parse_base_state, base_state_max_bytes, build_base_state, load_persisted_base, matching, rows_eq,
}
use epaflix.Scorer.Journal.Equal.{Sublist, done, skip, keeps}
use epaflix.Scorer.Journal.Subset.{is_ranked_subset-Sublist}

-- A list of rows that the validators accept.
abbrev pub accepts : List Row → Bool
accepts rs = not (is_empty rs) && (all is_valid rs && fresh_names [] rs)

Sublist-valid : {xs ys : List Row} → Sublist xs ys → all is_valid ys ≡ true → all is_valid xs ≡ true
Sublist-valid done h = refl
Sublist-valid (skip y s) h = Sublist-valid s (ground arith)
Sublist-valid (keeps {xs} y s) h = ground (arith, Sublist-valid s)

fresh-fewer :
    (seen more : List Text) (rs : List Row)
    → ((k : Text) → member k seen ≡ true → member k more ≡ true)
    → fresh_names more rs ≡ true
    → fresh_names seen rs ≡ true
fresh-fewer seen more [] sub h = refl
fresh-fewer seen more (r ∷ rs) sub h = ground (
  arith,
  sub (row_key r),
  fresh-fewer (row_key r ∷ seen) (row_key r ∷ more) rs (λ k. ground (arith, sub k)),
)

Sublist-fresh :
    {xs ys : List Row} (seen : List Text)
    → Sublist xs ys
    → fresh_names seen ys ≡ true
    → fresh_names seen xs ≡ true
Sublist-fresh seen done h = refl
Sublist-fresh seen (skip {ys = ys} y s) h =
    Sublist-fresh seen s (fresh-fewer seen (row_key y ∷ seen) ys (λ k. ground arith) (ground arith))
Sublist-fresh seen (keeps y s) h = ground (arith, Sublist-fresh (row_key y ∷ seen) s)

pub Sublist-accepts :
    (xs ys : List Row) → Sublist xs ys → xs ≢ [] → accepts ys ≡ true → accepts xs ≡ true
Sublist-accepts [] ys s some_row h = absurd (some_row refl)
Sublist-accepts (x ∷ xs) ys s some_row h = ground (arith, Sublist-valid s, Sublist-fresh [] s)

-- A base whose stamp is the public ranking's, and from which its rows are left.
matching-hit :
    (ps : List Row) (b : Base) (bs : List Base)
    → accepts b.servers ≡ true
    → Sublist ps b.servers
    → matching ps b.generated_at (b ∷ bs) ≡ some b
unfolding matching
matching-hit ps b bs h s = ground (
  arith,
  text_eq_refl b.generated_at,
  (is_ranked_subset-Sublist ps b.servers (Sublist-valid s (ground arith))).1 (ground arith, s),
)

matching-miss :
    (ps : List Row) (at : Text) (b : Base) (bs : List Base)
    → b.generated_at ≢ at
    → matching ps at (b ∷ bs) ≡ matching ps at bs
unfolding matching
matching-miss ps at b bs ne = ground (arith, text_eq_iff b.generated_at at)

abbrev one_or_two : List Base → Bool
one_or_two (_ ∷ []) = true
one_or_two (_ ∷ _ ∷ []) = true
one_or_two _ = false

with_served-one_or_two :
    (candidate : Base) (served : List Row) (served_at : Option Text)
    → one_or_two (with_served candidate served served_at) ≡ true
unfolding with_served
with_served-one_or_two candidate [] served_at = refl
with_served-one_or_two candidate (s ∷ ss) none = refl
with_served-one_or_two candidate (s ∷ ss) (some []) = refl
with_served-one_or_two candidate (s ∷ ss) (some (c ∷ at)) = ground arith

with_served-front :
    (candidate : Base) (served : List Row) (served_at : Option Text)
    → (rest : List Base) × (with_served candidate served served_at ≡ candidate ∷ rest)
unfolding with_served
with_served-front candidate [] served_at = ([], refl)
with_served-front candidate (s ∷ ss) none = ([], refl)
with_served-front candidate (s ∷ ss) (some []) = ([], refl)
with_served-front candidate (s ∷ ss) (some (c ∷ at)) =
    let b : Base = record { servers = s ∷ ss; generated_at = c ∷ at } in
    (
      if not (text_eq (c ∷ at) candidate.generated_at) || not (rows_eq (s ∷ ss) candidate.servers)
          then b ∷ []
          else [],
      ground arith,
    )

pub with_served-both :
    (candidate : Base) (rows : List Row) (at : Text)
    → at ≢ []
    → rows ≢ []
    → at ≢ candidate.generated_at
    → with_served candidate rows (some at)
      ≡ candidate ∷ record { servers = rows; generated_at = at } ∷ []
unfolding with_served
with_served-both candidate [] at h1 h2 ne = absurd (h2 refl)
with_served-both candidate (r ∷ rs) [] h1 h2 ne = absurd (h1 refl)
with_served-both candidate (r ∷ rs) (d ∷ at) h1 h2 ne =
    ground (arith, text_eq_iff (d ∷ at) candidate.generated_at)

pub accepts-some : (rs : List Row) → accepts rs ≡ true → rs ≢ []
accepts-some [] h = cc
accepts-some (r ∷ rs) h = cc

module _ (c : Codec) where
  -- A base whose rows are accepted and whose stamp is one.
  pub record IsSound (b : Base) : Type 0 where
    pub rows : accepts b.servers ≡ true
    pub stamp : is_some (c.strptime b.generated_at) ≡ true
    pub written : b.generated_at ≢ []

  read_base-base_json : (b : Base) → IsSound b → read_base c (base_json b) ≡ some b
  unfolding text_eq
  read_base-base_json b h = ground (arith, read_rows-rows_json b.servers, h.rows, h.stamp)

  read_entries-bases_json :
      (bs : List Base)
      → one_or_two bs ≡ true
      → All IsSound bs
      → read_entries c (some (arr (bases_json bs))) ≡ some bs
  unfolding read_bases
  read_entries-bases_json [] h s = cc
  read_entries-bases_json (a ∷ []) h s = rw (read_base-base_json a s.0) refl
  read_entries-bases_json (a ∷ b ∷ []) h s =
      rw (read_base-base_json a s.0, read_base-base_json b s.1.0) refl
  read_entries-bases_json (a ∷ b ∷ d ∷ bs) h s = cc

  module _ (faithful : IsFaithful c) where
    parse_base_state-state_json :
        (bs : List Base)
        → one_or_two bs ≡ true
        → All IsSound bs
        → length (c.dumps (state_json bs)) ≤ base_state_max_bytes
        → parse_base_state c (c.dumps (state_json bs)) ≡ some bs
    unfolding parse_base_state text_eq
    parse_base_state-state_json bs h s fits =
        ground (arith, faithful.reads_back (state_json bs), read_entries-bases_json bs h s)

    -- The journal of a candidate, whatever base is served besides, gives the candidate back for a
    -- ranking with its stamp and some of its rows.
    pub load_persisted_base-candidate :
        (candidate : Base) (served : List Row) (served_at : Option Text) (ps : List Row)
        → All IsSound (with_served candidate served served_at)
        → length (build_base_state c candidate served served_at) ≤ base_state_max_bytes
        → Sublist ps candidate.servers
        → load_persisted_base c
            (some (build_base_state c candidate served served_at))
            ps
            candidate.generated_at
          ≡ some candidate
    load_persisted_base-candidate candidate served served_at ps sound fits s =
        let (rest, front) = with_served-front candidate served served_at in
        rw
          (parse_base_state-state_json (with_served candidate served served_at)
            (with_served-one_or_two candidate served served_at) sound fits)
          (rw front (matching-hit ps candidate rest (subst (All IsSound) front sound).0.rows s))

    -- It gives the served base back for a ranking with that base's stamp, which is another than the
    -- candidate's, and some of its rows.
    pub load_persisted_base-served :
        (candidate b : Base) (ps : List Row)
        → IsSound candidate
        → IsSound b
        → b.generated_at ≢ candidate.generated_at
        → length (build_base_state c candidate b.servers (some b.generated_at))
          ≤ base_state_max_bytes
        → Sublist ps b.servers
        → load_persisted_base c
            (some (build_base_state c candidate b.servers (some b.generated_at)))
            ps
            b.generated_at
          ≡ some b
    load_persisted_base-served candidate b ps h1 h2 ne fits s =
        let both =
          with_served-both candidate b.servers b.generated_at h2.written
            (accepts-some b.servers h2.rows) ne in
        rw
          (parse_base_state-state_json (with_served candidate b.servers (some b.generated_at))
            (with_served-one_or_two candidate b.servers (some b.generated_at))
            (subst (All IsSound) (sym both) (h1, (h2, tt))) fits)
          (rw both (
            matching-miss ps b.generated_at candidate (b ∷ []) (λ e. ne (sym e))
            ∙ matching-hit ps b [] h2.rows s))
