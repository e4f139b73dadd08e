-- ===== src/Ranking/Document/Sound.antt =====
-- What a ranking that the agent adopts may be relied on for.
use epaflix.Base.{
  ℕ, ◌≤◌, ◌⊎◌, inl, inr, ◌↔◌, subst, sym, ◌∙◌, ◌*◌, ◌-◌, ◌≡◌, Bool, true, false, not, ◌&&◌, Option,
  none, some, List, [], arith, if◌then◌else◌, Text, codes, all, ◌>>=?◌,
}
use epaflix.Base.Int.{ℤ, pos, negsuc, ◌≤ℤ◌}
use epaflix.Base.Json.{Json, Fields, get, one, null, bool, int, float, str, arr, obj, nil, cons}
use epaflix.Scorer.Rows.{Row}
use epaflix.Ranking.Check.{read_rows, same_keys}
use epaflix.Ranking.Check.Laws.{is_valid, fresh_names, read_from-valid, bind-some, some_inj}
use epaflix.Ranking.Document.{
  age_of, max_ranking_ttl_seconds, ranking_future_skew_seconds, parse_ranking, Ranking,
  read_document, ranking_document_keys, is_schema, stamp_text, positive,
}
use epaflix.Ranking.Document.Agree.{adopted, parse_document-read_document}

-- Rows that can be used, none of which has the name of another.
abbrev pub AreUsable : List Row → Type 0
AreUsable rows = (all is_valid rows ≡ true) × (fresh_names [] rows ≡ true)

read_rows-usable : (j : Option Json) (rs : List Row) → read_rows j ≡ some rs → AreUsable rs
read_rows-usable none rs h = cc
read_rows-usable (some null) rs h = cc
read_rows-usable (some (bool b)) rs h = cc
read_rows-usable (some (int n)) rs h = cc
read_rows-usable (some (float x)) rs h = cc
read_rows-usable (some (str t)) rs h = cc
read_rows-usable (some (arr nil)) rs h = cc
read_rows-usable (some (arr (cons j js))) rs h = read_from-valid [] (cons j js) rs h
read_rows-usable (some (obj fs)) rs h = cc

-- The keys and the schema.
abbrev test : Fields → Bool
test fs = same_keys ranking_document_keys fs && is_schema (get (codes "schema") fs)

fields_of :
    (strptime : Text → Option ℤ) (fs : Fields) (d : Ranking) (passed : Bool)
    → (if not passed
        then none
        else (stamp_text (get (codes "generated_at") fs) >>=? λ (t : Text).
            strptime t >>=? λ (stamp : ℤ). positive (get (codes "ttl_seconds") fs) >>=? λ (ttl : ℕ).
            read_rows (get (codes "servers") fs) >>=? λ (rows : List Row).
            some (record { generated_at = t; stamp = stamp; ttl = ttl; rows = rows })))
      ≡ some d
    → AreUsable d.rows
fields_of strptime fs d false h = cc
fields_of strptime fs d true h0 =
    let (t, e1, h1) = bind-some (stamp_text (get (codes "generated_at") fs)) _ d h0 in
    let (stamp, e2, h2) = bind-some (strptime t) _ d h1 in
    let (ttl, e3, h3) = bind-some (positive (get (codes "ttl_seconds") fs)) _ d h2 in
    let (rows, e4, h4) = bind-some (read_rows (get (codes "servers") fs)) _ d h3 in
    subst (λ (q : Ranking). AreUsable q.rows) (some_inj _ d h4) (read_rows-usable _ rows e4)

read_document-usable :
    (strptime : Text → Option ℤ) (j : Json) (d : Ranking)
    → read_document strptime j ≡ some d
    → AreUsable d.rows
unfolding read_document
read_document-usable strptime null d h = cc
read_document-usable strptime (bool b) d h = cc
read_document-usable strptime (int n) d h = cc
read_document-usable strptime (float x) d h = cc
read_document-usable strptime (str t) d h = cc
read_document-usable strptime (arr js) d h = cc
read_document-usable strptime (obj fs) d h = fields_of strptime fs d (test fs) h

-- What a payload gives at a time: the rows of a document in it, while the document's own lease runs.
pub record IsAdopted (strptime : Text → Option ℤ) (loads : Text → Option Json) (payload : Text)
    (now : ℕ) (rows : List Row) (age : ℤ) : Type 0 where
  pub json : Json
  pub document : Ranking
  pub decoded : loads payload ≡ some json
  pub accepted : read_document strptime json ≡ some document
  pub aged : age ≡ age_of now document.stamp
  pub not_ahead : negsuc (ranking_future_skew_seconds * one - 1) ≤ℤ age
  pub short : document.ttl ≤ max_ranking_ttl_seconds
  pub usable : AreUsable document.rows
  pub lease :
      ((age ≤ℤ pos (document.ttl * one)) × (rows ≡ document.rows))
      ⊎ (¬ (age ≤ℤ pos (document.ttl * one)) × (rows ≡ []))

adopted-lease :
    (now : ℕ) (d : Ranking) (rows : List Row) (age : ℤ)
    → adopted now d ≡ some (rows, age)
    → (age ≡ age_of now d.stamp)
      × (negsuc (ranking_future_skew_seconds * one - 1) ≤ℤ age)
      × (d.ttl ≤ max_ranking_ttl_seconds)
      × (((age ≤ℤ pos (d.ttl * one)) × (rows ≡ d.rows))
          ⊎ (¬ (age ≤ℤ pos (d.ttl * one)) × (rows ≡ [])))
adopted-lease now d rows age e = ground arith

adopted-back :
    (now : ℕ) (d : Ranking) (rows : List Row) (age : ℤ)
    → age ≡ age_of now d.stamp
    → negsuc (ranking_future_skew_seconds * one - 1) ≤ℤ age
    → d.ttl ≤ max_ranking_ttl_seconds
    → ((age ≤ℤ pos (d.ttl * one)) × (rows ≡ d.rows)) ⊎ (¬ (age ≤ℤ pos (d.ttl * one)) × (rows ≡ []))
    → adopted now d ≡ some (rows, age)
adopted-back now d rows age e ahead short (inl (runs, same)) = ground arith
adopted-back now d rows age e ahead short (inr (over, same)) = ground arith

parse_ranking-IsAdopted :
    (strptime : Text → Option ℤ) (loads : Text → Option Json) (payload : Text) (now : ℕ)
    (rows : List Row) (age : ℤ)
    → parse_ranking strptime loads payload now ≡ some (rows, age)
    → IsAdopted strptime loads payload now rows age
parse_ranking-IsAdopted strptime loads payload now rows age h0 =
    let (doc, e1, h1) = bind-some (loads payload) _ (rows, age) h0 in
    let (d, e2, h2) =
      bind-some (read_document strptime doc) _ (rows, age)
        (sym (parse_document-read_document strptime now doc) ∙ h1) in
    let (aged, not_ahead, short, lease) = adopted-lease now d rows age h2 in
    record {
      json = doc;
      document = d;
      decoded = e1;
      accepted = e2;
      aged = aged;
      not_ahead = not_ahead;
      short = short;
      usable = read_document-usable strptime doc d e2;
      lease = lease;
    }

IsAdopted-parse_ranking :
    (strptime : Text → Option ℤ) (loads : Text → Option Json) (payload : Text) (now : ℕ)
    (rows : List Row) (age : ℤ)
    → IsAdopted strptime loads payload now rows age
    → parse_ranking strptime loads payload now ≡ some (rows, age)
IsAdopted-parse_ranking strptime loads payload now rows age a = rw a.decoded (
    parse_document-read_document strptime now a.json
    ∙ rw a.accepted (adopted-back now a.document rows age a.aged a.not_ahead a.short a.lease))

-- The agent gets rows out of a payload, with an age, exactly when the scorer would accept the document
-- in it, so that each of its rows is valid and no name is there twice up to case; the age is the
-- time since its stamp, which is at most 300 seconds after `now`; it lives for at most 2100 seconds;
-- and the rows are all of its rows while the age is within the time to live that the document
-- itself states, and none after that.
pub parse_ranking-usable :
    (strptime : Text → Option ℤ) (loads : Text → Option Json) (payload : Text) (now : ℕ)
    (rows : List Row) (age : ℤ)
    → (parse_ranking strptime loads payload now ≡ some (rows, age))
      ↔ IsAdopted strptime loads payload now rows age
parse_ranking-usable strptime loads payload now rows age = (
  parse_ranking-IsAdopted strptime loads payload now rows age,
  IsAdopted-parse_ranking strptime loads payload now rows age,
)
