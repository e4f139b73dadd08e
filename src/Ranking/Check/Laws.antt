-- ===== src/Ranking/Check/Laws.antt =====
-- Which rows the validators accept, and that a row is read back as it was written.
use epaflix.Base.{
  subst, ◌≡◌, refl, Bool, true, false, not, ◌&&◌, Option, none, some, List, [], ◌∷◌, arith,
  if◌then◌else◌, Text, codes, lower, all, ◌>>=?◌, Option-cases, inl, inr, text_eq, ◌*◌,
}
use epaflix.Base.Int.{ℤ, pos}
use epaflix.Base.Json.{
  Json, null, bool, arr, int, float, str, obj, Items, nil, cons, end, field, one, get, Fields,
  Float, finite,
}
use epaflix.Scorer.Rows.{Row}
use epaflix.Scorer.Ejection.{member}
use epaflix.Ranking.Check.{
  read_row, read_from, is_identity, is_ipv4, within, in_range, is_positive, text_where, int_where,
  float_where, ranking_number, scaled, read_values, same_keys, ranking_server_keys,
}

-- The dict of a row, in the order that probe_all builds it.
abbrev pub row_json : Row → Json
row_json r = obj (
    field (codes "name") (str r.name) (
      field (codes "entry_ip") (str r.entry_ip) (
        field (codes "loss_pct") (float r.loss_pct) (
          field (codes "rtt_ms") (float r.rtt_ms) (
            field (codes "load") (int r.load) (
              field (codes "bw_max") (int r.bw_max)
                (field (codes "headroom") (int r.headroom) end)))))))

abbrev pub rows_json : List Row → Items
rows_json [] = nil
rows_json (r ∷ rs) = cons (row_json r) (rows_json rs)

-- What a consumer may rely on in a row.
unfoldable pub is_valid : Row → Bool
is_valid r =
    is_identity r.name
    && is_ipv4 r.entry_ip
    && within (pos 0) (some (pos (100 * one))) r.loss_pct
    && within (pos 0) none r.rtt_ms
    && in_range (pos 0) (pos 100) r.load
    && is_positive r.bw_max
    && in_range (pos 0) r.bw_max r.headroom

-- No name is used twice, up to case, nor one that was seen.
abbrev pub fresh_names : List Text → List Row → Bool
fresh_names seen [] = true
fresh_names seen (r ∷ rs) = not (member (lower r.name) seen) && fresh_names (lower r.name ∷ seen) rs

read_row-row_json : (r : Row) → read_row (row_json r) ≡ (if is_valid r then some r else none)
unfolding read_row is_valid text_eq
read_row-row_json r = ground arith

pub read_from-rows_json :
    (seen : List Text) (rs : List Row)
    → read_from seen (rows_json rs)
      ≡ (if all is_valid rs && fresh_names seen rs then some rs else none)
unfolding read_from
read_from-rows_json seen [] = refl
read_from-rows_json seen (r ∷ rs) =
    ground (arith, read_row-row_json r, read_from-rows_json (lower r.name ∷ seen) rs)

pub some_inj {ℓ} : {A : Type ℓ} (a b : A) → some a ≡ some b → a ≡ b
some_inj a b h = cc

pub bind-some {ℓ κ} :
    {A : Type ℓ} {B : Type κ} (o : Option A) (f : A → Option B) (b : B)
    → (o >>=? f) ≡ some b
    → (a : A) × (o ≡ some a) × (f a ≡ some b)
bind-some none f b h = cc
bind-some (some a) f b h = (a, refl, h)

pub text_where-holds :
    (p : Text → Bool) (o : Option Json) (t : Text) → (o >>=? text_where p) ≡ some t → p t ≡ true
text_where-holds p none t h = cc
text_where-holds p (some null) t h = cc
text_where-holds p (some (bool b)) t h = cc
text_where-holds p (some (int n)) t h = cc
text_where-holds p (some (float x)) t h = cc
text_where-holds p (some (str u)) t h = ground arith
text_where-holds p (some (arr js)) t h = cc
text_where-holds p (some (obj fs)) t h = cc

int_where-holds :
    (p : ℤ → Bool) (o : Option Json) (n : ℤ) → (o >>=? int_where p) ≡ some n → p n ≡ true
int_where-holds p none n h = cc
int_where-holds p (some null) n h = cc
int_where-holds p (some (bool b)) n h = cc
int_where-holds p (some (int m)) n h = ground arith
int_where-holds p (some (float x)) n h = cc
int_where-holds p (some (str u)) n h = cc
int_where-holds p (some (arr js)) n h = cc
int_where-holds p (some (obj fs)) n h = cc

float_where-holds : (p : Float → Bool) (y x : Float) → float_where p y ≡ some x → p x ≡ true
float_where-holds p y x h = ground arith

pub ranking_number-holds :
    (lo : ℤ) (hi : Option ℤ) (o : Option Json) (x : Float)
    → (o >>=? ranking_number lo hi) ≡ some x
    → within lo hi x ≡ true
ranking_number-holds lo hi none x h = cc
ranking_number-holds lo hi (some null) x h = cc
ranking_number-holds lo hi (some (bool b)) x h = cc
ranking_number-holds lo hi (some (int n)) x h =
    float_where-holds (within lo hi) (finite (scaled n)) x h
ranking_number-holds lo hi (some (float y)) x h = float_where-holds (within lo hi) y x h
ranking_number-holds lo hi (some (str u)) x h = cc
ranking_number-holds lo hi (some (arr js)) x h = cc
ranking_number-holds lo hi (some (obj fs)) x h = cc

read_values-valid : (fs : Fields) (r : Row) → read_values fs ≡ some r → is_valid r ≡ true
unfolding is_valid
read_values-valid fs r h0 =
    let (name, e1, h1) = bind-some (get (codes "name") fs >>=? text_where is_identity) _ r h0 in
    let (ip, e2, h2) = bind-some (get (codes "entry_ip") fs >>=? text_where is_ipv4) _ r h1 in
    let (loss, e3, h3) =
      bind-some (get (codes "loss_pct") fs >>=? ranking_number (pos 0) (some (pos (100 * one)))) _ r
        h2 in
    let (rtt, e4, h4) =
      bind-some (get (codes "rtt_ms") fs >>=? ranking_number (pos 0) none) _ r h3 in
    let (load, e5, h5) =
      bind-some (get (codes "load") fs >>=? int_where (in_range (pos 0) (pos 100))) _ r h4 in
    let (bw, e6, h6) = bind-some (get (codes "bw_max") fs >>=? int_where is_positive) _ r h5 in
    let (room, e7, h7) =
      bind-some (get (codes "headroom") fs >>=? int_where (in_range (pos 0) bw)) _ r h6 in
    subst (λ (q : Row). is_valid q ≡ true) (some_inj _ r h7)
      (ground (
        arith,
        text_where-holds is_identity (get (codes "name") fs) name e1,
        text_where-holds is_ipv4 (get (codes "entry_ip") fs) ip e2,
        ranking_number-holds (pos 0) (some (pos (100 * one))) (get (codes "loss_pct") fs) loss e3,
        ranking_number-holds (pos 0) none (get (codes "rtt_ms") fs) rtt e4,
        int_where-holds (in_range (pos 0) (pos 100)) (get (codes "load") fs) load e5,
        int_where-holds is_positive (get (codes "bw_max") fs) bw e6,
        int_where-holds (in_range (pos 0) bw) (get (codes "headroom") fs) room e7,
      ))

read_row-valid : (j : Json) (r : Row) → read_row j ≡ some r → is_valid r ≡ true
unfolding read_row
read_row-valid null r h = cc
read_row-valid (bool b) r h = cc
read_row-valid (int n) r h = cc
read_row-valid (float x) r h = cc
read_row-valid (str t) r h = cc
read_row-valid (arr js) r h = cc
read_row-valid (obj fs) r h = values_of (same_keys ranking_server_keys fs) h
  where
    values_of : (b : Bool) → (if b then read_values fs else none) ≡ some r → is_valid r ≡ true
    values_of true e = read_values-valid fs r e
    values_of false e = cc

-- Rows that are read are valid, and their names are new.
pub read_from-valid :
    (seen : List Text) (js : Items) (rs : List Row)
    → read_from seen js ≡ some rs
    → (all is_valid rs ≡ true) × (fresh_names seen rs ≡ true)
unfolding read_from
read_from-valid seen nil rs h = ground arith
read_from-valid seen (cons j js) rs h = elim (Option-cases (read_row j)) [
  | inl e ↦ cc
  | inr (r, e) ↦ elim (Option-cases (read_from (lower r.name ∷ seen) js)) [
    | inl none_left ↦ ground arith
    | inr (rest, left) ↦
        ground (arith, read_row-valid j r e, read_from-valid (lower r.name ∷ seen) js rest left)
  ]
]
