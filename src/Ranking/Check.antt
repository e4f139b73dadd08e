-- ===== src/Ranking/Check.antt =====
-- _ranking_number, _validate_ranking_row and _validate_ranking_rows, which
-- images/airvpn-bluetit/agent.py and images/vpn-picker/vpn_picker.py have in the same words. A
-- ValueError is `none`. A row that passes is returned as the record of its values, a number as the
-- float that it is read as.
pub mod Laws
use epaflix.Base.{
  ℕ, suc, ◌+◌, ◌-◌, ◌*◌, Bool, true, false, not, ◌&&◌, ◌||◌, Option, none, some, List, [], ◌∷◌, ltb,
  leb, ◌==◌, if◌then◌else◌, length, all, Text, codes, lower, ◌>>=?◌, is_empty,
}
use epaflix.Base.Int.{ℤ, pos, negsuc, ltb_ℤ, leb_ℤ}
use epaflix.Base.Json.{
  Json, int, float, str, arr, obj, Items, nil, cons, Fields, get, keys, Float, finite, one,
}
use epaflix.Scorer.Rows.{Row}
use epaflix.Scorer.Ejection.{member}

-- `set(row) == KEYS`
abbrev pub same_keys : List Text → Fields → Bool
same_keys ks fs = all (λ k. member k (keys fs)) ks && all (λ k. member k ks) (keys fs)

abbrev pub ranking_server_keys : List Text
ranking_server_keys =
    codes "name"
    ∷ codes "entry_ip"
    ∷ codes "loss_pct"
    ∷ codes "rtt_ms"
    ∷ codes "load"
    ∷ codes "bw_max"
    ∷ codes "headroom"
    ∷ []

abbrev is_alnum : ℕ → Bool
is_alnum c = (leb b'0' c && leb c b'9') || (leb b'A' c && leb c b'Z') || (leb b'a' c && leb c b'z')

-- `[A-Za-z0-9_.:@-]`
abbrev is_name_code : ℕ → Bool
is_name_code c = is_alnum c || c == b'_' || c == b'.' || c == b':' || c == b'@' || c == b'-'

-- _IDENTITY.fullmatch
unfoldable pub is_identity : Text → Bool
is_identity [] = false
is_identity (c ∷ t) = is_alnum c && all is_name_code t && leb (length t) 127

-- One part of an IPv4 address: up to three digits, no leading zero, at most 255.
unfoldable is_octet : Text → Bool
is_octet [] = false
is_octet (a ∷ []) = leb b'0' a && leb a b'9'
is_octet (a ∷ b ∷ []) = leb b'1' a && leb a b'9' && leb b'0' b && leb b b'9'
is_octet (a ∷ b ∷ c ∷ []) =
    leb b'1' a
    && leb a b'9'
    && leb b'0' b
    && leb b b'9'
    && leb b'0' c
    && leb c b'9'
    && leb ((a - b'0') * 100 + (b - b'0') * 10 + (c - b'0')) 255
is_octet (_ ∷ _ ∷ _ ∷ _ ∷ _) = false

-- `text.split(".")`
unfoldable split_dots : Text → Text × List Text
split_dots [] = ([], [])
split_dots (c ∷ t) =
    let (a, rest) = split_dots t in if c == b'.' then ([], a ∷ rest) else (c ∷ a, rest)

-- `ipaddress.ip_address(text).version == 4`
unfoldable pub is_ipv4 : Text → Bool
unfolding is_octet split_dots
is_ipv4 t = let (a, rest) = split_dots t in is_octet a && all is_octet rest && (length rest == 3)

abbrev pub text_where : (Text → Bool) → Json → Option Text
text_where p (str t) = if p t then some t else none
text_where p _ = none

abbrev int_where : (ℤ → Bool) → Json → Option ℤ
int_where p (int n) = if p n then some n else none
int_where p _ = none

-- A whole number in millionths.
abbrev pub scaled : ℤ → ℤ
scaled (pos n) = pos (n * one)
scaled (negsuc n) = negsuc (suc n * one - 1)

abbrev at_most : Option ℤ → ℤ → Bool
at_most none n = true
at_most (some hi) n = leb_ℤ n hi

-- `math.isfinite`, and the bounds.
abbrev pub within : ℤ → Option ℤ → Float → Bool
within lo hi (finite n) = leb_ℤ lo n && at_most hi n
within lo hi _ = false

abbrev float_where : (Float → Bool) → Float → Option Float
float_where p x = if p x then some x else none

-- `_ranking_number(value, field, minimum, maximum)`
abbrev pub ranking_number : ℤ → Option ℤ → Json → Option Float
ranking_number lo hi (int n) = float_where (within lo hi) (finite (scaled n))
ranking_number lo hi (float x) = float_where (within lo hi) x
ranking_number lo hi _ = none

abbrev pub in_range : ℤ → ℤ → ℤ → Bool
in_range lo hi n = leb_ℤ lo n && leb_ℤ n hi

abbrev pub is_positive : ℤ → Bool
is_positive n = ltb_ℤ (pos 0) n

abbrev read_values : Fields → Option Row
read_values fs = (get (codes "name") fs >>=? text_where is_identity) >>=? λ name.
    (get (codes "entry_ip") fs >>=? text_where is_ipv4) >>=? λ entry_ip.
    (get (codes "loss_pct") fs >>=? ranking_number (pos 0) (some (pos (100 * one))))
    >>=? λ loss_pct. (get (codes "rtt_ms") fs >>=? ranking_number (pos 0) none) >>=? λ rtt_ms.
        (get (codes "load") fs >>=? int_where (in_range (pos 0) (pos 100))) >>=? λ load.
        (get (codes "bw_max") fs >>=? int_where is_positive) >>=? λ bw_max.
        (get (codes "headroom") fs >>=? int_where (in_range (pos 0) bw_max)) >>=? λ headroom.
        some (record {
          name = name;
          entry_ip = entry_ip;
          loss_pct = loss_pct;
          rtt_ms = rtt_ms;
          load = load;
          bw_max = bw_max;
          headroom = headroom;
        })

-- `_validate_ranking_row`
unfoldable pub read_row : Json → Option Row
read_row (obj fs) = if same_keys ranking_server_keys fs then read_values fs else none
read_row _ = none

-- The loop of `_validate_ranking_rows`; `seen` has the names so far.
unfoldable pub read_from : List Text → Items → Option (List Row)
read_from seen nil = some []
read_from seen (cons j js) = elim (read_row j) [
  | none ↦ none
  | some r ↦
      if member (lower r.name) seen
      then none
      else read_from (lower r.name ∷ seen) js >>=? λ rows. some (r ∷ rows)
]

-- `_validate_ranking_rows`
abbrev pub read_rows : Option Json → Option (List Row)
read_rows (some (arr (cons j js))) = read_from [] (cons j js)
read_rows _ = none
