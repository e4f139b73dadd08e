-- ===== src/Agent/Output.antt =====
-- The regular expressions by which the agent and the scorer read what ping and goldcrest print
-- (images/airvpn-bluetit/agent.py, images/vpn-picker/vpn_picker.py). Each is deterministic: no
-- choice that it makes is ever taken back, so a match at a position is one pass over the text.
use epaflix.Base.{
  ℕ, zero, suc, ◌+◌, ◌-◌, ◌*◌, ◌/◌, ◌%◌, Bool, not, ◌&&◌, ◌||◌, Option, none, some, [], ◌∷◌, ltb,
  leb, is_space, ◌==◌, if◌then◌else◌, Text, codes, is_empty, ◌>>=?◌,
}
use epaflix.Base.Int.{ℤ, pos, negsuc}
use epaflix.Ranking.Check.{is_ipv4}

abbrev is_digit : ℕ → Bool
is_digit c = leb b'0' c && leb c b'9'

-- The longest run of characters that pass, and what follows.
unfoldable span : (ℕ → Bool) → Text → Text × Text
span p [] = ([], [])
span p (c ∷ t) = let (a, b) = span p t in if p c then (c ∷ a, b) else ([], c ∷ t)

-- The text behind a prefix.
unfoldable strip : Text → Text → Option Text
strip [] t = some t
strip (a ∷ p) [] = none
strip (a ∷ p) (c ∷ t) = if a == c then strip p t else none

-- `re.search`: the first position at which the expression matches.
unfoldable search_text {ℓ} : {A : Type ℓ} → (Text → Option A) → Text → Option A
search_text f [] = f []
search_text f (c ∷ t) = elim (f (c ∷ t)) [ some a ↦ some a | none ↦ search_text f t ]

-- `int(digits)`
unfoldable decimal : ℕ → Text → ℕ
decimal n [] = n
decimal n (c ∷ t) = decimal (n * 10 + (c - b'0')) t

-- `(\d+)`
abbrev number : Text → Option (ℕ × Text)
number t = let (d, r) = span is_digit t in if is_empty d then none else some (decimal 0 d, r)

abbrev either : Option Text → Text → Text
either (some t) _ = t
either none u = u

-- _SENT_RECV at one position.
unfoldable sent_recv_here : Text → Option (ℕ × ℕ)
unfolding span strip decimal
sent_recv_here t = number t >>=? λ (sent : ℕ × Text).
    strip (codes " packets transmitted, ") sent.1 >>=? λ (u : Text).
    number u >>=? λ (received : ℕ × Text). strip (codes " ") received.1 >>=? λ (v : Text).
    strip (codes "received") (either (strip (codes "packets ") v) v) >>=? λ (_ : Text).
    some (sent.0, received.0)

-- `round(x / y, 2)` of hundredths, to even where it is in the middle, as an amount.
abbrev round_half_even : ℕ → ℕ → ℕ
round_half_even x y =
    if ltb (2 * (x % y)) y
    then x / y
    else if ltb y (2 * (x % y))
    then x / y + 1
    else if (x / y) % 2 == 0
    then x / y
    else x / y + 1

-- `round(100.0 * (sent - received) / sent, 2)` in millionths; duplicates make it negative.
abbrev loss_of : ℕ → ℕ → ℤ
loss_of sent received =
    if leb received sent
    then pos (round_half_even ((sent - received) * 10_000) sent * 10_000)
    else negative (round_half_even ((received - sent) * 10_000) sent * 10_000)
  where
    negative : ℕ → ℤ
    negative zero = pos zero
    negative (suc n) = negsuc n

abbrev loss_read : ℕ × ℕ → Option ℤ
loss_read (sent, received) = if sent == 0 then none else some (loss_of sent received)

-- The loss that parse_ping returns, or nothing where it raises: no summary line, or 0 packets.
unfoldable pub parse_loss : Text → Option ℤ
unfolding search_text sent_recv_here
parse_loss t = search_text sent_recv_here t >>=? loss_read

-- _CONNECTED at one position: `Connected to AirVPN server (\S+)`.
unfoldable connected_here : Text → Option Text
unfolding span strip
connected_here t = strip (codes "Connected to AirVPN server ") t >>=? λ (u : Text).
    let (name, _) = span (λ c. not (is_space c)) u in if is_empty name then none else some name

unfoldable pub parse_status : Text → Option Text
unfolding search_text connected_here
parse_status t = search_text connected_here t

-- `_ERROR.search(out)`: is there a refusal?
unfoldable pub refusal : Text → Option Text
unfolding search_text strip
refusal t = search_text (strip (codes "ERROR: ")) t

-- `([\d.]+)`, and what follows.
abbrev address : Text → Option (Text × Text)
address t =
    let (a, r) = span (λ c. is_digit c || c == b'.') t in if is_empty a then none else some (a, r)

-- _ROUTER at the start of a line, and the address if it is one.
unfoldable router_here : Text → Option Text
unfolding span strip decimal
router_here t = strip (codes "From ") t >>=? λ (u : Text). address u >>=? λ (found : Text × Text).
    strip (codes " icmp_seq=") found.1 >>=? λ (v : Text). number v >>=? λ (n : ℕ × Text).
    strip (codes " Time to live exceeded") n.1 >>=? λ (_ : Text). some found.0

-- `re.search` with MULTILINE, of an expression that starts with `^`.
unfoldable search_line {ℓ} : {A : Type ℓ} → (Text → Option A) → Text → Option A
search_line f [] = none
search_line f (c ∷ t) =
    let rest = search_line f t in
    if c == 10 then elim (f t) [ some a ↦ some a | none ↦ rest ] else rest

unfoldable pub parse_router : Text → Option Text
unfolding search_line router_here
parse_router t =
    search_line router_here (10 ∷ t) >>=? λ (a : Text). if is_ipv4 a then some a else none
