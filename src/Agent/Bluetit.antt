-- ===== src/Agent/Bluetit.antt =====
-- class Bluetit of images/airvpn-bluetit/agent.py: the three goldcrest calls, the polling loop of
-- `connect`, and the presence of the tunnel device. Texts that only go to the log are left out.
pub mod Connect
use epaflix.Base.{
  ℕ, zero, suc, ◌+◌, ◌*◌, ◌/◌, ◌≤◌, ◌<◌, ◌≡◌, Bool, true, false, ◌&&◌, ◌||◌, Option, none, some,
  List, [], ◌∷◌, leb, if◌then◌else◌, min, is_some, any, Text, text_eq, lower,
}
use epaflix.Agent.State.{Config}
use epaflix.Agent.World.{
  World, Call, bluetit_status, disconnects, air_connect, Action, pure, ◌>>=◌, ◌>>◌, pause,
}
use epaflix.Agent.Output.{parse_status, refusal}

-- What one look at the status of a connect comes to.
pub data Poll : Type 0 where
  connected : Text → Poll
  refused timed_out out_of_fuel : Poll

abbrev pub server_of : Poll → Option Text
server_of (connected s) = some s
server_of _ = none

-- `if name: args += [...]`
abbrev server_arg : Option Text → Option Text
server_arg none = none
server_arg (some []) = none
server_arg (some (c ∷ t)) = some (c ∷ t)

-- `current and (name is None or current.lower() == name.lower())`
abbrev pub accepted : Option Text → Option Text → Option Text
accepted name none = none
accepted name (some []) = none
accepted none (some (c ∷ t)) = some (c ∷ t)
accepted (some n) (some (c ∷ t)) = if text_eq (lower (c ∷ t)) (lower n) then some (c ∷ t) else none

abbrev or_limit : ℕ → Option ℕ → ℕ
or_limit limit none = limit
or_limit limit (some deadline) = min limit deadline

module _ (w : World) (cfg : Config) where
  unfoldable pub status : Action w.State (Option Text)
  status = do out ← w.goldcrest bluetit_status; pure (parse_status out)

  pub disconnect : Action w.State (Option Text)
  unfolding status
  disconnect = do w.goldcrest disconnects; status

  -- What a round decides, by the status that it accepts: the end, or one more round.
  abbrev poll_round : Bool → ℕ → Option Text → Action w.State Poll → Action w.State Poll
  poll_round no_way limit (some server) again s = (connected server, s)
  poll_round no_way limit none again s =
      if no_way
      then (refused, s)
      else let (now, s') = w.clock s in
        if leb limit now then (timed_out, s') else again (w.sleep cfg.verify_interval s')

  -- `while True`, on fuel.
  pub poll : ℕ → Bool → ℕ → Option Text → Action w.State Poll
  unfolding status
  poll zero no_way limit name s = (out_of_fuel, s)
  poll (suc fuel) no_way limit name s =
      let (current, s') = status s in
      poll_round no_way limit (accepted name current) (λ u. poll fuel no_way limit name u) s'

  -- A round takes `verify_interval` at least, so this many cover `verify_seconds`.
  abbrev pub rounds : ℕ
  rounds = suc (cfg.verify_seconds / cfg.verify_interval + 1)

  -- `connect(name, deadline)`; `none` is `quick`.
  unfoldable pub connect : Option Text → Option ℕ → Action w.State Poll
  unfolding poll
  connect name deadline = do
    out ← w.goldcrest (air_connect cfg.air_key (server_arg name))
    now ← w.clock
    poll rounds (is_some (refusal out)) (or_limit (now + cfg.verify_seconds) deadline) name

  -- `tun_device in os.listdir(...)`, and no where that fails. `tun_ok` returns the same.
  pub tun_present : Action w.State Bool
  tun_present = do
    devices ← w.list_net
    pure (elim devices [ none ↦ false | some ds ↦ any (λ d. text_eq d cfg.tun_device) ds ])

  pub tun_ok : Action w.State Bool
  unfolding tun_present
  tun_ok = do here ← tun_present; if here then pure true else (w.list_net >> pure false)
