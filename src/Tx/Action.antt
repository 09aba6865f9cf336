-- ===== src/Tx/Action.antt =====
-- Service actions of deploy/bot/pdgtx.py: the whitelist, expected end states and conflicts.
use proxy_gateway_plus.Prelude.{
  String, Bool, true, false, not, Option, none, some, List, [], ◌∷◌, ◌++◌, if◌then◌else◌, ◌==◌,
  String_eq, contains, Result, ok, err, any,
}
use proxy_gateway_plus.Tx.{assoc}

-- The strings `restart:u`, `start:u`, `stop:u`, `daemon-reload`, `nft:apply` and `sysctl:apply`.
pub data Action : Type 0 where
  restart start stop : String → Action
  daemon_reload nft_apply sysctl_apply : Action

pub data Want : Type 0 where
  active inactive : Want

abbrev pub service_units : List String
service_units = "mosdns" ∷ "mihomo" ∷ "pdg-mitm" ∷ "pdg-bot" ∷ "pdg-probe81" ∷ []

abbrev pub state_units : List String
state_units = "pdg-mitm" ∷ []

-- `action in _ACTIONS`
unfoldable pub is_listed : Action → Bool
is_listed (restart u) = contains u service_units
is_listed (start u) = contains u state_units
is_listed (stop u) = contains u state_units
is_listed _ = true

-- The unit of an action and the end state that it asks for.
unfoldable pub wants : Action → Option (String × Want)
wants (restart u) = some (u, active)
wants (start u) = some (u, active)
wants (stop u) = some (u, inactive)
wants _ = none

unfoldable pub same_want : Want → Want → Bool
same_want active active = true
same_want inactive inactive = true
same_want _ _ = false

unfoldable pub same_action : Action → Action → Bool
same_action (restart u) (restart v) = u == v
same_action (start u) (start v) = u == v
same_action (stop u) (stop v) = u == v
same_action daemon_reload daemon_reload = true
same_action nft_apply nft_apply = true
same_action sysctl_apply sysctl_apply = true
same_action _ _ = false

-- `exp[unit] = want`
unfoldable pub put_want : String → Want → List (String × Want) → List (String × Want)
put_want u w [] = (u, w) ∷ []
put_want u w ((v, x) ∷ rest) = if v == u then (u, w) ∷ rest else (v, x) ∷ put_want u w rest

unfoldable pub note_want : Option (String × Want) → List (String × Want) → List (String × Want)
note_want none acc = acc
note_want (some (u, w)) acc = put_want u w acc

unfoldable pub expected_from : List (String × Want) → List Action → List (String × Want)
expected_from acc [] = acc
expected_from acc (a ∷ rest) = expected_from (note_want (wants a) acc) rest

-- The end state of each unit that the actions name; a later action wins.
unfoldable pub expected_states : List Action → List (String × Want)
expected_states = expected_from []

unfoldable pub clashes : Option Want → Want → Bool
clashes none w = false
clashes (some x) w = not (same_want x w)

unfoldable pub conflicts_step : List (String × Want) → Option (String × Want) → Bool
conflicts_step seen none = false
conflicts_step seen (some (u, w)) = clashes (assoc u seen) w

unfoldable pub conflicts_from : List (String × Want) → List Action → Bool
conflicts_from seen [] = false
conflicts_from seen (a ∷ rest) =
    let later = conflicts_from (note_want (wants a) seen) rest in
    if conflicts_step seen (wants a) then true else later

-- Two actions ask for different end states of one unit.
unfoldable pub action_conflicts : List Action → Bool
action_conflicts = conflicts_from []

pub data ServiceError : Type 0 where
  unlisted conflict : ServiceError

-- `Tx.service` on the actions collected so far.
unfoldable pub service : Action → List Action → Result ServiceError (List Action)
service a actions =
    if not (is_listed a)
    then err unlisted
    else if any (same_action a) actions
    then ok actions
    else if action_conflicts (actions ++ a ∷ [])
    then err conflict
    else ok (actions ++ a ∷ [])
