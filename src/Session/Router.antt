-- ===== src/Session/Router.antt =====
-- internal/router/router.go: which role has the next turn.
use rallish.Prelude.{
  ℕ, ◌%◌, Bool, true, false, not, ◌&&◌, ◌||◌, Option, none, some, List, [], ◌∷◌, Text, codes,
  str_eq, length, get_elem?, if◌then◌else◌, is_empty, Attempt, raised, returned,
}
use rallish.Prelude.Int.{ℤ, pos, negsuc, ◌-ℤ◌}
use rallish.Contract.Turns.{TurnResponse, SelfEval, blocked}
use rallish.Contract.Requests.{Role, Preset}

pub data RouterError : Type 0 where
  context_done no_reviewer : RouterError
  unsupported_rule : Text → RouterError

abbrev pub is_blocked : SelfEval → Bool
is_blocked blocked = true
is_blocked _ = false

unfoldable pub is_valid_role : List Role → Text → Bool
unfolding str_eq
is_valid_role [] role_id = false
is_valid_role (role ∷ roles) role_id = str_eq role.id role_id || is_valid_role roles role_id

unfoldable pub find_reviewer : List Role → Text
unfolding str_eq
find_reviewer [] = []
find_reviewer (role ∷ roles) =
    let rest : Text = find_reviewer roles in
    if str_eq role.id (codes "reviewer") then role.id else rest

abbrev pub role_id_at : List Role → ℕ → Text
role_id_at roles i = elim (get_elem? roles i) [ some role ↦ role.id | none ↦ [] ]

-- The role of a slot; a remainder that is negative counts as 0.
abbrev pub role_of_slot : List Role → ℤ → Text
role_of_slot roles (pos n) = role_id_at roles (n % length roles)
role_of_slot roles (negsuc n) = role_id_at roles 0

-- No roles are the case in which the program answers "".
unfoldable pub round_robin_role : List Role → ℤ → Text
unfolding ◌-ℤ◌
round_robin_role [] turn = []
round_robin_role (role ∷ roles) turn = role_of_slot (role ∷ roles) (turn -ℤ pos 1)

-- The role that the response hands off to, when it is one.
unfoldable pub handoff_of : List Role → Option TurnResponse → Option Text
unfolding is_valid_role
handoff_of roles prev = elim prev [
  | none ↦ none
  | some resp ↦
      if not (is_empty resp.handoff_to) && is_valid_role roles resp.handoff_to
      then some resp.handoff_to
      else none
]

abbrev pub handoff_or : Option Text → Text → Attempt RouterError Text
handoff_or (some role) slot = returned role
handoff_or none slot = returned slot

-- Without a handoff, the last writer is the role of the slot before.
unfoldable pub writer_turn : Option TurnResponse → ℤ → ℤ
unfolding ◌-ℤ◌
writer_turn (some resp) turn = turn -ℤ pos 1
writer_turn none turn = turn

unfoldable pub route : Preset → Option TurnResponse → ℤ → Attempt RouterError Text
unfolding round_robin_role handoff_of writer_turn str_eq
route preset prev turn =
    let roles : List Role = preset.roles in
    if str_eq preset.routing (codes "round_robin")
      || str_eq preset.routing (codes "handoff_then_round_robin")
    then handoff_or (handoff_of roles prev) (round_robin_role roles turn)
    else if str_eq preset.routing (codes "strict_round_robin")
    then returned (round_robin_role roles turn)
    else if str_eq preset.routing (codes "last_writer_wins")
    then handoff_or (handoff_of roles prev) (round_robin_role roles (writer_turn prev turn))
    else raised (unsupported_rule preset.routing)

abbrev pub is_blocked_turn : Option TurnResponse → Bool
is_blocked_turn none = false
is_blocked_turn (some resp) = is_blocked resp.self_eval

-- The first argument tells whether the context is done.
unfoldable pub next_role : Bool → Preset → Option TurnResponse → ℤ → Attempt RouterError Text
unfolding find_reviewer route str_eq
next_role ctx_done preset prev turn =
    let reviewer : Text = find_reviewer preset.roles in
    if ctx_done
    then raised context_done
    else if is_blocked_turn prev
    then (if is_empty reviewer then raised no_reviewer else returned reviewer)
    else route preset prev turn
