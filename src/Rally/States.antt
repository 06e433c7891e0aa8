-- ===== src/Rally/States.antt =====
-- The texts of the states of pkg/contract/rally.go.
use rallish.Prelude.{
  ◌≡◌, ◌≢◌, ap, true, false, arith, Text, codes, length, length-append, append-injective_right,
  str_eq, eq→str_eq,
}
use rallish.Rally.Types.{rally_state_idle, rally_state_interrupted, rally_turn_state}

pub turn_state≢idle : (name : Text) → rally_turn_state name ≢ rally_state_idle
unfolding rally_turn_state
turn_state≢idle name e = omega (arith, ap length e, length-append {0} name (codes "_turn"))

pub turn_state≢interrupted : (name : Text) → rally_turn_state name ≢ rally_state_interrupted
unfolding rally_turn_state str_eq
turn_state≢interrupted name e =
    let (_, tails) =
      append-injective_right name (codes "interr") (codes "_turn") (codes "upted") (omega arith)
        e in
    let bad : false ≡ true = eq→str_eq (codes "_turn") (codes "upted") tails in cc

-- A state names one holder.
pub turn_state-injective : (a b : Text) → rally_turn_state a ≡ rally_turn_state b → a ≡ b
unfolding rally_turn_state
turn_state-injective a b e =
    (append-injective_right a b (codes "_turn") (codes "_turn") (omega arith) e).0

pub idle≢interrupted : rally_state_idle ≢ rally_state_interrupted
idle≢interrupted e = omega (arith, ap length e)
