-- ===== src/Cycle/Halt.antt =====
-- pkg/contract/cycle.go: the halt reasons and ParseHaltReason. `none` is ErrInvalidHaltReason.
use rallish.Prelude.{◌≡◌, refl, Option, none, some, Text, codes, if◌then◌else◌, str_eq}

pub data HaltReason : Type 0 where
  self_audit_violation ssh_auth_failed max_cycles_reached gate_failure user_requested : HaltReason
  preflight_failed success stuck budget_exceeded unparseable_turn : HaltReason

abbrev pub halt_reason_text : HaltReason → Text
halt_reason_text self_audit_violation = codes "self-audit-violation"
halt_reason_text ssh_auth_failed = codes "ssh-auth-failed"
halt_reason_text max_cycles_reached = codes "max-cycles-reached"
halt_reason_text gate_failure = codes "gate-failure"
halt_reason_text user_requested = codes "user-requested"
halt_reason_text preflight_failed = codes "preflight-failed"
halt_reason_text success = codes "success"
halt_reason_text stuck = codes "stuck"
halt_reason_text budget_exceeded = codes "budget-exceeded"
halt_reason_text unparseable_turn = codes "unparseable-turn"

abbrev is_reason : HaltReason → Text → Option HaltReason → Option HaltReason
is_reason r s otherwise = if str_eq s (halt_reason_text r) then some r else otherwise

unfoldable pub parse_halt_reason : Text → Option HaltReason
unfolding str_eq
parse_halt_reason s = is_reason self_audit_violation s (
    is_reason ssh_auth_failed s (
      is_reason max_cycles_reached s (
        is_reason gate_failure s (
          is_reason user_requested s (
            is_reason preflight_failed s (
              is_reason success s (
                is_reason stuck s
                  (is_reason budget_exceeded s (is_reason unparseable_turn s none)))))))))

-- Every halt reason is read back from its text.
pub parse_halt_reason-halt_reason_text :
    (r : HaltReason) → parse_halt_reason (halt_reason_text r) ≡ some r
unfolding parse_halt_reason
parse_halt_reason-halt_reason_text self_audit_violation = refl
parse_halt_reason-halt_reason_text ssh_auth_failed = refl
parse_halt_reason-halt_reason_text max_cycles_reached = refl
parse_halt_reason-halt_reason_text gate_failure = refl
parse_halt_reason-halt_reason_text user_requested = refl
parse_halt_reason-halt_reason_text preflight_failed = refl
parse_halt_reason-halt_reason_text success = refl
parse_halt_reason-halt_reason_text stuck = refl
parse_halt_reason-halt_reason_text budget_exceeded = refl
parse_halt_reason-halt_reason_text unparseable_turn = refl
