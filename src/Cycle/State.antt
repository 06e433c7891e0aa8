-- ===== src/Cycle/State.antt =====
-- internal/cycle/state.go: the operations on the state of a cycle. The clock's time is an argument.
use rallish.Prelude.{
  ◌+◌, Bool, true, false, ◌||◌, not, none, some, List, [], ◌∷◌, ◌++◌, Text, codes, if◌then◌else◌,
  str_eq, trim_space, is_empty, decimal_ℤ, Attempt, raised, returned,
}
use rallish.Prelude.Int.{ℤ, pos, leb_ℤ}
use rallish.Contract.Turns.{Violation, GateReport}
use rallish.Contract.Phases.{CyclePhase, preflight, next}
use rallish.Contract.CycleState.{CycleState, NewCycleRequest}
use rallish.Cycle.Halt.{HaltReason}
use rallish.Cycle.Outcome.{
  CycleError, err_cycle_halted, err_goal_required, err_main_branch_forbidden, halted_error, Outcome,
  success, failure,
}

unfoldable pub normalise_local_gates : List Text → List Text
unfolding trim_space
normalise_local_gates [] = []
normalise_local_gates (gate ∷ gates) =
    let rest : List Text = normalise_local_gates gates in
    if is_empty (trim_space gate) then rest else trim_space gate ∷ rest

abbrev pub is_main : Text → Bool
is_main branch = str_eq branch (codes "main") || str_eq branch (codes "master")

unfoldable pub new_state : ℤ → NewCycleRequest → Text → Attempt CycleError CycleState
unfolding normalise_local_gates str_eq
new_state now req id =
    let branch : Text = if is_empty req.branch then codes "feat/autonomous-cycle" else req.branch in
    let max_cycles : ℤ = if leb_ℤ req.max_cycles (pos 0) then pos 10 else req.max_cycles in
    if is_main branch
    then raised err_main_branch_forbidden
    else if is_empty req.goal
    then raised err_goal_required
    else returned (record {
      id = id;
      phase = preflight;
      completed_cycles = 0;
      max_cycles = max_cycles;
      branch = branch;
      baseline_sha = [];
      pending_files = req.pending_files;
      local_gates = normalise_local_gates req.local_gates;
      audit_cmd = req.audit_cmd;
      polish_test_cmd = req.polish_test_cmd;
      violations_found = [];
      next_cycle_goal = req.goal;
      halted = false;
      halt_reason = none;
      created_at = now;
      updated_at = now;
      history = [];
      last_failed_gate = [];
      auto_goal = req.auto_goal;
      max_duration_minutes = req.max_duration_minutes;
      started_at = now;
    })

unfoldable pub advance : ℤ → CycleState → Outcome CycleState
advance now s =
    if s.halted
    then failure s err_cycle_halted []
    else success (record s { phase = next s.phase; updated_at = now }) []

unfoldable pub halt : ℤ → HaltReason → CycleState → Outcome CycleState
halt now reason s =
    failure
      (record s {
        halted = true;
        halt_reason = some reason;
        phase = CyclePhase.halted;
        updated_at = now;
      })
      (halted_error reason []) []

unfoldable pub complete_cycle : ℤ → CycleState → Outcome CycleState
complete_cycle now s =
    if s.halted
    then failure s err_cycle_halted []
    else success
        (record s {
          completed_cycles = s.completed_cycles + 1;
          phase = preflight;
          updated_at = now;
        })
        []

unfoldable pub set_goal : ℤ → Text → CycleState → Outcome CycleState
set_goal now goal s = success (record s { next_cycle_goal = goal; updated_at = now }) []

unfoldable pub append_report : ℤ → GateReport → CycleState → Outcome CycleState
append_report now r s = success (record s { history = s.history ++ r ∷ []; updated_at = now }) []

-- "%s:%d:%s"
unfoldable pub violation_key : Violation → Text
unfolding decimal_ℤ
violation_key v = v.file ++ (codes ":" ++ (decimal_ℤ v.line ++ (codes ":" ++ v.type)))

abbrev pub has_key : Text → List Violation → Bool
has_key k [] = false
has_key k (v ∷ vs) = str_eq (violation_key v) k || has_key k vs

-- The loop: the violations found so far, and those that are still to be merged. The keys seen are those
-- of the violations found.
unfoldable pub merge_violations : List Violation → List Violation → List Violation
unfolding violation_key str_eq
merge_violations found [] = found
merge_violations found (v ∷ vs) = elim (has_key (violation_key v) found) [
  | true ↦ merge_violations found vs
  | false ↦ merge_violations (found ++ v ∷ []) vs
]

unfoldable pub append_violations : ℤ → List Violation → CycleState → Outcome CycleState
unfolding merge_violations
append_violations now vs s =
    success
      (record s { violations_found = merge_violations s.violations_found vs; updated_at = now }) []

unfoldable pub without_type : Text → List Violation → List Violation
unfolding str_eq
without_type vtype [] = []
without_type vtype (v ∷ vs) =
    let rest : List Violation = without_type vtype vs in
    if not (str_eq v.type vtype) then v ∷ rest else rest

unfoldable pub clear_violations : ℤ → Text → CycleState → Outcome CycleState
unfolding without_type
clear_violations now vtype s =
    success
      (record s { violations_found = without_type vtype s.violations_found; updated_at = now }) []
