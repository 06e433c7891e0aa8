-- ===== src/Cycle/Outcome.antt =====
-- internal/cycle/result.go: the result of an operation on a cycle, with its value on failures too, its
-- error and the reports of its gates.
use rallish.Prelude.{Bool, true, false, Option, none, some, List, ◌++◌, Text}
use rallish.Contract.Turns.{GateReport}
use rallish.Cycle.Halt.{HaltReason}

-- The errors of the package, less the texts that wrap them.
pub data CycleError : Type 0 where
  err_cycle_halted err_goal_required err_main_branch_forbidden no_pipeline no_agents : CycleError
  read_ledger append_ledger read_state write_state marshal_state goal_discovery sleep : CycleError
  adapter_not_found adapter_run : Text → CycleError
  halted_error : HaltReason → List GateReport → CycleError

pub record Outcome {κ} (T : Type κ) : Type κ where
  pub value : T
  pub err : Option CycleError
  pub reports : List GateReport

abbrev pub success {κ} : {T : Type κ} → T → List GateReport → Outcome T
success value reports = record { value = value; err = none; reports = reports }

abbrev pub failure {κ} : {T : Type κ} → T → CycleError → List GateReport → Outcome T
failure value code reports = record { value = value; err = some code; reports = reports }

abbrev pub is_failure {κ} : {T : Type κ} → Outcome T → Bool
is_failure r = elim r.err [ none ↦ false | some code ↦ true ]

unfoldable pub then_do {κ} : {T : Type κ} → Outcome T → (T → Outcome T) → Outcome T
then_do r fn = elim r.err [ some code ↦ r | none ↦ fn r.value ]

-- The zero value of U is an argument.
unfoldable pub map_outcome {κ ι} : {T : Type κ} {U : Type ι} → U → Outcome T → (T → U) → Outcome U
map_outcome zero_value r fn = elim r.err [
  | some code ↦ failure zero_value code r.reports
  | none ↦ success (fn r.value) r.reports
]

unfoldable pub flat_map {κ ι} :
    {T : Type κ} {U : Type ι} → U → Outcome T → (T → Outcome U) → Outcome U
flat_map zero_value r fn = elim r.err [
  | some code ↦ failure zero_value code r.reports
  | none ↦ fn r.value
]

unfoldable pub combine {κ} : {T : Type κ} → Outcome T → Outcome T → (T → T → T) → Outcome T
combine a b combiner = elim a.err [
  | some code ↦ a
  | none ↦ elim b.err [
    | some code ↦ b
    | none ↦ success (combiner a.value b.value) (a.reports ++ b.reports)
  ]
]
