-- ===== src/Cycle/Pipeline.antt =====
-- internal/cycle/gate.go: gates and their pipeline. A gate's run has its context in it.
use rallish.Prelude.{List, [], ◌∷◌, ◌++◌, Text, map}
use rallish.Prelude.Int.{ℤ}
use rallish.Contract.Turns.{GateReport}
use rallish.Contract.CycleState.{CycleState}
use rallish.Cycle.Halt.{HaltReason}
use rallish.Cycle.Outcome.{halted_error, Outcome, success, failure}
use rallish.Cycle.State.{halt}

-- The sealed sum of pkg/contract/cycle.go.
pub data GateResult : Type 0 where
  gate_success gate_warning : GateReport → GateResult
  gate_failure : GateReport → HaltReason → GateResult

abbrev pub report : GateResult → GateReport
report (gate_success r) = r
report (gate_warning r) = r
report (gate_failure r reason) = r

pub record Gate : Type 0 where
  pub name : Text
  pub run : CycleState → GateResult × CycleState

abbrev pub names : List Gate → List Text
names p = map (λ (g : Gate). g.name) p

-- The loop's body at one gate's result, with the reports so far and the rest of the loop.
unfoldable pub after_gate :
    ℤ
    → (CycleState → List GateReport → Outcome CycleState)
    → List GateReport
    → GateResult
    → CycleState
    → Outcome CycleState
unfolding halt
after_gate now rest reports (gate_failure r reason) next =
    let reports' : List GateReport = reports ++ r ∷ [] in
    let halted : CycleState = (halt now reason (record next { last_failed_gate = r.gate })).value in
    failure halted (halted_error reason reports') reports'
after_gate now rest reports (gate_warning r) next = rest next (reports ++ r ∷ [])
after_gate now rest reports (gate_success r) next = rest next (reports ++ r ∷ [])

unfoldable pub execute_from : ℤ → List Gate → CycleState → List GateReport → Outcome CycleState
unfolding after_gate
execute_from now [] current reports = success current reports
execute_from now (gate ∷ gates) current reports =
    let (result, next) = gate.run current in
    after_gate now (λ s rs. execute_from now gates s rs) reports result next

unfoldable pub execute : ℤ → List Gate → CycleState → Outcome CycleState
unfolding execute_from
execute now p initial = execute_from now p initial []
