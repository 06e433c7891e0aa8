-- ===== src/Cycle/Driver.antt =====
-- internal/cycle/driver.go: Step. The ledger is optional; the clock's time is one argument for the whole
-- step, and a gate's run has the step's context, with its time-out, in it.
use rallish.Prelude.{
  Bool, true, false, Option, none, some, List, [], ◌∷◌, ◌++◌, map, Text, codes, if◌then◌else◌,
  trim_space, is_empty,
}
use rallish.Prelude.Int.{ℤ}
use rallish.Digest.{Sha256}
use rallish.Contract.Ledger.{
  HarnessLedgerEntry, new_harness_ledger_entry, validation_green, cycle_completed,
}
use rallish.Contract.Pins.{pin_gates, gates_tampered, new_gates_pinned_entry}
use rallish.Contract.Turns.{GateReport, new_gate_ledger_entry}
use rallish.Contract.CycleState.{CycleState}
use rallish.Cycle.Outcome.{Outcome, success, failure, no_pipeline, err_goal_required}
use rallish.Cycle.State.{complete_cycle}
use rallish.Cycle.Pipeline.{Gate, execute}
use rallish.Cycle.Stores.{LedgerStore}

abbrev pub has_no_gates : List Gate → Bool
has_no_gates [] = true
has_no_gates (g ∷ gs) = false

module _ (store : LedgerStore) where
  -- `_ = d.ledger.Append(entry)`, when there is a ledger.
  abbrev pub note : HarnessLedgerEntry → Option store.Store → Option store.Store
  note entry none = none
  note entry (some ledger) = some (store.append entry ledger).0

  abbrev pub note_all : List HarnessLedgerEntry → Option store.Store → Option store.Store
  note_all [] ledger = ledger
  note_all (entry ∷ entries) ledger = note_all entries (note entry ledger)

-- What a green step records: its gates, then the verified green, then its completion.
unfoldable pub completion_entries : ℤ → Text → List GateReport → List HarnessLedgerEntry
unfolding new_gate_ledger_entry new_harness_ledger_entry
completion_entries now id reports =
    map (new_gate_ledger_entry now id) reports
    ++ new_harness_ledger_entry now id validation_green (codes "gate pipeline passed") []
      ∷ new_harness_ledger_entry now id cycle_completed (codes "cycle step completed") []
      ∷ []

module _ (h : Sha256) (store : LedgerStore) where
  -- The pins of the gates, and the tamper check behind them.
  unfoldable pub pin_step : ℤ → CycleState → Option store.Store → Option store.Store
  unfolding pin_gates gates_tampered new_gates_pinned_entry
  pin_step now state ledger =
      let (pinned_digest, pins) = pin_gates h state.local_gates in
      let pinned : Option store.Store =
        note store (new_gates_pinned_entry now state.id pinned_digest pins false) ledger in
      if gates_tampered h pinned_digest state.local_gates
      then note store (new_gates_pinned_entry now state.id pinned_digest pins true) pinned
      else pinned

  -- The rest of Step behind the pipeline's result.
  unfoldable pub finish_step :
      ℤ → Outcome CycleState → Option store.Store → Outcome CycleState × Option store.Store
  unfolding complete_cycle completion_entries
  finish_step now result pinned = elim result.err [
    | some code ↦ (result, pinned)
    | none ↦
        let completed : Outcome CycleState = complete_cycle now result.value in
        elim completed.err [
          | some code ↦ (completed, pinned)
          | none ↦
              let current : CycleState = record completed.value {
                next_cycle_goal = [];
                updated_at = now;
              } in
              (
                success current result.reports,
                note_all store (completion_entries now current.id result.reports) pinned,
              )
        ]
  ]

  unfoldable pub step :
      ℤ → List Gate → CycleState → Option store.Store → Outcome CycleState × Option store.Store
  unfolding trim_space execute pin_step finish_step
  step now pipeline state ledger =
      if has_no_gates pipeline
      then (failure state no_pipeline [], ledger)
      else if is_empty (trim_space state.next_cycle_goal)
      then (failure state err_goal_required [], ledger)
      else finish_step now (execute now pipeline state) (pin_step now state ledger)
