-- ===== src/Cycle/Steps.antt =====
-- internal/cycle/driver.go: what a step that succeeds has done.
use rallish.Prelude.{
  ◌+◌, ◌≡◌, ◌≢◌, refl, ap, inl, inr, Bool-cases, true, false, Option, none, some, List, [], Text,
  str_eq_refl, not, is_empty, trim_space,
}
use rallish.Prelude.Int.{ℤ}
use rallish.Digest.{Sha256}
use rallish.Contract.Pins.{pin_gates, gates_tampered, new_gates_pinned_entry}
use rallish.Contract.Turns.{GateReport}
use rallish.Contract.Phases.{preflight}
use rallish.Contract.CycleState.{CycleState}
use rallish.Cycle.Outcome.{CycleError, err_cycle_halted, Outcome, success, failure}
use rallish.Cycle.State.{complete_cycle}
use rallish.Cycle.Pipeline.{Gate, execute}
use rallish.Cycle.Runs.{Runs, execute_exact}
use rallish.Cycle.Stores.{LedgerStore}
use rallish.Cycle.Driver.{
  note, note_all, completion_entries, pin_step, finish_step, step, has_no_gates,
}

module _ (h : Sha256) where
  -- GatesTampered never reports the commands whose digest PinGates has just made.
  gates_tampered_self :
      (commands : List Text) → gates_tampered h (pin_gates h commands).0 commands ≡ false
  unfolding gates_tampered
  gates_tampered_self commands = ap not (str_eq_refl (pin_gates h commands).0)

  module _ (store : LedgerStore) (now : ℤ) where
    -- So the tamper check of Step never adds an entry.
    pub pin_step-note :
        (state : CycleState) (ledger : Option store.Store)
        → pin_step h store now state ledger
          ≡ note store
              (new_gates_pinned_entry now state.id
                (pin_gates h state.local_gates).0
                (pin_gates h state.local_gates).1
                false)
              ledger
    unfolding pin_step
    pin_step-note state ledger = rw (gates_tampered_self state.local_gates) refl

    -- The state after a step whose gates left this one.
    abbrev pub completed : CycleState → CycleState
    completed s = record s {
      completed_cycles = s.completed_cycles + 1;
      phase = preflight;
      next_cycle_goal = [];
      updated_at = now;
    }

    -- A green step: the gates ran and passed, and left a state that is not halted, which counts one more
    -- cycle then.
    pub record IsGreen (pipeline : List Gate) (state : CycleState) (ledger : Option store.Store)
        (out : Outcome CycleState × Option store.Store) : Type 0 where
      pub last : CycleState
      pub reports : List GateReport
      pub runs : Runs pipeline state last reports
      pub running : last.halted ≡ false
      pub result : out.0 ≡ success (completed last) reports

    complete_cycle-halted :
        (s : CycleState) → s.halted ≡ true → complete_cycle now s ≡ failure s err_cycle_halted []
    unfolding complete_cycle
    complete_cycle-halted s e = rw e refl

    complete_cycle-running :
        (s : CycleState)
        → s.halted ≡ false
        → complete_cycle now s
          ≡ success
              (record s {
                completed_cycles = s.completed_cycles + 1;
                phase = preflight;
                updated_at = now;
              })
              []
    unfolding complete_cycle
    complete_cycle-running s e = rw e refl

    finish_step-green :
        (last : CycleState) (reports : List GateReport) (pinned : Option store.Store)
        → (finish_step h store now (success last reports) pinned).0.err ≡ none
        → (last.halted ≡ false)
          × (finish_step h store now (success last reports) pinned ≡ (
            success (completed last) reports,
            note_all store (completion_entries now last.id reports) pinned,
          ))
    unfolding finish_step
    finish_step-green last reports pinned e = elim (Bool-cases last.halted) [
      | inl halted ↦ absurd (
          failed (
            rw (complete_cycle-halted last halted) at
              (rw (finish_step, complete_cycle-halted last halted) at e)))
      | inr running ↦ (
        running,
        rw (complete_cycle-running last running) (rw (complete_cycle-running last running) refl),
      )
    ]
      where
        failed : {code : CycleError} → ◌≡◌ {A = Option CycleError} (some code) none → ⊥
        failed q = cc

    finish_step-failure :
        (s : CycleState) (code : CycleError) (reports : List GateReport)
        (pinned : Option store.Store)
        → (finish_step h store now (failure s code reports) pinned).0.err ≢ none
    unfolding finish_step
    finish_step-failure s code reports pinned = λ e. absurd (failed e)
      where
        failed : ◌≡◌ {A = Option CycleError} (some code) none → ⊥
        failed q = cc

    step-finish_step :
        (pipeline : List Gate) (state : CycleState) (ledger : Option store.Store)
        → (step h store now pipeline state ledger).0.err ≡ none
        → step h store now pipeline state ledger
          ≡ finish_step h store now (execute now pipeline state) (pin_step h store now state ledger)
    unfolding step
    step-finish_step pipeline state ledger e = elim (Bool-cases (has_no_gates pipeline)) [
      | inl empty ↦ absurd (failed (rw empty at e))
      | inr gates ↦ elim (Bool-cases (is_empty (trim_space state.next_cycle_goal))) [
        | inl blank ↦ absurd (failed (rw (gates, blank) at e))
        | inr goal ↦ rw (gates, goal) refl
      ]
    ]
      where
        failed : {code : CycleError} → ◌≡◌ {A = Option CycleError} (some code) none → ⊥
        failed q = cc

    -- What such a step notes in the ledger.
    pub step_recorded :
        (pipeline : List Gate) (state : CycleState) (ledger : Option store.Store)
        → (step h store now pipeline state ledger).0.err ≡ none
        → (last : CycleState) × (reports : List GateReport) × (execute now pipeline state
            ≡ success last reports)
          × ((step h store now pipeline state ledger).0.reports ≡ reports)
          × ((step h store now pipeline state ledger).1
              ≡ note_all store
                  (completion_entries now last.id reports)
                  (pin_step h store now state ledger))
    step_recorded pipeline state ledger e =
        let whole = step-finish_step pipeline state ledger e in
        elim (execute_exact now pipeline state) [
          | inr (f, stopped) ↦ absurd (finish_step-failure _ _ _ _ (rw (whole, stopped) at e))
          | inl (last, reports, runs, done) ↦
              let (running, out) =
                finish_step-green last reports (pin_step h store now state ledger)
                  (rw (whole, done) at e) in
              (last, reports, done, rw (whole, done, out) refl, rw (whole, done, out) refl)
        ]

    -- A step that returns no error was green: every gate passed, the state they left counts one more
    -- cycle, is in preflight again and has no goal.
    pub step-IsGreen :
        (pipeline : List Gate) (state : CycleState) (ledger : Option store.Store)
        → (step h store now pipeline state ledger).0.err ≡ none
        → IsGreen pipeline state ledger (step h store now pipeline state ledger)
    step-IsGreen pipeline state ledger e =
        let whole = step-finish_step pipeline state ledger e in
        elim (execute_exact now pipeline state) [
          | inr (f, stopped) ↦ absurd (finish_step-failure _ _ _ _ (rw (whole, stopped) at e))
          | inl (last, reports, runs, done) ↦
              let (running, out) =
                finish_step-green last reports (pin_step h store now state ledger)
                  (rw (whole, done) at e) in
              record {
                last = last;
                reports = reports;
                runs = runs;
                running = running;
                result = rw (whole, done, out) refl;
              }
        ]
