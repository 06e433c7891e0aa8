-- ===== src/Tests/Orchestrations.antt =====
-- The theorems on the pipeline, the driver and the orchestrator, at a cycle of two steps.
use rallish.Prelude.{
  inl, List, All, ℕ, ◌≡◌, refl, ◌⊎◌, true, false, Option, none, some, [], ◌∷◌, ◌++◌, Text, codes,
  arith, length, get_elem?, leb, returned-injective, ap, sym, ◌%◌,
}
use rallish.Prelude.Int.{pos}
use rallish.Contract.Ledger.{OrchestratorConfig, new_harness_ledger_entry}
use rallish.Contract.Turns.{Violation}
use rallish.Contract.CycleState.{CycleState, can_advance}
use rallish.Cycle.Halt.{budget_exceeded}
use rallish.Cycle.Outcome.{CycleError, write_state, halted_error, success, failure}
use rallish.Cycle.Reviver.{ledger_seals_resume}
use rallish.Cycle.State.{append_violations}
use rallish.Cycle.Pipeline.{execute}
use rallish.Cycle.Runs.{Runs, FailsAt, halted_at, execute_exact}
use rallish.Cycle.Driver.{completion_entries, step}
use rallish.Cycle.Stores.{LedgerStore}
use rallish.Orchestrator.Files.{ledger_file_store}
use rallish.LedgerFile.History.{no_ledger, no_ledger-Holds}
use rallish.Tests.EntryCodec.{entry_json}
use rallish.Contract.Ledger.{HarnessLedgerEntry}
use rallish.Cycle.Steps.{IsGreen, step-IsGreen}
use rallish.Cycle.Greens.{types, green_types, IsValidEntry, step-unseals}
use rallish.Cycle.Violations.{Merged, append_violations-Merged}
use rallish.Cycle.Turn.{Env, agent_index, anti_spin}
use rallish.Orchestrator.{run_once, run}
use rallish.Orchestrator.Agents.{agent_index-rotation}
use rallish.Orchestrator.Halts.{IsRefused, run_once-anti_spin}
use rallish.Orchestrator.Termination.{run-Ends}
use rallish.Tests.Fixtures.{checksum_digest}
use rallish.Tests.Stores.{
  memory_ledger, memory_file, good_gate, bad_gate, start_state, env, two_agents, a_turn,
  spent_world,
}

abbrev violation : Violation
violation = record {
  file = codes "a.go";
  line = pos 3;
  type = codes "rop";
  message = [];
  check = none;
}

execute_exact_example :
    ((s' : CycleState) × (rs : _) × Runs (good_gate ∷ bad_gate ∷ []) start_state s' rs
      × (execute (pos 6) (good_gate ∷ bad_gate ∷ []) start_state ≡ success s' ([] ++ rs)))
    ⊎ ((f : FailsAt (good_gate ∷ bad_gate ∷ []) start_state) × (execute
            (pos 6)
            (good_gate ∷ bad_gate ∷ [])
            start_state
          ≡ failure
              (halted_at (pos 6) f)
              (halted_error f.reason ([] ++ (f.reports ++ f.last ∷ [])))
              ([] ++ (f.reports ++ f.last ∷ []))))
execute_exact_example = execute_exact (pos 6) (good_gate ∷ bad_gate ∷ []) start_state

-- The second gate fails.
execute_stops :
    (execute (pos 6) (good_gate ∷ bad_gate ∷ []) start_state).value.last_failed_gate
    ≡ codes "polish"
unfolding execute
execute_stops = refl

a_green_step :
    (step checksum_digest memory_ledger
      (pos 6)
      (good_gate ∷ [])
      start_state
      (some (a_turn ∷ []))).0.err
    ≡ none
unfolding step
a_green_step = refl

step-IsGreen_example :
    IsGreen checksum_digest memory_ledger
      (pos 6)
      (good_gate ∷ [])
      start_state
      (some (a_turn ∷ []))
      (step checksum_digest memory_ledger (pos 6) (good_gate ∷ []) start_state (some (a_turn ∷ [])))
step-IsGreen_example =
    step-IsGreen checksum_digest memory_ledger (pos 6) (good_gate ∷ []) start_state
      (some (a_turn ∷ [])) a_green_step

abbrev file_ledger : LedgerStore
file_ledger = ledger_file_store checksum_digest entry_json

-- A ledger file that does not exist yet, on a disk that works.
abbrev new_ledger : file_ledger.Store
new_ledger = record {
  file = no_ledger;
  answers = λ n. record {
    can_clean = true;
    can_read = true;
    can_mkdir = true;
    can_open = true;
    short_write = none;
  };
}

new_ledger-Holds : file_ledger.Holds [] new_ledger
new_ledger-Holds = (λ n. inl refl, no_ledger-Holds checksum_digest entry_json)

new_ledger-Works : file_ledger.Works new_ledger
new_ledger-Works = (λ n. (refl, refl, refl, refl, refl), λ e. (_, refl))

file_step :
    (step checksum_digest file_ledger (pos 6) (good_gate ∷ []) start_state (some new_ledger)).0.err
    ≡ none
unfolding step
file_step = refl

All-valid : All (IsValidEntry file_ledger) (
    completion_entries
      (pos 6)
      (execute (pos 6) (good_gate ∷ []) start_state).value.id
      (execute (pos 6) (good_gate ∷ []) start_state).reports)
unfolding execute completion_entries
All-valid = (refl, (refl, (refl, tt)))

step-unseals_example :
    (new : List HarnessLedgerEntry) × (ledger' : file_ledger.Store) × ((step checksum_digest
        file_ledger
        (pos 6)
        (good_gate ∷ [])
        start_state
        (some new_ledger)).1
      ≡ some ledger')
    × file_ledger.Holds ([] ++ new) ledger'
    × (types new
        ≡ green_types
            (step checksum_digest file_ledger
              (pos 6)
              (good_gate ∷ [])
              start_state
              (some new_ledger)).0.reports)
    × (ledger_seals_resume ([] ++ new) ≡ none)
step-unseals_example =
    step-unseals file_ledger checksum_digest (pos 6) (good_gate ∷ []) start_state [] new_ledger
      new_ledger-Holds new_ledger-Works refl All-valid file_step

agent_index-rotation_example :
    (agent_index two_agents (record start_state { completed_cycles = 4 }) ≡ 1 % 2)
    × ((name : Text) × (get_elem? two_agents.agents
            (agent_index two_agents (record start_state { completed_cycles = 4 }))
          ≡ some name))
agent_index-rotation_example =
    agent_index-rotation two_agents (record start_state { completed_cycles = 4 }) 1 1 (omega arith)
      (omega arith) refl

can_start : can_advance (pos 5) start_state ≡ true
unfolding can_advance
can_start = refl

spent : anti_spin (a_turn ∷ []) (pos 1) ≡ some budget_exceeded
unfolding anti_spin new_harness_ledger_entry
spent = refl

run_once-anti_spin_example :
    (((run_once checksum_digest memory_ledger memory_file env two_agents start_state
          spent_world).err
        ≡ some (halted_error budget_exceeded []))
      ⊎ ((run_once checksum_digest memory_ledger memory_file env two_agents start_state
            spent_world).err
          ≡ some write_state))
    × ((fuel : ℕ) (envs : ℕ → Env) (cfg' : OrchestratorConfig)
        → leb (length cfg'.agents) 0 ≡ false
        → IsRefused checksum_digest memory_ledger memory_file budget_exceeded
            (run_once checksum_digest memory_ledger memory_file env two_agents start_state
              spent_world).world
            (run checksum_digest memory_ledger memory_file fuel envs cfg'
              (run_once checksum_digest memory_ledger memory_file env two_agents start_state
                spent_world).world))
run_once-anti_spin_example =
    run_once-anti_spin checksum_digest memory_ledger memory_file env two_agents start_state
      spent_world budget_exceeded (a_turn ∷ []) (a_turn ∷ []) refl can_start refl refl refl spent
      refl refl

run-Ends_example :
    (result : Option CycleError) × ((run checksum_digest memory_ledger memory_file 3
        (λ i. env)
        two_agents
        spent_world).1
      ≡ some result)
run-Ends_example =
    run-Ends checksum_digest memory_ledger memory_file (λ i. env) two_agents
      (λ i t. (λ s. (refl, refl), tt)) 2 (omega arith) 2 spent_world
      (λ s read. (ap (λ t. t.max_cycles) (sym (returned-injective read)), omega arith))

append_violations-Merged_example :
    Merged []
      (violation ∷ violation ∷ [])
      (append_violations (pos 6) (violation ∷ violation ∷ []) start_state).value.violations_found
append_violations-Merged_example =
    append_violations-Merged (pos 6) (violation ∷ violation ∷ []) start_state tt
