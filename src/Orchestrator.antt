-- ===== src/Orchestrator.antt =====
-- internal/cycle/orchestrator.go: RunOnce, with what it calls, and Run. The environment of an
-- iteration is Env of Cycle/Turn.
pub mod Agents
pub mod Halts
pub mod Files
pub mod Running
pub mod Termination
use rallish.Prelude.{
  ℕ, zero, suc, ◌+◌, ◌/◌, ◌%◌, Bool, true, false, not, Option, none, some, List, [], ◌∷◌, Text,
  codes, length, get_elem?, take, leb, if◌then◌else◌, is_empty, Attempt, raised, returned,
}
use rallish.Prelude.Int.{ℤ, pos, leb_ℤ, ◌-ℤ◌, pos_part}
use rallish.Digest.{Sha256}
use rallish.Contract.Ledger.{
  HarnessLedgerEntry, OrchestratorConfig, new_harness_ledger_entry, cycle_halted,
}
use rallish.Contract.Turns.{
  Violation, TurnResponse, new_agent_turn_ledger_entry, new_handoff_ledger_entry,
}
use rallish.Contract.Phases.{CyclePhase}
use rallish.Contract.CycleState.{
  CycleState, TurnPayload, parse_turn_payload, can_advance, state_work_contract,
}
use rallish.Contract.Requests.{TurnRequest, Task}
use rallish.Cycle.Halt.{
  HaltReason, halt_reason_text, budget_exceeded, unparseable_turn, user_requested,
}
use rallish.Cycle.Budget.{Budget, exceeds_lifetime_ceiling}
use rallish.Cycle.Reviver.{ledger_seals_resume}
use rallish.Cycle.Stuck.{stuck_reason}
use rallish.Cycle.Outcome.{
  CycleError, no_agents, read_ledger, append_ledger, read_state, write_state, marshal_state, sleep,
  adapter_not_found, adapter_run, halted_error, Outcome,
}
use rallish.Cycle.State.{halt, append_violations}
use rallish.Cycle.Pipeline.{Gate}
use rallish.Cycle.Stores.{LedgerStore, StateStore}
use rallish.Cycle.Driver.{note, step}
use rallish.Cycle.Turn.{
  CycleStateSummary, summarise_state, Env, IterationOutcome, still, build_request, reset_every,
  agent_index, anti_spin, apply_payload, apply_response,
}

abbrev pub is_halted_error : CycleError → Bool
is_halted_error (halted_error reason reports) = true
is_halted_error _ = false

module _ (store : LedgerStore) (file : StateStore) where
  pub record World : Type 0 where
    pub ledger : Option store.Store
    pub state_file : file.Store

  pub record Iteration : Type 0 where
    pub world : World
    pub outcome : IterationOutcome
    pub err : Option CycleError

  abbrev pub stop : World → CycleState → CycleError → Iteration
  stop w state code = record { world = w; outcome = still state; err = some code }

  -- What follows a halt of the anti-spin guards and of the handshake: the entry, when there is a ledger,
  -- and the state file.
  unfoldable pub record_halt : ℤ → HaltReason → CycleState → World → Iteration
  unfolding new_harness_ledger_entry
  record_halt now reason halted w =
      let ledger : Option store.Store =
        note store
          (new_harness_ledger_entry now halted.id cycle_halted (halt_reason_text reason) [])
          w.ledger in
      let (written, werr) = file.write halted w.state_file in
      let w' : World = record { ledger = ledger; state_file = written } in
      elim werr [
        | some code ↦ stop w' halted write_state
        | none ↦ stop w' halted (halted_error reason [])
      ]

  -- The ledger after the turn's entries, and whether an append failed.
  unfoldable pub append_turn_ledger :
      ℤ → Text → Text → TurnResponse → Option store.Store → Option store.Store × Bool
  unfolding new_agent_turn_ledger_entry new_handoff_ledger_entry
  append_turn_ledger now cycle_id agent_name resp none = (none, false)
  append_turn_ledger now cycle_id agent_name resp (some ledger) =
      let (after_turn, err) =
        store.append (new_agent_turn_ledger_entry now cycle_id agent_name resp) ledger in
      elim err [
        | some code ↦ (some after_turn, true)
        | none ↦
            if is_empty resp.handoff_to
            then (some after_turn, false)
            else let (after_handoff, err') =
                store.append (new_handoff_ledger_entry now cycle_id agent_name resp) after_turn in
              (some after_handoff, elim err' [ some code ↦ true | none ↦ false ])
      ]

  -- What RunOnce makes of the driver's result.
  unfoldable pub conclude : Env → World → Outcome CycleState → Iteration
  unfolding can_advance
  conclude env w result = elim result.err [
    | none ↦
        let (written, werr) = file.write result.value w.state_file in
        let w' : World = record w { state_file = written } in
        elim werr [
          | some code ↦ stop w' result.value write_state
          | none ↦ record {
            world = w';
            outcome = record {
              state = result.value;
              advanced = true;
              terminal = not (can_advance env.finish result.value);
            };
            err = none;
          }
        ]
    | some code ↦
        let written : file.Store = (file.write result.value w.state_file).0 in
        stop (if is_halted_error code then record w { state_file = written } else w) result.value
          code
  ]

module _ (h : Sha256) (store : LedgerStore) (file : StateStore) where
  unfoldable pub drive : Env → CycleState → World store file → Iteration store file
  unfolding step conclude
  drive env state w =
      let (result, ledger) = step h store env.now (env.gates state) state w.ledger in
      conclude store file env (record w { ledger = ledger }) result

  unfoldable pub respond : Env → TurnResponse → CycleState → World store file → Iteration store file
  unfolding apply_response record_halt drive
  respond env resp state w =
      let (applied, halts) = apply_response env resp state in
      elim halts [
        | some reason ↦ record_halt store file env.now reason applied w
        | none ↦ drive env applied w
      ]

  unfoldable pub run_adapter :
      Env → OrchestratorConfig → CycleState → Text → World store file → Iteration store file
  unfolding build_request append_turn_ledger respond
  run_adapter env cfg state agent_name w = elim (env.registry agent_name) [
    | none ↦ stop store file w state (adapter_not_found agent_name)
    | some adapt ↦ elim (build_request env state agent_name cfg) [
      | none ↦ stop store file w state marshal_state
      | some req ↦ elim (adapt req) [
        | none ↦ stop store file w state (adapter_run agent_name)
        | some resp ↦
            let (ledger, failed) =
              append_turn_ledger store file env.now state.id agent_name resp w.ledger in
            let w' : World store file = record w { ledger = ledger } in
            if failed then stop store file w' state append_ledger else respond env resp state w'
      ]
    ]
  ]

  -- The index is in range: its bound is a lemma of Agents.
  unfoldable pub take_turn :
      Env → OrchestratorConfig → CycleState → World store file → Iteration store file
  unfolding agent_index run_adapter
  take_turn env cfg state w = elim (get_elem? cfg.agents (agent_index cfg state)) [
    | none ↦ stop store file w state no_agents
    | some agent_name ↦ run_adapter env cfg state agent_name w
  ]

  unfoldable pub guard_ledger :
      Env → OrchestratorConfig → CycleState → World store file → Iteration store file
  unfolding anti_spin record_halt take_turn halt
  guard_ledger env cfg state w = elim w.ledger [
    | none ↦ take_turn env cfg state w
    | some ledger ↦ elim (store.read_all ledger) [
      | raised code ↦ stop store file w state read_ledger
      | returned entries ↦ elim (anti_spin entries cfg.max_lifetime_turns) [
        | some reason ↦ record_halt store file env.now reason (halt env.now reason state).value w
        | none ↦ take_turn env cfg state w
      ]
    ]
  ]

  unfoldable pub run_once :
      Env → OrchestratorConfig → CycleState → World store file → Iteration store file
  unfolding guard_ledger can_advance
  run_once env cfg state w =
      if leb (length cfg.agents) 0
      then stop store file w state no_agents
      else if not (can_advance env.start state)
      then record { world = w; outcome = record (still state) { terminal = true }; err = none }
      else guard_ledger env cfg state w

  -- The loop of Run; `none` stands for a loop that has not ended on its fuel.
  unfoldable pub run_loop :
      ℕ
      → (ℕ → Env)
      → ℕ
      → OrchestratorConfig
      → World store file
      → World store file × Option (Option CycleError)
  unfolding run_once
  run_loop zero envs i cfg w = (w, none)
  run_loop (suc fuel) envs i cfg w = elim (file.read w.state_file) [
    | raised code ↦ (w, some (some read_state))
    | returned state ↦
        let it : Iteration store file = run_once (envs i) cfg state w in
        elim it.err [
          | some code ↦ (it.world, some (some code))
          | none ↦ elim it.outcome.terminal [
            | true ↦ (it.world, some none)
            | false ↦ elim (envs i).can_sleep [
              | false ↦ (it.world, some (some sleep))
              | true ↦ run_loop fuel envs (i + 1) cfg it.world
            ]
          ]
        ]
  ]

  -- Run's guards: a configured agent, and a ledger that does not seal the cycle.
  unfoldable pub run :
      ℕ
      → (ℕ → Env)
      → OrchestratorConfig
      → World store file
      → World store file × Option (Option CycleError)
  unfolding run_loop ledger_seals_resume
  run fuel envs cfg w =
      if leb (length cfg.agents) 0 then (w, some (some no_agents)) else elim w.ledger [
        | none ↦ run_loop fuel envs 0 cfg w
        | some ledger ↦ elim (store.read_all ledger) [
          | raised code ↦ (w, some (some read_ledger))
          | returned entries ↦ elim (ledger_seals_resume entries) [
            | some reason ↦ (w, some (some (halted_error reason [])))
            | none ↦ run_loop fuel envs 0 cfg w
          ]
        ]
      ]
