-- ===== src/Contract/CycleState.antt =====
-- pkg/contract/cycle.go: the state of a cycle, its events and requests, and the payload of an agent's
-- turn; the projections to the work contract of pkg/contract/work_contract.go. The clock's time is an
-- argument. A halt reason of "" is `none`.
use rallish.Prelude.{
  ℕ, ◌/◌, ◌%◌, Bool, true, false, ◌&&◌, Option, none, some, List, [], Text, ltb, ◌==◌,
  if◌then◌else◌, is_empty,
}
use rallish.Prelude.Int.{ℤ, pos, ltb_ℤ, leb_ℤ, ◌-ℤ◌, pos_part}
use rallish.Contract.Ledger.{OrchestratorConfig, WorkContract}
use rallish.Contract.Turns.{Violation, GateReport}
use rallish.Contract.Phases.{CyclePhase}
use rallish.Cycle.Halt.{HaltReason}

pub record CycleState : Type 0 where
  pub id : Text
  pub phase : CyclePhase
  pub completed_cycles : ℕ
  pub max_cycles : ℤ
  pub branch : Text
  pub baseline_sha : Text
  pub pending_files : List Text
  pub local_gates : List Text
  pub audit_cmd : Text
  pub polish_test_cmd : Text
  pub violations_found : List Violation
  pub next_cycle_goal : Text
  pub halted : Bool
  pub halt_reason : Option HaltReason
  pub created_at : ℤ
  pub updated_at : ℤ
  pub history : List GateReport
  pub last_failed_gate : Text
  pub auto_goal : Bool
  pub max_duration_minutes : ℤ
  pub started_at : ℤ

-- Whole minutes since a time in milliseconds; 0 when the time is still to come.
abbrev pub minutes_since : ℤ → ℤ → ℤ
minutes_since now at = pos (pos_part (now -ℤ at) / 60000)

unfoldable pub can_advance : ℤ → CycleState → Bool
unfolding ◌-ℤ◌
can_advance now s =
    if s.halted
    then false
    else if ltb_ℤ (pos 0) s.max_cycles && leb_ℤ s.max_cycles (pos s.completed_cycles)
    then false
    else if ltb_ℤ (pos 0) s.max_duration_minutes && ltb_ℤ (pos 0) s.started_at
    then if leb_ℤ s.max_duration_minutes (minutes_since now s.started_at) then false else true
    else true

unfoldable pub should_rotate_agent : CycleState → Bool
should_rotate_agent s = ltb 0 s.completed_cycles && s.completed_cycles % 3 == 0

pub record CycleEvent : Type 0 where
  pub cycle_id : Text
  pub phase : CyclePhase
  pub completed_cycles : ℕ
  pub halted : Bool
  pub halt_reason : Option HaltReason
  pub last_failed_gate : Text
  pub at : ℤ

unfoldable pub new_cycle_event : ℤ → CycleState → CycleEvent
new_cycle_event now state = record {
  cycle_id = state.id;
  phase = state.phase;
  completed_cycles = state.completed_cycles;
  halted = state.halted;
  halt_reason = state.halt_reason;
  last_failed_gate = state.last_failed_gate;
  at = now;
}

pub record NewCycleRequest : Type 0 where
  pub goal : Text
  pub branch : Text
  pub max_cycles : ℤ
  pub max_duration_minutes : ℤ
  pub auto_goal : Bool
  pub pending_files : List Text
  pub local_gates : List Text
  pub audit_cmd : Text
  pub polish_test_cmd : Text
  pub orchestrator : Option OrchestratorConfig

pub record StepRequest : Type 0 where
  pub goal : Text

pub record HaltRequest : Type 0 where
  pub reason : Text

-- NewCycleRequest.WorkContract.
unfoldable pub request_work_contract : NewCycleRequest → WorkContract
request_work_contract r = record {
  objective = r.goal;
  repo_root = elim r.orchestrator [ none ↦ [] | some config ↦ config.working_dir ];
  branch = r.branch;
  pending_files = r.pending_files;
  local_gates = r.local_gates;
  max_cycles = r.max_cycles;
  max_duration_minutes = r.max_duration_minutes;
  auto_goal = r.auto_goal;
  orchestrator = r.orchestrator;
}

-- CycleState.WorkContract.
unfoldable pub state_work_contract : CycleState → Text → Option OrchestratorConfig → WorkContract
state_work_contract s repo_root orchestrator = record {
  objective = s.next_cycle_goal;
  repo_root = repo_root;
  branch = s.branch;
  pending_files = s.pending_files;
  local_gates = s.local_gates;
  max_cycles = s.max_cycles;
  max_duration_minutes = s.max_duration_minutes;
  auto_goal = s.auto_goal;
  orchestrator = orchestrator;
}

pub record TurnPayload : Type 0 where
  pub next_goal : Text
  pub violations_found : List Violation
  pub halt_requested : Bool

abbrev pub empty_payload : TurnPayload
empty_payload = record { next_goal = []; violations_found = []; halt_requested = false }

-- With encoding/json's Unmarshal of a payload; `none` is (TurnPayload{}, false).
unfoldable pub parse_turn_payload : (Text → Option TurnPayload) → Text → Option TurnPayload
parse_turn_payload unmarshal summary =
    if is_empty summary then some empty_payload else unmarshal summary
