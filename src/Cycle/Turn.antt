-- ===== src/Cycle/Turn.antt =====
-- internal/cycle/orchestrator.go: what one iteration of RunOnce computes, less its files: the agent, its
-- request, the anti-spin guards and the payload of its answer. One value of Env holds what one iteration
-- is given from outside: the clock's times, the pipeline, the adapters with their answers, and
-- encoding/json on the two types that pass through it.
use rallish.Prelude.{
  ℕ, ◌+◌, ◌/◌, ◌%◌, Bool, false, Option, none, some, List, [], Text, codes, length, take, leb,
  if◌then◌else◌, is_empty,
}
use rallish.Prelude.Int.{ℤ, pos, leb_ℤ, ◌-ℤ◌, pos_part}
use rallish.Contract.Ledger.{HarnessLedgerEntry, OrchestratorConfig}
use rallish.Contract.Turns.{Violation, TurnResponse}
use rallish.Contract.Phases.{CyclePhase}
use rallish.Contract.CycleState.{CycleState, TurnPayload, parse_turn_payload, state_work_contract}
use rallish.Contract.Requests.{TurnRequest}
use rallish.Cycle.Halt.{HaltReason, budget_exceeded, unparseable_turn, user_requested}
use rallish.Cycle.Budget.{exceeds_lifetime_ceiling}
use rallish.Cycle.Stuck.{stuck_reason}
use rallish.Cycle.State.{halt, append_violations}
use rallish.Cycle.Pipeline.{Gate}

pub record CycleStateSummary : Type 0 where
  pub id : Text
  pub phase : CyclePhase
  pub completed_cycles : ℕ
  pub max_cycles : ℤ
  pub branch : Text
  pub baseline_sha : Text
  pub pending_files : List Text
  pub local_gates : List Text
  pub next_cycle_goal : Text
  pub violations_found : List Violation
  pub halted : Bool
  pub halt_reason : Option HaltReason

unfoldable pub summarise_state : CycleState → CycleStateSummary
summarise_state s = record {
  id = s.id;
  phase = s.phase;
  completed_cycles = s.completed_cycles;
  max_cycles = s.max_cycles;
  branch = s.branch;
  baseline_sha = s.baseline_sha;
  pending_files = take 20 s.pending_files;
  local_gates = take 20 s.local_gates;
  next_cycle_goal = s.next_cycle_goal;
  violations_found = take 10 s.violations_found;
  halted = s.halted;
  halt_reason = s.halt_reason;
}

-- The times are those of the first test of CanAdvance, of the writes in between, and of its last test.
pub record Env : Type 0 where
  pub start : ℤ
  pub now : ℤ
  pub finish : ℤ
  pub can_sleep : Bool
  pub gates : CycleState → List Gate
  pub registry : Text → Option (TurnRequest → Option TurnResponse)
  pub marshal_summary : CycleStateSummary → Option Text
  pub unmarshal_payload : Text → Option TurnPayload

pub record IterationOutcome : Type 0 where
  pub state : CycleState
  pub advanced : Bool
  pub terminal : Bool

abbrev pub still : CycleState → IterationOutcome
still state = record { state = state; advanced = false; terminal = false }

unfoldable pub build_request : Env → CycleState → Text → OrchestratorConfig → Option TurnRequest
unfolding summarise_state state_work_contract ◌-ℤ◌
build_request env state agent_name cfg = elim (env.marshal_summary (summarise_state state)) [
  | none ↦ none
  | some state_json ↦ some (record {
    session = state.id;
    turn = pos (state.completed_cycles + 1);
    role = agent_name;
    runtime_hint = agent_name;
    model_hint = [];
    budget = record {
      tokens_left = pos 0;
      turns_left = state.max_cycles -ℤ pos state.completed_cycles;
      deadline_ms = pos 0;
      dry_rounds_threshold = pos 0;
    };
    scratch_path = [];
    scratch = [];
    last_turn = none;
    task = record {
      title = codes "autonomous-cycle";
      body = state_json;
      repo_root = cfg.working_dir;
    };
    work_contract = some (state_work_contract state cfg.working_dir (some cfg));
    exit_when = [];
  })
]

abbrev pub reset_every : OrchestratorConfig → ℕ
reset_every cfg = if leb_ℤ cfg.reset_every (pos 0) then 3 else pos_part cfg.reset_every

unfoldable pub agent_index : OrchestratorConfig → CycleState → ℕ
agent_index cfg state = (state.completed_cycles / reset_every cfg) % length cfg.agents

-- Stuck, and then the lifetime ceiling.
unfoldable pub anti_spin : List HarnessLedgerEntry → ℤ → Option HaltReason
unfolding stuck_reason exceeds_lifetime_ceiling
anti_spin entries max_lifetime_turns = elim (stuck_reason entries) [
  | some reason ↦ some reason
  | none ↦
      if exceeds_lifetime_ceiling entries max_lifetime_turns then some budget_exceeded else none
]

-- The state after the payload, with the reason when it halts the cycle.
unfoldable pub apply_payload : ℤ → TurnPayload → CycleState → CycleState × Option HaltReason
unfolding append_violations halt
apply_payload now payload state =
    if payload.halt_requested
    then ((halt now user_requested state).value, some user_requested)
    else let aimed : CycleState =
        if is_empty payload.next_goal
        then state
        else record state { next_cycle_goal = payload.next_goal } in
      let merged : CycleState =
        if leb (length payload.violations_found) 0
        then aimed
        else (append_violations now payload.violations_found aimed).value in
      (record merged { updated_at = now }, none)

unfoldable pub apply_response : Env → TurnResponse → CycleState → CycleState × Option HaltReason
unfolding parse_turn_payload apply_payload halt
apply_response env resp state = elim (parse_turn_payload env.unmarshal_payload resp.summary) [
  | none ↦ ((halt env.now unparseable_turn state).value, some unparseable_turn)
  | some payload ↦ apply_payload env.now payload state
]
