-- ===== src/Tests/Stores.antt =====
-- Stores in memory, gates, an adapter and a cycle to run the orchestrator on.
use rallish.Prelude.{
  ◌≡◌, refl, inl, true, false, none, some, List, [], ◌∷◌, ◌++◌, Text, codes, returned,
}
use rallish.Prelude.Int.{pos}
use rallish.Contract.Ledger.{
  HarnessLedgerEntry, OrchestratorConfig, new_harness_ledger_entry, agent_turn,
}
use rallish.Contract.Turns.{GateReport, TurnResponse, HandoffIntent, confident}
use rallish.Contract.Phases.{preflight}
use rallish.Contract.CycleState.{CycleState, empty_payload}
use rallish.Cycle.Halt.{HaltReason}
use rallish.Cycle.Pipeline.{Gate, gate_success, gate_failure}
use rallish.Cycle.Stores.{LedgerStore, StateStore}
use rallish.StateFile.{zero_state}
use rallish.Cycle.Turn.{Env}
use rallish.Orchestrator.{World}

abbrev pub memory_ledger : LedgerStore
memory_ledger = record {
  Store = List HarnessLedgerEntry;
  append = λ e s. (s ++ e ∷ [], none);
  read_all = λ s. returned s;
  Holds = λ es s. es ≡ s;
  is_valid = λ e. true;
  Works = λ s. Unit {0};
  append-Works = λ es s e holds w. (refl, tt);
  read_all-Holds = λ es s same. inl (rw same refl);
  append-Holds = λ es s e same valid. inl (e, refl, refl, rw same refl);
}

abbrev pub memory_file : StateStore
memory_file = record {
  Store = CycleState;
  read = λ s. returned s;
  write = λ state s. (state, none);
  clean = λ state. state;
  clean-counts = λ state. (refl, refl);
  read-write = λ state s e. inl refl;
}

abbrev pub report_of : Text → GateReport
report_of name = record {
  gate = name;
  passed = true;
  duration_ms = pos 1;
  stdout = [];
  stderr = [];
  violations = [];
  claim_checks = [];
}

abbrev pub good_gate : Gate
good_gate = record {
  name = codes "audit";
  run = λ s. (gate_success (report_of (codes "audit")), s);
}

abbrev pub bad_gate : Gate
bad_gate = record {
  name = codes "polish";
  run = λ s. (gate_failure (report_of (codes "polish")) HaltReason.gate_failure, s);
}

-- A cycle of at most two steps.
abbrev pub start_state : CycleState
start_state = record zero_state {
  id = codes "c1";
  phase = preflight;
  max_cycles = pos 2;
  next_cycle_goal = codes "feat: x";
  local_gates = codes "make check" ∷ [];
}

abbrev pub response : TurnResponse
response = record {
  done = false;
  handoff_to = [];
  handoff_intent = HandoffIntent.continue;
  summary = codes "next";
  artifacts = [];
  self_eval = confident;
  notes_for_human = [];
  usage = none;
  claims = [];
}

-- The agent answers with a goal.
abbrev pub env : Env
env = record {
  start = pos 5;
  now = pos 6;
  finish = pos 7;
  can_sleep = true;
  gates = λ s. good_gate ∷ [];
  registry = λ name. some (λ req. some response);
  marshal_summary = λ s. some (codes "state");
  unmarshal_payload = λ t. some (record empty_payload { next_goal = codes "feat: y" });
}

abbrev pub two_agents : OrchestratorConfig
two_agents = record {
  agents = codes "claude" ∷ codes "kimi" ∷ [];
  pattern = [];
  reset_every = pos 0;
  repo_url = [];
  working_dir = codes "/repo";
  max_lifetime_turns = pos 1;
}

abbrev pub a_turn : HarnessLedgerEntry
a_turn = new_harness_ledger_entry (pos 1) (codes "c1") agent_turn (codes "turn") []

-- The ledger has one turn, the whole lifetime of these agents.
abbrev pub spent_world : World memory_ledger memory_file
spent_world = record { ledger = some (a_turn ∷ []); state_file = start_state }
