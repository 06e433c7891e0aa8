-- ===== src/Contract/Ledger.antt =====
-- pkg/contract/harness_ledger.go: the ledger's events and entries, and the constructors of entries;
-- the work contract of pkg/contract/work_contract.go that an entry may carry, and the
-- orchestrator's configuration of pkg/contract/cycle.go.
use rallish.Prelude.{Bool, Option, none, List, [], Text, codes}
use rallish.Prelude.Int.{ℤ}

-- A Go string type: `other` is any text but those of the constants.
pub data LedgerEventType : Type 0 where
  cycle_created agent_turn gate_passed gate_failed handoff_created : LedgerEventType
  cycle_halted cycle_completed validation_green action_denied : LedgerEventType
  secret_flagged gates_pinned gate_tampered tooluse_decision : LedgerEventType
  claim_registered claim_verified claim_falsified : LedgerEventType
  other : Text → LedgerEventType

pub record OrchestratorConfig : Type 0 where
  pub agents : List Text
  pub pattern : Text
  pub reset_every : ℤ
  pub repo_url : Text
  pub working_dir : Text
  pub max_lifetime_turns : ℤ

pub record WorkContract : Type 0 where
  pub objective : Text
  pub repo_root : Text
  pub branch : Text
  pub pending_files : List Text
  pub local_gates : List Text
  pub max_cycles : ℤ
  pub max_duration_minutes : ℤ
  pub auto_goal : Bool
  pub orchestrator : Option OrchestratorConfig

-- `at` is a time in milliseconds.
pub record HarnessLedgerEntry : Type 0 where
  pub schema_version : Text
  pub at : ℤ
  pub cycle_id : Text
  pub type : LedgerEventType
  pub agent : Text
  pub handoff_to : Text
  pub gate : Text
  pub summary : Text
  pub files : List Text
  pub work_contract : Option WorkContract
  pub prev_hash : Text
  pub hash : Text

abbrev pub ledger_schema_version : Text
ledger_schema_version = codes "1"

unfoldable pub new_harness_ledger_entry :
    ℤ → Text → LedgerEventType → Text → List Text → HarnessLedgerEntry
new_harness_ledger_entry at cycle_id typ summary files = record {
  schema_version = ledger_schema_version;
  at = at;
  cycle_id = cycle_id;
  type = typ;
  agent = [];
  handoff_to = [];
  gate = [];
  summary = summary;
  files = files;
  work_contract = none;
  prev_hash = [];
  hash = [];
}
