-- ===== src/Contract/Turns.antt =====
-- The reports of gates (pkg/contract/cycle.go) and the responses of agents (pkg/contract/types.go), and
-- the entries that pkg/contract/harness_ledger.go makes of them.
use rallish.Prelude.{Bool, Option, List, [], Text, if◌then◌else◌}
use rallish.Prelude.Int.{ℤ}
use rallish.Contract.Ledger.{
  LedgerEventType, agent_turn, gate_passed, gate_failed, handoff_created, HarnessLedgerEntry,
  new_harness_ledger_entry,
}

-- A Go string type: `other` is any text but those of the constants.
pub data HandoffIntent : Type 0 where
  continue cross_check : HandoffIntent
  other : Text → HandoffIntent

pub data SelfEval : Type 0 where
  confident uncertain blocked : SelfEval
  other : Text → SelfEval

pub record Usage : Type 0 where
  pub tokens_in : ℤ
  pub tokens_out : ℤ
  pub ms : ℤ

pub record ViolationCheck : Type 0 where
  pub command : Text
  pub expected : Text

pub record Violation : Type 0 where
  pub file : Text
  pub line : ℤ
  pub type : Text
  pub message : Text
  pub check : Option ViolationCheck

pub record ClaimCheck : Type 0 where
  pub violation : Violation
  pub verified : Bool

pub record GateReport : Type 0 where
  pub gate : Text
  pub passed : Bool
  pub duration_ms : ℤ
  pub stdout : Text
  pub stderr : Text
  pub violations : List Violation
  pub claim_checks : List ClaimCheck

pub record TurnResponse : Type 0 where
  pub done : Bool
  pub handoff_to : Text
  pub handoff_intent : HandoffIntent
  pub summary : Text
  pub artifacts : List Text
  pub self_eval : SelfEval
  pub notes_for_human : Text
  pub usage : Option Usage
  pub claims : List Violation

unfoldable pub new_gate_ledger_entry : ℤ → Text → GateReport → HarnessLedgerEntry
unfolding new_harness_ledger_entry
new_gate_ledger_entry at cycle_id report =
    let typ : LedgerEventType = if report.passed then gate_passed else gate_failed in
    let entry : HarnessLedgerEntry = new_harness_ledger_entry at cycle_id typ report.stderr [] in
    record entry {
      gate = report.gate;
      summary = if report.passed then report.stdout else entry.summary;
    }

unfoldable pub new_agent_turn_ledger_entry : ℤ → Text → Text → TurnResponse → HarnessLedgerEntry
unfolding new_harness_ledger_entry
new_agent_turn_ledger_entry at cycle_id agent resp =
    record (new_harness_ledger_entry at cycle_id agent_turn resp.summary resp.artifacts) {
      agent = agent;
    }

unfoldable pub new_handoff_ledger_entry : ℤ → Text → Text → TurnResponse → HarnessLedgerEntry
unfolding new_harness_ledger_entry
new_handoff_ledger_entry at cycle_id agent resp =
    record (new_harness_ledger_entry at cycle_id handoff_created resp.summary resp.artifacts) {
      agent = agent;
      handoff_to = resp.handoff_to;
    }
