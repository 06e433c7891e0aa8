-- ===== src/Contract/Requests.antt =====
-- pkg/contract/types.go: the request of a turn, presets and exit conditions.
use rallish.Prelude.{Option, List, Text}
use rallish.Prelude.Int.{ℤ}
use rallish.Contract.Ledger.{WorkContract}
use rallish.Contract.Turns.{HandoffIntent, SelfEval, Violation}
use rallish.Cycle.Budget.{Budget}

-- A Go string type: `other` is any text but those of the constants.
pub data ExitCondition : Type 0 where
  all_artifacts_compile tests_pass reviewer_approved turns_exhausted : ExitCondition
  tokens_exhausted deadline_passed human_signal dry_rounds stuck : ExitCondition
  other : Text → ExitCondition

pub record LastTurn : Type 0 where
  pub from : Text
  pub runtime : Text
  pub summary : Text
  pub artifacts : List Text
  pub self_eval : SelfEval
  pub intent : HandoffIntent
  pub claims : List Violation

pub record Task : Type 0 where
  pub title : Text
  pub body : Text
  pub repo_root : Text

pub record TurnRequest : Type 0 where
  pub session : Text
  pub turn : ℤ
  pub role : Text
  pub runtime_hint : Text
  pub model_hint : Text
  pub budget : Budget
  pub scratch_path : Text
  pub scratch : Text
  pub last_turn : Option LastTurn
  pub task : Task
  pub work_contract : Option WorkContract
  pub exit_when : List ExitCondition

pub record Role : Type 0 where
  pub id : Text
  pub runtime : Text
  pub model : Text

pub record ScratchConfig : Type 0 where
  pub max_kb : ℤ
  pub summarize_with : Text

pub record Preset : Type 0 where
  pub name : Text
  pub description : Text
  pub roles : List Role
  pub routing : Text
  pub budget : Budget
  pub exit_when : List ExitCondition
  pub scratch : ScratchConfig
