-- ===== src/StateFile.antt =====
-- internal/cycle/sync.go: the state file and its backup. One value of StateFile stands for the files at
-- one path. The steps of a write up to the rename fail together: they leave both files as they were.
pub mod RoundTrip
use rallish.Prelude.{
  ℕ, ◌≡◌, Bool, true, false, not, Option, none, some, List, [], Text, take, if◌then◌else◌, Attempt,
  raised, returned,
}
use rallish.Prelude.Int.{pos}
use rallish.Contract.Phases.{CyclePhase}
use rallish.Contract.CycleState.{CycleState}
use rallish.Cycle.Outcome.{CycleError, read_state, write_state, marshal_state}

-- State{}.
abbrev pub zero_state : CycleState
zero_state = record {
  id = [];
  phase = CyclePhase.other [];
  completed_cycles = 0;
  max_cycles = pos 0;
  branch = [];
  baseline_sha = [];
  pending_files = [];
  local_gates = [];
  audit_cmd = [];
  polish_test_cmd = [];
  violations_found = [];
  next_cycle_goal = [];
  halted = false;
  halt_reason = none;
  created_at = pos 0;
  updated_at = pos 0;
  history = [];
  last_failed_gate = [];
  auto_goal = false;
  max_duration_minutes = pos 0;
  started_at = pos 0;
}

-- Package encoding/json on states. Unmarshal fills in a state that it is given, and may have changed it
-- when it fails. Marshal replaces bytes that are not UTF-8, and leaves the numbers: a state
-- whose texts are valid UTF-8 is read back unchanged.
pub record StateJson : Type 0 where
  pub marshal_indent : CycleState → Option Text
  pub unmarshal : Text → CycleState → CycleState × Bool
  pub clean : CycleState → CycleState
  pub clean-counts :
      (s : CycleState)
      → ((clean s).completed_cycles ≡ s.completed_cycles) × ((clean s).max_cycles ≡ s.max_cycles)
  pub is_utf8 : CycleState → Bool
  pub clean-is_utf8 : (s : CycleState) → is_utf8 s ≡ true → clean s ≡ s
  pub unmarshal-marshal_indent :
      (s : CycleState) (text : Text)
      → marshal_indent s ≡ some text
      → unmarshal text zero_state ≡ (clean s, true)

-- What becomes of the write of the backup file.
pub data BackupWrite : Type 0 where
  written unopened : BackupWrite
  cut_short : ℕ → BackupWrite

pub record Io : Type 0 where
  pub can_read : Bool
  pub can_read_backup : Bool
  pub can_mkdir : Bool
  pub can_replace : Bool
  pub backup_write : BackupWrite

pub record StateFile : Type 0 where
  pub primary : Option Text
  pub backup : Option Text

module _ (json : StateJson) where
  unfoldable pub read_backup : Io → StateFile → CycleState → Attempt CycleError CycleState
  read_backup io f cs = elim f.backup [
    | none ↦ raised read_state
    | some bak_data ↦
        if not io.can_read_backup
        then raised read_state
        else let (state, good) = json.unmarshal bak_data cs in
          if good then returned state else raised read_state
  ]

  -- The state that a failed reading of the primary has left is filled in further by the backup.
  unfoldable pub read : Io → StateFile → Attempt CycleError CycleState
  unfolding read_backup
  read io f = elim f.primary [
    | none ↦ returned zero_state
    | some text ↦
        if not io.can_read
        then raised read_state
        else let (state, good) = json.unmarshal text zero_state in
          if good then returned state else read_backup io f state
  ]

  unfoldable pub keep_backup : Io → Text → Text → Option Text → StateFile × Option CycleError
  keep_backup io new prior backup = elim io.backup_write [
    | written ↦ (record { primary = some new; backup = some prior }, none)
    | unopened ↦ (record { primary = some new; backup = backup }, some write_state)
    | cut_short n ↦ (record { primary = some new; backup = some (take n prior) }, some write_state)
  ]

  unfoldable pub write : Io → CycleState → StateFile → StateFile × Option CycleError
  unfolding keep_backup
  write io state f = elim (json.marshal_indent state) [
    | none ↦ (f, some marshal_state)
    | some text ↦ if not io.can_mkdir then (f, some write_state) else elim f.primary [
      | none ↦
          if not io.can_replace
          then (f, some write_state)
          else (record f { primary = some text }, none)
      | some prior ↦
          if not io.can_read
          then (f, some write_state)
          else if not io.can_replace
          then (f, some write_state)
          else keep_backup io text prior f.backup
    ]
  ]
