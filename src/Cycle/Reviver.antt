-- ===== src/Cycle/Reviver.antt =====
-- internal/cycle/reviver.go: LedgerSealsResume and parseHaltReasonOrStuck.
use rallish.Prelude.{
  ℕ, ◌+◌, Bool, true, false, ◌&&◌, Option, none, some, List, [], ◌∷◌, Text, if◌then◌else◌,
}
use rallish.Prelude.Int.{ℤ, pos, negsuc, ltb_ℤ, leb_ℤ}
use rallish.Contract.Ledger.{LedgerEventType, cycle_halted, validation_green, HarnessLedgerEntry}
use rallish.Cycle.Halt.{HaltReason, stuck, parse_halt_reason}

unfoldable pub parse_halt_reason_or_stuck : Text → HaltReason
unfolding parse_halt_reason
parse_halt_reason_or_stuck summary = elim (parse_halt_reason summary) [
  | some reason ↦ reason
  | none ↦ stuck
]

-- The variables of the loop. The zero reason stands for none.
pub record SealScan : Type 0 where
  pub last_halt_idx : ℤ
  pub last_halt_reason : Option HaltReason
  pub green_after_halt : Bool

abbrev pub is_halted : LedgerEventType → Bool
is_halted cycle_halted = true
is_halted _ = false

abbrev pub is_green : LedgerEventType → Bool
is_green validation_green = true
is_green _ = false

-- The loop's body at one entry.
unfoldable pub scan_entry : ℕ → HarnessLedgerEntry → SealScan → SealScan
unfolding parse_halt_reason_or_stuck
scan_entry i e st =
    if is_halted e.type
    then record {
      last_halt_idx = pos i;
      last_halt_reason = some (parse_halt_reason_or_stuck e.summary);
      green_after_halt = false;
    }
    else if is_green e.type && leb_ℤ (pos 0) st.last_halt_idx
    then record st { green_after_halt = true }
    else st

unfoldable pub scan_from : ℕ → List HarnessLedgerEntry → SealScan → SealScan
unfolding scan_entry
scan_from i [] st = st
scan_from i (e ∷ es) st = scan_from (i + 1) es (scan_entry i e st)

abbrev pub unhalted : SealScan
unhalted = record { last_halt_idx = negsuc 0; last_halt_reason = none; green_after_halt = false }

abbrev pub seal_of : SealScan → Option HaltReason
seal_of st =
    if ltb_ℤ st.last_halt_idx (pos 0)
    then none
    else if st.green_after_halt
    then none
    else st.last_halt_reason

-- `some reason` for (reason, true), `none` for ("", false).
unfoldable pub ledger_seals_resume : List HarnessLedgerEntry → Option HaltReason
unfolding scan_from
ledger_seals_resume entries = seal_of (scan_from 0 entries unhalted)
