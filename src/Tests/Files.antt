-- ===== src/Tests/Files.antt =====
-- The theorems on the ledger file, at a history with failures and a restart.
use rallish.Prelude.{
  ◌≡◌, refl, ◌⊎◌, inl, true, false, none, some, List, [], ◌∷◌, ◌++◌, map, codes, returned,
}
use rallish.Prelude.Int.{pos}
use rallish.Contract.Ledger.{
  HarnessLedgerEntry, new_harness_ledger_entry, cycle_created, cycle_halted,
}
use rallish.Chain.{verify_chain, no_broken_link, ledger_genesis_hash}
use rallish.LedgerFile.{Io, LedgerError, append, read_all}
use rallish.LedgerFile.Appends.{Holds, link, append-Holds}
use rallish.LedgerFile.History.{
  Event, restarted, appended, unlinked, no_ledger, no_ledger-Holds, history, read_all-history,
}
use rallish.LedgerFile.Success.{append_succeeds}
use rallish.StateFile
use rallish.StateFile.{StateFile, cut_short, zero_state, read, write}
use rallish.StateFile.RoundTrip.{write_atomic}
use rallish.Cycle.Outcome.{CycleError}
use rallish.Tests.StateCodec.{state_json}
use rallish.Tests.Fixtures.{checksum_digest}
use rallish.Tests.EntryCodec.{entry_json}

abbrev good_io : Io
good_io = record {
  can_clean = true;
  can_read = true;
  can_mkdir = true;
  can_open = true;
  short_write = none;
}

-- The write of the backup stops after two bytes.
abbrev torn_io : rallish.StateFile.Io
torn_io = record {
  can_read = true;
  can_read_backup = true;
  can_mkdir = true;
  can_replace = true;
  backup_write = cut_short 2;
}

abbrev old_file : StateFile
old_file = record { primary = some (codes "old"); backup = none }

abbrev created : HarnessLedgerEntry
created = new_harness_ledger_entry (pos 1) (codes "c1") cycle_created (codes "start") []

abbrev halted : HarnessLedgerEntry
halted = new_harness_ledger_entry (pos 3) (codes "c1") cycle_halted (codes "stuck") []

-- Two entries are written; between them the process restarts, and a directory cannot be made.
abbrev some_events : List Event
some_events =
    appended good_io created
    ∷ restarted
    ∷ appended (record good_io { can_mkdir = false }) created
    ∷ appended good_io halted
    ∷ []

read_all-history_example :
    (es : List HarnessLedgerEntry) × (read_all entry_json.json good_io
        (history checksum_digest entry_json some_events no_ledger).0
      ≡ returned es)
    × (map unlinked es ≡ map unlinked (history checksum_digest entry_json some_events no_ledger).1)
    × (verify_chain checksum_digest entry_json.json.marshal es ≡ (no_broken_link, true))
read_all-history_example =
    read_all-history checksum_digest entry_json some_events good_io
      ((refl, inl refl), (tt, ((refl, inl refl), ((refl, inl refl), tt)))) refl

append-Holds_example :
    ((hash : _) × ((append checksum_digest entry_json.json good_io created no_ledger).1 ≡ none)
      × Holds checksum_digest entry_json
          ([] ++ link created ledger_genesis_hash hash ∷ [])
          (append checksum_digest entry_json.json good_io created no_ledger).0)
    ⊎ ((code : LedgerError) × ((append checksum_digest entry_json.json good_io created no_ledger).1
          ≡ some code)
        × Holds checksum_digest entry_json []
            (append checksum_digest entry_json.json good_io created no_ledger).0)
append-Holds_example =
    append-Holds checksum_digest entry_json [] no_ledger good_io created
      (no_ledger-Holds checksum_digest entry_json) (inl refl) refl

append_succeeds_example :
    (append checksum_digest entry_json.json good_io created no_ledger).1 ≡ none
append_succeeds_example =
    append_succeeds checksum_digest entry_json (λ e. (_, refl)) [] no_ledger good_io created
      (no_ledger-Holds checksum_digest entry_json) (refl, refl, refl, refl, refl)

-- The entries that the history acknowledges.
acknowledged : (history checksum_digest entry_json some_events no_ledger).1 ≡ created ∷ halted ∷ []
unfolding history append new_harness_ledger_entry
acknowledged = refl

write_atomic_example :
    ((io' : rallish.StateFile.Io)
      → io'.can_read ≡ true
      → read state_json io' (write state_json torn_io zero_state old_file).0 ≡ returned zero_state)
    ⊎ (((write state_json torn_io zero_state old_file).0 ≡ old_file)
        × ((code : CycleError) × ((write state_json torn_io zero_state old_file).1 ≡ some code)))
write_atomic_example = write_atomic state_json torn_io zero_state old_file refl
