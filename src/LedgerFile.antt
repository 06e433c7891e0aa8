-- ===== src/LedgerFile.antt =====
-- internal/cycle/ledger.go: the ledger as a file of lines, with the process's cache of its last hash.
-- One value of LedgerPath stands for one path: the file's content, if it exists, and the entry that the
-- registry ledgerLocks holds for the path. The lock makes each Append one step.
pub mod Lines
pub mod Appends
pub mod History
pub mod Success
use rallish.Prelude.{
  ℕ, Bool, not, Option, none, some, List, [], ◌∷◌, ◌++◌, Text, if◌then◌else◌, ◌==◌, take, true,
  false, Attempt, raised, returned, after,
}
use rallish.Digest.{Sha256}
use rallish.Contract.Ledger.{HarnessLedgerEntry}
use rallish.Contract.Json.{Json, newline}
use rallish.Chain.{ledger_genesis_hash, chain_hash}

pub data LedgerError : Type 0 where
  clean_path open_ledger mkdir_ledger unmarshal_entry : LedgerError
  hash_entry marshal_entry write_entry : LedgerError

-- What the operating system answers to the calls of one operation. A write either takes all the bytes
-- (`none`), or stops after some of them with an error.
pub record Io : Type 0 where
  pub can_clean : Bool
  pub can_read : Bool
  pub can_mkdir : Bool
  pub can_open : Bool
  pub short_write : Option ℕ

pub record LedgerPath : Type 0 where
  pub content : Option Text
  pub last_hash : Option Text

-- What the callback makes of one line; an empty line is skipped.
abbrev pub on_line {ℓ} :
    {S : Type ℓ} → (Text → S → Attempt LedgerError S) → Text → S → Attempt LedgerError S
on_line fn [] s = returned s
on_line fn (c ∷ line) s = fn (c ∷ line) s

-- The loop with the bytes of the line read so far, over the bytes that are left. The last line need not
-- end in a newline.
unfoldable pub for_each_line_from {ℓ} :
    {S : Type ℓ} → (Text → S → Attempt LedgerError S) → Text → Text → S → Attempt LedgerError S
for_each_line_from fn line [] s = on_line fn line s
for_each_line_from fn line (c ∷ bytes) s = elim (c == newline) [
  | true ↦ after (on_line fn line s) (for_each_line_from fn [] bytes)
  | false ↦ for_each_line_from fn (line ++ c ∷ []) bytes s
]

unfoldable pub for_each_ledger_line {ℓ} :
    {S : Type ℓ} → (Text → S → Attempt LedgerError S) → Text → S → Attempt LedgerError S
unfolding for_each_line_from
for_each_ledger_line fn bytes s = for_each_line_from fn [] bytes s

module _ (json : Json HarnessLedgerEntry) where
  abbrev pub collect :
      Text → List HarnessLedgerEntry → Attempt LedgerError (List HarnessLedgerEntry)
  collect line entries = elim (json.unmarshal line) [
    | none ↦ raised unmarshal_entry
    | some entry ↦ returned (entries ++ entry ∷ [])
  ]

  abbrev pub keep_hash : Text → Text → Attempt LedgerError Text
  keep_hash line last = elim (json.unmarshal line) [
    | none ↦ raised unmarshal_entry
    | some entry ↦ returned entry.hash
  ]

  unfoldable pub read_all : Io → LedgerPath → Attempt LedgerError (List HarnessLedgerEntry)
  unfolding for_each_ledger_line
  read_all io p = elim p.content [
    | none ↦ returned []
    | some bytes ↦
        if not io.can_read then raised open_ledger else for_each_ledger_line collect bytes []
  ]

  unfoldable pub read_last_hash : Io → LedgerPath → Attempt LedgerError Text
  unfolding for_each_ledger_line
  read_last_hash io p = if not io.can_clean then raised clean_path else elim p.content [
    | none ↦ returned ledger_genesis_hash
    | some bytes ↦
        if not io.can_read
        then raised open_ledger
        else for_each_ledger_line keep_hash bytes ledger_genesis_hash
  ]

  -- The last hash that the registry holds after the call.
  unfoldable pub lock_for_ledger : Io → LedgerPath → Attempt LedgerError Text
  unfolding read_last_hash
  lock_for_ledger io p = elim p.last_hash [ some last ↦ returned last | none ↦ read_last_hash io p ]

abbrev pub bytes_of : Option Text → Text
bytes_of none = []
bytes_of (some bytes) = bytes

-- The write to the file that was opened for appending (which created it), and the new last hash.
unfoldable pub write_line : Io → Text → Text → LedgerPath → LedgerPath × Option LedgerError
write_line io line hash p = elim io.short_write [
  | some n ↦ (record p { content = some (bytes_of p.content ++ take n line) }, some write_entry)
  | none ↦ (record { content = some (bytes_of p.content ++ line); last_hash = some hash }, none)
]

module _ (h : Sha256) (json : Json HarnessLedgerEntry) where
  -- Append under the lock.
  unfoldable pub append_locked :
      Io → HarnessLedgerEntry → Text → LedgerPath → LedgerPath × Option LedgerError
  unfolding write_line chain_hash
  append_locked io entry prev_hash p =
      if not io.can_mkdir
      then (p, some mkdir_ledger)
      else elim (chain_hash h json.marshal (record entry { prev_hash = prev_hash }) prev_hash) [
        | none ↦ (p, some hash_entry)
        | some hash ↦ elim (json.marshal (record entry { prev_hash = prev_hash; hash = hash })) [
          | none ↦ (p, some marshal_entry)
          | some line ↦
              if not io.can_open
              then (p, some open_ledger)
              else write_line io (line ++ newline ∷ []) hash p
        ]
      ]

  unfoldable pub append : Io → HarnessLedgerEntry → LedgerPath → LedgerPath × Option LedgerError
  unfolding lock_for_ledger append_locked
  append io entry p = elim (lock_for_ledger json io p) [
    | raised code ↦ (p, some code)
    | returned last ↦ append_locked io entry last (record p { last_hash = some last })
  ]
