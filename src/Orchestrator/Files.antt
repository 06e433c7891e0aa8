-- ===== src/Orchestrator/Files.antt =====
-- The stores of internal/cycle/orchestrator.go, filled with the ledger file of internal/cycle/ledger.go
-- and the state file of internal/cycle/sync.go.
use rallish.Prelude.{
  ℕ, ◌+◌, ◌≡◌, refl, ◌⊎◌, inl, inr, Option, none, some, List, [], ◌∷◌, ◌++◌, true, Text,
}
use rallish.Digest.{Sha256}
use rallish.Contract.Ledger.{HarnessLedgerEntry}
use rallish.Contract.Json.{EntryJson}
use rallish.Chain.{ledger_genesis_hash}
use rallish.Chain.Links.{tip}
use rallish.LedgerFile.{LedgerError, LedgerPath, append, read_all, Io}
use rallish.LedgerFile.Appends.{Holds, IsWhole, link, append-Holds}
use rallish.LedgerFile.History.{read_all-cases}
use rallish.LedgerFile.Success.{IsGood, append_succeeds}
use rallish.StateFile
use rallish.StateFile.{StateJson, StateFile, read, write}
use rallish.StateFile.RoundTrip.{read-write}
use rallish.Cycle.Stores.{LedgerStore, StateStore}

-- A file with the answers of the operating system to the calls on it, in order.
pub record Disk (F Answer : Type 0) : Type 0 where
  pub file : F
  pub answers : ℕ → Answer

module _ {F Answer : Type 0} where
  -- The next call of an operation that changes a file.
  abbrev pub call :
      {E : Type 0} → (Answer → F → F × Option E) → Disk F Answer → Disk F Answer × Option E
  call {E = E} operation d =
      let out : F × Option E = operation (d.answers 0) d.file in
      (record { file = out.0; answers = λ n. d.answers (n + 1) }, out.1)

module _ (h : Sha256) (ej : EntryJson) where
  abbrev pub HoldsWhole : List HarnessLedgerEntry → Disk LedgerPath Io → Type 0
  HoldsWhole es d = ((n : ℕ) → IsWhole (d.answers n)) × Holds h ej es d.file

  pub call-HoldsWhole :
      (es : List HarnessLedgerEntry) (d : Disk LedgerPath Io) (e : HarnessLedgerEntry)
      → HoldsWhole es d
      → ej.json.is_utf8 e ≡ true
      → ((e' : HarnessLedgerEntry) × ((call (λ io p. append h ej.json io e p) d).1 ≡ none)
          × (link e e'.prev_hash e'.hash ≡ e')
          × HoldsWhole (es ++ e' ∷ []) (call (λ io p. append h ej.json io e p) d).0)
        ⊎ ((code : LedgerError) × ((call (λ io p. append h ej.json io e p) d).1 ≡ some code)
            × HoldsWhole es (call (λ io p. append h ej.json io e p) d).0)
  call-HoldsWhole es d e (whole, w) u =
      elim (append-Holds h ej es d.file (d.answers 0) e w (whole 0) u) [
        | inr (code, failed, w') ↦ inr (code, failed, (λ n. whole (n + 1), w'))
        | inl (hash, done, w') ↦
            inl (link e (tip ledger_genesis_hash es) hash, done, refl, (λ n. whole (n + 1), w'))
      ]

  -- No call of the file fails from here on, and entries marshal, as values of strings and numbers do.
  abbrev pub WorksWell : Disk LedgerPath Io → Type 0
  WorksWell d =
      ((n : ℕ) → IsGood (d.answers n))
      × ((e : HarnessLedgerEntry) → (text : Text) × (ej.json.marshal e ≡ some text))

  pub call-WorksWell :
      (es : List HarnessLedgerEntry) (d : Disk LedgerPath Io) (e : HarnessLedgerEntry)
      → HoldsWhole es d
      → WorksWell d
      → ((call (λ io p. append h ej.json io e p) d).1 ≡ none)
        × WorksWell (call (λ io p. append h ej.json io e p) d).0
  call-WorksWell es d e (_, w) (good, marshals) = (
    append_succeeds h ej marshals es d.file (d.answers 0) e w (good 0),
    (λ n. good (n + 1), marshals),
  )

  -- The ledger file as the orchestrator's ledger.
  abbrev pub ledger_file_store : LedgerStore
  ledger_file_store = record {
    Store = Disk LedgerPath Io;
    append = λ e d. call (λ io p. append h ej.json io e p) d;
    read_all = λ d. read_all ej.json (d.answers 0) d.file;
    Holds = HoldsWhole;
    is_valid = ej.json.is_utf8;
    Works = WorksWell;
    append-Works = call-WorksWell;
    read_all-Holds = λ es d w. read_all-cases h ej es d.file (d.answers 0) w.1;
    append-Holds = call-HoldsWhole;
  }

-- The state file as the orchestrator's state store.
abbrev pub state_file_store : StateJson → StateStore
state_file_store json = record {
  Store = Disk StateFile rallish.StateFile.Io;
  read = λ d. read json (d.answers 0) d.file;
  write = λ s d. call (λ io f. write json io s f) d;
  clean = json.clean;
  clean-counts = json.clean-counts;
  read-write = λ s d e. read-write json (d.answers 0) (d.answers 1) s d.file e;
}
