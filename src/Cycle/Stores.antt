-- ===== src/Cycle/Stores.antt =====
-- What the driver and the orchestrator of internal/cycle use of the ledger file (internal/cycle/ledger.go)
-- and of the state file (internal/cycle/sync.go), as interfaces. A store's value holds the answers of the
-- operating system that are still to come.
use rallish.Prelude.{
  ◌≡◌, ◌⊎◌, Bool, true, Option, none, some, List, [], ◌∷◌, ◌++◌, Attempt, raised, returned,
}
use rallish.Contract.Ledger.{HarnessLedgerEntry}
use rallish.Contract.CycleState.{CycleState}
use rallish.LedgerFile.{LedgerError}
use rallish.LedgerFile.Appends.{link}
use rallish.Cycle.Outcome.{CycleError}

pub record LedgerStore : Type 1 where
  pub Store : Type 0
  pub append : HarnessLedgerEntry → Store → Store × Option LedgerError
  pub read_all : Store → Attempt LedgerError (List HarnessLedgerEntry)
  pub Holds : List HarnessLedgerEntry → Store → Type 0
  pub is_valid : HarnessLedgerEntry → Bool
  -- No later call of the store fails.
  pub Works : Store → Type 0
  pub append-Works :
      (es : List HarnessLedgerEntry) (s : Store) (e : HarnessLedgerEntry)
      → Holds es s
      → Works s
      → ((append e s).1 ≡ none) × Works (append e s).0
  pub read_all-Holds :
      (es : List HarnessLedgerEntry) (s : Store)
      → Holds es s
      → (read_all s ≡ returned es) ⊎ ((code : LedgerError) × (read_all s ≡ raised code))
  pub append-Holds :
      (es : List HarnessLedgerEntry) (s : Store) (e : HarnessLedgerEntry)
      → Holds es s
      → is_valid e ≡ true
      → ((e' : HarnessLedgerEntry) × ((append e s).1 ≡ none)
          × (link e e'.prev_hash e'.hash ≡ e')
          × Holds (es ++ e' ∷ []) (append e s).0)
        ⊎ ((code : LedgerError) × ((append e s).1 ≡ some code) × Holds es (append e s).0)

-- `clean` is what a state becomes on the way through the file: encoding/json replaces bytes that are not
-- UTF-8 in its texts, and leaves its numbers.
pub record StateStore : Type 1 where
  pub Store : Type 0
  pub read : Store → Attempt CycleError CycleState
  pub write : CycleState → Store → Store × Option CycleError
  pub clean : CycleState → CycleState
  pub clean-counts :
      (state : CycleState)
      → ((clean state).completed_cycles ≡ state.completed_cycles)
        × ((clean state).max_cycles ≡ state.max_cycles)
  pub read-write :
      (state : CycleState) (s : Store)
      → (write state s).1 ≡ none
      → (read (write state s).0 ≡ returned (clean state))
        ⊎ ((code : CycleError) × (read (write state s).0 ≡ raised code))
