-- ===== src/Orchestrator/Halts.antt =====
-- internal/cycle/orchestrator.go: what a halt of the anti-spin guards leaves for later runs.
use rallish.Prelude.{
  ℕ, ◌≡◌, refl, sym, ap, ◌∙◌, ◌⊎◌, inl, inr, Option-cases, true, false, Option, none, some, List,
  [], ◌∷◌, ◌++◌, Text, length, leb, returned,
}
use rallish.Prelude.Int.{ℤ}
use rallish.Digest.{Sha256}
use rallish.Contract.Ledger.{
  HarnessLedgerEntry, OrchestratorConfig, new_harness_ledger_entry, cycle_halted,
}
use rallish.Contract.CycleState.{CycleState, can_advance}
use rallish.Cycle.Halt.{HaltReason, halt_reason_text, parse_halt_reason-halt_reason_text}
use rallish.Cycle.Reviver.{is_halted, parse_halt_reason_or_stuck, ledger_seals_resume}
use rallish.Cycle.Reviving.{ledger_seals_resume-halt}
use rallish.Cycle.Outcome.{CycleError, read_ledger, write_state, halted_error}
use rallish.Cycle.State.{halt}
use rallish.Cycle.Stores.{LedgerStore, StateStore}
use rallish.Cycle.Driver.{note}
use rallish.Cycle.Turn.{Env, anti_spin}
use rallish.Orchestrator.{World, record_halt, guard_ledger, run_once, run}

-- The entry of a halt.
abbrev pub halt_entry : ℤ → Text → HaltReason → HarnessLedgerEntry
halt_entry now id reason = new_harness_ledger_entry now id cycle_halted (halt_reason_text reason) []

parse_halt_reason_or_stuck-text :
    (reason : HaltReason) → parse_halt_reason_or_stuck (halt_reason_text reason) ≡ reason
unfolding parse_halt_reason_or_stuck
parse_halt_reason_or_stuck-text reason =
    rw (parse_halt_reason_or_stuck, parse_halt_reason-halt_reason_text reason) refl

module _ (h : Sha256) (store : LedgerStore) (file : StateStore) where
  -- The world's ledger holds entries that seal the cycle.
  record IsSealed (reason : HaltReason) (w : World store file) : Type 0 where
    ledger : store.Store
    entries : List HarnessLedgerEntry
    present : w.ledger ≡ some ledger
    holds : store.Holds entries ledger
    sealed : ledger_seals_resume entries ≡ some reason

  note-IsSealed :
      (now : ℤ) (id : Text) (reason : HaltReason) (es : List HarnessLedgerEntry)
      (ledger : store.Store)
      → store.Holds es ledger
      → store.is_valid (halt_entry now id reason) ≡ true
      → (store.append (halt_entry now id reason) ledger).1 ≡ none
      → (new : List HarnessLedgerEntry) × store.Holds new
          (store.append (halt_entry now id reason) ledger).0
        × (ledger_seals_resume new ≡ some reason)
  unfolding new_harness_ledger_entry
  note-IsSealed now id reason es ledger holds valid good =
      elim (store.append-Holds es ledger (halt_entry now id reason) holds valid) [
        | inr (code, bad, w) ↦ absurd (cc)
        | inl (e', fine, same, holds') ↦ (
          es ++ e' ∷ [],
          holds',
          ledger_seals_resume-halt es e' (ap (λ e. is_halted e.type) (sym same))
              ∙ ap some (
                  ap (λ e. parse_halt_reason_or_stuck e.summary) (sym same)
                  ∙ parse_halt_reason_or_stuck-text reason),
        )
      ]

  record_halt-ledger :
      (now : ℤ) (reason : HaltReason) (s : CycleState) (w : World store file)
      → (record_halt store file now reason s w).world.ledger
        ≡ note store (halt_entry now s.id reason) w.ledger
  unfolding record_halt
  record_halt-ledger now reason s w = elim (Option-cases (file.write s w.state_file).1) [
    | inl good ↦ rw (record_halt, good) refl
    | inr (code, bad) ↦ rw (record_halt, bad) refl
  ]

  record_halt-IsSealed :
      (now : ℤ) (reason : HaltReason) (s : CycleState) (w : World store file)
      → (es : List HarnessLedgerEntry) (ledger : store.Store) → w.ledger ≡ some ledger
      → store.Holds es ledger
      → store.is_valid (halt_entry now s.id reason) ≡ true
      → (store.append (halt_entry now s.id reason) ledger).1 ≡ none
      → IsSealed reason (record_halt store file now reason s w).world
  record_halt-IsSealed now reason s w es ledger present holds valid good =
      let (new, holds', sealed) = note-IsSealed now s.id reason es ledger holds valid good in
      record {
        ledger = (store.append (halt_entry now s.id reason) ledger).0;
        entries = new;
        present =
            record_halt-ledger now reason s w
            ∙ ap (note store (halt_entry now s.id reason)) present;
        holds = holds';
        sealed = sealed;
      }

  record_halt-err :
      (now : ℤ) (reason : HaltReason) (s : CycleState) (w : World store file)
      → ((record_halt store file now reason s w).err ≡ some (halted_error reason []))
        ⊎ ((record_halt store file now reason s w).err ≡ some write_state)
  unfolding record_halt
  record_halt-err now reason s w = elim (Option-cases (file.write s w.state_file).1) [
    | inl good ↦ inl (rw (record_halt, good) refl)
    | inr (code, bad) ↦ inr (rw (record_halt, bad) refl)
  ]

  -- A run that is refused: nothing has changed, and the error is the halt's, or the ledger's that could
  -- not be read.
  abbrev pub IsRefused :
      HaltReason → World store file → World store file × Option (Option CycleError) → Type 0
  IsRefused reason w out =
      (out ≡ (w, some (some (halted_error reason [])))) ⊎ (out ≡ (w, some (some read_ledger)))

  IsSealed-IsRefused :
      (reason : HaltReason) (w : World store file) (fuel : ℕ) (envs : ℕ → Env)
      (cfg : OrchestratorConfig)
      → IsSealed reason w
      → leb (length cfg.agents) 0 ≡ false
      → IsRefused reason w (run h store file fuel envs cfg w)
  unfolding run
  IsSealed-IsRefused reason w fuel envs cfg seal agents =
      elim (store.read_all-Holds seal.entries seal.ledger seal.holds) [
        | inl read ↦ inl (simp (run, agents, seal.present, read, seal.sealed) refl)
        | inr (code, unread) ↦ inr (simp (run, agents, seal.present, unread) refl)
      ]

  halt-id : (now : ℤ) (reason : HaltReason) (s : CycleState) → (halt now reason s).value.id ≡ s.id
  unfolding halt
  halt-id now reason s = refl

  run_once-halts :
      (env : Env) (cfg : OrchestratorConfig) (s : CycleState) (w : World store file)
      → (reason : HaltReason) (es : List HarnessLedgerEntry) (ledger : store.Store)
      → leb (length cfg.agents) 0 ≡ false
      → can_advance env.start s ≡ true
      → w.ledger ≡ some ledger
      → store.read_all ledger ≡ returned es
      → anti_spin es cfg.max_lifetime_turns ≡ some reason
      → run_once h store file env cfg s w
        ≡ record_halt store file env.now reason (halt env.now reason s).value w
  unfolding run_once guard_ledger
  run_once-halts env cfg s w reason es ledger agents advances present read spins =
      simp (run_once, agents, advances, guard_ledger, present, read, spins) refl

  -- When RunOnce can advance and its guards find the ledger stuck or its ceiling exceeded, and the halt's
  -- entry can be appended: it returns the halt as its error, or that of the state file, and every later
  -- Run with agents on what it leaves is refused for that reason and changes nothing.
  pub run_once-anti_spin :
      (env : Env) (cfg : OrchestratorConfig) (s : CycleState) (w : World store file)
      → (reason : HaltReason) (es : List HarnessLedgerEntry) (ledger : store.Store)
      → leb (length cfg.agents) 0 ≡ false
      → can_advance env.start s ≡ true
      → w.ledger ≡ some ledger
      → store.Holds es ledger
      → store.read_all ledger ≡ returned es
      → anti_spin es cfg.max_lifetime_turns ≡ some reason
      → store.is_valid (halt_entry env.now s.id reason) ≡ true
      → (store.append (halt_entry env.now s.id reason) ledger).1 ≡ none
      → (((run_once h store file env cfg s w).err ≡ some (halted_error reason []))
          ⊎ ((run_once h store file env cfg s w).err ≡ some write_state))
        × ((fuel : ℕ) (envs : ℕ → Env) (cfg' : OrchestratorConfig)
            → leb (length cfg'.agents) 0 ≡ false
            → IsRefused reason
                (run_once h store file env cfg s w).world
                (run h store file fuel envs cfg' (run_once h store file env cfg s w).world))
  run_once-anti_spin env cfg s w reason es ledger agents advances present holds read spins valid
        good =
      let halted = (halt env.now reason s).value in
      let same = halt-id env.now reason s in
      rw (run_once-halts env cfg s w reason es ledger agents advances present read spins) (
        record_halt-err env.now reason halted w,
        λ fuel envs cfg' agents'.
            IsSealed-IsRefused reason (record_halt store file env.now reason halted w).world fuel
              envs cfg'
              (record_halt-IsSealed env.now reason halted w es ledger present holds (rw same valid)
                (rw same good))
              agents',
      )
