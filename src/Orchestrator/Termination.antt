-- ===== src/Orchestrator/Termination.antt =====
-- internal/cycle/orchestrator.go: Run ends, for a state with a bound on its cycles.
use rallish.Prelude.{
  ℕ, zero, suc, ◌+◌, ◌<◌, ◌≤◌, ◌≡◌, refl, sym, ap, ◌∙◌, inl, inr, Bool-cases, Option-cases,
  Attempt-cases, Bool, true, false, ◌&&◌, Option, none, some, [], All, arith, length, leb, returned,
  returned-injective, raised≢returned, guard_passed, if◌then◌else◌,
}
use rallish.Prelude.Int.{ℤ, pos, ltb_ℤ, leb_ℤ}
use rallish.Digest.{Sha256}
use rallish.Contract.Ledger.{OrchestratorConfig}
use rallish.Contract.CycleState.{CycleState, can_advance}
use rallish.Cycle.Outcome.{CycleError, read_state, read_ledger, sleep, no_agents, halted_error}
use rallish.Cycle.Reviver.{ledger_seals_resume}
use rallish.Cycle.Stores.{LedgerStore, StateStore}
use rallish.Cycle.Turn.{Env}
use rallish.Orchestrator.{World, run_once, run_loop, run}
use rallish.Orchestrator.Running.{IsSteady, GoesOn, run_once-GoesOn}

-- A state that can advance has not reached its bound.
can_advance-lt :
    (now : ℤ) (s : CycleState) (m : ℕ)
    → s.max_cycles ≡ pos m
    → 0 < m
    → can_advance now s ≡ true
    → s.completed_cycles < m
unfolding can_advance
can_advance-lt now s m bound positive e =
    below s.completed_cycles _ (rw bound at (guard_passed s.halted _ e).1)
  where
    below :
        (c : ℕ) (rest : Bool)
        → (if ltb_ℤ (pos 0) (pos m) && leb_ℤ (pos m) (pos c) then false else rest) ≡ true
        → c < m
    below c rest h = ground arith

module _ (h : Sha256) (store : LedgerStore) (file : StateStore) (envs : ℕ → Env)
    (cfg : OrchestratorConfig) where
  -- The state that the file holds has this bound, and at most this many cycles to go.
  abbrev pub IsWithin : ℕ → ℕ → file.Store → Type 0
  IsWithin m rounds stored =
      (s : CycleState)
      → file.read stored ≡ returned s
      → (s.max_cycles ≡ pos m) × (m ≤ s.completed_cycles + rounds)

  abbrev Ends : World store file × Option (Option CycleError) → Type 0
  Ends out = (result : Option CycleError) × (out.1 ≡ some result)

  -- What an iteration leaves to do.
  GoesOn-IsWithin :
      (env : Env) (s : CycleState) (w : World store file) (m rounds : ℕ)
      → (g : GoesOn h store file env s w (run_once h store file env cfg s w)) → s.max_cycles ≡ pos m
      → m ≤ s.completed_cycles + suc rounds
      → IsWithin m rounds (run_once h store file env cfg s w).world.state_file
  GoesOn-IsWithin env s w m rounds g bound left s' read =
      elim (file.read-write g.written w.state_file g.no_error) [
        | inr (code, unread) ↦
            absurd (raised≢returned (sym unread ∙ ap file.read (sym g.state_file) ∙ read))
        | inl back ↦
            let same : file.clean g.written ≡ s' =
              returned-injective (sym back ∙ ap file.read (sym g.state_file) ∙ read) in
            let (c, m') = file.clean-counts g.written in
            (
              ap (λ t. t.max_cycles) (sym same) ∙ m' ∙ g.bound ∙ bound,
              omega (arith, left, g.completed, c, ap (λ t. t.completed_cycles) same),
            )
      ]

  module _ (steady : (i : ℕ) (t : CycleState) → All IsSteady ((envs i).gates t)) (m : ℕ)
      (positive : 0 < m) where
    -- One round of the loop, before the rounds that follow an iteration that goes on.
    run_loop-round :
        (rounds : ℕ) (i : ℕ) (w : World store file)
        → ((s : CycleState)
            → file.read w.state_file ≡ returned s
            → can_advance (envs i).start s ≡ true
            → GoesOn h store file (envs i) s w (run_once h store file (envs i) cfg s w)
            → Ends (
                run_loop h store file rounds envs
                  (i + 1)
                  cfg
                  (run_once h store file (envs i) cfg s w).world))
        → Ends (run_loop h store file (suc rounds) envs i cfg w)
    unfolding run_loop
    run_loop-round rounds i w later = elim (Attempt-cases (file.read w.state_file)) [
      | inl (code, unread) ↦ (some read_state, rw (run_loop, unread) refl)
      | inr (s, read) ↦
          let it = run_once h store file (envs i) cfg s w in
          elim (Option-cases it.err) [
            | inr (code, bad) ↦ (some code, rw (run_loop, read, bad) refl)
            | inl fine ↦ elim (Bool-cases it.outcome.terminal) [
              | inl ended ↦ (none, rw (run_loop, read, fine, ended) refl)
              | inr open_end ↦ elim (Bool-cases (envs i).can_sleep) [
                | inr woken ↦ (some sleep, rw (run_loop, read, fine, open_end, woken) refl)
                | inl slept ↦
                    let (advances, g) =
                      run_once-GoesOn h store file (envs i) cfg s w (steady i) fine open_end in
                    go_on {out = run_loop h store file (suc rounds) envs i cfg w}
                      {out' = run_loop h store file rounds envs (i + 1) cfg it.world}
                      (later s read advances g) (simp (run_loop, read, fine, open_end, slept) refl)
              ]
            ]
          ]
    ]
      where
        go_on :
            {out out' : World store file × Option (Option CycleError)}
            → Ends out'
            → out ≡ out'
            → Ends out
        go_on (result, ends) same = (result, ap (λ q. q.1) same ∙ ends)

    run_loop-Ends :
        (rounds : ℕ) (i : ℕ) (w : World store file)
        → IsWithin m rounds w.state_file
        → Ends (run_loop h store file (suc rounds) envs i cfg w)
    run_loop-Ends zero i w within = run_loop-round zero i w (λ s read advances g.
        let (bound, left) = within s read in
        absurd (omega (arith, left, can_advance-lt (envs i).start s m bound positive advances)))
    run_loop-Ends (suc rounds) i w within = run_loop-round (suc rounds) i w (λ s read advances g.
        let (bound, left) = within s read in
        run_loop-Ends rounds (i + 1) (run_once h store file (envs i) cfg s w).world
          (GoesOn-IsWithin (envs i) s w m rounds g bound left))

    -- With gates that leave the counts of a cycle alone, and a state file whose state has a positive bound
    -- on its cycles: Run ends within one iteration more than the cycles that are left, whatever the
    -- adapters, the gates, the ledger and the clock answer.
    pub run-Ends :
        (rounds : ℕ) (w : World store file)
        → IsWithin m rounds w.state_file
        → Ends (run h store file (suc rounds) envs cfg w)
    unfolding run
    run-Ends rounds w within =
        let loop = run_loop-Ends rounds 0 w within in
        elim (Bool-cases (leb (length cfg.agents) 0)) [
          | inl none_given ↦ (some no_agents, rw (run, none_given) refl)
          | inr agents ↦ elim (Option-cases w.ledger) [
            | inl absent ↦ (loop.0, simp (run, agents, absent) loop.1)
            | inr (ledger, present) ↦ elim (Attempt-cases (store.read_all ledger)) [
              | inl (code, unread) ↦ (some read_ledger, rw (run, agents, present, unread) refl)
              | inr (entries, read) ↦ elim (Option-cases (ledger_seals_resume entries)) [
                | inr (reason, sealed) ↦
                    (some (halted_error reason []), rw (run, agents, present, read, sealed) refl)
                | inl open_end ↦ (loop.0, simp (run, agents, present, read, open_end) loop.1)
              ]
            ]
          ]
        ]
