-- ===== src/Orchestrator/Running.antt =====
-- internal/cycle/orchestrator.go: an iteration that goes on, and the end of Run's loop.
use rallish.Prelude.{
  ℕ, ◌+◌, ◌≡◌, ◌≢◌, refl, sym, ap, ◌∙◌, inl, inr, Bool-cases, Option-cases, Attempt-cases, true,
  false, Option, none, some, List, Text, All, length, get_elem?, leb, is_empty, not_false→true,
}
use rallish.Prelude.Int.{ℤ}
use rallish.Digest.{Sha256}
use rallish.Contract.Ledger.{OrchestratorConfig}
use rallish.Contract.Turns.{TurnResponse, GateReport}
use rallish.Contract.CycleState.{CycleState, TurnPayload, parse_turn_payload, can_advance}
use rallish.Cycle.Halt.{HaltReason}
use rallish.Cycle.Outcome.{CycleError, Outcome}
use rallish.Cycle.State.{append_violations, halt}
use rallish.Cycle.Pipeline.{Gate}
use rallish.Cycle.Runs.{Runs, finished, passed}
use rallish.Cycle.Stores.{LedgerStore, StateStore}
use rallish.Cycle.Driver.{step}
use rallish.Cycle.Steps.{step-IsGreen}
use rallish.Cycle.Turn.{Env, apply_payload, apply_response, build_request, agent_index, anti_spin}
use rallish.Orchestrator.{
  World, Iteration, append_turn_ledger, record_halt, conclude, drive, respond, run_adapter,
  take_turn, guard_ledger, run_once,
}

-- The two counts of a state.
abbrev SameCount : ℕ → CycleState → CycleState → Type 0
SameCount n s s' = (s'.completed_cycles ≡ n + s.completed_cycles) × (s'.max_cycles ≡ s.max_cycles)

-- A gate that leaves the counts of the cycle alone, as every gate of the program does.
abbrev pub IsSteady : Gate → Type 0
IsSteady g =
    (s : CycleState)
    → ((g.run s).1.completed_cycles ≡ s.completed_cycles) × ((g.run s).1.max_cycles ≡ s.max_cycles)

Runs-steady :
    {p : List Gate} {s s' : CycleState} {rs : List GateReport}
    → All IsSteady p
    → Runs p s s' rs
    → (s'.completed_cycles ≡ s.completed_cycles) × (s'.max_cycles ≡ s.max_cycles)
Runs-steady a finished = (refl, refl)
Runs-steady {s = s} a (passed {g = g} ran passes later) =
    let (c, m) = Runs-steady a.1 later in
    let (c', m') = a.0 s in
    let next = ap (λ q. q.1) ran in
    (c ∙ sym (ap (λ t. t.completed_cycles) next) ∙ c', m ∙ sym (ap (λ t. t.max_cycles) next) ∙ m')

apply_payload-steady :
    (now : ℤ) (payload : TurnPayload) (s : CycleState)
    → ((apply_payload now payload s).0.completed_cycles ≡ s.completed_cycles)
      × ((apply_payload now payload s).0.max_cycles ≡ s.max_cycles)
unfolding apply_payload halt append_violations
apply_payload-steady now payload s = elim (Bool-cases payload.halt_requested) [
  | inl halted ↦ rw halted (refl, refl)
  | inr running ↦ elim (Bool-cases (is_empty payload.next_goal)) [
    | inl none_given ↦ elim (Bool-cases (leb (length payload.violations_found) 0)) [
      | inl clean ↦ rw (running, none_given, clean) (refl, refl)
      | inr found ↦ rw (running, none_given, found) (refl, refl)
    ]
    | inr goal ↦ elim (Bool-cases (leb (length payload.violations_found) 0)) [
      | inl clean ↦ rw (running, goal, clean) (refl, refl)
      | inr found ↦ rw (running, goal, found) (refl, refl)
    ]
  ]
]

apply_response-steady :
    (env : Env) (resp : TurnResponse) (s : CycleState)
    → ((apply_response env resp s).0.completed_cycles ≡ s.completed_cycles)
      × ((apply_response env resp s).0.max_cycles ≡ s.max_cycles)
unfolding apply_response halt
apply_response-steady env resp s =
    elim (Option-cases (parse_turn_payload env.unmarshal_payload resp.summary)) [
      | inl prose ↦ rw (apply_response, prose) (refl, refl)
      | inr (payload, parsed) ↦ rw (apply_response, parsed) (apply_payload-steady env.now payload s)
    ]

module _ (h : Sha256) (store : LedgerStore) (file : StateStore) where
  -- The iteration has written a state that counts one more cycle, and that can still advance.
  pub record GoesOn (env : Env) (s : CycleState) (w : World store file) (it : Iteration store file)
      : Type 0 where
    pub written : CycleState
    pub state_file : it.world.state_file ≡ (file.write written w.state_file).0
    pub no_error : (file.write written w.state_file).1 ≡ none
    pub completed : written.completed_cycles ≡ s.completed_cycles + 1
    pub bound : written.max_cycles ≡ s.max_cycles
    pub advances : can_advance env.finish written ≡ true

  abbrev Continues : Env → CycleState → World store file → Iteration store file → Type 0
  Continues env s w it = it.err ≡ none → it.outcome.terminal ≡ false → GoesOn env s w it

  failed : {code : CycleError} → ◌≡◌ {A = Option CycleError} (some code) none → ⊥
  failed q = cc

  conclude-Continues :
      (env : Env) (s : CycleState) (w w' : World store file) (result : Outcome CycleState)
      → (result.err ≡ none
          → (result.value.completed_cycles ≡ s.completed_cycles + 1)
            × (result.value.max_cycles ≡ s.max_cycles))
      → w'.state_file ≡ w.state_file
      → Continues env s w (conclude store file env w' result)
  unfolding conclude
  conclude-Continues env s w w' result counts same = elim (Option-cases result.err) [
    | inr (code, bad) ↦ λ e t. absurd (failed (rw (conclude, bad) at e))
    | inl fine ↦ elim (Option-cases (file.write result.value w'.state_file).1) [
      | inr (code, bad) ↦ λ e t. absurd (failed (rw (conclude, fine, bad) at e))
      | inl good ↦ λ e t. record {
        written = result.value;
        state_file = rw (conclude, fine) (rw good (rw same refl));
        no_error = rw (← same) good;
        completed = (counts fine).0;
        bound = (counts fine).1;
        advances = not_false→true _ (rw (conclude, fine, good) at t);
      }
    ]
  ]

  drive-Continues :
      (env : Env) (s s' : CycleState) (w w' : World store file)
      → ((t : CycleState) → All IsSteady (env.gates t))
      → (s'.completed_cycles ≡ s.completed_cycles) × (s'.max_cycles ≡ s.max_cycles)
      → w'.state_file ≡ w.state_file
      → Continues env s w (drive h store file env s' w')
  unfolding drive
  drive-Continues env s s' w w' steady (c, m) same =
      conclude-Continues env s w _ (step h store env.now (env.gates s') s' w'.ledger).0
        (λ fine.
          let green = step-IsGreen h store env.now (env.gates s') s' w'.ledger fine in
          let (c', m') = Runs-steady (steady s') green.runs in
          (rw green.result (rw (c', c) refl), rw green.result (m' ∙ m)))
        same

  pub record_halt-stops :
      (now : ℤ) (reason : HaltReason) (s : CycleState) (w : World store file)
      → (record_halt store file now reason s w).err ≢ none
  unfolding record_halt
  record_halt-stops now reason s w = elim (Option-cases (file.write s w.state_file).1) [
    | inl good ↦ λ e. absurd (failed (rw (record_halt, good) at e))
    | inr (code, bad) ↦ λ e. absurd (failed (rw (record_halt, bad) at e))
  ]

  respond-Continues :
      (env : Env) (resp : TurnResponse) (s : CycleState) (w w' : World store file)
      → ((t : CycleState) → All IsSteady (env.gates t))
      → w'.state_file ≡ w.state_file
      → Continues env s w (respond h store file env resp s w')
  unfolding respond
  respond-Continues env resp s w w' steady same =
      elim (Option-cases (apply_response env resp s).1) [
        | inr (reason, halts) ↦
            λ e t. absurd (record_halt-stops env.now reason _ w' (rw (respond, halts) at e))
        | inl runs ↦
            rw (respond, runs)
              (drive-Continues env s (apply_response env resp s).0 w w' steady
                (apply_response-steady env resp s) same)
      ]

  run_adapter-Continues :
      (env : Env) (cfg : OrchestratorConfig) (s : CycleState) (name : Text) (w : World store file)
      → ((t : CycleState) → All IsSteady (env.gates t))
      → Continues env s w (run_adapter h store file env cfg s name w)
  unfolding run_adapter
  run_adapter-Continues env cfg s name w steady = elim (Option-cases (env.registry name)) [
    | inl absent ↦ λ e t. absurd (failed (rw (run_adapter, absent) at e))
    | inr (adapt, found) ↦ elim (Option-cases (build_request env s name cfg)) [
      | inl unbuilt ↦ λ e t. absurd (failed (rw (run_adapter, found, unbuilt) at e))
      | inr (req, built) ↦ elim (Option-cases (adapt req)) [
        | inl down ↦ λ e t. absurd (failed (rw (run_adapter, found, built, down) at e))
        | inr (resp, answered) ↦
            let out = append_turn_ledger store file env.now s.id name resp w.ledger in
            elim (Bool-cases out.1) [
              | inl bad ↦
                  λ e t. absurd (failed (rw (run_adapter, found, built, answered, bad) at e))
              | inr good ↦
                  rw (run_adapter, found, built, answered, good)
                    (respond-Continues env resp s w (record w { ledger = out.0 }) steady refl)
            ]
      ]
    ]
  ]

  take_turn-Continues :
      (env : Env) (cfg : OrchestratorConfig) (s : CycleState) (w : World store file)
      → ((t : CycleState) → All IsSteady (env.gates t))
      → Continues env s w (take_turn h store file env cfg s w)
  unfolding take_turn
  take_turn-Continues env cfg s w steady =
      elim (Option-cases (get_elem? cfg.agents (agent_index cfg s))) [
        | inl absent ↦ λ e t. absurd (failed (rw (take_turn, absent) at e))
        | inr (name, found) ↦ rw (take_turn, found) (run_adapter-Continues env cfg s name w steady)
      ]

  guard_ledger-Continues :
      (env : Env) (cfg : OrchestratorConfig) (s : CycleState) (w : World store file)
      → ((t : CycleState) → All IsSteady (env.gates t))
      → Continues env s w (guard_ledger h store file env cfg s w)
  unfolding guard_ledger
  guard_ledger-Continues env cfg s w steady = elim (Option-cases w.ledger) [
    | inl absent ↦ simp (guard_ledger, absent) (take_turn-Continues env cfg s w steady)
    | inr (ledger, present) ↦ elim (Attempt-cases (store.read_all ledger)) [
      | inl (code, unread) ↦ λ e t. absurd (failed (rw (guard_ledger, present, unread) at e))
      | inr (entries, read) ↦ elim (Option-cases (anti_spin entries cfg.max_lifetime_turns)) [
        | inr (reason, spins) ↦ λ e t.
            absurd
              (record_halt-stops env.now reason _ _ (rw (guard_ledger, present, read, spins) at e))
        | inl fine ↦
            simp (guard_ledger, present, read, fine) (take_turn-Continues env cfg s w steady)
      ]
    ]
  ]

  -- With gates that leave the counts alone, an iteration without an error that does not say terminal
  -- started from a state that could advance, and has written one that counts one more cycle and can
  -- advance too.
  pub run_once-GoesOn :
      (env : Env) (cfg : OrchestratorConfig) (s : CycleState) (w : World store file)
      → ((t : CycleState) → All IsSteady (env.gates t))
      → (run_once h store file env cfg s w).err ≡ none
      → (run_once h store file env cfg s w).outcome.terminal ≡ false
      → (can_advance env.start s ≡ true) × GoesOn env s w (run_once h store file env cfg s w)
  unfolding run_once
  run_once-GoesOn env cfg s w steady e t = elim (Bool-cases (leb (length cfg.agents) 0)) [
    | inl none_given ↦ absurd (failed (rw (run_once, none_given) at e))
    | inr agents ↦ elim (Bool-cases (can_advance env.start s)) [
      | inr ended ↦ absurd (true≢false (rw (run_once, agents, ended) at t))
      | inl advances ↦ (
        advances,
        rw (run_once, agents, advances)
            (guard_ledger-Continues env cfg s w steady (rw (run_once, agents, advances) at e)
              (rw (run_once, agents, advances) at t)),
      )
    ]
  ]
    where
      true≢false : true ≡ false → ⊥
      true≢false q = cc
