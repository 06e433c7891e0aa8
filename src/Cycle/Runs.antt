-- ===== src/Cycle/Runs.antt =====
-- Pipeline.Execute of internal/cycle/gate.go, against the gates that run one after the other.
use rallish.Prelude.{◌≡◌, refl, sym, ap, ◌∙◌, ◌⊎◌, inl, inr, List, [], ◌∷◌, ◌++◌}
use mathlib.Core.List.{append-nil, append_assoc}
use rallish.Prelude.Int.{ℤ}
use rallish.Contract.Turns.{GateReport}
use rallish.Contract.CycleState.{CycleState}
use rallish.Cycle.Halt.{HaltReason}
use rallish.Cycle.Outcome.{halted_error, Outcome, success, failure}
use rallish.Cycle.State.{halt}
use rallish.Cycle.Pipeline.{
  GateResult, gate_success, gate_warning, gate_failure, report, Gate, after_gate, execute_from,
  execute,
}

-- A gate's result that does not stop the pipeline.
abbrev pub Passes : GateResult → Type 0
Passes result = (r : GateReport) × ((result ≡ gate_success r) ⊎ (result ≡ gate_warning r))

-- Gates that run one after the other, each on the state that the one before it left, and all pass.
pub data Runs : List Gate → CycleState → CycleState → List GateReport → Type 0 where
  finished : {s : CycleState} → Runs [] s s []
  passed :
      {g : Gate} {gs : List Gate} {s mid s' : CycleState} {result : GateResult}
      {rs : List GateReport}
      → g.run s ≡ (result, mid)
      → Passes result
      → Runs gs mid s' rs
      → Runs (g ∷ gs) s s' (report result ∷ rs)

-- The gate that fails, with the gates before it that pass.
pub record FailsAt (p : List Gate) (s : CycleState) : Type 0 where
  pub before : List Gate
  pub gate : Gate
  pub rest : List Gate
  pub same : p ≡ before ++ gate ∷ rest
  pub mid : CycleState
  pub next : CycleState
  pub reports : List GateReport
  pub runs : Runs before s mid reports
  pub last : GateReport
  pub reason : HaltReason
  pub fails : gate.run mid ≡ (gate_failure last reason, next)

-- The state that a failing gate leaves, halted.
abbrev pub halted_at : {p : List Gate} {s : CycleState} → ℤ → FailsAt p s → CycleState
halted_at now f = (halt now f.reason (record f.next { last_failed_gate = f.last.gate })).value

-- What the pipeline makes of its start, with the reports so far.
abbrev Executed : ℤ → List Gate → CycleState → List GateReport → Outcome CycleState → Type 0
Executed now p s before out =
    ((s' : CycleState) × (rs : List GateReport) × Runs p s s' rs
      × (out ≡ success s' (before ++ rs)))
    ⊎ ((f : FailsAt p s) × (out
          ≡ failure (halted_at now f) (halted_error f.reason (before ++ (f.reports ++ f.last ∷ [])))
              (before ++ (f.reports ++ f.last ∷ []))))

module _ (now : ℤ) (g : Gate) (gs : List Gate) (s mid : CycleState) (before : List GateReport)
    (result : GateResult) where
  -- A gate that passes, before what the others make of the state that it leaves.
  Executed-passed :
      (out : Outcome CycleState)
      → g.run s ≡ (result, mid)
      → Passes result
      → Executed now gs mid (before ++ report result ∷ []) out
      → Executed now (g ∷ gs) s before out
  Executed-passed out e p (inl (s', rs, runs, done)) = inl (
    s',
    report result ∷ rs,
    passed e p runs,
    done ∙ ap (success s') (append_assoc before (report result ∷ []) rs),
  )
  Executed-passed out e p (inr (f, done)) = inr (
    record {
      before = g ∷ f.before;
      gate = f.gate;
      rest = f.rest;
      same = ap (◌∷◌ g) f.same;
      mid = f.mid;
      next = f.next;
      reports = report result ∷ f.reports;
      runs = passed e p f.runs;
      last = f.last;
      reason = f.reason;
      fails = f.fails;
    },
    done
        ∙ ap (λ rs. failure (halted_at now f) (halted_error f.reason rs) rs)
            (append_assoc before (report result ∷ []) (f.reports ++ f.last ∷ [])),
  )

execute_from_exact :
    (now : ℤ) (p : List Gate) (s : CycleState) (before : List GateReport)
    → Executed now p s before (execute_from now p s before)
unfolding execute_from after_gate
execute_from_exact now [] s before = inl (s, [], finished, ap (success s) (sym (append-nil before)))
execute_from_exact now (g ∷ gs) s before =
    go (λ mid reports. execute_from_exact now gs mid reports) (g.run s).0 (g.run s).1 refl
  where
    go :
        ((mid : CycleState) (reports : List GateReport)
          → Executed now gs mid reports (execute_from now gs mid reports))
        → (result : GateResult) (mid : CycleState) → g.run s ≡ (result, mid)
        → Executed now
            (g ∷ gs)
            s
            before
            (after_gate now (λ t rs. execute_from now gs t rs) before result mid)
    go later (gate_success r) mid e =
        Executed-passed now g gs s mid before (gate_success r) _ e (r, inl refl)
          (later mid (before ++ r ∷ []))
    go later (gate_warning r) mid e =
        Executed-passed now g gs s mid before (gate_warning r) _ e (r, inr refl)
          (later mid (before ++ r ∷ []))
    go later (gate_failure r reason) mid e = inr (
      record {
        before = [];
        gate = g;
        rest = gs;
        same = refl;
        mid = s;
        next = mid;
        reports = [];
        runs = finished;
        last = r;
        reason = reason;
        fails = e;
      },
      refl,
    )

-- Execute either runs every gate in order, each on the state that the one before left, and returns the
-- last state with all reports; or stops at the first gate that fails, and returns the state it left,
-- halted for its reason and with its name, with the reports up to its own.
pub execute_exact :
    (now : ℤ) (p : List Gate) (s : CycleState) → Executed now p s [] (execute now p s)
unfolding execute
execute_exact now p s = execute_from_exact now p s []
