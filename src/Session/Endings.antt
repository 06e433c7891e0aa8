-- ===== src/Session/Endings.antt =====
-- internal/exit/exit.go: Evaluate against the conditions in order.
use rallish.Prelude.{
  ℕ, ◌+◌, ◌≡◌, refl, sym, ◌∙◌, inl, inr, false, Bool-cases, Option, none, some, List, [], ◌∷◌, Text,
  Attempt, raised, returned,
}
use rallish.Contract.Requests.{ExitCondition}
use rallish.Session.Exit.{Evaluator, ExitState, ExitError, evaluate_one, evaluate_from, evaluate}
use rallish.Session.Conditions.{Ends, all_passed, context_over, meets, fails, passes}
use rallish.Session.Decisions.{met, no_answer, Meets-evaluate_one, Fails-evaluate_one}

module _ (e : Evaluator) (st : ExitState) where
  evaluate_from-Ends :
      (i : ℕ) (conditions : List ExitCondition)
      → Ends e st i conditions (evaluate_from e st i conditions)
  unfolding evaluate_from
  evaluate_from-Ends i [] = all_passed
  evaluate_from-Ends i (cond ∷ conditions) = elim (Bool-cases (e.is_done i)) [
    | inl over ↦ rw (evaluate_from, over) (context_over over)
    | inr live ↦
        rw (evaluate_from, live)
          (go live (evaluate_one e st cond) refl (evaluate_from-Ends (i + 1) conditions))
  ]
    where
      go :
          e.is_done i ≡ false
          → (answer : Attempt ExitError (Option Text)) → evaluate_one e st cond ≡ answer
          → Ends e st (i + 1) conditions (evaluate_from e st (i + 1) conditions)
          → Ends e st i (cond ∷ conditions) (elim answer [
            | raised code ↦ raised code
            | returned (some reason) ↦ returned (some reason)
            | returned none ↦ evaluate_from e st (i + 1) conditions
          ])
      go live (raised code) q rest = fails live (Fails-evaluate_one e st cond code q)
      go live (returned (some reason)) q rest = meets live (Meets-evaluate_one e st cond reason q)
      go live (returned none) q rest =
          passes live (λ reason m. no_answer e st reason (sym q ∙ met e st cond reason m)) rest

  -- Evaluate goes through the conditions in order. It returns the context's error when the context is done
  -- before one of them, the reason of the first whose meaning holds, or the error of the first shell predicate
  -- that is disabled or stopped, and false when none of this happens.
  pub evaluate-Ends :
      (conditions : List ExitCondition) → Ends e st 0 conditions (evaluate e st conditions)
  unfolding evaluate
  evaluate-Ends conditions = evaluate_from-Ends 0 conditions
