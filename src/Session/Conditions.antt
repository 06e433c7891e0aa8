-- ===== src/Session/Conditions.antt =====
-- internal/exit/exit.go: what each condition means, and the conditions in order.
use rallish.Prelude.{
  ℕ, ◌+◌, ◌≡◌, ◌≤◌, true, false, Option, none, some, List, [], ◌∷◌, Text, codes, Attempt, raised,
  returned, length,
}
use rallish.Prelude.Int.{pos, ◌+ℤ◌, ◌≤ℤ◌}
use rallish.Contract.Turns.{TurnResponse, confident}
use rallish.Contract.Requests.{
  ExitCondition, all_artifacts_compile, tests_pass, reviewer_approved, turns_exhausted,
  tokens_exhausted, deadline_passed, dry_rounds, stuck,
}
use rallish.Session.Records.{session_stuck}
use rallish.Session.Exit.{
  Evaluator, ExitState, ExitError, predicate_disabled, cancelled, context_done, succeeded, stopped,
}

pub data IsShell : ExitCondition → Text → Type 0 where
  tests : IsShell tests_pass (codes "tests_pass satisfied")
  artifacts : IsShell all_artifacts_compile (codes "all_artifacts_compile satisfied")

-- What each condition that ends a session means, with its reason, and when a condition fails.
module _ (e : Evaluator) (st : ExitState) where
  pub data Meets : ExitCondition → Text → Type 0 where
    no_turns : st.budget.turns_left ≤ℤ pos 0 → Meets turns_exhausted (codes "turns exhausted")
    no_tokens : st.budget.tokens_left ≤ℤ pos 0 → Meets tokens_exhausted (codes "tokens exhausted")
    too_late :
        (e.now ≤ℤ st.start_time +ℤ st.deadline_ms → ⊥)
        → Meets deadline_passed (codes "deadline passed")
    approved :
        (resp : TurnResponse)
        → st.last_response ≡ some resp
        → resp.self_eval ≡ confident
        → resp.done ≡ true
        → Meets reviewer_approved (codes "reviewer approved")
    dry :
        pos 1 ≤ℤ st.budget.dry_rounds_threshold
        → st.budget.dry_rounds_threshold ≤ℤ st.dry_rounds
        → Meets dry_rounds (codes "dry rounds")
    no_way_on :
        (reason : Text)
        → 6 ≤ length st.records
        → session_stuck e.quote_list st.records ≡ some reason
        → Meets stuck reason
    command_succeeds :
        (cond : ExitCondition) (reason : Text)
        → IsShell cond reason
        → e.allow_shell ≡ true
        → e.command cond ≡ succeeded
        → Meets cond reason

  pub data Fails : ExitCondition → ExitError → Type 0 where
    disabled :
        (cond : ExitCondition) (reason : Text)
        → IsShell cond reason
        → e.allow_shell ≡ false
        → Fails cond (predicate_disabled cond)
    interrupted :
        (cond : ExitCondition) (reason : Text)
        → IsShell cond reason
        → e.allow_shell ≡ true
        → e.command cond ≡ stopped
        → Fails cond (cancelled cond)

  abbrev pub IsUnmet : ExitCondition → Type 0
  IsUnmet cond = (reason : Text) → Meets cond reason → ⊥

  -- The conditions in order, from the i-th check of the context on, and what comes of them.
  pub data Ends : ℕ → List ExitCondition → Attempt ExitError (Option Text) → Type 0 where
    all_passed : {i : ℕ} → Ends i [] (returned none)
    context_over :
        {i : ℕ} {cond : ExitCondition} {conditions : List ExitCondition}
        → e.is_done i ≡ true
        → Ends i (cond ∷ conditions) (raised context_done)
    meets :
        {i : ℕ} {cond : ExitCondition} {conditions : List ExitCondition} {reason : Text}
        → e.is_done i ≡ false
        → Meets cond reason
        → Ends i (cond ∷ conditions) (returned (some reason))
    fails :
        {i : ℕ} {cond : ExitCondition} {conditions : List ExitCondition} {code : ExitError}
        → e.is_done i ≡ false
        → Fails cond code
        → Ends i (cond ∷ conditions) (raised code)
    passes :
        {i : ℕ} {cond : ExitCondition} {conditions : List ExitCondition}
        {answer : Attempt ExitError (Option Text)}
        → e.is_done i ≡ false
        → IsUnmet cond
        → Ends (i + 1) conditions answer
        → Ends i (cond ∷ conditions) answer
