-- ===== src/Session/Exit.antt =====
-- internal/exit/exit.go: when a session ends. The clock's time and the answers of the shell predicates'
-- commands are in the environment, and so is whether the context is done at the check before each condition.
use rallish.Prelude.{
  ℕ, ◌+◌, Bool, true, false, ◌&&◌, Option, none, some, List, [], ◌∷◌, Text, codes, length, ltb,
  if◌then◌else◌, Attempt, raised, returned,
}
use rallish.Prelude.Int.{ℤ, pos, leb_ℤ, ltb_ℤ, ◌+ℤ◌}
use rallish.Contract.Turns.{TurnResponse, SelfEval, confident, Usage}
use rallish.Contract.Requests.{
  ExitCondition, all_artifacts_compile, tests_pass, reviewer_approved, turns_exhausted,
  tokens_exhausted, deadline_passed, human_signal, dry_rounds, stuck,
}
use rallish.Cycle.Budget.{Budget}
use rallish.Session.Records.{TurnRecord, session_stuck}

pub data ExitError : Type 0 where
  predicate_disabled cancelled : ExitCondition → ExitError
  context_done : ExitError

-- What the command of a shell predicate does: it succeeds, fails, or is stopped by the context.
pub data CommandEnd : Type 0 where
  succeeded command_failed stopped : CommandEnd

pub record Evaluator : Type 0 where
  pub allow_shell : Bool
  pub now : ℤ
  pub command : ExitCondition → CommandEnd
  pub quote_list : List Text → Text
  pub is_done : ℕ → Bool

-- Times are in milliseconds.
pub record ExitState : Type 0 where
  pub turn_count : ℤ
  pub usage : Usage
  pub budget : Budget
  pub start_time : ℤ
  pub last_response : Option TurnResponse
  pub deadline_ms : ℤ
  pub dry_rounds : ℤ
  pub records : List TurnRecord

abbrev pub is_confident : SelfEval → Bool
is_confident confident = true
is_confident _ = false

abbrev pub when_true : Bool → Text → Attempt ExitError (Option Text)
when_true b reason = if b then returned (some reason) else returned none

abbrev pub is_approved : Option TurnResponse → Bool
is_approved none = false
is_approved (some resp) = is_confident resp.self_eval && resp.done

unfoldable pub run_shell_predicate :
    Evaluator → ExitCondition → Text → Attempt ExitError (Option Text)
run_shell_predicate e cond reason = elim (e.command cond) [
  | succeeded ↦ returned (some reason)
  | command_failed ↦ returned none
  | stopped ↦ raised (cancelled cond)
]

unfoldable pub shell_predicate : Evaluator → ExitCondition → Text → Attempt ExitError (Option Text)
unfolding run_shell_predicate
shell_predicate e cond reason =
    if e.allow_shell then run_shell_predicate e cond reason else raised (predicate_disabled cond)

-- `some reason` for (true, reason), `none` for (false, "").
unfoldable pub evaluate_one :
    Evaluator → ExitState → ExitCondition → Attempt ExitError (Option Text)
unfolding shell_predicate session_stuck ◌+ℤ◌
evaluate_one e st turns_exhausted =
    when_true (leb_ℤ st.budget.turns_left (pos 0)) (codes "turns exhausted")
evaluate_one e st tokens_exhausted =
    when_true (leb_ℤ st.budget.tokens_left (pos 0)) (codes "tokens exhausted")
evaluate_one e st deadline_passed =
    when_true (ltb_ℤ (st.start_time +ℤ st.deadline_ms) e.now) (codes "deadline passed")
evaluate_one e st reviewer_approved =
    when_true (is_approved st.last_response) (codes "reviewer approved")
evaluate_one e st dry_rounds =
    when_true
      (ltb_ℤ (pos 0) st.budget.dry_rounds_threshold
        && leb_ℤ st.budget.dry_rounds_threshold st.dry_rounds)
      (codes "dry rounds")
evaluate_one e st stuck =
    if ltb (length st.records) 6
    then returned none
    else returned (session_stuck e.quote_list st.records)
evaluate_one e st tests_pass = shell_predicate e tests_pass (codes "tests_pass satisfied")
evaluate_one e st all_artifacts_compile =
    shell_predicate e all_artifacts_compile (codes "all_artifacts_compile satisfied")
evaluate_one e st human_signal = returned none
evaluate_one e st (ExitCondition.other t) = returned none

-- From the i-th check of the context on.
unfoldable pub evaluate_from :
    Evaluator → ExitState → ℕ → List ExitCondition → Attempt ExitError (Option Text)
unfolding evaluate_one
evaluate_from e st i [] = returned none
evaluate_from e st i (cond ∷ conditions) = elim (e.is_done i) [
  | true ↦ raised context_done
  | false ↦ elim (evaluate_one e st cond) [
    | raised code ↦ raised code
    | returned (some reason) ↦ returned (some reason)
    | returned none ↦ evaluate_from e st (i + 1) conditions
  ]
]

unfoldable pub evaluate :
    Evaluator → ExitState → List ExitCondition → Attempt ExitError (Option Text)
unfolding evaluate_from
evaluate e st conditions = evaluate_from e st 0 conditions
