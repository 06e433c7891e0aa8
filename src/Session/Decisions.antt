-- ===== src/Session/Decisions.antt =====
-- internal/exit/exit.go: the answer of one condition against what the condition means.
use rallish.Prelude.{
  ◌≡◌, refl, sym, ap, ◌∙◌, inl, inr, Bool, true, false, Bool-cases, ◌&&◌, and_eq_true, Option, none,
  some, Text, Attempt, raised, returned, returned-injective, raised≢returned, arith, length, ltb,
}
use mathlib.Core.Path.{subst}
use rallish.Prelude.Int.{ℤ, pos, ◌+ℤ◌, ◌≤ℤ◌, leb_ℤ, ltb_ℤ}
use rallish.Contract.Turns.{TurnResponse, SelfEval, confident}
use rallish.Contract.Requests.{
  ExitCondition, all_artifacts_compile, tests_pass, reviewer_approved, turns_exhausted,
  tokens_exhausted, deadline_passed, human_signal, dry_rounds, stuck,
}
use rallish.Session.Exit.{
  Evaluator, ExitState, ExitError, predicate_disabled, cancelled, CommandEnd, succeeded,
  command_failed, stopped, is_confident, is_approved, when_true, run_shell_predicate,
  shell_predicate, evaluate_one,
}
use rallish.Session.Conditions.{
  IsShell, tests, artifacts, Meets, no_turns, no_tokens, too_late, approved, dry, no_way_on,
  command_succeeds, Fails, disabled, interrupted,
}

le_ℤ : (a b : ℤ) → leb_ℤ a b ≡ true → a ≤ℤ b
le_ℤ a b h = ground arith

leb_ℤ-true : (a b : ℤ) → a ≤ℤ b → leb_ℤ a b ≡ true
leb_ℤ-true a b h = ground arith

lt_ℤ : (a b : ℤ) → ltb_ℤ a b ≡ true → b ≤ℤ a → ⊥
lt_ℤ a b h p = ground arith

ltb_ℤ-true : (a b : ℤ) → (b ≤ℤ a → ⊥) → ltb_ℤ a b ≡ true
ltb_ℤ-true a b h = elim (Bool-cases (ltb_ℤ a b)) [
  | inl less ↦ less
  | inr not_less ↦ absurd (h (ground arith))
]

one_ℤ : (a : ℤ) → ltb_ℤ (pos 0) a ≡ true → pos 1 ≤ℤ a
one_ℤ a h = ground arith

positive_ℤ : (a : ℤ) → pos 1 ≤ℤ a → ltb_ℤ (pos 0) a ≡ true
positive_ℤ a h = ground arith

when_true-some :
    (b : Bool) (given reason : Text)
    → when_true b given ≡ returned (some reason)
    → (b ≡ true) × (given ≡ reason)
when_true-some true given reason h = (refl, cc)
when_true-some false given reason h = cc

when_true-raised :
    {A : Type 0} (b : Bool) (given : Text) (code : ExitError) → when_true b given ≡ raised code → A
when_true-raised true given code h = cc
when_true-raised false given code h = cc

approving :
    (o : Option TurnResponse)
    → is_approved o ≡ true
    → (resp : TurnResponse) × (o ≡ some resp) × (resp.self_eval ≡ confident) × (resp.done ≡ true)
approving none h = cc
approving (some resp) h =
    let (sure, done) = and_eq_true (is_confident resp.self_eval) resp.done h in
    (resp, refl, sure_lem resp.self_eval sure, done)
  where
    sure_lem : (s : SelfEval) → is_confident s ≡ true → s ≡ confident
    sure_lem confident q = refl
    sure_lem _ q = cc

module _ (e : Evaluator) (st : ExitState) where
  pub met :
      (cond : ExitCondition) (reason : Text)
      → Meets e st cond reason
      → evaluate_one e st cond ≡ returned (some reason)
  unfolding evaluate_one shell_predicate run_shell_predicate
  met cond reason (no_turns p) =
      ap (λ b. when_true b reason) (leb_ℤ-true st.budget.turns_left (pos 0) p)
  met cond reason (no_tokens p) =
      ap (λ b. when_true b reason) (leb_ℤ-true st.budget.tokens_left (pos 0) p)
  met cond reason (too_late late) =
      ap (λ b. when_true b reason) (ltb_ℤ-true (st.start_time +ℤ st.deadline_ms) e.now late)
  met cond reason (approved resp last sure done) =
      ap (λ o. when_true (is_approved o) reason) last
      ∙ ap (λ s. when_true (is_confident s && resp.done) reason) sure
      ∙ ap (λ b. when_true b reason) done
  met cond reason (dry p q) =
      ap (λ b. when_true (b && leb_ℤ st.budget.dry_rounds_threshold st.dry_rounds) reason)
        (positive_ℤ st.budget.dry_rounds_threshold p)
      ∙ ap (λ b. when_true b reason) (leb_ℤ-true st.budget.dry_rounds_threshold st.dry_rounds q)
  met cond reason (no_way_on _ six found) =
      let many : ltb (length st.records) 6 ≡ false = ground arith in rw (many, found) refl
  met cond reason (command_succeeds _ _ tests allowed good) = rw (allowed, good) refl
  met cond reason (command_succeeds _ _ artifacts allowed good) = rw (allowed, good) refl

  raised-injective :
      {a b : ExitError} → ◌≡◌ {A = Attempt ExitError (Option Text)} (raised a) (raised b) → a ≡ b
  raised-injective q = cc

  run_shell_predicate-some :
      (cond : ExitCondition) (given reason : Text) (c : CommandEnd)
      → e.command cond ≡ c
      → run_shell_predicate e cond given ≡ returned (some reason)
      → (e.command cond ≡ succeeded) × (given ≡ reason)
  unfolding run_shell_predicate
  run_shell_predicate-some cond given reason succeeded q r =
      let answer : returned (some given) ≡ returned (some reason) =
        rw (run_shell_predicate, q) at r in
      (q, cc)
  run_shell_predicate-some cond given reason command_failed q r =
      let answer : ◌≡◌ {A = Attempt ExitError (Option Text)} (returned none)
          (returned (some reason)) =
        rw (run_shell_predicate, q) at r in
      cc
  run_shell_predicate-some cond given reason stopped q r =
      let answer : ◌≡◌ {A = Attempt ExitError (Option Text)} (raised (cancelled cond))
          (returned (some reason)) =
        rw (run_shell_predicate, q) at r in
      cc

  run_shell_predicate-raised :
      (cond : ExitCondition) (given : Text) (code : ExitError) (c : CommandEnd)
      → e.command cond ≡ c
      → run_shell_predicate e cond given ≡ raised code
      → (e.command cond ≡ stopped) × (cancelled cond ≡ code)
  unfolding run_shell_predicate
  run_shell_predicate-raised cond given code succeeded q r =
      let answer : ◌≡◌ {A = Attempt ExitError (Option Text)} (returned (some given)) (raised code) =
        rw (run_shell_predicate, q) at r in
      cc
  run_shell_predicate-raised cond given code command_failed q r =
      let answer : ◌≡◌ {A = Attempt ExitError (Option Text)} (returned none) (raised code) =
        rw (run_shell_predicate, q) at r in
      cc
  run_shell_predicate-raised cond given code stopped q r =
      let answer : ◌≡◌ {A = Attempt ExitError (Option Text)} (raised (cancelled cond))
          (raised code) =
        rw (run_shell_predicate, q) at r in
      (q, cc)

  refused_lem :
      (cond : ExitCondition) (given : Text)
      → e.allow_shell ≡ false
      → shell_predicate e cond given ≡ raised (predicate_disabled cond)
  unfolding shell_predicate
  refused_lem cond given refused = rw (shell_predicate, refused) refl

  allowed_lem :
      (cond : ExitCondition) (given : Text)
      → e.allow_shell ≡ true
      → shell_predicate e cond given ≡ run_shell_predicate e cond given
  unfolding shell_predicate
  allowed_lem cond given allowed = rw (shell_predicate, allowed) refl

  shell_predicate-some :
      (cond : ExitCondition) (given reason : Text)
      → IsShell cond given
      → shell_predicate e cond given ≡ returned (some reason)
      → Meets e st cond reason
  shell_predicate-some cond given reason shell h = elim (Bool-cases e.allow_shell) [
    | inr refused ↦ absurd (raised≢returned (sym (refused_lem cond given refused) ∙ h))
    | inl allowed ↦
        let (good, same) =
          run_shell_predicate-some cond given reason (e.command cond) refl
            (sym (allowed_lem cond given allowed) ∙ h) in
        command_succeeds cond reason (subst (IsShell cond) same shell) allowed good
  ]

  shell_predicate-raised :
      (cond : ExitCondition) (given : Text) (code : ExitError)
      → IsShell cond given
      → shell_predicate e cond given ≡ raised code
      → Fails e st cond code
  shell_predicate-raised cond given code shell h = elim (Bool-cases e.allow_shell) [
    | inr refused ↦
        let same : predicate_disabled cond ≡ code =
          raised-injective (sym (refused_lem cond given refused) ∙ h) in
        subst (Fails e st cond) same (disabled cond given shell refused)
    | inl allowed ↦
        let (bad, same) =
          run_shell_predicate-raised cond given code (e.command cond) refl
            (sym (allowed_lem cond given allowed) ∙ h) in
        subst (Fails e st cond) same (interrupted cond given shell allowed bad)
  ]

  Meets-by :
      (cond : ExitCondition) (b : Bool) (given reason : Text)
      → when_true b given ≡ returned (some reason)
      → (b ≡ true → Meets e st cond given)
      → Meets e st cond reason
  Meets-by cond b given reason h p =
      let (yes_b, same) = when_true-some b given reason h in subst (Meets e st cond) same (p yes_b)

  pub no_answer :
      {A : Type 0} (reason : Text)
      → ◌≡◌ {A = Attempt ExitError (Option Text)} (returned none) (returned (some reason))
      → A
  no_answer reason q = cc

  pub Meets-evaluate_one :
      (cond : ExitCondition) (reason : Text)
      → evaluate_one e st cond ≡ returned (some reason)
      → Meets e st cond reason
  unfolding evaluate_one
  Meets-evaluate_one turns_exhausted reason h =
      Meets-by turns_exhausted (leb_ℤ st.budget.turns_left (pos 0)) _ reason h
        (λ q. no_turns (le_ℤ st.budget.turns_left (pos 0) q))
  Meets-evaluate_one tokens_exhausted reason h =
      Meets-by tokens_exhausted (leb_ℤ st.budget.tokens_left (pos 0)) _ reason h
        (λ q. no_tokens (le_ℤ st.budget.tokens_left (pos 0) q))
  Meets-evaluate_one deadline_passed reason h =
      Meets-by deadline_passed (ltb_ℤ (st.start_time +ℤ st.deadline_ms) e.now) _ reason h
        (λ q. too_late (lt_ℤ (st.start_time +ℤ st.deadline_ms) e.now q))
  Meets-evaluate_one reviewer_approved reason h =
      Meets-by reviewer_approved (is_approved st.last_response) _ reason h (λ q.
        let (resp, last, sure, done) = approving st.last_response q in approved resp last sure done)
  Meets-evaluate_one dry_rounds reason h =
      Meets-by dry_rounds
        (ltb_ℤ (pos 0) st.budget.dry_rounds_threshold
          && leb_ℤ st.budget.dry_rounds_threshold st.dry_rounds)
        _ reason h
        (λ q.
          let (set, reached) =
            and_eq_true (ltb_ℤ (pos 0) st.budget.dry_rounds_threshold)
              (leb_ℤ st.budget.dry_rounds_threshold st.dry_rounds) q in
          dry (one_ℤ st.budget.dry_rounds_threshold set)
            (le_ℤ st.budget.dry_rounds_threshold st.dry_rounds reached))
  Meets-evaluate_one stuck reason h = elim (Bool-cases (ltb (length st.records) 6)) [
    | inl few ↦ no_answer reason (rw few at h)
    | inr many ↦ no_way_on reason (ground arith) (returned-injective (rw many at h))
  ]
  Meets-evaluate_one tests_pass reason h = shell_predicate-some tests_pass _ reason tests h
  Meets-evaluate_one all_artifacts_compile reason h =
      shell_predicate-some all_artifacts_compile _ reason artifacts h
  Meets-evaluate_one human_signal reason h = no_answer reason h
  Meets-evaluate_one (ExitCondition.other t) reason h = no_answer reason h

  no_error :
      {A : Type 0} {o : Option Text} (code : ExitError)
      → ◌≡◌ {A = Attempt ExitError (Option Text)} (returned o) (raised code)
      → A
  no_error code q = cc

  pub Fails-evaluate_one :
      (cond : ExitCondition) (code : ExitError)
      → evaluate_one e st cond ≡ raised code
      → Fails e st cond code
  unfolding evaluate_one
  Fails-evaluate_one turns_exhausted code h =
      when_true-raised (leb_ℤ st.budget.turns_left (pos 0)) _ code h
  Fails-evaluate_one tokens_exhausted code h =
      when_true-raised (leb_ℤ st.budget.tokens_left (pos 0)) _ code h
  Fails-evaluate_one deadline_passed code h =
      when_true-raised (ltb_ℤ (st.start_time +ℤ st.deadline_ms) e.now) _ code h
  Fails-evaluate_one reviewer_approved code h =
      when_true-raised (is_approved st.last_response) _ code h
  Fails-evaluate_one dry_rounds code h =
      when_true-raised
        (ltb_ℤ (pos 0) st.budget.dry_rounds_threshold
          && leb_ℤ st.budget.dry_rounds_threshold st.dry_rounds)
        _ code h
  Fails-evaluate_one stuck code h = elim (Bool-cases (ltb (length st.records) 6)) [
    | inl few ↦ no_error code (rw few at h)
    | inr many ↦ no_error code (rw many at h)
  ]
  Fails-evaluate_one tests_pass code h = shell_predicate-raised tests_pass _ code tests h
  Fails-evaluate_one all_artifacts_compile code h =
      shell_predicate-raised all_artifacts_compile _ code artifacts h
  Fails-evaluate_one human_signal code h = no_error code h
  Fails-evaluate_one (ExitCondition.other t) code h = no_error code h
