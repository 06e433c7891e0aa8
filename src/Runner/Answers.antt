-- ===== src/Runner/Answers.antt =====
-- internal/runner/runner.go: pollNext and postTurn against what the broker has answered.
use mathlib.Core.Path.{subst}
use rallish.Prelude.{
  true≢false, ℕ, ◌≡◌, ◌≢◌, refl, sym, ap, ◌∙◌, ◌⊎◌, inl, inr, Bool, true, false, Bool-cases, Option,
  none, some, List, [], ◌∷◌, ◌++◌, Text, codes, str_eq, str_eq→eq, eq→str_eq, arith, ◌==◌, ==_iff,
  take, drop, take-append-drop, if◌then◌else◌, Attempt, raised, returned,
}
use rallish.Contract.Turns.{TurnResponse}
use rallish.Contract.Requests.{TurnRequest}
use rallish.Runner.{
  NetError, timed_out, LoopError, build_request, unmarshal, no_data_event, marshal, do_request,
  read_sse, unexpected_status, PollError, session_gone, no_turn_yet, poll_failed, Answer, Round,
  is_transient, unmarshalled, no_more_lines, first_data, read_answer, poll_next, posted, post_body,
  post_turn,
}

-- The data of the first line of a body that begins with "data: ".
pub data FirstData : List Text → Option Text → Type 0 where
  no_lines : FirstData [] none
  here :
      {line : Text} {lines : List Text} (value : Text)
      → line ≡ codes "data: " ++ value
      → FirstData (line ∷ lines) (some value)
  later :
      {line : Text} {lines : List Text} {o : Option Text}
      → ((value : Text) → line ≡ codes "data: " ++ value → ⊥)
      → FirstData lines o
      → FirstData (line ∷ lines) o

-- The answer with this status has come.
abbrev pub Answers : Round → Answer → ℕ → Type 0
Answers r a status = (r.can_build_poll ≡ true) × (r.poll ≡ returned a) × (a.status ≡ status)

pub data Polls (r : Round) : Attempt PollError TurnRequest → Type 0 where
  gone : (a : Answer) → Answers r a 410 → Polls r (raised session_gone)
  no_turn : (a : Answer) → Answers r a 204 → Polls r (raised no_turn_yet)
  turn :
      (a : Answer) (value : Text) (req : TurnRequest)
      → Answers r a 200
      → FirstData a.lines (some value)
      → r.unmarshal_request value ≡ some req
      → Polls r (returned req)
  not_built : r.can_build_poll ≡ false → Polls r (raised (poll_failed build_request))
  not_sent :
      (err : NetError)
      → r.can_build_poll ≡ true
      → r.poll ≡ raised err
      → Polls r (raised (poll_failed (do_request err)))
  other_status :
      (a : Answer)
      → Answers r a a.status
      → a.status ≢ 410
      → a.status ≢ 204
      → a.status ≢ 200
      → Polls r (raised (poll_failed (unexpected_status a.status)))
  not_a_request :
      (a : Answer) (value : Text)
      → Answers r a 200
      → FirstData a.lines (some value)
      → r.unmarshal_request value ≡ none
      → Polls r (raised (poll_failed unmarshal))
  broken_off :
      (a : Answer) (err : NetError)
      → Answers r a 200
      → FirstData a.lines none
      → a.scan_error ≡ some err
      → Polls r (raised (poll_failed (read_sse err)))
  no_data :
      (a : Answer)
      → Answers r a 200
      → FirstData a.lines none
      → a.scan_error ≡ none
      → Polls r (raised (poll_failed no_data_event))

-- The broker takes a turn when it answers 200.
pub data Posts (r : Round) (resp : TurnResponse) : Option LoopError → Type 0 where
  taken :
      (body : Text)
      → r.marshal_response resp ≡ some body
      → r.can_build_post ≡ true
      → r.post body ≡ returned 200
      → Posts r resp none
  not_marshalled : r.marshal_response resp ≡ none → Posts r resp (some marshal)
  not_built :
      (body : Text)
      → r.marshal_response resp ≡ some body
      → r.can_build_post ≡ false
      → Posts r resp (some build_request)
  not_sent :
      (body : Text) (err : NetError)
      → r.marshal_response resp ≡ some body
      → r.can_build_post ≡ true
      → r.post body ≡ raised err
      → Posts r resp (some (do_request err))
  refused :
      (body : Text) (status : ℕ)
      → r.marshal_response resp ≡ some body
      → r.can_build_post ≡ true
      → r.post body ≡ returned status
      → status ≢ 200
      → Posts r resp (some (unexpected_status status))

-- A request that has timed out, or a body that did.
abbrev pub IsTimeOut : LoopError → Type 0
IsTimeOut e = (e ≡ do_request timed_out) ⊎ (e ≡ read_sse timed_out)

pub is_transient_lem : (e : LoopError) → is_transient e ≡ true → IsTimeOut e
is_transient_lem (do_request timed_out) h = inl refl
is_transient_lem (read_sse timed_out) h = inr refl
is_transient_lem _ h = cc

pub is_transient-false : (e : LoopError) → is_transient e ≡ false → IsTimeOut e → ⊥
is_transient-false e h (inl same) = true≢false (sym (ap is_transient same) ∙ h)
is_transient-false e h (inr same) = true≢false (sym (ap is_transient same) ∙ h)

first_data_lem :
    (r : Round) (scan_error : Option NetError) (lines : List Text)
    → ((value : Text) × FirstData lines (some value)
        × (first_data r scan_error lines ≡ unmarshalled (r.unmarshal_request value)))
      ⊎ (FirstData lines none × (first_data r scan_error lines ≡ no_more_lines scan_error))
unfolding first_data
first_data_lem r scan_error [] = inr (no_lines, refl)
first_data_lem r scan_error (line ∷ lines) =
    elim (Bool-cases (str_eq (take 6 line) (codes "data: "))) [
      | inl is_data ↦
          let same : line ≡ codes "data: " ++ drop 6 line =
            sym (take-append-drop 6 line) ∙ ap (λ t. t ++ drop 6 line) (str_eq→eq _ _ is_data) in
          inl (drop 6 line, here (drop 6 line) same, rw (first_data, is_data) refl)
      | inr other ↦
          let differs : (value : Text) → line ≡ codes "data: " ++ value → ⊥ =
            λ value same. true≢false (sym (eq→str_eq _ _ (ap (take 6) same)) ∙ other) in
          elim (first_data_lem r scan_error lines) [
            | inl (value, first, found) ↦
                inl (value, later differs first, rw (first_data, other) found)
            | inr (first, found) ↦ inr (later differs first, rw (first_data, other) found)
          ]
    ]

module _ (r : Round) (built : r.can_build_poll ≡ true) (a : Answer) (came : r.poll ≡ returned a)
    (ok_status : a.status ≡ 200) where
  unmarshalled-Polls :
      (value : Text) (o : Option TurnRequest)
      → FirstData a.lines (some value)
      → r.unmarshal_request value ≡ o
      → Polls r (unmarshalled o)
  unmarshalled-Polls value none first q = not_a_request a value (built, came, ok_status) first q
  unmarshalled-Polls value (some req) first q = turn a value req (built, came, ok_status) first q

  no_more_lines-Polls :
      (o : Option NetError) → FirstData a.lines none → a.scan_error ≡ o → Polls r (no_more_lines o)
  no_more_lines-Polls none first q = no_data a (built, came, ok_status) first q
  no_more_lines-Polls (some err) first q = broken_off a err (built, came, ok_status) first q

  first_data-Polls : Polls r (first_data r a.scan_error a.lines)
  first_data-Polls = elim (first_data_lem r a.scan_error a.lines) [
    | inl (value, first, found) ↦
        subst (Polls r) (sym found)
          (unmarshalled-Polls value (r.unmarshal_request value) first refl)
    | inr (first, found) ↦ subst (Polls r) (sym found) (no_more_lines-Polls a.scan_error first refl)
  ]

other_number : (a b : ℕ) → (a == b) ≡ false → a ≢ b
other_number a b h same = ground arith

read_answer-Polls :
    (r : Round) (answer : Attempt NetError Answer)
    → r.can_build_poll ≡ true
    → r.poll ≡ answer
    → Polls r (read_answer r answer)
read_answer-Polls r (raised err) built came = not_sent err built came
read_answer-Polls r (returned a) built came = elim (Bool-cases (a.status == 410)) [
  | inl at_410 ↦ rw at_410 (gone a (built, came, (==_iff a.status 410).0 at_410))
  | inr not_410 ↦ elim (Bool-cases (a.status == 204)) [
    | inl at_204 ↦ rw (not_410, at_204) (no_turn a (built, came, (==_iff a.status 204).0 at_204))
    | inr not_204 ↦ elim (Bool-cases (a.status == 200)) [
      | inl at_200 ↦
          rw (not_410, not_204, at_200)
            (first_data-Polls r built a came ((==_iff a.status 200).0 at_200))
      | inr not_200 ↦
          rw (not_410, not_204, not_200)
            (other_status a (built, came, refl) (other_number a.status 410 not_410)
              (other_number a.status 204 not_204) (other_number a.status 200 not_200))
    ]
  ]
]

pub poll_next-Polls : (r : Round) → Polls r (poll_next r)
unfolding poll_next
poll_next-Polls r = go r.can_build_poll refl
  where
    go :
        (b : Bool)
        → r.can_build_poll ≡ b
        → Polls r (if b then read_answer r r.poll else raised (poll_failed build_request))
    go true built = read_answer-Polls r r.poll built refl
    go false failed = Polls.not_built failed

module _ (r : Round) (resp : TurnResponse) (body : Text)
    (line : r.marshal_response resp ≡ some body) where
  posted-Posts :
      (answer : Attempt NetError ℕ)
      → r.can_build_post ≡ true
      → r.post body ≡ answer
      → Posts r resp (posted answer)
  posted-Posts (raised err) built came = Posts.not_sent body err line built came
  posted-Posts (returned status) built came = elim (Bool-cases (status == 200)) [
    | inl at_200 ↦
        rw at_200 (taken body line built (came ∙ ap returned ((==_iff status 200).0 at_200)))
    | inr not_200 ↦
        rw not_200 (refused body status line built came (other_number status 200 not_200))
  ]

  built-Posts :
      (b : Bool)
      → r.can_build_post ≡ b
      → Posts r resp (if b then posted (r.post body) else some build_request)
  built-Posts true built = posted-Posts (r.post body) built refl
  built-Posts false failed = Posts.not_built body line failed

post_body-Posts :
    (r : Round) (resp : TurnResponse) (o : Option Text)
    → r.marshal_response resp ≡ o
    → Posts r resp (post_body r o)
post_body-Posts r resp none q = not_marshalled q
post_body-Posts r resp (some body) q = built-Posts r resp body q r.can_build_post refl

pub post_turn-Posts : (r : Round) (resp : TurnResponse) → Posts r resp (post_turn r resp)
unfolding post_turn
post_turn-Posts r resp = post_body-Posts r resp (r.marshal_response resp) refl
