-- ===== src/Runner.antt =====
-- internal/runner/runner.go: the loop that takes an agent's turns from the broker. One value of Round holds
-- what one pass of the loop is given from outside: the context, net/http with the broker's answers, the
-- adapter, and encoding/json.
use rallish.Prelude.{
  ℕ, Bool, true, false, Option, none, some, List, [], ◌∷◌, Text, codes, ◌==◌, if◌then◌else◌, str_eq,
  take, drop, Attempt, raised, returned,
}
use rallish.Contract.Turns.{TurnResponse}
use rallish.Contract.Requests.{TurnRequest}
pub mod Answers
pub mod Rounds

-- An error of net/http or of the reader of a body: a net.Error that is a time-out, or another.
pub data NetError : Type 0 where
  timed_out broken : NetError

pub data LoopError : Type 0 where
  build_request unmarshal no_data_event marshal : LoopError
  do_request read_sse : NetError → LoopError
  unexpected_status : ℕ → LoopError

pub data PollError : Type 0 where
  session_gone no_turn_yet : PollError
  poll_failed : LoopError → PollError

-- The lines that bufio's Scanner gives of the body, and its error after them.
pub record Answer : Type 0 where
  pub status : ℕ
  pub lines : List Text
  pub scan_error : Option NetError

pub record Round : Type 0 where
  pub ctx_done : Bool
  pub can_build_poll : Bool
  pub poll : Attempt NetError Answer
  pub unmarshal_request : Text → Option TurnRequest
  pub adapter : TurnRequest → Option TurnResponse
  pub marshal_response : TurnResponse → Option Text
  pub can_build_post : Bool
  pub post : Text → Attempt NetError ℕ

-- What a pass of the loop comes to: `ended none` is the nil error.
pub data RunError : Type 0 where
  context_done adapter_error : RunError
  poll_error post_error : LoopError → RunError

pub data RoundEnd : Type 0 where
  goes_on : RoundEnd
  ended : Option RunError → RoundEnd

abbrev pub is_transient : LoopError → Bool
is_transient (do_request timed_out) = true
is_transient (read_sse timed_out) = true
is_transient _ = false

abbrev pub unmarshalled : Option TurnRequest → Attempt PollError TurnRequest
unmarshalled none = raised (poll_failed unmarshal)
unmarshalled (some req) = returned req

abbrev pub no_more_lines : Option NetError → Attempt PollError TurnRequest
no_more_lines none = raised (poll_failed no_data_event)
no_more_lines (some e) = raised (poll_failed (read_sse e))

unfoldable pub first_data : Round → Option NetError → List Text → Attempt PollError TurnRequest
unfolding str_eq
first_data r scan_error [] = no_more_lines scan_error
first_data r scan_error (line ∷ lines) =
    let rest : Attempt PollError TurnRequest = first_data r scan_error lines in
    if str_eq (take 6 line) (codes "data: ")
    then unmarshalled (r.unmarshal_request (drop 6 line))
    else rest

abbrev pub read_answer : Round → Attempt NetError Answer → Attempt PollError TurnRequest
read_answer r (raised e) = raised (poll_failed (do_request e))
read_answer r (returned a) =
    if a.status == 410
    then raised session_gone
    else if a.status == 204
    then raised no_turn_yet
    else if a.status == 200
    then first_data r a.scan_error a.lines
    else raised (poll_failed (unexpected_status a.status))

unfoldable pub poll_next : Round → Attempt PollError TurnRequest
unfolding first_data
poll_next r = if r.can_build_poll then read_answer r r.poll else raised (poll_failed build_request)

abbrev pub posted : Attempt NetError ℕ → Option LoopError
posted (raised e) = some (do_request e)
posted (returned status) = if status == 200 then none else some (unexpected_status status)

abbrev pub post_body : Round → Option Text → Option LoopError
post_body r none = some marshal
post_body r (some body) = if r.can_build_post then posted (r.post body) else some build_request

unfoldable pub post_turn : Round → TurnResponse → Option LoopError
post_turn r resp = post_body r (r.marshal_response resp)

abbrev pub after_post : TurnResponse → Option LoopError → RoundEnd
after_post resp (some e) = if is_transient e then goes_on else ended (some (post_error e))
after_post resp none = if resp.done then ended none else goes_on

abbrev pub after_adapter : Round → Option TurnResponse → RoundEnd
after_adapter r none = ended (some adapter_error)
after_adapter r (some resp) = after_post resp (post_turn r resp)

abbrev pub after_poll : Round → Attempt PollError TurnRequest → RoundEnd
after_poll r (raised session_gone) = ended none
after_poll r (raised no_turn_yet) = goes_on
after_poll r (raised (poll_failed e)) =
    if is_transient e then goes_on else ended (some (poll_error e))
after_poll r (returned req) = after_adapter r (r.adapter req)

unfoldable pub run_round : Round → RoundEnd
unfolding poll_next post_turn
run_round r = if r.ctx_done then ended (some context_done) else after_poll r (poll_next r)

-- The loop on the rounds that have come; `goes_on` waits for the next.
unfoldable pub run_rounds : List Round → RoundEnd
unfolding run_round
run_rounds [] = goes_on
run_rounds (r ∷ rounds) = elim (run_round r) [
  | ended outcome ↦ ended outcome
  | goes_on ↦ run_rounds rounds
]
