-- ===== src/Runner/Rounds.antt =====
-- internal/runner/runner.go: Run against the rounds that keep it going and the one that ends it.
use rallish.Prelude.{
  ◌≡◌, refl, ap, Bool, true, false, if◌then◌else◌, Option, none, some, List, [], ◌∷◌, ◌++◌, All,
  Attempt, raised, returned,
}
use rallish.Contract.Turns.{TurnResponse}
use rallish.Contract.Requests.{TurnRequest}
use rallish.Runner.Answers.{
  Polls, Posts, IsTimeOut, is_transient_lem, is_transient-false, poll_next-Polls, post_turn-Posts,
}
use rallish.Runner.{
  Round, RoundEnd, goes_on, ended, RunError, context_done, adapter_error, poll_error, post_error,
  LoopError, PollError, session_gone, no_turn_yet, poll_failed, is_transient, poll_next, post_turn,
  after_post, after_adapter, after_poll, run_round, run_rounds,
}

-- A round in which the broker had no turn, a request timed out, or the broker took a turn that is not the
-- last.
pub data Continues (r : Round) : Type 0 where
  waits : r.ctx_done ≡ false → Polls r (raised no_turn_yet) → Continues r
  poll_timed_out :
      (e : LoopError)
      → r.ctx_done ≡ false
      → Polls r (raised (poll_failed e))
      → IsTimeOut e
      → Continues r
  post_timed_out :
      (req : TurnRequest) (resp : TurnResponse) (e : LoopError)
      → r.ctx_done ≡ false
      → Polls r (returned req)
      → r.adapter req ≡ some resp
      → Posts r resp (some e)
      → IsTimeOut e
      → Continues r
  took_turn :
      (req : TurnRequest) (resp : TurnResponse)
      → r.ctx_done ≡ false
      → Polls r (returned req)
      → r.adapter req ≡ some resp
      → Posts r resp none
      → resp.done ≡ false
      → Continues r

-- A round that ends the loop, with its error or with none.
pub data Ends (r : Round) : Option RunError → Type 0 where
  cancelled : r.ctx_done ≡ true → Ends r (some context_done)
  gone : r.ctx_done ≡ false → Polls r (raised session_gone) → Ends r none
  polls_badly :
      (e : LoopError)
      → r.ctx_done ≡ false
      → Polls r (raised (poll_failed e))
      → (IsTimeOut e → ⊥)
      → Ends r (some (poll_error e))
  runs_badly :
      (req : TurnRequest)
      → r.ctx_done ≡ false
      → Polls r (returned req)
      → r.adapter req ≡ none
      → Ends r (some adapter_error)
  posts_badly :
      (req : TurnRequest) (resp : TurnResponse) (e : LoopError)
      → r.ctx_done ≡ false
      → Polls r (returned req)
      → r.adapter req ≡ some resp
      → Posts r resp (some e)
      → (IsTimeOut e → ⊥)
      → Ends r (some (post_error e))
  took_last_turn :
      (req : TurnRequest) (resp : TurnResponse)
      → r.ctx_done ≡ false
      → Polls r (returned req)
      → r.adapter req ≡ some resp
      → Posts r resp none
      → resp.done ≡ true
      → Ends r none

abbrev Settled : Round → RoundEnd → Type 0
Settled r goes_on = Continues r
Settled r (ended outcome) = Ends r outcome

if-Settled :
    (r : Round) (b : Bool) (x y : RoundEnd)
    → (b ≡ true → Settled r x)
    → (b ≡ false → Settled r y)
    → Settled r (if b then x else y)
if-Settled r true x y p q = p refl
if-Settled r false x y p q = q refl

module _ (r : Round) (live : r.ctx_done ≡ false) where
  after_post-Settled :
      (req : TurnRequest) (resp : TurnResponse) (o : Option LoopError)
      → Polls r (returned req)
      → r.adapter req ≡ some resp
      → Posts r resp o
      → Settled r (after_post resp o)
  after_post-Settled req resp (some e) p a q =
      if-Settled r (is_transient e) goes_on (ended (some (post_error e)))
        (λ t. post_timed_out req resp e live p a q (is_transient_lem e t))
        (λ t. posts_badly req resp e live p a q (is_transient-false e t))
  after_post-Settled req resp none p a q =
      if-Settled r resp.done (ended none) goes_on (took_last_turn req resp live p a q)
        (took_turn req resp live p a q)

  after_adapter-Settled :
      (req : TurnRequest) (o : Option TurnResponse)
      → Polls r (returned req)
      → r.adapter req ≡ o
      → Settled r (after_adapter r o)
  after_adapter-Settled req none p a = runs_badly req live p a
  after_adapter-Settled req (some resp) p a =
      after_post-Settled req resp (post_turn r resp) p a (post_turn-Posts r resp)

  after_poll-Settled :
      (answer : Attempt PollError TurnRequest) → Polls r answer → Settled r (after_poll r answer)
  after_poll-Settled (raised session_gone) p = gone live p
  after_poll-Settled (raised no_turn_yet) p = waits live p
  after_poll-Settled (raised (poll_failed e)) p =
      if-Settled r (is_transient e) goes_on (ended (some (poll_error e)))
        (λ t. poll_timed_out e live p (is_transient_lem e t))
        (λ t. polls_badly e live p (is_transient-false e t))
  after_poll-Settled (returned req) p = after_adapter-Settled req (r.adapter req) p refl

run_round-Settled : (r : Round) → Settled r (run_round r)
unfolding run_round
run_round-Settled r =
    if-Settled r r.ctx_done (ended (some context_done)) (after_poll r (poll_next r)) cancelled
      (λ live. after_poll-Settled r live (poll_next r) (poll_next-Polls r))

-- The rounds up to the one that ends the loop.
pub record EndsAt (rounds : List Round) (outcome : Option RunError) : Type 0 where
  pub before : List Round
  pub last : Round
  pub rest : List Round
  pub same : rounds ≡ before ++ last ∷ rest
  pub all_continue : All Continues before
  pub ends : Ends last outcome

abbrev pub Ran : List Round → RoundEnd → Type 0
Ran rounds goes_on = All Continues rounds
Ran rounds (ended outcome) = EndsAt rounds outcome

-- Run goes on as long as its rounds continue, and ends in the first round that does not, without an error
-- only when the broker answers that the session is gone or has taken a turn that is done.
pub run_rounds-Ran : (rounds : List Round) → Ran rounds (run_rounds rounds)
unfolding run_rounds
run_rounds-Ran [] = tt
run_rounds-Ran (r ∷ rounds) =
    after (run_round r) (run_round-Settled r) (run_rounds rounds) (run_rounds-Ran rounds)
  where
    later : (o : RoundEnd) → Continues r → Ran rounds o → Ran (r ∷ rounds) o
    later goes_on c all = (c, all)
    later (ended outcome) c d = record {
      before = r ∷ d.before;
      last = d.last;
      rest = d.rest;
      same = ap (◌∷◌ r) d.same;
      all_continue = (c, d.all_continue);
      ends = d.ends;
    }

    after :
        (o : RoundEnd)
        → Settled r o
        → (rest : RoundEnd) → Ran rounds rest
        → Ran (r ∷ rounds) (elim o [ ended outcome ↦ ended outcome | goes_on ↦ rest ])
    after goes_on c rest ran = later rest c ran
    after (ended outcome) e rest ran = record {
      before = [];
      last = r;
      rest = rounds;
      same = refl;
      all_continue = tt;
      ends = e;
    }
