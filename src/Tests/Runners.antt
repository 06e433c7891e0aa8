-- ===== src/Tests/Runners.antt =====
-- The theorem on the runner's loop, in two rounds.
use rallish.Prelude.{◌≡◌, refl, true, false, none, some, [], ◌∷◌, codes, returned}
use rallish.Runner.{Round, ended, run_rounds}
use rallish.Runner.Rounds.{Ran, run_rounds-Ran}
use rallish.Tests.Stores.{response}
use rallish.Tests.Sessions.{turn}

abbrev quiet_round : Round
quiet_round = record {
  ctx_done = false;
  can_build_poll = true;
  poll = returned (record { status = 204; lines = []; scan_error = none });
  unmarshal_request = λ t. some turn.req;
  adapter = λ req. some (record response { done = true });
  marshal_response = λ resp. some (codes "{}");
  can_build_post = true;
  post = λ body. returned 200;
}

abbrev last_round : Round
last_round = record quiet_round {
  poll = returned (record {
    status = 200;
    lines = codes "event: turn" ∷ codes "data: {}" ∷ [];
    scan_error = none;
  });
}

-- No turn, and then the last one.
two_rounds : run_rounds (quiet_round ∷ last_round ∷ []) ≡ ended none
unfolding run_rounds
two_rounds = refl

run_rounds-Ran_example :
    Ran (quiet_round ∷ last_round ∷ []) (run_rounds (quiet_round ∷ last_round ∷ []))
run_rounds-Ran_example = run_rounds-Ran (quiet_round ∷ last_round ∷ [])
