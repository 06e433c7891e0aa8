-- ===== src/Tests/Sessions.antt =====
-- The theorems on sessions, at a preset of two roles.
use rallish.Prelude.{
  ℕ, suc, ◌≡◌, refl, ◌↔◌, true, false, none, some, [], ◌∷◌, Text, codes, arith, raised,
}
use rallish.Prelude.Int.{pos}
use rallish.Contract.Requests.{Preset, Role, reviewer_approved, tests_pass, turns_exhausted}
use rallish.Cycle.Budget.{Budget}
use rallish.Session.Records.{TurnRecord, dry_rounds, detect_no_progress}
use rallish.Session.Dryness.{EndsDry}
use rallish.Session.Progress.{dry_rounds-EndsDry, detect_no_progress-EndsDry}
use rallish.Session.Router.{next_role}
use rallish.Session.Routes.{IsRouted, next_role-IsRouted}
use rallish.Session.Exit.{Evaluator, ExitState, predicate_disabled, stopped, evaluate}
use rallish.Session.Conditions.{Ends}
use rallish.Session.Endings.{evaluate-Ends}
use rallish.Tests.Stores.{response}

abbrev budget : Budget
budget = record {
  tokens_left = pos 100;
  turns_left = pos 0;
  deadline_ms = pos 1000;
  dry_rounds_threshold = pos 3;
}

abbrev role : Text → Role
role id = record { id = id; runtime = codes "claude"; model = [] }

abbrev pub preset : Preset
preset = record {
  name = codes "pair";
  description = [];
  roles = role (codes "author") ∷ role (codes "reviewer") ∷ [];
  routing = codes "last_writer_wins";
  budget = budget;
  exit_when = reviewer_approved ∷ tests_pass ∷ turns_exhausted ∷ [];
  scratch = record { max_kb = pos 1; summarize_with = [] };
}

abbrev exit_state : ExitState
exit_state = record {
  turn_count = pos 2;
  usage = record { tokens_in = pos 0; tokens_out = pos 0; ms = pos 0 };
  budget = budget;
  start_time = pos 0;
  last_response = some response;
  deadline_ms = pos 1000;
  dry_rounds = pos 0;
  records = [];
}

abbrev evaluator : Evaluator
evaluator = record {
  allow_shell = false;
  now = pos 5;
  command = λ cond. stopped;
  quote_list = λ ts. [];
  is_done = λ i. false;
}

-- The disabled predicate of the tests decides, before the turns that are used up.
evaluate_disabled :
    evaluate evaluator exit_state preset.exit_when ≡ raised (predicate_disabled tests_pass)
unfolding evaluate
evaluate_disabled = refl

evaluate-Ends_example :
    Ends evaluator exit_state 0 preset.exit_when (evaluate evaluator exit_state preset.exit_when)
evaluate-Ends_example = evaluate-Ends evaluator exit_state preset.exit_when

next_role-IsRouted_example :
    IsRouted preset (omega arith) (next_role false preset (some response) (pos 2))
next_role-IsRouted_example = next_role-IsRouted preset (omega arith) false (some response) (pos 2)

abbrev pub turn : TurnRecord
turn = record {
  turn = pos 1;
  time = pos 0;
  req = record {
    session = codes "s1";
    turn = pos 1;
    role = codes "author";
    runtime_hint = [];
    model_hint = [];
    budget = budget;
    scratch_path = [];
    scratch = [];
    last_turn = none;
    task = record { title = []; body = []; repo_root = [] };
    work_contract = none;
    exit_when = [];
  };
  resp = response;
}

dry_rounds-EndsDry_example :
    (dry_rounds (turn ∷ turn ∷ []) (pos 2) ≡ true)
    ↔ ((k : ℕ) × (pos 2 ≡ pos (suc k)) × EndsDry [] (suc k) (turn ∷ turn ∷ []))
dry_rounds-EndsDry_example = dry_rounds-EndsDry (turn ∷ turn ∷ []) (pos 2)

two_dry : dry_rounds (turn ∷ turn ∷ []) (pos 2) ≡ true
unfolding dry_rounds
two_dry = refl

detect_no_progress-EndsDry_example :
    (detect_no_progress (turn ∷ turn ∷ turn ∷ turn ∷ turn ∷ turn ∷ []) ≡ some (codes "no progress"))
    ↔ EndsDry [] 6 (turn ∷ turn ∷ turn ∷ turn ∷ turn ∷ turn ∷ [])
detect_no_progress-EndsDry_example =
    detect_no_progress-EndsDry (turn ∷ turn ∷ turn ∷ turn ∷ turn ∷ turn ∷ [])
