-- ===== src/Tests/Rallies.antt =====
-- The theorems on rally mode, at a session of three participants.
use rallish.Prelude.{
  ◌≢◌, ◌++◌, ℕ, ◌+◌, ◌%◌, ◌≡◌, refl, true, List, [], ◌∷◌, none, some, arith, Text, codes, length,
  str_eq, lookup,
}
use rallish.Prelude.Int.{pos}
use rallish.Rally.Types.{
  Result, ok, NewRallyRequest, DoneRequest, RallySession, rally_turn_state, new_session_id,
  matches_name, matches_session_id,
}
use rallish.Rally.Session.{
  Session, participant_at, next_participant, generate_rally_id, to_public, is_member,
}
use rallish.Rally.Channels.{empty_channel, receive, event}
use rallish.Rally.Store.{
  Store, assign_first_holder, idle_session, new_session, join_rally, streaming, register,
}
use rallish.Rally.Baton.{
  advance_rally_baton, pass_baton, check_turn, hand_over, close_all_rallies, interrupted,
}
use rallish.Rally.Validity.{IsValid, AreDistinct}
use rallish.Rally.Lifecycle.{new_session-IsValid, hand_over-IsValid}
use rallish.Rally.System.{
  System, Call, create, join, done, interrupt, close_all, close_pending, receive_from, leave, run,
  step, new_system,
}
use rallish.Rally.Sound.{IsSound}
use rallish.Rally.Progress.{run-IsSound}
use rallish.Rally.Turns.{AdvanceOutcome, advance_rally_baton-outcome}
use rallish.Rally.Final.{IsEnded, close_all_rallies-IsEnded}
use rallish.Rally.Absorbing.{step-IsEnded}
use rallish.Rally.RoundRobin.{after_turns, after_turns-participant_at}
use rallish.Rally.Delivery.{turn_event, pass_baton-receive, join_rally-hand_over}
use rallish.Rally.Types.{Pattern, pattern_name, pattern_tag, parse_pattern, trim_left_spaces}
use rallish.Rally.Patterns.{parse_pattern-pattern_name}
use rallish.Rally.Ids.{generate_rally_id-IsAccepted}

abbrev rally_id : Text
rally_id = codes "rly_7_00ff"

abbrev alice : Text
alice = codes "alice"

abbrev bob : Text
bob = codes "bob"

abbrev carol : Text
carol = codes "carol"

abbrev three_names : List Text
three_names = alice ∷ bob ∷ carol ∷ []

abbrev request : NewRallyRequest
request = record {
  participants = three_names;
  repo = codes "rallish";
  task = codes "[pattern:cycle] fix it";
  first_holder = alice;
}

abbrev to_next : DoneRequest
to_next = record { note = codes "your turn"; handoff_to = [] }

abbrev to_carol : DoneRequest
to_carol = record { note = codes "please"; handoff_to = carol }

-- Alice's session.
abbrev held_session : Session
held_session = assign_first_holder alice (pos 5) (idle_session rally_id (pos 5) three_names request)

-- The calls of a rally that is interrupted while participants are connected.
abbrev rally_calls : List Call
rally_calls =
    create rally_id (pos 5) request
    ∷ join rally_id alice (pos 6)
    ∷ join rally_id bob (pos 7)
    ∷ receive_from 0
    ∷ done rally_id alice to_next (pos 8)
    ∷ receive_from 1
    ∷ done rally_id bob to_carol (pos 9)
    ∷ interrupt rally_id
    ∷ close_pending 1
    ∷ leave rally_id alice
    ∷ close_pending 0
    ∷ close_all
    ∷ []

run-IsSound_example : (sys : System) × (run rally_calls new_system ≡ some sys) × IsSound sys
run-IsSound_example = run-IsSound rally_calls

abbrev connected_session : Session
connected_session = record held_session { streams = (bob, 0) ∷ [] }

abbrev one_session : Store
one_session = record { sessions = (rally_id, connected_session) ∷ []; heap = empty_channel ∷ [] }

-- Alice's pass is accepted, and Bob's is refused.
abbrev after_pass : Store × Result RallySession
after_pass = elim (advance_rally_baton rally_id alice to_next (pos 8) one_session) [
  | none ↦ (one_session, ok (to_public held_session))
  | some result ↦ result
]

pass_returns : advance_rally_baton rally_id alice to_next (pos 8) one_session ≡ some after_pass
unfolding advance_rally_baton
pass_returns = refl

advance_rally_baton-outcome_example :
    AdvanceOutcome rally_id alice to_next (pos 8) one_session after_pass.0 after_pass.1
advance_rally_baton-outcome_example =
    advance_rally_baton-outcome rally_id alice to_next (pos 8) one_session after_pass.0 after_pass.1
      pass_returns

abbrev ended_system : System
ended_system = record {
  store = record one_session { sessions = (rally_id, interrupted connected_session) ∷ [] };
  to_close = 0 ∷ [];
}

session-IsEnded : IsEnded rally_id ended_system.store.sessions
unfolding lookup str_eq
session-IsEnded = (interrupted connected_session, refl, refl)

abbrev after_join : System
after_join = elim (step (join rally_id bob (pos 9)) ended_system) [
  | none ↦ new_system
  | some sys ↦ sys
]

join_returns : step (join rally_id bob (pos 9)) ended_system ≡ some after_join
unfolding step matches_session_id matches_name
join_returns = refl

step-IsEnded_example : IsEnded rally_id after_join.store.sessions
step-IsEnded_example =
    step-IsEnded (join rally_id bob (pos 9)) ended_system after_join rally_id refl join_returns
      session-IsEnded

abbrev after_close : Store × List ℕ
after_close = elim (close_all_rallies one_session) [ none ↦ (one_session, []) | some r ↦ r ]

close_returns : close_all_rallies one_session ≡ some after_close
unfolding close_all_rallies rally_turn_state
close_returns = refl

connected_found : lookup rally_id one_session.sessions ≡ some connected_session
unfolding lookup str_eq
connected_found = refl

close_all_rallies-IsEnded_example : IsEnded rally_id after_close.0.sessions
close_all_rallies-IsEnded_example =
    close_all_rallies-IsEnded one_session after_close.0 after_close.1 close_returns rally_id
      connected_session connected_found

three_distinct : AreDistinct three_names
unfolding is_member str_eq
three_distinct = (refl, (refl, (refl, tt)))

after_turns-participant_at_example :
    after_turns three_names 5 (participant_at three_names 1)
    ≡ participant_at three_names ((1 + 5) % length three_names)
after_turns-participant_at_example =
    after_turns-participant_at three_names 1 5 three_distinct (omega arith)

bob_is_next :
    lookup (next_participant connected_session.participants alice []) connected_session.streams
    ≡ some 0
unfolding next_participant lookup
bob_is_next = refl

pass_baton-receive_example :
    (store' : Store) × (public : RallySession) × (pass_baton rally_id alice
        (codes "go")
        (pos 8)
        connected_session
        []
        one_session
      ≡ some (store', public))
    × ((receive store'.heap 0).1 ≡ event (turn_event connected_session alice (codes "go")))
pass_baton-receive_example =
    pass_baton-receive rally_id alice (codes "go") (pos 8) connected_session [] one_session 0
      bob_is_next refl

abbrev handed_store : Store
handed_store = record {
  sessions = (rally_id, hand_over held_session alice carol (codes "go") (pos 8)) ∷ [];
  heap = [];
}

handed_found :
    lookup rally_id handed_store.sessions
    ≡ some (hand_over held_session alice carol (codes "go") (pos 8))
unfolding lookup str_eq
handed_found = refl

carol-is_member : is_member held_session.participants carol ≡ true
unfolding is_member str_eq
carol-is_member = refl

no_streams : lookup carol held_session.streams ≡ none
unfolding lookup
no_streams = refl

join_rally-hand_over_example :
    (store' : Store) × (join_rally rally_id carol (pos 9) handed_store ≡ some (store', streaming 0))
    × ((receive store'.heap 0).1 ≡ event (turn_event held_session alice (codes "go")))
    × (lookup rally_id store'.sessions
        ≡ some (register (hand_over held_session alice carol (codes "go") (pos 8)) carol 0 (pos 9)))
join_rally-hand_over_example =
    join_rally-hand_over rally_id alice carol (codes "go") (pos 8) (pos 9) held_session handed_store
      handed_found carol-is_member no_streams

generate_rally_id-IsAccepted_example :
    new_session_id (generate_rally_id 1717 (0 ∷ 255 ∷ []))
    ≡ ok (generate_rally_id 1717 (0 ∷ 255 ∷ []))
generate_rally_id-IsAccepted_example =
    generate_rally_id-IsAccepted 1717 0 255 (omega arith) (omega arith)

session_made : new_session rally_id (pos 5) request ≡ ok held_session
unfolding new_session matches_name str_eq
session_made = refl

new_session-IsValid_example :
    IsValid held_session
    × (held_session.participants ≡ request.participants)
    × (held_session.holder ≡ request.first_holder)
    × (held_session.streams ≡ [])
new_session-IsValid_example = new_session-IsValid rally_id (pos 5) request held_session session_made

alice_may_pass : check_turn held_session alice carol ≡ ok tt
unfolding check_turn rally_turn_state
alice_may_pass = refl

alice_named : matches_name alice ≡ true
unfolding matches_name
alice_named = refl

held-IsValid : IsValid held_session
held-IsValid = (new_session-IsValid rally_id (pos 5) request held_session session_made).0

hand_over-IsValid_example : IsValid (
    hand_over held_session alice
      (next_participant held_session.participants alice carol)
      (codes "go")
      (pos 8))
hand_over-IsValid_example =
    hand_over-IsValid held_session alice carol (codes "go") (pos 8) held-IsValid alice_named
      alice_may_pass

cycle_known : Pattern.cycle ≢ Pattern.unknown
cycle_known e = cc

fix_trimmed : trim_left_spaces (codes "fix it") ≡ codes "fix it"
unfolding trim_left_spaces
fix_trimmed = refl

parse_pattern-pattern_name_example :
    parse_pattern (pattern_tag ++ (pattern_name Pattern.cycle ++ (codes "] " ++ codes "fix it")))
    ≡ ok (Pattern.cycle, codes "fix it")
parse_pattern-pattern_name_example =
    parse_pattern-pattern_name Pattern.cycle (codes "fix it") cycle_known fix_trimmed
