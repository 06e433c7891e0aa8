-- ===== src/Rally/Lifecycle.antt =====
-- The operations of internal/broker/rally.go on one session, against its validity.
use rallish.Prelude.{
  suc, ◌+◌, ◌≤◌, ◌≡◌, ◌≢◌, refl, sym, ◌∙◌, ◌⊎◌, inl, inr, Bool, true, false, not, ◌&&◌, List, [],
  ◌∷◌, arith, Text, ltb, ltb_false→le, not_true→false, Bool-cases, and_eq_true, length,
  length-append, str_eq, str_eq→eq, str_eq_false→ne,
}
use rallish.Prelude.Int.{ℤ}
use rallish.Rally.Types.{
  ok, ok-injective, >>=-eq-ok, guard-eq-ok, new_participant_name, new_participant_name-ok,
  matches_name, rally_state_idle, rally_state_interrupted, rally_turn_state, NewRallyRequest,
  RallyError, too_few_participants, guard,
}
use rallish.Rally.Session.{Session, is_member, participant_at, next_participant}
use rallish.Rally.Store.{
  parse_participants, parse_first_holder, new_session, immediate_event, assign_first_holder,
  idle_session,
}
use rallish.Rally.Baton.{check_turn, hand_over, interrupted, names_nobody_else}
use rallish.Rally.States.{turn_state≢idle, idle≢interrupted}
use rallish.Rally.Validity.{
  IsValid, AreNames, AreDistinct, parse_participants-AreNames, member-participant_at,
  next_participant-member,
}

parse_first_holder-ok :
    (names : List Text) (raw name : Text)
    → parse_first_holder names raw ≡ ok name
    → (raw ≡ name) × ((name ≡ []) ⊎ (is_member names name ≡ true))
unfolding parse_first_holder
parse_first_holder-ok names [] name e =
    let same : [] ≡ name = ok-injective e in (same, inl (sym same))
parse_first_holder-ok names (c ∷ raw) name e =
    let (parsed, p, e1) = >>=-eq-ok (new_participant_name (c ∷ raw)) _ e in
    let (member, e2) = guard-eq-ok _ _ _ e1 in
    let same : parsed ≡ name = ok-injective e2 in
    let (kept, _) = new_participant_name-ok (c ∷ raw) parsed p in
    (kept ∙ same, inr (rw (← same) member))

assign-IsValid :
    (id : Text) (now_ms : ℤ) (names : List Text) (req : NewRallyRequest) (holder : Text)
    → AreNames names
    → 2 ≤ length names
    → AreDistinct names
    → (holder ≡ []) ⊎ (is_member names holder ≡ true)
    → IsValid (assign_first_holder holder now_ms (idle_session id now_ms names req))
assign-IsValid id now_ms names req [] n s d h = record {
  named = n;
  several = s;
  distinct = d;
  phase = inl (refl, refl, refl, refl);
}
assign-IsValid id now_ms names req (c ∷ name) n s d (inl none') = absurd (cc)
assign-IsValid id now_ms names req (c ∷ name) n s d (inr member) = record {
  named = n;
  several = s;
  distinct = d;
  phase = inr (inl (refl, member, refl));
}

assign-keeps :
    (holder : Text) (now_ms : ℤ) (id : Text) (names : List Text) (req : NewRallyRequest)
    → let s = assign_first_holder holder now_ms (idle_session id now_ms names req) in
      (s.participants ≡ names) × (s.holder ≡ holder) × (s.streams ≡ [])
assign-keeps [] now_ms id names req = (refl, refl, refl)
assign-keeps (c ∷ name) now_ms id names req = (refl, refl, refl)

-- A session that createRallySession makes is valid, has the request's participants in their order and
-- its first holder, and no streams.
pub new_session-IsValid :
    (id : Text) (now_ms : ℤ) (req : NewRallyRequest) (s : Session)
    → new_session id now_ms req ≡ ok s
    → IsValid s
      × (s.participants ≡ req.participants)
      × (s.holder ≡ req.first_holder)
      × (s.streams ≡ [])
unfolding new_session
new_session-IsValid id now_ms req s e =
    let (enough, e1) =
      guard-eq-ok (not (ltb (length req.participants) 2)) too_few_participants _ e in
    let (names, p, e2) = >>=-eq-ok (parse_participants [] req.participants) _ e1 in
    let (holder, q, e3) = >>=-eq-ok (parse_first_holder names req.first_holder) _ e2 in
    let (valid, distinct, same, _) = parse_participants-AreNames [] req.participants names p in
    let (kept, member) = parse_first_holder-ok names req.first_holder holder q in
    let several : 2 ≤ length names = rw same (ltb_false→le _ _ (not_true→false _ enough)) in
    let made : assign_first_holder holder now_ms (idle_session id now_ms names req) ≡ s =
      ok-injective e3 in
    let (ps, first, streams) = assign-keeps holder now_ms id names req in
    rw (← made) (
      assign-IsValid id now_ms names req holder valid several distinct member,
      ps ∙ same,
      first ∙ sym kept,
      streams,
    )

-- The first participant of an idle session starts turn 1.
first_turn :
    (s : Session) (as' : Text)
    → IsValid s
    → s.status ≡ rally_state_idle
    → participant_at s.participants 0 ≡ as'
    → (is_member s.participants as' ≡ true) × (s.turn_n + 1 ≡ suc (length s.history))
first_turn s as' v idle first = (
  rw (← first) (member-participant_at s.participants 0 (omega (arith, v.several))),
  elim v.phase [
    | inl (_, _, turns, empty) ↦ rw (turns, empty)
    | inr (inl (turn, _, _)) ↦ absurd (turn_state≢idle s.holder (sym turn ∙ idle))
    | inr (inr (over, _)) ↦ absurd (idle≢interrupted (sym idle ∙ over))
  ],
)

-- Joining: the first participant starts an idle session, and nobody else changes it.
pub immediate_event-IsValid :
    (s : Session) (as' : Text) → IsValid s → IsValid (immediate_event s as').0
unfolding immediate_event
immediate_event-IsValid s as' v =
    elim (Bool-cases
      (str_eq s.status rally_state_idle && str_eq (participant_at s.participants 0) as')) [
        | inr other ↦ elim (Bool-cases (str_eq s.status (rally_turn_state as'))) [
          | inl mine ↦ rw (other, mine) v
          | inr theirs ↦ rw (other, theirs) v
        ]
        | inl starts ↦ rw starts (record {
          named = v.named;
          several = v.several;
          distinct = v.distinct;
          phase =
              let (idle, first) = and_eq_true _ _ starts in
              let (member, turns) = first_turn s as' v (str_eq→eq _ _ idle) (str_eq→eq _ _ first) in
              inr (inl (refl, member, turns));
        })
      ]

guard-passes : (t : Bool) (e : RallyError) → guard t e ≡ ok tt → t ≡ true
guard-passes true e h = refl
guard-passes false e h = cc

-- What allows a participant to pass the baton.
pub check_turn-ok :
    (s : Session) (as' handoff_to : Text)
    → check_turn s as' handoff_to ≡ ok tt
    → (s.status ≢ rally_state_interrupted)
      × (s.holder ≡ as')
      × (names_nobody_else s handoff_to ≡ true)
unfolding check_turn
check_turn-ok s as' handoff_to e =
    let (running, e1) = guard-eq-ok _ _ _ e in
    let (holds, e2) = guard-eq-ok _ _ _ e1 in
    (str_eq_false→ne _ _ (not_true→false _ running), str_eq→eq _ _ holds, guard-passes _ _ e2)

name-nonempty : matches_name [] ≢ true
unfolding matches_name
name-nonempty e = cc

-- The history has one record fewer than there were turns.
held-turns :
    (s : Session) (as' handoff_to : Text)
    → IsValid s
    → matches_name as' ≡ true
    → check_turn s as' handoff_to ≡ ok tt
    → s.turn_n ≡ suc (length s.history)
held-turns s as' handoff_to v named checked =
    let (running, holds, _) = check_turn-ok s as' handoff_to checked in
    elim v.phase [
      | inl (_, nobody, _, _) ↦ absurd (name-nonempty (rw (← nobody, holds) named))
      | inr (inl (_, _, turns)) ↦ turns
      | inr (inr (over, _)) ↦ absurd (running over)
    ]

-- When a valid session's participant, of a valid name, may pass the baton, the session after the pass is
-- valid.
pub hand_over-IsValid :
    (s : Session) (as' handoff_to note : Text) (now_ms : ℤ)
    → IsValid s
    → matches_name as' ≡ true
    → check_turn s as' handoff_to ≡ ok tt
    → IsValid (hand_over s as' (next_participant s.participants as' handoff_to) note now_ms)
unfolding hand_over
hand_over-IsValid s as' handoff_to note now_ms v named checked =
    let next = next_participant s.participants as' handoff_to in
    let turns = held-turns s as' handoff_to v named checked in
    record {
      named = v.named;
      several = v.several;
      distinct = v.distinct;
      phase = inr (
          inl (
            refl,
            next_participant-member s.participants as' handoff_to (omega (arith, v.several)),
            omega (arith, turns, length-append {0} s.history),
          ));
    }

pub interrupted-IsValid : (s : Session) → IsValid s → IsValid (interrupted s)
interrupted-IsValid s v = record {
  named = v.named;
  several = v.several;
  distinct = v.distinct;
  phase = inr (inr (refl, refl));
}
