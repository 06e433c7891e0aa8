-- ===== src/Rally/Delivery.antt =====
-- The event of a turn in internal/broker/rally.go: sent when the baton is passed, or queued when its
-- holder joins.
use rallish.Prelude.{
  ℕ, ◌+◌, ◌≡◌, refl, inl, inr, false, some, List, [], ◌∷◌, ◌++◌, Text, Bool-cases, str_eq,
  str_eq_refl, str_eq→eq, lookup, get_elem?, length, none, true, ◌≢◌, ◌∙◌, lookup-insert,
}
use rallish.Prelude.Int.{ℤ}
use rallish.Rally.Types.{
  rally_state_idle, rally_state_interrupted, rally_turn_state, BatonHandoff, BatonEvent,
  RallySession,
}
use rallish.Rally.Session.{Session, next_participant, is_member, to_public}
use rallish.Rally.Channels.{Channel, Heap, empty_channel, set_channel, send, put, receive, event}
use rallish.Rally.Store.{
  Store, put_session, immediate_event, last_handoff, register, open_stream, join_rally, streaming,
}
use rallish.Rally.Baton.{hand_over, deliver, pass_baton}
use rallish.Rally.States.{turn_state≢idle, turn_state≢interrupted}
use rallish.Rally.Open.{set_channel-same, append_empty}

-- The event of the turn that a pass of the baton starts.
abbrev pub turn_event : Session → Text → Text → BatonEvent
turn_event s as' note = record { turn_n = s.turn_n + 1; from = as'; note = note; closed = false }

last_handoff-append :
    (history : List BatonHandoff) (x : BatonHandoff)
    → last_handoff (history ++ x ∷ []) ≡ (x.from, x.note)
last_handoff-append [] x = refl
last_handoff-append (y ∷ []) x = refl
last_handoff-append (y ∷ z ∷ history) x = last_handoff-append (z ∷ history) x

-- The session that a pass of the baton leaves has the event of that turn for its holder.
immediate_event-hand_over :
    (s : Session) (as' next note : Text) (now_ms later_ms : ℤ) (ch : ℕ)
    → let r = register (hand_over s as' next note now_ms) next ch later_ms in
      immediate_event r next ≡ (r, some (turn_event s as' note))
unfolding immediate_event hand_over
immediate_event-hand_over s as' next note now_ms later_ms ch =
    elim (Bool-cases (str_eq (rally_turn_state next) rally_state_idle)) [
      | inl idle ↦ absurd (turn_state≢idle next (str_eq→eq _ _ idle))
      | inr turn ↦ rw (
        turn,
        str_eq_refl (rally_turn_state next),
        last_handoff-append s.history
            (record { from = as'; to = next; turn_n = s.turn_n + 1; note = note; at = now_ms }),
      )
    ]

send-receive :
    (heap : Heap) (ch : ℕ) (evt : BatonEvent)
    → get_elem? heap ch ≡ some empty_channel
    → (heap' : Heap) × (send heap ch evt ≡ some heap') × ((receive heap' ch).1 ≡ event evt)
unfolding send receive
send-receive heap ch evt e =
    let x : Channel = record { buffer = evt ∷ []; closed = false } in
    (set_channel heap ch x, rw (e, send), rw (set_channel-same heap ch x e, receive))

put-receive :
    (heap : Heap) (ch : ℕ) (evt : BatonEvent)
    → get_elem? heap ch ≡ some empty_channel
    → (heap' : Heap) × (put heap ch evt ≡ some heap') × ((receive heap' ch).1 ≡ event evt)
unfolding put receive
put-receive heap ch evt e =
    let x : Channel = record { buffer = evt ∷ []; closed = false } in
    (set_channel heap ch x, rw (e, put), rw (set_channel-same heap ch x e, receive))

-- Joining a session that runs, without a stream, opens one.
join_rally-open :
    (id as' : Text) (now_ms : ℤ) (s : Session) (store : Store)
    → lookup id store.sessions ≡ some s
    → is_member s.participants as' ≡ true
    → s.status ≢ rally_state_interrupted
    → lookup as' s.streams ≡ none
    → join_rally id as' now_ms store ≡ open_stream id as' now_ms s store
unfolding join_rally
join_rally-open id as' now_ms s store found member running no_stream =
    elim (Bool-cases (str_eq s.status rally_state_interrupted)) [
      | inl stopped ↦ absurd (running (str_eq→eq _ _ stopped))
      | inr goes_on ↦ rw (join_rally, found) (rw (member, goes_on) (rw no_stream refl))
    ]

open_stream-queued :
    (id as' : Text) (now_ms : ℤ) (s : Session) (store : Store) (s' : Session) (evt : BatonEvent)
    (heap : Heap)
    → immediate_event (register s as' (length store.heap) now_ms) as' ≡ (s', some evt)
    → put (store.heap ++ empty_channel ∷ []) (length store.heap) evt ≡ some heap
    → open_stream id as' now_ms s store
      ≡ some (put_session id s' (record store { heap = heap }), streaming (length store.heap))
unfolding open_stream
open_stream-queued id as' now_ms s store s' evt heap made queued =
    rw (open_stream, made) (rw queued (rw made refl))

-- A participant that joins a session as a pass of the baton to it left it, and has no stream there yet, gets
-- a stream; the first event that the stream receives is that of its turn, and the session stays as the pass
-- left it but for the stream and the time of the join.
pub join_rally-hand_over :
    (id as' next note : Text) (now_ms later_ms : ℤ) (s : Session) (store : Store)
    → lookup id store.sessions ≡ some (hand_over s as' next note now_ms)
    → is_member s.participants next ≡ true
    → lookup next s.streams ≡ none
    → (store' : Store) × (join_rally id next later_ms store
        ≡ some (store', streaming (length store.heap)))
      × ((receive store'.heap (length store.heap)).1 ≡ event (turn_event s as' note))
      × (lookup id store'.sessions
          ≡ some (register (hand_over s as' next note now_ms) next (length store.heap) later_ms))
unfolding join_rally open_stream put_session hand_over
join_rally-hand_over id as' next note now_ms later_ms s store found member no_stream =
    let ch = length store.heap in
    let handed = hand_over s as' next note now_ms in
    let (heap, queued, got) =
      put-receive (store.heap ++ empty_channel ∷ []) ch (turn_event s as' note)
        (append_empty store.heap) in
    let made = immediate_event-hand_over s as' next note now_ms later_ms ch in
    (
      put_session id (register handed next ch later_ms) (record store { heap = heap }),
      join_rally-open id next later_ms handed store found member (turn_state≢interrupted next)
            no_stream
          ∙ open_stream-queued id next later_ms handed store _ _ heap made queued,
      got,
      lookup-insert id id _ store.sessions ∙ rw (str_eq_refl id) refl,
    )

-- A participant that is connected, and has no event waiting, receives the event of its turn after the
-- baton is passed to it.
pub pass_baton-receive :
    (id as' note : Text) (now_ms : ℤ) (s : Session) (handoff_to : Text) (store : Store) (ch : ℕ)
    → lookup (next_participant s.participants as' handoff_to) s.streams ≡ some ch
    → get_elem? store.heap ch ≡ some empty_channel
    → (store' : Store) × (public : RallySession) × (pass_baton id as' note now_ms s handoff_to store
        ≡ some (store', public))
      × ((receive store'.heap ch).1 ≡ event (turn_event s as' note))
unfolding pass_baton hand_over deliver put_session
pass_baton-receive id as' note now_ms s handoff_to store ch connected empty =
    let next = next_participant s.participants as' handoff_to in
    let s' = hand_over s as' next note now_ms in
    let (heap, sent, got) = send-receive store.heap ch (turn_event s as' note) empty in
    (
      put_session id s' (record store { heap = heap }),
      to_public s',
      rw (pass_baton, deliver, connected, sent),
      got,
    )
