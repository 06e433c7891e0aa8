-- ===== src/Rally/Baton.antt =====
-- internal/broker/rally.go: passing the baton (advanceRallyBaton, handleRallyDone), the status
-- (getRallySession), staleness, and the end of sessions (interruptRallySession, CloseAllRallies).
use rallish.Prelude.{
  ℕ, ◌+◌, Bool, true, false, not, Option, none, some, List, [], ◌∷◌, ◌++◌, Text, if◌then◌else◌,
  str_eq, lookup,
}
use rallish.Prelude.Int.{ℤ, ◌-ℤ◌, ltb_ℤ}
use rallish.Rally.Types.{
  RallyError, Result, ok, err, ◌>>=◌, ◌>>◌, guard, session_not_found, session_interrupted,
  not_holder, handoff_to_not_member, self_handoff, new_participant_name, new_session_id,
  rally_state_interrupted, rally_turn_state, BatonEvent, DoneRequest, RallySession,
}
use rallish.Rally.Session.{Session, is_member, next_participant, to_public}
use rallish.Rally.Channels.{Heap, send}
use rallish.Rally.Store.{Store, put_session}

-- The optional handoff_to, checked before the lock is taken; [] is none.
unfoldable pub parse_handoff : Text → Text → Result Text
unfolding new_participant_name str_eq
parse_handoff as' [] = ok []
parse_handoff as' (c ∷ raw) = do
  name ← new_participant_name (c ∷ raw)
  guard (not (str_eq name as')) self_handoff
  ok name

abbrev pub names_nobody_else : Session → Text → Bool
names_nobody_else s [] = true
names_nobody_else s (c ∷ name) = is_member s.participants (c ∷ name)

unfoldable pub check_turn : Session → Text → Text → Result (Unit {0})
unfolding str_eq is_member
check_turn s as' handoff_to = do
  guard (not (str_eq s.status rally_state_interrupted)) session_interrupted
  guard (str_eq s.holder as') not_holder
  guard (names_nobody_else s handoff_to) handoff_to_not_member

-- The new turn, its record in the history, and the new holder.
unfoldable pub hand_over : Session → Text → Text → Text → ℤ → Session
unfolding rally_turn_state
hand_over s as' next note now_ms = record s {
  turn_n = s.turn_n + 1;
  history =
      s.history
      ++ record { from = as'; to = next; turn_n = s.turn_n + 1; note = note; at = now_ms } ∷ [];
  holder = next;
  status = rally_turn_state next;
}

-- The baton event, if the next participant is connected.
unfoldable pub deliver : Session → Text → BatonEvent → Heap → Option Heap
unfolding lookup send
deliver s next evt heap = elim (lookup next s.streams) [
  | none ↦ some heap
  | some ch ↦ send heap ch evt
]

unfoldable pub pass_baton :
    Text → Text → Text → ℤ → Session → Text → Store → Option (Store × RallySession)
unfolding next_participant hand_over deliver put_session to_public
pass_baton id as' note now_ms s handoff_to store =
    let next : Text = next_participant s.participants as' handoff_to in
    let s' : Session = hand_over s as' next note now_ms in
    let evt : BatonEvent = record { turn_n = s'.turn_n; from = as'; note = note; closed = false } in
    elim (deliver s' next evt store.heap) [
      | none ↦ none
      | some heap ↦ some (put_session id s' (record store { heap = heap }), to_public s')
    ]

-- The public snapshot of a session that the store holds.
unfoldable pub get_rally_session : Text → Store → Result RallySession
unfolding lookup to_public
get_rally_session id store = elim (lookup id store.sessions) [
  | none ↦ err session_not_found
  | some s ↦ ok (to_public s)
]

unfoldable pub advance_rally_baton :
    Text → Text → DoneRequest → ℤ → Store → Option (Store × Result RallySession)
unfolding parse_handoff check_turn pass_baton lookup
advance_rally_baton id as' req now_ms store = elim (parse_handoff as' req.handoff_to) [
  | err e ↦ some (store, err e)
  | ok handoff_to ↦ elim (lookup id store.sessions) [
    | none ↦ some (store, err session_not_found)
    | some s ↦ elim (check_turn s as' handoff_to) [
      | err e ↦ some (store, err e)
      | ok _ ↦ elim (pass_baton id as' req.note now_ms s handoff_to store) [
        | none ↦ none
        | some (store', public) ↦ some (store', ok public)
      ]
    ]
  ]
]

unfoldable pub handle_rally_done :
    Text → Text → DoneRequest → ℤ → Store → Option (Store × Result RallySession)
unfolding advance_rally_baton new_session_id new_participant_name
handle_rally_done raw_id as_raw req now_ms store = elim (new_session_id raw_id) [
  | err e ↦ some (store, err e)
  | ok id ↦ elim (new_participant_name as_raw) [
    | err e ↦ some (store, err e)
    | ok as' ↦ advance_rally_baton id as' req now_ms store
  ]
]

unfoldable pub is_participant_stale : Text → Text → ℤ → Store → Bool
unfolding lookup ◌-ℤ◌
is_participant_stale id name now_ms store = elim (lookup id store.sessions) [
  | none ↦ false
  | some s ↦ elim (lookup name s.last_seen) [
    | none ↦ false
    | some ls ↦ ltb_ℤ s.stale_threshold (now_ms -ℤ ls)
  ]
]

abbrev pub close_event : BatonEvent
close_event = record { turn_n = 0; from = []; note = []; closed = true }

-- The loop over an interrupted session's streams: the sentinel is offered to each channel. Its
-- result is the channels to close once the lock is released.
unfoldable pub offer_sentinels : List (Text × ℕ) → Heap → Option (Heap × List ℕ)
unfolding send
offer_sentinels [] heap = some (heap, [])
offer_sentinels ((name, ch) ∷ streams) heap = elim (send heap ch close_event) [
  | none ↦ none
  | some heap' ↦ elim (offer_sentinels streams heap') [
    | none ↦ none
    | some (heap'', to_close) ↦ some (heap'', ch ∷ to_close)
  ]
]

abbrev pub interrupted : Session → Session
interrupted s = record s { status = rally_state_interrupted; holder = []; streams = [] }

unfoldable pub interrupt_session : Session → Heap → Option (Session × Heap × List ℕ)
unfolding offer_sentinels str_eq
interrupt_session s heap =
    if str_eq s.status rally_state_interrupted
    then some (s, heap, [])
    else elim (offer_sentinels s.streams heap) [
      | none ↦ none
      | some (heap', to_close) ↦ some (interrupted s, heap', to_close)
    ]

unfoldable pub interrupt_rally_session :
    Text → Store → Option (Store × List ℕ × Result RallySession)
unfolding interrupt_session lookup put_session to_public
interrupt_rally_session id store = elim (lookup id store.sessions) [
  | none ↦ some (store, [], err session_not_found)
  | some s ↦ elim (interrupt_session s store.heap) [
    | none ↦ none
    | some (s', heap, to_close) ↦
        some (put_session id s' (record store { heap = heap }), to_close, ok (to_public s'))
  ]
]

unfoldable pub interrupt_all :
    List (Text × Session) → Heap → Option (List (Text × Session) × Heap × List ℕ)
unfolding interrupt_session
interrupt_all [] heap = some ([], heap, [])
interrupt_all ((id, s) ∷ sessions) heap = elim (interrupt_session s heap) [
  | none ↦ none
  | some (s', heap', to_close) ↦ elim (interrupt_all sessions heap') [
    | none ↦ none
    | some (sessions', heap'', more) ↦ some ((id, s') ∷ sessions', heap'', to_close ++ more)
  ]
]

unfoldable pub close_all_rallies : Store → Option (Store × List ℕ)
unfolding interrupt_all
close_all_rallies store = elim (interrupt_all store.sessions store.heap) [
  | none ↦ none
  | some (sessions, heap, to_close) ↦ some (record { sessions = sessions; heap = heap }, to_close)
]

-- writeRallyError.
abbrev pub http_status : RallyError → ℕ
http_status RallyError.session_not_found = 404
http_status RallyError.not_holder = 409
http_status RallyError.session_interrupted = 409
http_status RallyError.already_connected = 409
http_status RallyError.not_a_participant = 403
http_status RallyError.generate_id = 500
http_status _ = 400

-- setRallyStaleThreshold.
unfoldable pub set_rally_stale_threshold : Text → ℤ → Store → Store
unfolding lookup put_session
set_rally_stale_threshold id threshold_ms store = elim (lookup id store.sessions) [
  | none ↦ store
  | some s ↦ put_session id (record s { stale_threshold = threshold_ms }) store
]
