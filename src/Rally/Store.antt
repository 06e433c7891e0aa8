-- ===== src/Rally/Store.antt =====
-- internal/broker/rally.go: the store of sessions and the operations on it. Each function is one
-- section under the store's lock; closing the channels of an interrupted session comes after it.
-- `none` is a panic. The clock and the random bytes of an id are arguments.
use rallish.Prelude.{
  ℕ, ◌+◌, false, not, ◌&&◌, Option, none, some, List, [], ◌∷◌, ◌++◌, Text, if◌then◌else◌, ltb,
  length, str_eq, lookup, insert, delete,
}
use rallish.Prelude.Int.{ℤ, pos}
use rallish.Rally.Types.{
  RallyError, Result, ok, err, ◌>>=◌, ◌>>◌, guard, too_few_participants, duplicate_name,
  first_holder_not_member, session_not_found, not_a_participant, already_connected,
  new_participant_name, new_session_id, Pattern, unknown, parse_pattern, rally_state_idle,
  rally_state_interrupted, rally_turn_state, BatonHandoff, BatonEvent, NewRallyRequest,
  RallySession,
}
use rallish.Rally.Session.{Session, is_member, participant_at, to_public}
use rallish.Rally.Channels.{Heap, empty_channel, put}

pub record Store : Type 0 where
  pub sessions : List (Text × Session)
  pub heap : Heap

unfoldable pub put_session : Text → Session → Store → Store
unfolding insert
put_session id s store = record store { sessions = insert id s store.sessions }

-- The loop over req.Participants: valid names, none twice, in order.
unfoldable pub parse_participants : List Text → List Text → Result (List Text)
unfolding new_participant_name is_member
parse_participants seen [] = ok []
parse_participants seen (raw ∷ raws) = do
  name ← new_participant_name raw
  guard (not (is_member seen name)) duplicate_name
  names ← parse_participants (name ∷ seen) raws
  ok (name ∷ names)

-- An empty first_holder is none.
unfoldable pub parse_first_holder : List Text → Text → Result Text
unfolding new_participant_name is_member
parse_first_holder names [] = ok []
parse_first_holder names (c ∷ raw) = do
  name ← new_participant_name (c ∷ raw)
  guard (is_member names name) first_holder_not_member
  ok name

-- A bad tag leaves the pattern unknown: its error is dropped.
abbrev pub pattern_of : Result (Pattern × Text) → Pattern
pattern_of (ok (p, _)) = p
pattern_of (err _) = unknown

abbrev pub idle_session : Text → ℤ → List Text → NewRallyRequest → Session
idle_session id now_ms names req = record {
  id = id;
  participants = names;
  repo = req.repo;
  task = req.task;
  pattern = pattern_of (parse_pattern req.task);
  holder = [];
  turn_n = 0;
  status = rally_state_idle;
  last_seen = [];
  history = [];
  created_at = now_ms;
  streams = [];
  stale_threshold = pos 30000;
}

abbrev pub assign_first_holder : Text → ℤ → Session → Session
assign_first_holder [] now_ms s = s
assign_first_holder (c ∷ name) now_ms s = record s {
  holder = c ∷ name;
  status = rally_turn_state (c ∷ name);
  turn_n = 1;
  last_seen = insert (c ∷ name) now_ms s.last_seen;
}

-- The session that createRallySession stores, or its first error.
unfoldable pub new_session : Text → ℤ → NewRallyRequest → Result Session
unfolding parse_participants parse_first_holder
new_session id now_ms req = do
  guard (not (ltb (length req.participants) 2)) too_few_participants
  names ← parse_participants [] req.participants
  first_holder ← parse_first_holder names req.first_holder
  ok (assign_first_holder first_holder now_ms (idle_session id now_ms names req))

-- The id is what generateRallyID has made: rand.Read of crypto/rand never returns an error in the Go of
-- go.mod. The public session is that of the moment in which the session was stored.
unfoldable pub create_rally_session :
    Text → ℤ → NewRallyRequest → Store → Store × Result RallySession
unfolding new_session put_session to_public
create_rally_session id now_ms req store = elim (new_session id now_ms req) [
  | err e ↦ (store, err e)
  | ok s ↦ (put_session id s store, ok (to_public s))
]

-- handleRallyBaton, up to the release of the lock.
pub data Joined : Type 0 where
  rejected : RallyError → Joined
  close_sentinel : Joined
  streaming : ℕ → Joined

-- The last handoff's sender and note, for a participant that comes back to its own turn.
abbrev pub last_handoff : List BatonHandoff → Text × Text
last_handoff [] = ([], [])
last_handoff (x ∷ []) = (x.from, x.note)
last_handoff (x ∷ y ∷ history) = last_handoff (y ∷ history)

abbrev pub register : Session → Text → ℕ → ℤ → Session
register s as' ch now_ms = record s {
  streams = insert as' ch s.streams;
  last_seen = insert as' now_ms s.last_seen;
}

-- The registered session, and the event that is queued at once.
unfoldable pub immediate_event : Session → Text → Session × Option BatonEvent
unfolding str_eq rally_turn_state
immediate_event s as' =
    if str_eq s.status rally_state_idle && str_eq (participant_at s.participants 0) as'
    then (
      record s { turn_n = s.turn_n + 1; holder = as'; status = rally_turn_state as' },
      some (record { turn_n = s.turn_n + 1; from = []; note = []; closed = false }),
    )
    else if str_eq s.status (rally_turn_state as')
    then (
      s,
      some (record {
        turn_n = s.turn_n;
        from = (last_handoff s.history).0;
        note = (last_handoff s.history).1;
        closed = false;
      }),
    )
    else (s, none)

abbrev pub queue : Heap → ℕ → Option BatonEvent → Option Heap
queue heap ch none = some heap
queue heap ch (some evt) = put heap ch evt

unfoldable pub open_stream : Text → Text → ℤ → Session → Store → Option (Store × Joined)
unfolding immediate_event put put_session
open_stream id as' now_ms s store =
    let ch : ℕ = length store.heap in
    let (s', evt) = immediate_event (register s as' ch now_ms) as' in
    elim (queue (store.heap ++ empty_channel ∷ []) ch evt) [
      | none ↦ none
      | some heap ↦ some (put_session id s' (record store { heap = heap }), streaming ch)
    ]

-- The section under the lock, for a parsed id and name.
unfoldable pub join_rally : Text → Text → ℤ → Store → Option (Store × Joined)
unfolding open_stream is_member lookup str_eq
join_rally id as' now_ms store = elim (lookup id store.sessions) [
  | none ↦ some (store, rejected session_not_found)
  | some s ↦
      if not (is_member s.participants as')
      then some (store, rejected not_a_participant)
      else if str_eq s.status rally_state_interrupted
      then some (store, close_sentinel)
      else elim (lookup as' s.streams) [
        | some _ ↦ some (store, rejected already_connected)
        | none ↦ open_stream id as' now_ms s store
      ]
]

unfoldable pub handle_rally_baton : Text → Text → ℤ → Store → Option (Store × Joined)
unfolding join_rally new_session_id new_participant_name
handle_rally_baton raw_id as_raw now_ms store = elim (new_session_id raw_id) [
  | err e ↦ some (store, rejected e)
  | ok id ↦ elim (new_participant_name as_raw) [
    | err e ↦ some (store, rejected e)
    | ok as' ↦ join_rally id as' now_ms store
  ]
]

unfoldable pub cleanup_stream : Text → Text → Store → Store
unfolding put_session lookup delete
cleanup_stream id participant store = elim (lookup id store.sessions) [
  | none ↦ store
  | some s ↦ put_session id (record s { streams = delete participant s.streams }) store
]

-- The refresh of last_seen at a stream's heartbeat.
unfoldable pub heartbeat : Text → Text → ℤ → Store → Store
unfolding put_session lookup insert
heartbeat id as' now_ms store = elim (lookup id store.sessions) [
  | none ↦ store
  | some s ↦ put_session id (record s { last_seen = insert as' now_ms s.last_seen }) store
]
