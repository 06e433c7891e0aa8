-- ===== src/Tests/SessionFiles.antt =====
-- The theorem on the store of sessions, with two sessions in it.
use rallish.Prelude.{◌≡◌, refl, true, false, none, some, str_eq, lookup, [], ◌∷◌, ◌++◌, Text, codes}
use rallish.Prelude.Int.{pos}
use rallish.Session.Store.{
  SessionInfo, SessionStore, SessionIo, is_valid_session_id, create_session, append_turn,
  turn_record,
}
use rallish.Session.Replays.{Holds, ReadsAs, append_turn-ReadsAs}
use rallish.Tests.RecordCodec.{record_json}
use rallish.Tests.Sessions.{turn, preset}
use rallish.Tests.Stores.{response}

abbrev io : SessionIo
io = record {
  ctx_done = false;
  now = pos 5;
  can_mkdir = true;
  can_open_meta = true;
  short_meta = none;
  can_close_meta = true;
  can_open_log = true;
  short_write = none;
  can_sync = true;
  can_read = true;
}

abbrev info : Text → SessionInfo
info id = record {
  id = id;
  preset_name = preset.name;
  status = codes "active";
  created_at = pos 5;
  turn_count = 0;
  task = turn.req.task;
}

abbrev empty_store : SessionStore
empty_store = record { next_id = 0; sessions = []; metas = []; logs = [] }

abbrev two_sessions : SessionStore
two_sessions = record {
  next_id = 2;
  sessions = (codes "5-1", info (codes "5-1")) ∷ (codes "5-2", info (codes "5-2")) ∷ [];
  metas = (codes "5-1", codes "{}\n") ∷ (codes "5-2", codes "{}\n") ∷ [];
  logs = (codes "5-1", []) ∷ (codes "5-2", []) ∷ [];
}

abbrev create_one : SessionStore → SessionStore
unfolding create_session
create_one st = (create_session (λ i. some (codes "{}")) io preset turn.req.task st).0

-- Two calls of Create make the store.
two_creations : create_one (create_one empty_store) ≡ two_sessions
unfolding create_session str_eq
two_creations = refl

first_Holds : Holds record_json (codes "5-1") [] two_sessions
unfolding is_valid_session_id lookup str_eq
first_Holds = record {
  session = info (codes "5-1");
  bytes = [];
  valid_id = refl;
  has_session = refl;
  counts = refl;
  has_log = refl;
  log = refl;
}

second_Holds : Holds record_json (codes "5-2") [] two_sessions
unfolding is_valid_session_id lookup str_eq
second_Holds = record {
  session = info (codes "5-2");
  bytes = [];
  valid_id = refl;
  has_session = refl;
  counts = refl;
  has_log = refl;
  log = refl;
}

two_ids : str_eq (codes "5-1") (codes "5-2") ≡ false
unfolding str_eq
two_ids = refl

append_turn-ReadsAs_example :
    ((append_turn record_json.json io (codes "5-1") turn.req response two_sessions).1 ≡ none)
    × ReadsAs record_json io
        (codes "5-1")
        ([] ++ turn_record io turn.req response ∷ [])
        (append_turn record_json.json io (codes "5-1") turn.req response two_sessions).0
    × ReadsAs record_json io
        (codes "5-2")
        []
        (append_turn record_json.json io (codes "5-1") turn.req response two_sessions).0
append_turn-ReadsAs_example =
    append_turn-ReadsAs record_json io (codes "5-1") (codes "5-2") _ [] [] two_sessions turn.req
      response (refl, refl, refl, refl, refl) first_Holds second_Holds two_ids refl refl
