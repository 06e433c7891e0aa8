-- ===== src/Session/Store.antt =====
-- internal/session/session.go: the store of sessions, with the files of their logs. The lock of an entry
-- makes each Append one step. Paths are keyed by the session's id.
use rallish.Prelude.{
  ℕ, ◌+◌, Bool, not, ◌&&◌, ◌||◌, true, false, Option, none, some, List, [], ◌∷◌, ◌++◌, Text, codes,
  ◌==◌, if◌then◌else◌, take, lookup, insert, is_empty, Attempt, raised, returned, after, decimal,
  decimal_ℤ, contains,
}
use rallish.Prelude.Int.{ℤ}
use rallish.Contract.Json.{Json, newline}
use rallish.Contract.Turns.{TurnResponse}
use rallish.Contract.Requests.{TurnRequest, Task, Preset}
use rallish.Session.Records.{TurnRecord}

pub record SessionInfo : Type 0 where
  pub id : Text
  pub preset_name : Text
  pub status : Text
  pub created_at : ℤ
  pub turn_count : ℕ
  pub task : Task

pub data SessionError : Type 0 where
  context_done invalid_id not_found mkdir create_meta encode_meta close_meta create_log :
      SessionError
  open_log write_record sync_log decode_record read_log : SessionError

-- The sessions in memory, and the files meta.json and log.jsonl of each directory.
pub record SessionStore : Type 0 where
  pub next_id : ℕ
  pub sessions : List (Text × SessionInfo)
  pub metas : List (Text × Text)
  pub logs : List (Text × Text)

-- What one operation is given from outside: the context, the clock and the operating system's answers. A
-- write stops after some bytes, or takes all.
pub record SessionIo : Type 0 where
  pub ctx_done : Bool
  pub now : ℤ
  pub can_mkdir : Bool
  pub can_open_meta : Bool
  pub short_meta : Option ℕ
  pub can_close_meta : Bool
  pub can_open_log : Bool
  pub short_write : Option ℕ
  pub can_sync : Bool
  pub can_read : Bool

unfoldable pub is_valid_session_id : Text → Bool
unfolding contains
is_valid_session_id id =
    not (is_empty id)
    && not (contains id (codes "..") || contains id (codes "/") || contains id (b'\\' ∷ []))

unfoldable pub generate_id : SessionIo → ℕ → Text
unfolding decimal_ℤ
generate_id io n = decimal_ℤ io.now ++ (b'-' ∷ decimal n)

-- Without its carriage return, a line that has lost its newline.
abbrev pub trim_return : Text → Text
trim_return [] = []
trim_return (c ∷ []) = if c == b'\r' then [] else c ∷ []
trim_return (c ∷ d ∷ line) = c ∷ trim_return (d ∷ line)

abbrev pub turn_record : SessionIo → TurnRequest → TurnResponse → TurnRecord
turn_record io req resp = record { turn = req.turn; time = io.now; req = req; resp = resp }

module _ (json : Json TurnRecord) where
  abbrev pub on_record : Text → List TurnRecord → Attempt SessionError (List TurnRecord)
  on_record [] records = returned records
  on_record (c ∷ line) records = elim (json.unmarshal (c ∷ line)) [
    | none ↦ raised decode_record
    | some rec ↦ returned (records ++ rec ∷ [])
  ]

  -- The loop with the bytes of the line read so far, over the bytes that are left.
  unfoldable pub replay_from :
      Text → Text → List TurnRecord → Attempt SessionError (List TurnRecord)
  replay_from line [] records = on_record (trim_return line) records
  replay_from line (c ∷ bytes) records = elim (c == newline) [
    | true ↦ after (on_record (trim_return line) records) (replay_from [] bytes)
    | false ↦ replay_from (line ++ c ∷ []) bytes records
  ]

  abbrev pub replay_log : Bool → Option Text → Attempt SessionError (List TurnRecord)
  replay_log can_read none = raised open_log
  replay_log can_read (some bytes) = if can_read then replay_from [] bytes [] else raised read_log

  -- A read that fails, fails before its first byte.
  unfoldable pub replay : SessionIo → Text → SessionStore → Attempt SessionError (List TurnRecord)
  unfolding replay_from lookup is_valid_session_id
  replay io id st =
      if io.ctx_done
      then raised context_done
      else if not (is_valid_session_id id)
      then raised invalid_id
      else elim (lookup id st.sessions) [
        | none ↦ raised not_found
        | some session ↦
            if io.can_open_log then replay_log io.can_read (lookup id st.logs) else raised open_log
      ]

  unfoldable pub write_record_line :
      SessionIo
      → Text
      → SessionInfo
      → Text
      → Text
      → SessionStore
      → SessionStore × Option SessionError
  unfolding insert
  write_record_line io id session bytes line st = elim io.short_write [
    | some n ↦ (
      record st { logs = insert id (bytes ++ take n (line ++ newline ∷ [])) st.logs },
      some write_record,
    )
    | none ↦
        let logs : List (Text × Text) = insert id (bytes ++ (line ++ newline ∷ [])) st.logs in
        if not io.can_sync then (record st { logs = logs }, some sync_log) else (
          record st {
            logs = logs;
            sessions =
                insert id (record session { turn_count = session.turn_count + 1 }) st.sessions;
          },
          none,
        )
  ]

  unfoldable pub append_record :
      SessionIo
      → Text
      → SessionInfo
      → TurnRecord
      → SessionStore
      → SessionStore × Option SessionError
  unfolding write_record_line lookup
  append_record io id session rec st = elim (lookup id st.logs) [
    | none ↦ (st, some open_log)
    | some bytes ↦ if not io.can_open_log then (st, some open_log) else elim (json.marshal rec) [
      | none ↦ (st, some write_record)
      | some line ↦ write_record_line io id session bytes line st
    ]
  ]

  unfoldable pub append_turn :
      SessionIo
      → Text
      → TurnRequest
      → TurnResponse
      → SessionStore
      → SessionStore × Option SessionError
  unfolding append_record lookup is_valid_session_id
  append_turn io id req resp st =
      if io.ctx_done
      then (st, some context_done)
      else if not (is_valid_session_id id)
      then (st, some invalid_id)
      else elim (lookup id st.sessions) [
        | none ↦ (st, some not_found)
        | some session ↦ append_record io id session (turn_record io req resp) st
      ]

unfoldable pub get_session : SessionIo → Text → SessionStore → Attempt SessionError SessionInfo
unfolding lookup is_valid_session_id
get_session io id st =
    if io.ctx_done
    then raised context_done
    else if not (is_valid_session_id id)
    then raised invalid_id
    else elim (lookup id st.sessions) [ none ↦ raised not_found | some session ↦ returned session ]

module _ (marshal_info : SessionInfo → Option Text) where
  abbrev pub new_info : SessionIo → Text → Preset → Task → SessionInfo
  new_info io id preset task = record {
    id = id;
    preset_name = preset.name;
    status = codes "active";
    created_at = io.now;
    turn_count = 0;
    task = task;
  }

  -- The log is opened to be created, and keeps the lines that it has.
  unfoldable pub add_session :
      SessionIo → SessionInfo → SessionStore → SessionStore × Attempt SessionError SessionInfo
  unfolding insert lookup
  add_session io info st = if not io.can_open_log then (st, raised create_log) else (
    record st {
      sessions = insert info.id info st.sessions;
      logs = elim (lookup info.id st.logs) [
        | some bytes ↦ st.logs
        | none ↦ insert info.id [] st.logs
      ];
    },
    returned info,
  )

  unfoldable pub write_meta :
      SessionIo → SessionInfo → SessionStore → SessionStore × Attempt SessionError SessionInfo
  unfolding add_session insert
  write_meta io info st = elim (marshal_info info) [
    | none ↦ (record st { metas = insert info.id [] st.metas }, raised encode_meta)
    | some text ↦ elim io.short_meta [
      | some n ↦ (
        record st { metas = insert info.id (take n (text ++ newline ∷ [])) st.metas },
        raised encode_meta,
      )
      | none ↦
          let st' : SessionStore = record st {
            metas = insert info.id (text ++ newline ∷ []) st.metas;
          } in
          let added : SessionStore × Attempt SessionError SessionInfo = add_session io info st' in
          if not io.can_close_meta then (st', raised close_meta) else added
    ]
  ]

  unfoldable pub create_in :
      SessionIo → SessionInfo → SessionStore → SessionStore × Attempt SessionError SessionInfo
  unfolding write_meta is_valid_session_id
  create_in io info st =
      let written : SessionStore × Attempt SessionError SessionInfo = write_meta io info st in
      if not (is_valid_session_id info.id)
      then (st, raised invalid_id)
      else if not io.can_mkdir
      then (st, raised mkdir)
      else if not io.can_open_meta
      then (st, raised create_meta)
      else written

  unfoldable pub create_session :
      SessionIo → Preset → Task → SessionStore → SessionStore × Attempt SessionError SessionInfo
  unfolding create_in generate_id
  create_session io preset task st =
      if io.ctx_done
      then (st, raised context_done)
      else create_in io (new_info io (generate_id io (st.next_id + 1)) preset task)
          (record st { next_id = st.next_id + 1 })
