-- ===== src/Session/Replays.antt =====
-- internal/session/session.go: Append against Replay and Get.
use rallish.Prelude.{
  ℕ, ◌+◌, ◌≡◌, ◌≢◌, refl, sym, ap, ◌∙◌, inl, inr, Bool-cases, true, false, none, some, List, [],
  ◌∷◌, ◌++◌, Text, str_eq, str_eq_refl, ◌==◌, ==_iff, length, length-append, lookup, insert,
  lookup-insert, arith, returned, after,
}
use mathlib.Core.List.{append-nil, append_assoc}
use rallish.Contract.Json.{Json, newline, HasNoNewline}
use rallish.Contract.Turns.{TurnResponse}
use rallish.Contract.Requests.{TurnRequest}
use rallish.Session.Records.{TurnRecord}
use rallish.Session.Store.{
  SessionInfo, SessionStore, SessionIo, is_valid_session_id, trim_return, on_record, replay_from,
  replay, turn_record, write_record_line, append_record, append_turn, get_session,
}

-- encoding/json on turn records: a record is one line, in the braces of an object.
pub record RecordJson : Type 0 where
  pub json : Json TurnRecord
  pub marshal_one_line :
      (rec : TurnRecord) (line : Text)
      → json.marshal rec ≡ some line
      → HasNoNewline line × (trim_return line ≡ line) × (line ≢ [])

-- The operating system's answers when nothing fails.
abbrev pub Works : SessionIo → Type 0
Works io =
    (io.ctx_done ≡ false)
    × (io.can_open_log ≡ true)
    × (io.short_write ≡ none)
    × (io.can_sync ≡ true)
    × (io.can_read ≡ true)

module _ (rj : RecordJson) where
  abbrev pub IsLogOf : List TurnRecord → Text → Type 0
  IsLogOf [] bytes = bytes ≡ []
  IsLogOf (rec ∷ records) bytes =
      (line : Text) × (rest : Text) × (rj.json.marshal rec ≡ some line)
      × (rj.json.is_utf8 rec ≡ true)
      × (bytes ≡ line ++ newline ∷ rest)
      × IsLogOf records rest

  IsLogOf-append :
      (records : List TurnRecord) (rec : TurnRecord) (bytes line : Text)
      → IsLogOf records bytes
      → rj.json.marshal rec ≡ some line
      → rj.json.is_utf8 rec ≡ true
      → IsLogOf (records ++ rec ∷ []) (bytes ++ (line ++ newline ∷ []))
  IsLogOf-append [] rec bytes line file m u = (line, [], m, u, rw file refl, refl)
  IsLogOf-append (x ∷ records) rec bytes line (line', rest, m', u', same, file) m u = (
    line',
    rest ++ (line ++ newline ∷ []),
    m',
    u',
    rw same (append_assoc line' (newline ∷ rest) (line ++ newline ∷ [])),
    IsLogOf-append records rec rest line file m u,
  )

  other_byte : (b : ℕ) → b ≢ newline → (b == newline) ≡ false
  other_byte b ne = elim (Bool-cases (b == newline)) [
    | inl same ↦ absurd (ne ((==_iff b newline).0 same))
    | inr other ↦ other
  ]

  replay_from-line :
      (before line rest : Text) (records : List TurnRecord)
      → HasNoNewline line
      → replay_from rj.json before (line ++ newline ∷ rest) records
        ≡ after
            (on_record rj.json (trim_return (before ++ line)) records)
            (replay_from rj.json [] rest)
  unfolding replay_from
  replay_from-line before [] rest records clean = rw (append-nil before) refl
  replay_from-line before (c ∷ line) rest records clean =
      rw (replay_from, other_byte c clean.0)
        (replay_from-line (before ++ c ∷ []) line rest records clean.1
          ∙ ap
              (λ t. after (on_record rj.json (trim_return t) records) (replay_from rj.json [] rest))
              (append_assoc before (c ∷ []) line))

  on_record-line :
      (line : Text) (rec : TurnRecord) (records : List TurnRecord)
      → line ≢ []
      → rj.json.unmarshal line ≡ some rec
      → on_record rj.json line records ≡ returned (records ++ rec ∷ [])
  on_record-line [] rec records some_byte r = absurd (some_byte refl)
  on_record-line (c ∷ line) rec records some_byte r = rw (on_record, r) refl

  replay_from-IsLogOf :
      (records : List TurnRecord) (bytes : Text) (read : List TurnRecord)
      → IsLogOf records bytes
      → replay_from rj.json [] bytes read ≡ returned (read ++ records)
  unfolding replay_from
  replay_from-IsLogOf [] bytes read file = rw file (ap returned (sym (append-nil read)))
  replay_from-IsLogOf (rec ∷ records) bytes read (line, rest, m, u, same, file) =
      let (clean, whole, some_byte) = rj.marshal_one_line rec line m in
      let back = rj.json.unmarshal-marshal rec line u m in
      rw (same, replay_from-line [] line rest read clean)
        (rw (whole, on_record-line line rec read some_byte back)
          (replay_from-IsLogOf records rest (read ++ rec ∷ []) file
            ∙ ap returned (append_assoc read (rec ∷ []) records)))

  -- The store has a session, whose log is of these records and whose count is theirs.
  pub record Holds (id : Text) (records : List TurnRecord) (st : SessionStore) : Type 0 where
    pub session : SessionInfo
    pub bytes : Text
    pub valid_id : is_valid_session_id id ≡ true
    pub has_session : lookup id st.sessions ≡ some session
    pub counts : session.turn_count ≡ length records
    pub has_log : lookup id st.logs ≡ some bytes
    pub log : IsLogOf records bytes

  replay-Holds :
      (io : SessionIo) (id : Text) (records : List TurnRecord) (st : SessionStore)
      → Works io
      → Holds id records st
      → replay rj.json io id st ≡ returned records
  unfolding replay
  replay-Holds io id records st (live, can_open, _, _, can_read) h =
      rw (replay, live, h.valid_id)
        (rw h.has_session
          (rw (can_open, h.has_log) (rw can_read (replay_from-IsLogOf records h.bytes [] h.log))))

  module _ (io : SessionIo) (works : Works io) (id line : Text) (records : List TurnRecord)
      (rec : TurnRecord) (st : SessionStore) (h : Holds id records st) where
    abbrev written : SessionStore
    written = record st {
      logs = insert id (h.bytes ++ (line ++ newline ∷ [])) st.logs;
      sessions = insert id (record h.session { turn_count = h.session.turn_count + 1 }) st.sessions;
    }

    append_record-written :
        rj.json.marshal rec ≡ some line
        → append_record rj.json io id h.session rec st ≡ (written, none)
    unfolding append_record write_record_line
    append_record-written m =
        let (_, can_open, whole, synced, _) = works in
        rw (append_record, h.has_log)
          (rw can_open (rw m (rw (write_record_line, whole) (rw synced refl))))

    written-Holds :
        rj.json.marshal rec ≡ some line
        → rj.json.is_utf8 rec ≡ true
        → Holds id (records ++ rec ∷ []) written
    written-Holds m u = record {
      session = record h.session { turn_count = h.session.turn_count + 1 };
      bytes = h.bytes ++ (line ++ newline ∷ []);
      valid_id = h.valid_id;
      has_session = lookup-insert id id _ st.sessions ∙ rw (str_eq_refl id) refl;
      counts = omega (arith, h.counts, length-append records (rec ∷ []));
      has_log = lookup-insert id id _ st.logs ∙ rw (str_eq_refl id) refl;
      log = IsLogOf-append records rec h.bytes line h.log m u;
    }

    -- What the store has of the other sessions stays.
    written-other :
        (other : Text) (others : List TurnRecord)
        → str_eq id other ≡ false
        → Holds other others st
        → Holds other others written
    written-other other others apart o = record {
      session = o.session;
      bytes = o.bytes;
      valid_id = o.valid_id;
      has_session = lookup-insert id other _ st.sessions ∙ rw apart o.has_session;
      counts = o.counts;
      has_log = lookup-insert id other _ st.logs ∙ rw apart o.has_log;
      log = o.log;
    }

  -- What Replay and Get answer of a session with these records.
  abbrev pub ReadsAs : SessionIo → Text → List TurnRecord → SessionStore → Type 0
  ReadsAs io id records st =
      (replay rj.json io id st ≡ returned records)
      × ((session : SessionInfo) × (get_session io id st ≡ returned session)
          × (session.turn_count ≡ length records))

  ReadsAs-Holds :
      (io : SessionIo) (id : Text) (records : List TurnRecord) (st : SessionStore)
      → Works io
      → Holds id records st
      → ReadsAs io id records st
  unfolding get_session
  ReadsAs-Holds io id records st works h = (
    replay-Holds io id records st works h,
    (h.session, rw (get_session, works.0, h.valid_id) (rw h.has_session refl), h.counts),
  )

  append_turn-written :
      (io : SessionIo) (id : Text) (records : List TurnRecord) (st : SessionStore)
      (req : TurnRequest) (resp : TurnResponse)
      → Works io
      → (h : Holds id records st)
      → append_turn rj.json io id req resp st
        ≡ append_record rj.json io id h.session (turn_record io req resp) st
  unfolding append_turn
  append_turn-written io id records st req resp works h =
      rw (append_turn, works.0, h.valid_id) (rw h.has_session refl)

  -- In a store that holds two sessions, each with a log of its records, when nothing fails and the texts of
  -- the turn are valid UTF-8: Append to one of them answers no error; after it, Replay gives its records
  -- with the new one at the end and Get counts them, and of the other both answer what it held.
  pub append_turn-ReadsAs :
      (io : SessionIo) (id other line : Text) (records others : List TurnRecord) (st : SessionStore)
      (req : TurnRequest) (resp : TurnResponse)
      → Works io
      → Holds id records st
      → Holds other others st
      → str_eq id other ≡ false
      → rj.json.marshal (turn_record io req resp) ≡ some line
      → rj.json.is_utf8 (turn_record io req resp) ≡ true
      → ((append_turn rj.json io id req resp st).1 ≡ none)
        × ReadsAs io id
            (records ++ turn_record io req resp ∷ [])
            (append_turn rj.json io id req resp st).0
        × ReadsAs io other others (append_turn rj.json io id req resp st).0
  append_turn-ReadsAs io id other line records others st req resp works h o apart m u =
      let rec = turn_record io req resp in
      rw
        (append_turn-written io id records st req resp works h
          ∙ append_record-written io works id line records rec st h m)
        (
          refl,
          ReadsAs-Holds io id (records ++ rec ∷ []) _ works
              (written-Holds io works id line records rec st h m u),
          ReadsAs-Holds io other others _ works
              (written-other io works id line records rec st h other others apart o),
        )
