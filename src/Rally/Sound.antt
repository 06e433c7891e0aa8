-- ===== src/Rally/Sound.antt =====
-- The invariant of internal/broker/rally.go, and the calls that open and close no channel.
use rallish.Prelude.{
  ℕ, ◌≤◌, ◌≡◌, refl, ap, inl, inr, Option, some, List, arith, Text, Option-cases, lookup, insert,
  delete, AllValues, lookup-All, insert-All,
}
use rallish.Prelude.Int.{ℤ}
use rallish.Rally.Types.{Result, ok, err, NewRallyRequest}
use rallish.Rally.Session.{Session}
use rallish.Rally.Store.{
  Store, put_session, create_rally_session, new_session, cleanup_stream, heartbeat,
}
use rallish.Rally.Validity.{IsValid}
use rallish.Rally.Lifecycle.{new_session-IsValid}
use rallish.Rally.System.{
  System, new_system, Call, create, receive_from, leave, beat, step, with_store,
}
use rallish.Rally.Open.{IsOpen, KeepsOpen, receive-KeepsOpen}
use rallish.Rally.Uses.{
  uses, count_streams, count_sessions-insert, count_sessions-insert_le, count_streams-delete,
}

-- Every session is valid, no channel is named twice, and each that is named is open.
pub record IsSound (sys : System) : Type 0 where
  pub valid : AllValues IsValid sys.store.sessions
  pub single : (c : ℕ) → uses c sys ≤ 1
  pub opened : (c : ℕ) → 1 ≤ uses c sys → IsOpen sys.store.heap c

pub new_system-IsSound : IsSound new_system
new_system-IsSound = record {
  valid = tt;
  single = λ c. omega arith;
  opened = λ c h. absurd (omega (arith, h));
}

-- The call succeeds, and keeps the system sound.
abbrev pub Succeeds : Call → System → Type 0
Succeeds call sys = (sys' : System) × (step call sys ≡ some sys') × IsSound sys'

-- A change that adds no use of a channel and keeps the open ones.
pub update-IsSound :
    (sys sys' : System)
    → AllValues IsValid sys'.store.sessions
    → ((c : ℕ) → uses c sys' ≤ uses c sys)
    → KeepsOpen sys.store.heap sys'.store.heap
    → IsSound sys
    → IsSound sys'
update-IsSound sys sys' valid fewer keeps sound = record {
  valid = valid;
  single = λ c. omega (arith, fewer c, sound.single c);
  opened = λ c h. keeps c (sound.opened c (omega (arith, h, fewer c)));
}

-- A session is written back with streams that it had.
pub put-IsSound :
    (sys : System) (id : Text) (s s' : Session)
    → lookup id sys.store.sessions ≡ some s
    → IsValid s'
    → ((c : ℕ) → count_streams c s'.streams ≤ count_streams c s.streams)
    → IsSound sys
    → IsSound (with_store sys (put_session id s' sys.store))
unfolding put_session
put-IsSound sys id s s' found v fewer sound =
    update-IsSound sys _ (insert-All IsValid id s' sys.store.sessions v sound.valid)
      (λ c. omega (arith, fewer c, count_sessions-insert c id s s' sys.store.sessions found))
      (λ c o. o) sound

-- A valid session stays valid when only its streams or times change.
pub same-IsValid :
    (s : Session) (streams : List (Text × ℕ)) (seen : List (Text × ℤ))
    → IsValid s
    → IsValid (record s { streams = streams; last_seen = seen })
same-IsValid s streams seen v = record {
  named = v.named;
  several = v.several;
  distinct = v.distinct;
  phase = v.phase;
}

pub create-Succeeds :
    (id : Text) (now_ms : ℤ) (req : NewRallyRequest) (sys : System)
    → IsSound sys
    → Succeeds (create id now_ms req) sys
unfolding step create_rally_session put_session
create-Succeeds id now_ms req sys sound = (_, refl, made (new_session id now_ms req) refl)
  where
    made :
        (r : Result Session)
        → new_session id now_ms req ≡ r
        → IsSound (with_store sys (create_rally_session id now_ms req sys.store).0)
    made (err e) failed = rw (failed, create_rally_session) sound
    made (ok s) e =
        let (valid, _, _, empty) = new_session-IsValid id now_ms req s e in
        rw (e, create_rally_session)
          (update-IsSound sys _ (insert-All IsValid id s sys.store.sessions valid sound.valid)
            (λ c. omega (
              arith,
              ap (count_streams c) empty,
              count_sessions-insert_le c id s sys.store.sessions,
            ))
            (λ c o. o) sound)

pub receive_from-Succeeds : (c : ℕ) (sys : System) → IsSound sys → Succeeds (receive_from c) sys
unfolding step
receive_from-Succeeds c sys sound = (
  _,
  refl,
  update-IsSound sys _ sound.valid (λ c. omega arith) (receive-KeepsOpen sys.store.heap c) sound,
)

pub leave-Succeeds : (id name : Text) (sys : System) → IsSound sys → Succeeds (leave id name) sys
unfolding step cleanup_stream
leave-Succeeds id name sys sound = (
  _,
  refl,
  elim (Option-cases (lookup id sys.store.sessions)) [
    | inl missing ↦ rw (missing, cleanup_stream) sound
    | inr (s, found) ↦
        rw (found, cleanup_stream)
          (put-IsSound sys id s (record s { streams = delete name s.streams }) found
            (same-IsValid s (delete name s.streams) s.last_seen
              (lookup-All IsValid id _ sound.valid found))
            (λ c. count_streams-delete c name s.streams) sound)
  ],
)

pub beat-Succeeds :
    (id name : Text) (now_ms : ℤ) (sys : System) → IsSound sys → Succeeds (beat id name now_ms) sys
unfolding step heartbeat
beat-Succeeds id name now_ms sys sound = (
  _,
  refl,
  elim (Option-cases (lookup id sys.store.sessions)) [
    | inl missing ↦ rw (missing, heartbeat) sound
    | inr (s, found) ↦
        rw (found, heartbeat)
          (put-IsSound sys id s (record s { last_seen = insert name now_ms s.last_seen }) found
            (same-IsValid s s.streams (insert name now_ms s.last_seen)
              (lookup-All IsValid id _ sound.valid found))
            (λ c. omega arith) sound)
  ],
)

-- The store calls that return, with what they leave sound.
abbrev pub Leaves {ℓ} : {A : Type ℓ} → System → Option (Store × A) → Type ℓ
Leaves {A} sys o =
    (store : Store) × (a : A) × (o ≡ some (store, a)) × IsSound (with_store sys store)
