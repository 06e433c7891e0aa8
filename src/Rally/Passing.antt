-- ===== src/Rally/Passing.antt =====
-- handleRallyDone of internal/broker/rally.go, on the channels.
use rallish.Prelude.{
  ℕ, ◌+◌, ◌≤◌, ◌≡◌, refl, inl, inr, Option, none, some, arith, Text, Option-cases, lookup,
  lookup-All, insert-All, true, false,
}
use rallish.Prelude.Int.{ℤ}
use rallish.Rally.Types.{
  Result, ok, err, new_session_id, new_participant_name, new_participant_name-ok, matches_name,
  DoneRequest, BatonEvent, session_not_found,
}
use rallish.Rally.Session.{Session, next_participant, to_public}
use rallish.Rally.Channels.{Heap}
use rallish.Rally.Store.{put_session}
use rallish.Rally.Baton.{
  handle_rally_done, advance_rally_baton, pass_baton, deliver, hand_over, check_turn, parse_handoff,
}
use rallish.Rally.Validity.{IsValid}
use rallish.Rally.Lifecycle.{hand_over-IsValid}
use rallish.Rally.System.{System, done, step, with_store}
use rallish.Rally.Open.{IsOpen, KeepsOpen, send_open}
use rallish.Rally.Uses.{count_streams, count_sessions-insert, count_streams-le, lookup-count}
use rallish.Rally.Sound.{IsSound, Succeeds, Leaves, update-IsSound}

deliver_succeeds :
    (s : Session) (next : Text) (evt : BatonEvent) (heap : Heap)
    → ((c : ℕ) → 1 ≤ count_streams c s.streams → IsOpen heap c)
    → (heap' : Heap) × (deliver s next evt heap ≡ some heap') × KeepsOpen heap heap'
unfolding deliver
deliver_succeeds s next evt heap opened = elim (Option-cases (lookup next s.streams)) [
  | inl away ↦ (heap, rw (away, deliver), λ c o. o)
  | inr (ch, there) ↦
      let (heap', sent, keeps) =
        send_open heap ch evt (opened ch (lookup-count next ch s.streams there)) in
      (heap', rw (there, deliver) sent, keeps)
]

pass_baton-Leaves :
    (id as' note : Text) (now_ms : ℤ) (s : Session) (handoff_to : Text) (sys : System)
    → lookup id sys.store.sessions ≡ some s
    → matches_name as' ≡ true
    → check_turn s as' handoff_to ≡ ok tt
    → IsSound sys
    → Leaves sys (pass_baton id as' note now_ms s handoff_to sys.store)
unfolding pass_baton put_session hand_over
pass_baton-Leaves id as' note now_ms s handoff_to sys found named checked sound =
    let next = next_participant s.participants as' handoff_to in
    let s' = hand_over s as' next note now_ms in
    let valid =
      insert-All IsValid id s' sys.store.sessions
        (hand_over-IsValid s as' handoff_to note now_ms (lookup-All IsValid id _ sound.valid found)
          named checked)
        sound.valid in
    let evt : BatonEvent = record {
      turn_n = s.turn_n + 1;
      from = as';
      note = note;
      closed = false;
    } in
    let (heap, sent, keeps) = deliver_succeeds s' next evt sys.store.heap (λ c h.
      sound.opened c (omega (arith, h, count_streams-le c id s sys.store.sessions found))) in
    (
      put_session id s' (record sys.store { heap = heap }),
      to_public s',
      rw (sent, pass_baton),
      update-IsSound sys _ valid
          (λ c. omega (arith, count_sessions-insert c id s s' sys.store.sessions found)) keeps
          sound,
    )

advance-Leaves :
    (id as' : Text) (req : DoneRequest) (now_ms : ℤ) (sys : System)
    → matches_name as' ≡ true
    → IsSound sys
    → Leaves sys (advance_rally_baton id as' req now_ms sys.store)
unfolding advance_rally_baton
advance-Leaves id as' req now_ms sys named sound = parsed (parse_handoff as' req.handoff_to) refl
  where
    checked :
        (to : Text) (s : Session)
        → parse_handoff as' req.handoff_to ≡ ok to
        → lookup id sys.store.sessions ≡ some s
        → (m : Result (Unit {0})) → check_turn s as' to ≡ m
        → Leaves sys (advance_rally_baton id as' req now_ms sys.store)
    checked to s e found (err x) c =
        (sys.store, err x, rw (e, advance_rally_baton, found, c), sound)
    checked to s e found (ok tt) c =
        let (store, public, e', sound') =
          pass_baton-Leaves id as' req.note now_ms s to sys found named c sound in
        (store, ok public, rw (e, advance_rally_baton, found, c, e'), sound')

    found-Leaves :
        (to : Text)
        → parse_handoff as' req.handoff_to ≡ ok to
        → (o : Option Session) → lookup id sys.store.sessions ≡ o
        → Leaves sys (advance_rally_baton id as' req now_ms sys.store)
    found-Leaves to e none missing =
        (sys.store, err session_not_found, rw (e, advance_rally_baton, missing), sound)
    found-Leaves to e (some s) found = checked to s e found (check_turn s as' to) refl

    parsed :
        (m : Result Text)
        → parse_handoff as' req.handoff_to ≡ m
        → Leaves sys (advance_rally_baton id as' req now_ms sys.store)
    parsed (err x) e = (sys.store, err x, rw (e, advance_rally_baton), sound)
    parsed (ok to) e = found-Leaves to e (lookup id sys.store.sessions) refl

pub done-Succeeds :
    (raw_id as_raw : Text) (req : DoneRequest) (now_ms : ℤ) (sys : System)
    → IsSound sys
    → Succeeds (done raw_id as_raw req now_ms) sys
unfolding step handle_rally_done
done-Succeeds raw_id as_raw req now_ms sys sound = parsed (new_session_id raw_id) refl
  where
    named :
        (id : Text)
        → new_session_id raw_id ≡ ok id
        → (m : Result Text) → new_participant_name as_raw ≡ m
        → Succeeds (done raw_id as_raw req now_ms) sys
    named id e (err x) n = (sys, rw (e, handle_rally_done, step, n), sound)
    named id e (ok as') n =
        let (_, matches) = new_participant_name-ok as_raw as' n in
        let (store, result, e', sound') = advance-Leaves id as' req now_ms sys matches sound in
        (with_store sys store, rw (e, handle_rally_done, step, n, e'), sound')

    parsed :
        (m : Result Text) → new_session_id raw_id ≡ m → Succeeds (done raw_id as_raw req now_ms) sys
    parsed (err x) e = (sys, rw (e, handle_rally_done, step), sound)
    parsed (ok id) e = named id e (new_participant_name as_raw) refl
