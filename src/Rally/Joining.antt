-- ===== src/Rally/Joining.antt =====
-- handleRallyBaton of internal/broker/rally.go, on the channels.
use rallish.Prelude.{
  get_elem?, ℕ, ◌+◌, ◌≡◌, refl, ap, inl, inr, Option, none, some, [], ◌∷◌, ◌++◌, arith, Text,
  length, Option-cases, Bool-cases, lookup, AllValues, lookup-All, insert-All, str_eq, eq-cases,
  ◌&&◌,
}
use rallish.Prelude.Int.{ℤ}
use rallish.Rally.Types.{
  Result, ok, err, new_session_id, new_participant_name, BatonEvent, rally_state_interrupted,
  rally_state_idle, rally_turn_state, session_not_found, not_a_participant, already_connected,
}
use rallish.Rally.Session.{Session, is_member, participant_at}
use rallish.Rally.Channels.{Heap, empty_channel}
use rallish.Rally.Store.{
  put_session, handle_rally_baton, join_rally, open_stream, immediate_event, register, queue,
  streaming, rejected, close_sentinel,
}
use rallish.Rally.Validity.{IsValid}
use rallish.Rally.Lifecycle.{immediate_event-IsValid}
use rallish.Rally.System.{System, join, step, with_store}
use rallish.Rally.Open.{
  KeepsOpen, put_empty, append_empty, append-IsOpen, append-KeepsOpen, IsOpen-lt,
}
use rallish.Rally.Uses.{
  uses, once, once_self, once_other, count_streams, count_sessions-insert, count_streams-insert,
}
use rallish.Rally.Sound.{IsSound, Succeeds, Leaves, same-IsValid}

immediate_event-streams : (s : Session) (as' : Text) → (immediate_event s as').0.streams ≡ s.streams
unfolding immediate_event
immediate_event-streams s as' =
    elim (Bool-cases
      (str_eq s.status rally_state_idle && str_eq (participant_at s.participants 0) as')) [
        | inl starts ↦ rw starts
        | inr other ↦ elim (Bool-cases (str_eq s.status (rally_turn_state as'))) [
          | inl mine ↦ rw (other, mine)
          | inr theirs ↦ rw (other, theirs)
        ]
      ]

-- The event for a participant that joins fits its new channel.
queue_open :
    (heap : Heap) (ch : ℕ) (evt : Option BatonEvent)
    → get_elem? heap ch ≡ some empty_channel
    → (heap' : Heap) × (queue heap ch evt ≡ some heap') × KeepsOpen heap heap'
queue_open heap ch none o = (heap, refl, λ c h. h)
queue_open heap ch (some evt) o = put_empty heap ch evt o

-- A system that uses one more channel, the new one at the end of the heap.
new_channel-IsSound :
    (sys sys' : System)
    → AllValues IsValid sys'.store.sessions
    → ((c : ℕ) → uses c sys' ≡ uses c sys + once c (length sys.store.heap))
    → KeepsOpen (sys.store.heap ++ empty_channel ∷ []) sys'.store.heap
    → IsSound sys
    → IsSound sys'
new_channel-IsSound sys sys' valid counts keeps sound = record {
  valid = valid;
  single = λ c. elim (eq-cases (length sys.store.heap) c) [
    | inl new ↦ omega (arith, counts c, once_self c, unused c new, ap (once c) new)
    | inr old ↦ omega (arith, counts c, once_other c (length sys.store.heap) old, sound.single c)
  ];
  opened = λ c h. elim (eq-cases (length sys.store.heap) c) [
    | inl new ↦ rw (← new) (keeps _ (append-IsOpen sys.store.heap))
    | inr old ↦ keeps c (
        append-KeepsOpen sys.store.heap c
          (sound.opened c (omega (arith, h, counts c, once_other c (length sys.store.heap) old))))
  ];
}
  where
    unused : (c : ℕ) → length sys.store.heap ≡ c → uses c sys ≡ 0
    unused c new = elim (eq-cases (uses c sys) 0) [
      | inl nobody ↦ nobody
      | inr used ↦
          absurd
            (omega (arith, new, IsOpen-lt sys.store.heap c (sound.opened c (omega (arith, used)))))
    ]

open_stream-Leaves :
    (id as' : Text) (now_ms : ℤ) (s : Session) (sys : System)
    → lookup id sys.store.sessions ≡ some s
    → lookup as' s.streams ≡ none
    → IsSound sys
    → Leaves sys (open_stream id as' now_ms s sys.store)
unfolding open_stream put_session
open_stream-Leaves id as' now_ms s sys found free sound =
    let ch = length sys.store.heap in
    let r = register s as' ch now_ms in
    let s' = (immediate_event r as').0 in
    let (heap, queued, keeps) =
      queue_open (sys.store.heap ++ empty_channel ∷ []) ch (immediate_event r as').1
        (append_empty sys.store.heap) in
    let valid : IsValid s' =
      immediate_event-IsValid r as'
        (same-IsValid s r.streams r.last_seen (lookup-All IsValid id _ sound.valid found)) in
    (
      put_session id s' (record sys.store { heap = heap }),
      streaming ch,
      rw (queued, open_stream),
      new_channel-IsSound sys _ (insert-All IsValid id s' sys.store.sessions valid sound.valid)
          (λ c. omega (
            arith,
            ap (count_streams c) (immediate_event-streams r as'),
            count_streams-insert c as' ch s.streams free,
            count_sessions-insert c id s s' sys.store.sessions found,
          ))
          keeps sound,
    )

join_rally-Leaves :
    (id as' : Text) (now_ms : ℤ) (sys : System)
    → IsSound sys
    → Leaves sys (join_rally id as' now_ms sys.store)
unfolding join_rally
join_rally-Leaves id as' now_ms sys sound = elim (Option-cases (lookup id sys.store.sessions)) [
  | inl missing ↦ (sys.store, rejected session_not_found, rw (missing, join_rally), sound)
  | inr (s, found) ↦ elim (Bool-cases (is_member s.participants as')) [
    | inr stranger ↦
        (sys.store, rejected not_a_participant, rw (found, join_rally, stranger), sound)
    | inl member ↦ elim (Bool-cases (str_eq s.status rally_state_interrupted)) [
      | inl over ↦ (sys.store, close_sentinel, rw (found, join_rally, member, over), sound)
      | inr running ↦ elim (Option-cases (lookup as' s.streams)) [
        | inr (ch, there) ↦ (
          sys.store,
          rejected already_connected,
          rw (found, join_rally, member, running, there),
          sound,
        )
        | inl free ↦
            let (store, joined, e, sound') =
              open_stream-Leaves id as' now_ms s sys found free sound in
            (store, joined, rw (found, join_rally, member, running, free) e, sound')
      ]
    ]
  ]
]

pub join-Succeeds :
    (raw_id as_raw : Text) (now_ms : ℤ) (sys : System)
    → IsSound sys
    → Succeeds (join raw_id as_raw now_ms) sys
unfolding step handle_rally_baton
join-Succeeds raw_id as_raw now_ms sys sound = parsed (new_session_id raw_id) refl
  where
    named :
        (id : Text)
        → new_session_id raw_id ≡ ok id
        → (m : Result Text) → new_participant_name as_raw ≡ m
        → Succeeds (join raw_id as_raw now_ms) sys
    named id e (err x) n = (sys, rw (e, handle_rally_baton, step, n), sound)
    named id e (ok as') n =
        let (store, joined, e', sound') = join_rally-Leaves id as' now_ms sys sound in
        (with_store sys store, rw (e, handle_rally_baton, step, n, e'), sound')

    parsed :
        (m : Result Text) → new_session_id raw_id ≡ m → Succeeds (join raw_id as_raw now_ms) sys
    parsed (err x) e = (sys, rw (e, handle_rally_baton, step), sound)
    parsed (ok id) e = named id e (new_participant_name as_raw) refl
