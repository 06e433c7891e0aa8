-- ===== src/Rally/Ending.antt =====
-- interruptRallySession and CloseAllRallies of internal/broker/rally.go, on the channels.
use rallish.Prelude.{
  ℕ, ◌+◌, ◌≤◌, ◌≡◌, refl, inl, inr, some, List, [], ◌∷◌, ◌++◌, arith, Text, Option-cases,
  Bool-cases, lookup, AllValues, lookup-All, insert-All, str_eq,
}
use rallish.Rally.Types.{rally_state_interrupted}
use rallish.Rally.Session.{Session}
use rallish.Rally.Channels.{Heap}
use rallish.Rally.Store.{put_session}
use rallish.Rally.Baton.{
  offer_sentinels, close_event, interrupt_session, interrupt_all, interrupted,
  interrupt_rally_session, close_all_rallies,
}
use rallish.Rally.Validity.{IsValid}
use rallish.Rally.Lifecycle.{interrupted-IsValid}
use rallish.Rally.System.{System, interrupt, close_all, step}
use rallish.Rally.Open.{IsOpen, KeepsOpen, send_open}
use rallish.Rally.Uses.{
  once_self, count, count-append, count_streams, count_sessions, count_sessions-insert,
  count_streams-le,
}
use rallish.Rally.Sound.{IsSound, Succeeds, update-IsSound}

-- Every channel that a list of streams names is open.
abbrev StreamsOpen : List (Text × ℕ) → Heap → Type 0
StreamsOpen streams heap = (c : ℕ) → 1 ≤ count_streams c streams → IsOpen heap c

pub offer_sentinels_succeeds :
    (streams : List (Text × ℕ)) (heap : Heap)
    → StreamsOpen streams heap
    → (heap' : Heap) × (to_close : List ℕ) × (offer_sentinels streams heap ≡ some (heap', to_close))
      × ((c : ℕ) → count c to_close ≡ count_streams c streams)
      × KeepsOpen heap heap'
unfolding offer_sentinels
offer_sentinels_succeeds [] heap opened = (heap, [], refl, λ c. refl, λ c o. o)
offer_sentinels_succeeds ((name, ch) ∷ streams) heap opened =
    let (heap', sent, keeps) =
      send_open heap ch close_event (opened ch (omega (arith, once_self ch))) in
    let (heap'', to_close, rest, counts, keeps') =
      offer_sentinels_succeeds streams heap' (λ c h. keeps c (opened c (omega (arith, h)))) in
    (
      heap'',
      ch ∷ to_close,
      rw (sent, offer_sentinels, rest),
      λ c. omega (arith, counts c),
      λ c o. keeps' c (keeps c o),
    )

-- The session's uses of a channel are now with those to close.
abbrev Interrupts : Session → Heap → Type 0
Interrupts s heap =
    (s' : Session) × (heap' : Heap) × (to_close : List ℕ) × (interrupt_session s heap
      ≡ some (s', heap', to_close))
    × ((c : ℕ) → count_streams c s'.streams + count c to_close ≡ count_streams c s.streams)
    × KeepsOpen heap heap'
    × (IsValid s → IsValid s')

pub interrupt_session_succeeds :
    (s : Session) (heap : Heap) → StreamsOpen s.streams heap → Interrupts s heap
unfolding interrupt_session
interrupt_session_succeeds s heap opened =
    elim (Bool-cases (str_eq s.status rally_state_interrupted)) [
      | inl over ↦ (s, heap, [], rw (over, interrupt_session), λ c. omega arith, λ c o. o, λ v. v)
      | inr running ↦
          let (heap', to_close, e, counts, keeps) =
            offer_sentinels_succeeds s.streams heap opened in
          (
            interrupted s,
            heap',
            to_close,
            rw (running, interrupt_session, e),
            λ c. omega (arith, counts c),
            keeps,
            λ v. interrupted-IsValid s v,
          )
    ]

pub interrupt_all_succeeds :
    (sessions : List (Text × Session)) (heap : Heap)
    → ((c : ℕ) → 1 ≤ count_sessions c sessions → IsOpen heap c)
    → (sessions' : List (Text × Session)) × (heap' : Heap) × (to_close : List ℕ) × (interrupt_all
          sessions heap
        ≡ some (sessions', heap', to_close))
      × ((c : ℕ) → count_sessions c sessions' + count c to_close ≡ count_sessions c sessions)
      × KeepsOpen heap heap'
      × (AllValues IsValid sessions → AllValues IsValid sessions')
unfolding interrupt_all
interrupt_all_succeeds [] heap opened = ([], heap, [], refl, λ c. omega arith, λ c o. o, λ v. tt)
interrupt_all_succeeds ((id, s) ∷ sessions) heap opened =
    let (s', heap', to_close, e, counts, keeps, valid) =
      interrupt_session_succeeds s heap (λ c h. opened c (omega (arith, h))) in
    let (sessions', heap'', more, e', counts', keeps', valid') =
      interrupt_all_succeeds sessions heap' (λ c h. keeps c (opened c (omega (arith, h)))) in
    (
      (id, s') ∷ sessions',
      heap'',
      to_close ++ more,
      rw (e, interrupt_all, e'),
      λ c. omega (arith, counts c, counts' c, count-append c to_close more),
      λ c o. keeps' c (keeps c o),
      λ v. (valid v.0, valid' v.1),
    )

pub interrupt-Succeeds : (id : Text) (sys : System) → IsSound sys → Succeeds (interrupt id) sys
unfolding step interrupt_rally_session put_session
interrupt-Succeeds id sys sound = elim (Option-cases (lookup id sys.store.sessions)) [
  | inl missing ↦ (
    record { store = sys.store; to_close = sys.to_close ++ [] },
    rw (missing, interrupt_rally_session, step),
    update-IsSound sys _ sound.valid (λ c. omega (arith, count-append c sys.to_close [])) (λ c o. o)
        sound,
  )
  | inr (s, found) ↦
      let (s', heap', to_close, e, counts, keeps, valid) =
        interrupt_session_succeeds s sys.store.heap (λ c h.
          sound.opened c (omega (arith, h, count_streams-le c id s sys.store.sessions found))) in
      (
        record {
          store = put_session id s' (record sys.store { heap = heap' });
          to_close = sys.to_close ++ to_close;
        },
        rw (found, interrupt_rally_session, step, e),
        update-IsSound sys _
            (insert-All IsValid id s' sys.store.sessions
              (valid (lookup-All IsValid id _ sound.valid found)) sound.valid)
            (λ c. omega (
              arith,
              counts c,
              count-append c sys.to_close to_close,
              count_sessions-insert c id s s' sys.store.sessions found,
            ))
            keeps sound,
      )
]

pub close_all-Succeeds : (sys : System) → IsSound sys → Succeeds close_all sys
unfolding step close_all_rallies
close_all-Succeeds sys sound =
    let (sessions', heap', to_close, e, counts, keeps, valid) =
      interrupt_all_succeeds sys.store.sessions sys.store.heap
        (λ c h. sound.opened c (omega (arith, h))) in
    (
      record {
        store = record { sessions = sessions'; heap = heap' };
        to_close = sys.to_close ++ to_close;
      },
      rw (e, close_all_rallies, step),
      update-IsSound sys _ (valid sound.valid)
          (λ c. omega (arith, counts c, count-append c sys.to_close to_close)) keeps sound,
    )
