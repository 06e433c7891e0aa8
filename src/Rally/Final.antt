-- ===== src/Rally/Final.antt =====
-- What interruptRallySession, CloseAllRallies, cleanupStream and the heartbeat of
-- internal/broker/rally.go do to an interrupted session.
use rallish.Prelude.{
  ℕ, ◌≡◌, sym, ap, ◌∙◌, inl, inr, some, List, [], ◌∷◌, Text, Bool-cases, Option-cases,
  some-injective, none≢some, str_eq, str_eq→eq, lookup, insert, delete, lookup-insert,
}
use rallish.Prelude.Int.{ℤ}
use rallish.Rally.Types.{Result, rally_state_interrupted, RallySession}
use rallish.Rally.Session.{Session}
use rallish.Rally.Channels.{Heap}
use rallish.Rally.Store.{Store, put_session, cleanup_stream, heartbeat}
use rallish.Rally.Baton.{
  interrupt_session, interrupt_rally_session, interrupt_all, close_all_rallies, interrupted,
  offer_sentinels,
}

abbrev pub IsEnded : Text → List (Text × Session) → Type 0
IsEnded id sessions =
    (s : Session) × (lookup id sessions ≡ some s) × (s.status ≡ rally_state_interrupted)

abbrev pub KeepsEnded : List (Text × Session) → List (Text × Session) → Type 0
KeepsEnded sessions sessions' = (id : Text) → IsEnded id sessions → IsEnded id sessions'

-- A session written over one that was not interrupted, or staying so.
pub insert-KeepsEnded :
    (k : Text) (s s' : Session) (sessions : List (Text × Session))
    → lookup k sessions ≡ some s
    → (s.status ≡ rally_state_interrupted → s'.status ≡ rally_state_interrupted)
    → KeepsEnded sessions (insert k s' sessions)
insert-KeepsEnded k s s' sessions found stays id (x, e, over) = elim (Bool-cases (str_eq k id)) [
  | inl same ↦
      let here : x ≡ s = some-injective (sym e ∙ (rw (← str_eq→eq k id same) found)) in
      (s', lookup-insert k id s' sessions ∙ rw same, stays (rw (← here) over))
  | inr other ↦ (x, lookup-insert k id s' sessions ∙ rw other e, over)
]

pub leave-KeepsEnded :
    (k name : Text) (store : Store)
    → KeepsEnded store.sessions (cleanup_stream k name store).sessions
unfolding cleanup_stream put_session
leave-KeepsEnded k name store = elim (Option-cases (lookup k store.sessions)) [
  | inl missing ↦ rw (missing, cleanup_stream) (λ id ended. ended)
  | inr (s, found) ↦
      rw (found, cleanup_stream)
        (insert-KeepsEnded k s (record s { streams = delete name s.streams }) store.sessions found
          (λ over. over))
]

pub beat-KeepsEnded :
    (k name : Text) (now_ms : ℤ) (store : Store)
    → KeepsEnded store.sessions (heartbeat k name now_ms store).sessions
unfolding heartbeat put_session
beat-KeepsEnded k name now_ms store = elim (Option-cases (lookup k store.sessions)) [
  | inl missing ↦ rw (missing, heartbeat) (λ id ended. ended)
  | inr (s, found) ↦
      rw (found, heartbeat)
        (insert-KeepsEnded k s (record s { last_seen = insert name now_ms s.last_seen })
          store.sessions found (λ over. over))
]

interrupt_session-status :
    (s s' : Session) (heap heap' : Heap) (to_close : List ℕ)
    → interrupt_session s heap ≡ some (s', heap', to_close)
    → s'.status ≡ rally_state_interrupted
unfolding interrupt_session
interrupt_session-status s s' heap heap' to_close e =
    elim (Bool-cases (str_eq s.status rally_state_interrupted)) [
      | inl over ↦
          let same : ◌≡◌ {A = Session × Heap × List ℕ} (s, heap, []) (s', heap', to_close) =
            some-injective (rw (over, interrupt_session) at e) in
          ap (λ t. t.0.status) (sym same) ∙ str_eq→eq _ _ over
      | inr running ↦ elim (Option-cases (offer_sentinels s.streams heap)) [
        | inl panics ↦ absurd (none≢some (rw (running, interrupt_session, panics) at e))
        | inr ((heap'', more), offered) ↦
            let same : ◌≡◌ {A = Session × Heap × List ℕ} (interrupted s, heap'', more)
                (s', heap', to_close) =
              some-injective (rw (running, interrupt_session, offered) at e) in
            ap (λ t. t.0.status) (sym same)
      ]
    ]

pub interrupt-KeepsEnded :
    (k : Text) (store store' : Store) (to_close : List ℕ) (r : Result RallySession)
    → interrupt_rally_session k store ≡ some (store', to_close, r)
    → KeepsEnded store.sessions store'.sessions
unfolding interrupt_rally_session put_session
interrupt-KeepsEnded k store store' to_close r e = elim (Option-cases (lookup k store.sessions)) [
  | inl missing ↦
      let same =
        ap (λ t. t.0.sessions) (some-injective (rw (missing, interrupt_rally_session) at e)) in
      rw (← same) (λ id ended. ended)
  | inr (s, found) ↦ elim (Option-cases (interrupt_session s store.heap)) [
    | inl panics ↦ absurd (none≢some (rw (found, interrupt_rally_session, panics) at e))
    | inr ((s', heap, more), i) ↦
        let same =
          ap (λ t. t.0.sessions) (some-injective (rw (found, interrupt_rally_session, i) at e)) in
        rw (← same) (
          insert-KeepsEnded k s s' store.sessions found
            (λ _. interrupt_session-status s s' store.heap heap more i))
  ]
]

pub interrupt_all-IsEnded :
    (sessions sessions' : List (Text × Session)) (heap heap' : Heap) (to_close : List ℕ)
    → interrupt_all sessions heap ≡ some (sessions', heap', to_close)
    → (id : Text) (s : Session) → lookup id sessions ≡ some s
    → IsEnded id sessions'
unfolding interrupt_all lookup
interrupt_all-IsEnded [] sessions' heap heap' to_close e id s found = absurd (none≢some found)
interrupt_all-IsEnded ((k, x) ∷ sessions) sessions' heap heap' to_close e id s found =
    elim (Option-cases (interrupt_session x heap)) [
      | inl panics ↦ absurd (none≢some (rw (panics, interrupt_all) at e))
      | inr ((x', heap1, more), i) ↦ elim (Option-cases (interrupt_all sessions heap1)) [
        | inl panics ↦ absurd (none≢some (rw (i, interrupt_all, panics) at e))
        | inr ((rest, heap2, others), a) ↦
            let same = ap (λ t. t.0) (some-injective (rw (i, interrupt_all, a) at e)) in
            rw (← same) (elim (Bool-cases (str_eq k id)) [
              | inl here ↦ (x', rw here, interrupt_session-status x x' heap heap1 more i)
              | inr there ↦ rw there (
                  interrupt_all-IsEnded sessions rest heap1 heap2 others a id s (rw there at found))
            ])
      ]
    ]

-- Shutting the broker down ends every session that it holds.
pub close_all_rallies-IsEnded :
    (store store' : Store) (to_close : List ℕ)
    → close_all_rallies store ≡ some (store', to_close)
    → (id : Text) (s : Session) → lookup id store.sessions ≡ some s
    → IsEnded id store'.sessions
unfolding close_all_rallies
close_all_rallies-IsEnded store store' to_close e id s found =
    elim (Option-cases (interrupt_all store.sessions store.heap)) [
      | inl panics ↦ absurd (none≢some (rw (panics, close_all_rallies) at e))
      | inr ((sessions, heap, more), a) ↦
          let same = ap (λ t. t.0.sessions) (some-injective (rw (a, close_all_rallies) at e)) in
          rw (← same)
            (interrupt_all-IsEnded store.sessions sessions store.heap heap more a id s found)
    ]
