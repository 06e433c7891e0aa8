-- ===== src/Rally/Staying.antt =====
-- handleRallyBaton and advanceRallyBaton of internal/broker/rally.go on interrupted sessions.
use rallish.Prelude.{
  ◌≡◌, sym, ap, ◌∙◌, inl, inr, false, Option, some, [], ◌∷◌, ◌++◌, Text, Bool-cases, Option-cases,
  some-injective, none≢some, str_eq, str_eq→eq, str_eq_false→ne, lookup, length,
}
use rallish.Prelude.Int.{ℤ}
use rallish.Rally.Types.{Result, ok, err, rally_state_interrupted, DoneRequest, RallySession}
use rallish.Rally.Session.{Session, is_member}
use rallish.Rally.Channels.{empty_channel}
use rallish.Rally.Store.{
  Store, put_session, Joined, join_rally, open_stream, immediate_event, register, queue,
}
use rallish.Rally.Final.{KeepsEnded, insert-KeepsEnded}
use rallish.Rally.Turns.{AdvanceOutcome}

pub join_rally-KeepsEnded :
    (k as' : Text) (now_ms : ℤ) (store store' : Store) (j : Joined)
    → join_rally k as' now_ms store ≡ some (store', j)
    → KeepsEnded store.sessions store'.sessions
unfolding join_rally open_stream put_session
join_rally-KeepsEnded k as' now_ms store store' j e =
    elim (Option-cases (lookup k store.sessions)) [
      | inl missing ↦ kept (rw (missing, join_rally) at e)
      | inr (s, found) ↦ elim (Bool-cases (is_member s.participants as')) [
        | inr stranger ↦ kept (rw (found, join_rally, stranger) at e)
        | inl member ↦ elim (Bool-cases (str_eq s.status rally_state_interrupted)) [
          | inl over ↦ kept (rw (found, join_rally, member, over) at e)
          | inr running ↦ elim (Option-cases (lookup as' s.streams)) [
            | inr (ch, there) ↦ kept (rw (found, join_rally, member, running, there) at e)
            | inl free ↦ opened s found running (rw (found, join_rally, member, running, free) at e)
          ]
        ]
      ]
    ]
  where
    kept :
        {i : Joined}
        → ◌≡◌ {A = Option (Store × Joined)} (some (store, i)) (some (store', j))
        → KeepsEnded store.sessions store'.sessions
    kept same = rw (← ap (λ t. t.0.sessions) (some-injective same)) (λ id ended. ended)

    opened :
        (s : Session)
        → lookup k store.sessions ≡ some s
        → str_eq s.status rally_state_interrupted ≡ false
        → open_stream k as' now_ms s store ≡ some (store', j)
        → KeepsEnded store.sessions store'.sessions
    opened s found running o =
        let ch = length store.heap in
        let r = register s as' ch now_ms in
        elim (Option-cases
          (queue (store.heap ++ empty_channel ∷ []) ch (immediate_event r as').1)) [
            | inl panics ↦ absurd (none≢some (rw (panics, open_stream) at o))
            | inr (heap, queued) ↦
                let same =
                  ap (λ t. t.0.sessions) (some-injective (rw (queued, open_stream) at o)) in
                rw (← same) (
                  insert-KeepsEnded k s (immediate_event r as').0 store.sessions found
                    (λ over. absurd (str_eq_false→ne _ _ running over)))
          ]

pub advance-KeepsEnded :
    (k as' : Text) (req : DoneRequest) (now_ms : ℤ) (store store' : Store) (r : Result RallySession)
    → AdvanceOutcome k as' req now_ms store store' r
    → KeepsEnded store.sessions store'.sessions
advance-KeepsEnded k as' req now_ms store store' (err x) same id ended = rw same ended
advance-KeepsEnded k as' req now_ms store store' (ok public) passed id (x, e, over) =
    let (s, s', to, found, running, holds, parsed, next, turn, at_k, snapshot, others) = passed in
    elim (Bool-cases (str_eq k id)) [
      | inl same ↦
          let here : s ≡ x = some-injective (sym found ∙ (rw (str_eq→eq k id same) e)) in
          absurd (running (rw here over))
      | inr other ↦ (x, others id other ∙ e, over)
    ]
