-- ===== src/Rally/Absorbing.antt =====
-- The calls of internal/broker/rally.go on an interrupted session.
use rallish.Prelude.{
  ℕ, ◌≡◌, refl, ap, ◌∙◌, inl, inr, Bool, false, Option, some, Text, Option-cases, some-injective,
  none≢some, str_eq, lookup-insert, get_elem?,
}
use rallish.Prelude.Int.{ℤ}
use rallish.Rally.Types.{
  Result, ok, err, new_session_id, new_participant_name, DoneRequest, RallySession, NewRallyRequest,
}
use rallish.Rally.Session.{Session}
use rallish.Rally.Channels.{close}
use rallish.Rally.Store.{Store, put_session, Joined, handle_rally_baton}
use rallish.Rally.Baton.{handle_rally_done, interrupt_rally_session, close_all_rallies}
use rallish.Rally.System.{
  System, Call, create, join, done, interrupt, close_all, close_pending, receive_from, leave, beat,
  step, close_one,
}
use rallish.Rally.Final.{
  IsEnded, KeepsEnded, leave-KeepsEnded, beat-KeepsEnded, interrupt-KeepsEnded,
  close_all_rallies-IsEnded,
}
use rallish.Rally.Store.{create_rally_session, new_session}
use rallish.Rally.Turns.{advance_rally_baton-outcome}
use rallish.Rally.Staying.{join_rally-KeepsEnded, advance-KeepsEnded}

-- Whether a call stores a new session under an id.
abbrev pub creates : Call → Text → Bool
creates (create id now_ms req) j = str_eq id j
creates _ j = false

create-other :
    (k id : Text) (now_ms : ℤ) (req : NewRallyRequest) (store : Store)
    → str_eq k id ≡ false
    → IsEnded id store.sessions
    → IsEnded id (create_rally_session k now_ms req store).0.sessions
unfolding create_rally_session put_session
create-other k id now_ms req store other ended = made (new_session k now_ms req) refl
  where
    made :
        (r : Result Session)
        → new_session k now_ms req ≡ r
        → IsEnded id (create_rally_session k now_ms req store).0.sessions
    made (err x) n = rw (n, create_rally_session) ended
    made (ok s) n =
        let (x, e, over) = ended in
        rw (n, create_rally_session) (x, lookup-insert k id s store.sessions ∙ rw other e, over)

handle_rally_baton-KeepsEnded :
    (raw_id as_raw : Text) (now_ms : ℤ) (store store' : Store) (j : Joined)
    → handle_rally_baton raw_id as_raw now_ms store ≡ some (store', j)
    → KeepsEnded store.sessions store'.sessions
unfolding handle_rally_baton
handle_rally_baton-KeepsEnded raw_id as_raw now_ms store store' j e =
    parsed (new_session_id raw_id) refl
  where
    kept :
        {i : Joined}
        → ◌≡◌ {A = Option (Store × Joined)} (some (store, i)) (some (store', j))
        → KeepsEnded store.sessions store'.sessions
    kept same = rw (← ap (λ t. t.0.sessions) (some-injective same)) (λ id ended. ended)

    named :
        (id : Text)
        → new_session_id raw_id ≡ ok id
        → (m : Result Text) → new_participant_name as_raw ≡ m
        → KeepsEnded store.sessions store'.sessions
    named id i (err x) n = kept (rw (i, handle_rally_baton, n) at e)
    named id i (ok as') n =
        join_rally-KeepsEnded id as' now_ms store store' j (rw (i, handle_rally_baton, n) at e)

    parsed :
        (m : Result Text) → new_session_id raw_id ≡ m → KeepsEnded store.sessions store'.sessions
    parsed (err x) i = kept (rw (i, handle_rally_baton) at e)
    parsed (ok id) i = named id i (new_participant_name as_raw) refl

handle_rally_done-KeepsEnded :
    (raw_id as_raw : Text) (req : DoneRequest) (now_ms : ℤ) (store store' : Store)
    (r : Result RallySession)
    → handle_rally_done raw_id as_raw req now_ms store ≡ some (store', r)
    → KeepsEnded store.sessions store'.sessions
unfolding handle_rally_done
handle_rally_done-KeepsEnded raw_id as_raw req now_ms store store' r e =
    parsed (new_session_id raw_id) refl
  where
    kept :
        {i : Result RallySession}
        → ◌≡◌ {A = Option (Store × Result RallySession)} (some (store, i)) (some (store', r))
        → KeepsEnded store.sessions store'.sessions
    kept same = rw (← ap (λ t. t.0.sessions) (some-injective same)) (λ id ended. ended)

    named :
        (id : Text)
        → new_session_id raw_id ≡ ok id
        → (m : Result Text) → new_participant_name as_raw ≡ m
        → KeepsEnded store.sessions store'.sessions
    named id i (err x) n = kept (rw (i, handle_rally_done, n) at e)
    named id i (ok as') n = advance-KeepsEnded id as' req now_ms store store' r (
        advance_rally_baton-outcome id as' req now_ms store store' r
          (rw (i, handle_rally_done, n) at e))

    parsed :
        (m : Result Text) → new_session_id raw_id ≡ m → KeepsEnded store.sessions store'.sessions
    parsed (err x) i = kept (rw (i, handle_rally_done) at e)
    parsed (ok id) i = named id i (new_participant_name as_raw) refl

close_one-sessions :
    (k : ℕ) (sys sys' : System)
    → close_one k sys ≡ some sys'
    → sys.store.sessions ≡ sys'.store.sessions
unfolding close_one
close_one-sessions k sys sys' e = elim (Option-cases (get_elem? sys.to_close k)) [
  | inl nothing ↦ ap (λ t. t.store.sessions) (some-injective (rw (nothing, close_one) at e))
  | inr (d, found) ↦ elim (Option-cases (close sys.store.heap d)) [
    | inl panics ↦ absurd (none≢some (rw (found, close_one, panics) at e))
    | inr (heap, closed) ↦
        ap (λ t. t.store.sessions) (some-injective (rw (found, close_one, closed) at e))
  ]
]

-- An interrupted session stays interrupted through every call but one that creates a session under its
-- id: no join, pass of the baton, heartbeat, cleanup or further interrupt brings it back.
pub step-IsEnded :
    (call : Call) (sys sys' : System) (id : Text)
    → creates call id ≡ false
    → step call sys ≡ some sys'
    → IsEnded id sys.store.sessions
    → IsEnded id sys'.store.sessions
unfolding step close_one
step-IsEnded (create k now_ms req) sys sys' id c e ended =
    rw (← ap (λ t. t.store.sessions) (some-injective e))
      (create-other k id now_ms req sys.store c ended)
step-IsEnded (join raw_id as_raw now_ms) sys sys' id c e ended =
    elim (Option-cases (handle_rally_baton raw_id as_raw now_ms sys.store)) [
      | inl panics ↦ absurd (none≢some (rw (panics, step) at e))
      | inr ((store, j), h) ↦
          rw (← ap (λ t. t.store.sessions) (some-injective (rw (h, step) at e)))
            (handle_rally_baton-KeepsEnded raw_id as_raw now_ms sys.store store j h id ended)
    ]
step-IsEnded (done raw_id as_raw req now_ms) sys sys' id c e ended =
    elim (Option-cases (handle_rally_done raw_id as_raw req now_ms sys.store)) [
      | inl panics ↦ absurd (none≢some (rw (panics, step) at e))
      | inr ((store, r), h) ↦
          rw (← ap (λ t. t.store.sessions) (some-injective (rw (h, step) at e)))
            (handle_rally_done-KeepsEnded raw_id as_raw req now_ms sys.store store r h id ended)
    ]
step-IsEnded (interrupt k) sys sys' id c e ended =
    elim (Option-cases (interrupt_rally_session k sys.store)) [
      | inl panics ↦ absurd (none≢some (rw (panics, step) at e))
      | inr ((store, more, r), i) ↦
          rw (← ap (λ t. t.store.sessions) (some-injective (rw (i, step) at e)))
            (interrupt-KeepsEnded k sys.store store more r i id ended)
    ]
step-IsEnded close_all sys sys' id c e (x, found, over) =
    elim (Option-cases (close_all_rallies sys.store)) [
      | inl panics ↦ absurd (none≢some (rw (panics, step) at e))
      | inr ((store, more), a) ↦
          rw (← ap (λ t. t.store.sessions) (some-injective (rw (a, step) at e)))
            (close_all_rallies-IsEnded sys.store store more a id x found)
    ]
step-IsEnded (close_pending k) sys sys' id c e ended = rw (← close_one-sessions k sys sys' e) ended
step-IsEnded (receive_from ch) sys sys' id c e ended =
    rw (← ap (λ t. t.store.sessions) (some-injective e)) ended
step-IsEnded (leave k name) sys sys' id c e ended =
    rw (← ap (λ t. t.store.sessions) (some-injective e))
      (leave-KeepsEnded k name sys.store id ended)
step-IsEnded (beat k name now_ms) sys sys' id c e ended =
    rw (← ap (λ t. t.store.sessions) (some-injective e))
      (beat-KeepsEnded k name now_ms sys.store id ended)
