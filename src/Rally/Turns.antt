-- ===== src/Rally/Turns.antt =====
-- advanceRallyBaton of internal/broker/rally.go: who may pass the baton, and what a pass changes.
use rallish.Prelude.{
  ◌+◌, ◌≡◌, ◌≢◌, refl, sym, ap, ◌∙◌, inl, inr, false, Option, none, some, [], ◌∷◌, ◌++◌, Text,
  Option-cases, some-injective, none≢some, str_eq, str_eq_refl, lookup, lookup-insert,
}
use rallish.Prelude.Int.{ℤ}
use rallish.Rally.Types.{
  RallyError, Result, ok, err, err≢ok, session_not_found, rally_state_interrupted, rally_turn_state,
  DoneRequest, RallySession,
}
use rallish.Rally.Session.{Session, next_participant, to_public}
use rallish.Rally.Channels.{Heap}
use rallish.Rally.Store.{Store, put_session}
use rallish.Rally.Baton.{
  parse_handoff, check_turn, hand_over, deliver, pass_baton, advance_rally_baton,
}
use rallish.Rally.Lifecycle.{check_turn-ok}

-- The session after a pass: the next turn, its record at the end of the history, and its holder.
abbrev pub IsNextTurn : Session → Session → Text → Text → ℤ → Type 0
IsNextTurn s s' as' note now_ms =
    (s'.turn_n ≡ s.turn_n + 1)
    × (s'.status ≡ rally_turn_state s'.holder)
    × (s'.participants ≡ s.participants)
    × (s'.history
        ≡ s.history
          ++ record { from = as'; to = s'.holder; turn_n = s'.turn_n; note = note; at = now_ms }
            ∷ [])

-- A pass that was accepted: the caller held a running session, the store has its next turn, and every
-- other session is as it was.
abbrev pub IsPassed : Text → Text → DoneRequest → ℤ → Store → Store → RallySession → Type 0
IsPassed id as' req now_ms store store' public =
    (s : Session) × (s' : Session) × (to : Text) × (lookup id store.sessions ≡ some s)
    × (s.status ≢ rally_state_interrupted)
    × (s.holder ≡ as')
    × (parse_handoff as' req.handoff_to ≡ ok to)
    × (s'.holder ≡ next_participant s.participants as' to)
    × IsNextTurn s s' as' req.note now_ms
    × (lookup id store'.sessions ≡ some s')
    × (public ≡ to_public s')
    × ((j : Text) → str_eq id j ≡ false → lookup j store'.sessions ≡ lookup j store.sessions)

-- An error leaves the store as it was, and success is a pass by the holder.
abbrev pub AdvanceOutcome :
    Text → Text → DoneRequest → ℤ → Store → Store → Result RallySession → Type 0
AdvanceOutcome id as' req now_ms store store' (err e) = store' ≡ store
AdvanceOutcome id as' req now_ms store store' (ok public) =
    IsPassed id as' req now_ms store store' public

module _ (id as' : Text) (req : DoneRequest) (now_ms : ℤ) (store : Store) where
  unchanged :
      (store' : Store) (r : Result RallySession) (x : RallyError)
      → ◌≡◌ {A = Option (Store × Result RallySession)} (some (store, err x)) (some (store', r))
      → AdvanceOutcome id as' req now_ms store store' r
  unchanged store' (err y) x e = cc
  unchanged store' (ok public) x e = absurd (err≢ok (ap (λ t. t.1) (some-injective e)))

  put-lookup :
      (s' : Session) (heap : Heap)
      → lookup id (put_session id s' (record store { heap = heap })).sessions ≡ some s'
  unfolding put_session
  put-lookup s' heap = lookup-insert id id s' store.sessions ∙ rw (str_eq_refl id)

  put-others :
      (s' : Session) (heap : Heap) (j : Text)
      → str_eq id j ≡ false
      → lookup j (put_session id s' (record store { heap = heap })).sessions
        ≡ lookup j store.sessions
  unfolding put_session
  put-others s' heap j other = lookup-insert id j s' store.sessions ∙ rw other

  passed :
      (s : Session) (to : Text) (store' : Store) (public : RallySession)
      → lookup id store.sessions ≡ some s
      → parse_handoff as' req.handoff_to ≡ ok to
      → check_turn s as' to ≡ ok tt
      → pass_baton id as' req.note now_ms s to store ≡ some (store', public)
      → IsPassed id as' req now_ms store store' public
  unfolding pass_baton hand_over
  passed s to store' public found parsed checked e =
      let next = next_participant s.participants as' to in
      let s' = hand_over s as' next req.note now_ms in
      let (running, holds, _) = check_turn-ok s as' to checked in
      elim (Option-cases (
        deliver s' next (record { turn_n = s'.turn_n; from = as'; note = req.note; closed = false })
          store.heap)) [
            | inl panics ↦ absurd (none≢some (rw (panics, pass_baton) at e))
            | inr (heap, sent) ↦
                let same : (put_session id s' (record store { heap = heap }), to_public s')
                    ≡ (store', public) =
                  some-injective (rw (sent, pass_baton) at e) in
                let at_id : lookup id store'.sessions ≡ some s' =
                  rw (← ap (λ t. t.0) same) (put-lookup s' heap) in
                let others : (j : Text)
                    → str_eq id j ≡ false
                    → lookup j store'.sessions ≡ lookup j store.sessions =
                  λ j other. rw (← ap (λ t. t.0) same) (put-others s' heap j other) in
                (
                  s,
                  s',
                  to,
                  found,
                  running,
                  holds,
                  parsed,
                  refl,
                  (refl, refl, refl, refl),
                  at_id,
                  sym (ap (λ t. t.1) same),
                  others,
                )
          ]

  -- A pass of the baton that returns an error leaves the store as it was. One that succeeds was made by
  -- the holder of a running session: that session moves to its next turn, held by the participant
  -- that nextParticipant chooses, with one more record in its history; the answer is its snapshot, and
  -- every other session is as it was.
  pub advance_rally_baton-outcome :
      (store' : Store) (r : Result RallySession)
      → advance_rally_baton id as' req now_ms store ≡ some (store', r)
      → AdvanceOutcome id as' req now_ms store store' r
  unfolding advance_rally_baton
  advance_rally_baton-outcome store' r e = parsed (parse_handoff as' req.handoff_to) refl
    where
      delivered :
          (to : Text) (s : Session)
          → parse_handoff as' req.handoff_to ≡ ok to
          → lookup id store.sessions ≡ some s
          → check_turn s as' to ≡ ok tt
          → (o : Option (Store × RallySession)) → pass_baton id as' req.note now_ms s to store ≡ o
          → AdvanceOutcome id as' req now_ms store store' r
      delivered to s p found c none b =
          absurd (none≢some (rw (p, advance_rally_baton, found, c, b) at e))
      delivered to s p found c (some (store'', public)) b =
          let same : ◌≡◌ {A = Store × Result RallySession} (store'', ok public) (store', r) =
            some-injective (rw (p, advance_rally_baton, found, c, b) at e) in
          rw (← ap (λ t. t.0) same, ← ap (λ t. t.1) same) (passed s to store'' public found p c b)

      checked :
          (to : Text) (s : Session)
          → parse_handoff as' req.handoff_to ≡ ok to
          → lookup id store.sessions ≡ some s
          → (m : Result (Unit {0})) → check_turn s as' to ≡ m
          → AdvanceOutcome id as' req now_ms store store' r
      checked to s p found (err x) c =
          unchanged store' r x (rw (p, advance_rally_baton, found, c) at e)
      checked to s p found (ok tt) c =
          delivered to s p found c (pass_baton id as' req.note now_ms s to store) refl

      looked_up :
          (to : Text)
          → parse_handoff as' req.handoff_to ≡ ok to
          → (o : Option Session) → lookup id store.sessions ≡ o
          → AdvanceOutcome id as' req now_ms store store' r
      looked_up to p none missing =
          unchanged store' r session_not_found (rw (p, advance_rally_baton, missing) at e)
      looked_up to p (some s) found = checked to s p found (check_turn s as' to) refl

      parsed :
          (m : Result Text)
          → parse_handoff as' req.handoff_to ≡ m
          → AdvanceOutcome id as' req now_ms store store' r
      parsed (err x) p = unchanged store' r x (rw (p, advance_rally_baton) at e)
      parsed (ok to) p = looked_up to p (lookup id store.sessions) refl
