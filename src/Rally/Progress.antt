-- ===== src/Rally/Progress.antt =====
-- Sequences of calls of internal/broker/rally.go.
use rallish.Prelude.{
  ℕ, ◌≡◌, refl, ap, inl, inr, some, List, [], ◌∷◌, arith, Option-cases, eq-cases, get_elem?,
}
use rallish.Rally.System.{
  System, Call, create, join, done, interrupt, close_all, close_pending, receive_from, leave, beat,
  step, run, new_system, close_one, remove_at,
}
use rallish.Rally.Open.{close-IsOpen}
use rallish.Rally.Uses.{once, once_self, count-remove_at}
use rallish.Rally.Sound.{
  IsSound, Succeeds, create-Succeeds, receive_from-Succeeds, leave-Succeeds, beat-Succeeds,
  new_system-IsSound,
}
use rallish.Rally.Ending.{interrupt-Succeeds, close_all-Succeeds}
use rallish.Rally.Joining.{join-Succeeds}
use rallish.Rally.Passing.{done-Succeeds}

-- A channel waiting to be closed is open, and nothing names it once it is closed.
pub close_pending-Succeeds : (k : ℕ) (sys : System) → IsSound sys → Succeeds (close_pending k) sys
unfolding step close_one
close_pending-Succeeds k sys sound = elim (Option-cases (get_elem? sys.to_close k)) [
  | inl nothing ↦ (sys, rw (nothing, close_one, step), sound)
  | inr (d, found) ↦
      let used = count-remove_at d k d sys.to_close found in
      let (heap, closed, keeps) =
        close-IsOpen sys.store.heap d (sound.opened d (omega (arith, used, once_self d))) in
      (
        record { store = record sys.store { heap = heap }; to_close = remove_at k sys.to_close },
        rw (found, close_one, step, closed),
        record {
          valid = sound.valid;
          single = λ c. omega (arith, sound.single c, count-remove_at c k d sys.to_close found);
          opened = λ c h. elim (eq-cases d c) [
            | inl same ↦ absurd (
                omega (
                  arith,
                  h,
                  sound.single c,
                  count-remove_at c k d sys.to_close found,
                  once_self c,
                  ap (once c) same,
                ))
            | inr other ↦
                keeps c other
                  (sound.opened c (omega (arith, h, count-remove_at c k d sys.to_close found)))
          ];
        },
      )
]

step-Succeeds : (call : Call) (sys : System) → IsSound sys → Succeeds call sys
step-Succeeds (create id now_ms req) sys sound = create-Succeeds id now_ms req sys sound
step-Succeeds (join raw_id as_raw now_ms) sys sound = join-Succeeds raw_id as_raw now_ms sys sound
step-Succeeds (done raw_id as_raw req now_ms) sys sound =
    done-Succeeds raw_id as_raw req now_ms sys sound
step-Succeeds (interrupt id) sys sound = interrupt-Succeeds id sys sound
step-Succeeds close_all sys sound = close_all-Succeeds sys sound
step-Succeeds (close_pending k) sys sound = close_pending-Succeeds k sys sound
step-Succeeds (receive_from c) sys sound = receive_from-Succeeds c sys sound
step-Succeeds (leave id name) sys sound = leave-Succeeds id name sys sound
step-Succeeds (beat id name now_ms) sys sound = beat-Succeeds id name now_ms sys sound

run_succeeds :
    (calls : List Call) (sys : System)
    → IsSound sys
    → (sys' : System) × (run calls sys ≡ some sys') × IsSound sys'
unfolding run
run_succeeds [] sys sound = (sys, refl, sound)
run_succeeds (call ∷ calls) sys sound =
    let (sys', e, sound') = step-Succeeds call sys sound in
    let (sys'', e', sound'') = run_succeeds calls sys' sound' in (sys'', rw (e, run) e', sound'')

-- From a broker without sessions, every sequence of calls returns: no send is made on a closed
-- channel, none waits for room while it holds the lock, and no channel is closed twice, however the
-- requests, receives, cleanups and closes interleave. After it every session is valid, and each
-- channel that a session or the list of those to close names is named once and is open.
pub run-IsSound :
    (calls : List Call) → (sys : System) × (run calls new_system ≡ some sys) × IsSound sys
run-IsSound calls = run_succeeds calls new_system new_system-IsSound
