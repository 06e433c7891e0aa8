-- ===== src/Rally/RoundRobin.antt =====
-- nextParticipant of internal/broker/rally.go without a preferred participant.
use rallish.Prelude.{
  ℕ, zero, suc, ◌+◌, ◌%◌, ◌<◌, ◌≡◌, sym, ap, inl, inr, some, List, [], ◌∷◌, arith, Text, Bool-cases,
  length, str_eq, str_eq_refl, str_eq→eq,
}
use native.Mathlib.Nat.{suc-mod, mod-eq_of_lt}
use rallish.Rally.Session.{index_of, participant_at, round_robin, next_participant}
use rallish.Rally.Validity.{AreDistinct, member-participant_at}

-- The position of a participant is its index, for no name stands twice.
pub index_of-participant_at :
    (ps : List Text) (i : ℕ)
    → AreDistinct ps
    → i < length ps
    → index_of ps (participant_at ps i) ≡ some i
unfolding index_of
index_of-participant_at [] i d h = absurd (omega (arith, h))
index_of-participant_at (p ∷ ps) zero d h = rw (str_eq_refl p)
index_of-participant_at (p ∷ ps) (suc i) d h = elim (Bool-cases (str_eq p (participant_at ps i))) [
  | inl same ↦
      let member = member-participant_at ps i (omega (arith, h)) in
      absurd (cc (d.0, rw (← str_eq→eq p (participant_at ps i) same) at member))
  | inr other ↦
      rw (other, index_of-participant_at ps i d.1 (omega (arith, h))) (ap some (omega arith))
]

-- Who holds the baton after a number of turns passed on without naming anybody.
unfoldable pub after_turns : List Text → ℕ → Text → Text
unfolding next_participant
after_turns ps zero p = p
after_turns ps (suc n) p = next_participant ps (after_turns ps n p) []

mod_lt : (a n : ℕ) → 0 < n → a % n < n
mod_lt a n h = grind arith

mod-step : (i k n : ℕ) → ((i + k) % n + 1) % n ≡ (i + suc k) % n
mod-step i k n =
    let e : suc ((i + k) % n) % n ≡ suc (i + k) % n = sym (suc-mod (i + k) n) in
    let f : (i + k) % n + 1 ≡ suc ((i + k) % n) = omega arith in
    let g : i + suc k ≡ suc (i + k) = omega arith in rw (f, g) e

next-participant_at :
    (ps : List Text) (i : ℕ)
    → AreDistinct ps
    → i < length ps
    → next_participant ps (participant_at ps i) [] ≡ participant_at ps ((i + 1) % length ps)
unfolding next_participant round_robin
next-participant_at ps i d h = rw (index_of-participant_at ps i d h, round_robin)

-- With distinct participants, turns passed on without naming anybody go round: from the i-th
-- participant, the holder after k turns is the one at (i + k) modulo their number, so everybody's turn
-- comes within one round.
pub after_turns-participant_at :
    (ps : List Text) (i k : ℕ)
    → AreDistinct ps
    → i < length ps
    → after_turns ps k (participant_at ps i) ≡ participant_at ps ((i + k) % length ps)
unfolding after_turns
after_turns-participant_at ps i zero d h = let e : i + 0 ≡ i = omega arith in rw (e, mod-eq_of_lt h)
after_turns-participant_at ps i (suc k) d h = rw (
  after_turns-participant_at ps i k d h,
  next-participant_at ps ((i + k) % length ps) d (mod_lt (i + k) (length ps) (omega (arith, h))),
  mod-step i k (length ps),
)
