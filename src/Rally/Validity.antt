-- ===== src/Rally/Validity.antt =====
-- Valid sessions of internal/broker/rally.go: their participants, and how status, holder, turn number
-- and history agree.
use rallish.Prelude.{
  ℕ, zero, suc, ◌+◌, ◌%◌, ◌≤◌, ◌<◌, ◌≡◌, refl, sym, ap₂, ◌⊎◌, inl, inr, true, false, List, [], ◌∷◌,
  arith, Text, not_true→false, Bool-cases, Option-cases, length, All, str_eq, str_eq_refl,
  str_eq_comm, All-map,
}
use rallish.Rally.Types.{
  ok, ok-injective, >>=-eq-ok, guard-eq-ok, new_participant_name-ok, matches_name,
  new_participant_name, rally_state_idle, rally_state_interrupted, rally_turn_state,
}
use rallish.Rally.Session.{
  Session, is_member, index_of, participant_at, round_robin, next_participant,
}
use rallish.Rally.Store.{parse_participants}

abbrev pub AreNames : List Text → Type 0
AreNames = All (λ p. matches_name p ≡ true)

abbrev pub AreDistinct : List Text → Type 0
AreDistinct [] = Unit {0}
AreDistinct (p ∷ ps) = (is_member ps p ≡ false) × AreDistinct ps

-- The three phases of a session's life.
abbrev pub IsIdle : Session → Type 0
IsIdle s = (s.status ≡ rally_state_idle) × (s.holder ≡ []) × (s.turn_n ≡ 0) × (s.history ≡ [])

abbrev pub IsHeld : Session → Type 0
IsHeld s =
    (s.status ≡ rally_turn_state s.holder)
    × (is_member s.participants s.holder ≡ true)
    × (s.turn_n ≡ suc (length s.history))

abbrev pub IsInterrupted : Session → Type 0
IsInterrupted s = (s.status ≡ rally_state_interrupted) × (s.holder ≡ [])

pub record IsValid (s : Session) : Type 0 where
  pub named : AreNames s.participants
  pub several : 2 ≤ length s.participants
  pub distinct : AreDistinct s.participants
  pub phase : IsIdle s ⊎ IsHeld s ⊎ IsInterrupted s

member_weaken :
    (seen : List Text) (name p : Text)
    → is_member (name ∷ seen) p ≡ false
    → is_member seen p ≡ false
unfolding is_member
member_weaken seen name p h = ground arith

member_first :
    (seen : List Text) (name p : Text) → is_member (name ∷ seen) p ≡ false → str_eq name p ≡ false
unfolding is_member
member_first seen name p h = ground arith

not_member :
    (seen : List Text) (name : Text) (ps : List Text)
    → All (λ p. is_member (name ∷ seen) p ≡ false) ps
    → is_member ps name ≡ false
unfolding is_member
not_member seen name [] a = refl
not_member seen name (p ∷ ps) a =
    rw (str_eq_comm p name, member_first seen name p a.0) (not_member seen name ps a.1)

-- What createRallySession's loop over the participants accepts.
pub parse_participants-AreNames :
    (seen raws names : List Text)
    → parse_participants seen raws ≡ ok names
    → AreNames names
      × AreDistinct names
      × (names ≡ raws)
      × All (λ p. is_member seen p ≡ false) names
unfolding parse_participants
parse_participants-AreNames seen [] names e =
    let none_left : [] ≡ names = ok-injective e in rw (← none_left) (tt, tt, refl, tt)
parse_participants-AreNames seen (raw ∷ raws) names e =
    let (name, parsed, e1) = >>=-eq-ok (new_participant_name raw) _ e in
    let (new, e2) = guard-eq-ok _ _ _ e1 in
    let (rest, e3, e4) = >>=-eq-ok (parse_participants (name ∷ seen) raws) _ e2 in
    let whole : name ∷ rest ≡ names = ok-injective e4 in
    let (same, matches) = new_participant_name-ok raw name parsed in
    let (valid, distinct, kept, fresh) = parse_participants-AreNames (name ∷ seen) raws rest e3 in
    rw (← whole) (
      (matches, valid),
      (not_member seen name rest fresh, distinct),
      ap₂ ◌∷◌ (sym same) kept,
      (not_true→false _ new, All-map _ _ (λ p f. member_weaken seen name p f) rest fresh),
    )

pub member-participant_at :
    (ps : List Text) (i : ℕ) → i < length ps → is_member ps (participant_at ps i) ≡ true
unfolding is_member
member-participant_at [] i h = elim h [ ]
member-participant_at (p ∷ ps) zero h = rw (str_eq_refl p)
member-participant_at (p ∷ ps) (suc i) h =
    rw (member-participant_at ps i (omega arith)) (ground arith)

round_robin-member :
    (ps : List Text) (current : Text) → 0 < length ps → is_member ps (round_robin ps current) ≡ true
unfolding round_robin
round_robin-member ps current h = elim (Option-cases (index_of ps current)) [
  | inl missing ↦ rw (missing, round_robin) (member-participant_at ps 0 h)
  | inr (i, found) ↦
      rw (found, round_robin) (member-participant_at ps ((i + 1) % length ps) (mod_lt (i + 1) h))
]
  where
    mod_lt : (a : ℕ) → 0 < length ps → a % length ps < length ps
    mod_lt a p = grind arith

-- The baton always goes to a participant.
pub next_participant-member :
    (ps : List Text) (current preferred : Text)
    → 0 < length ps
    → is_member ps (next_participant ps current preferred) ≡ true
unfolding next_participant
next_participant-member ps current [] h = round_robin-member ps current h
next_participant-member ps current (c ∷ preferred) h =
    elim (Bool-cases (is_member ps (c ∷ preferred))) [
      | inl member ↦ rw member member
      | inr stranger ↦ rw stranger (round_robin-member ps current h)
    ]
