-- ===== src/Cycle/Budget.antt =====
-- internal/budget/budget.go: the remaining budget, and the lifetime ceiling over the ledger.
use rallish.Prelude.{
  true≢false, sym, ◌*◌, ◌||◌, ℕ, zero, suc, ◌+◌, ◌≤◌, ◌≡◌, ◌↔◌, refl, ap, inl, inr, Bool, true,
  false, List, [], ◌∷◌, arith, Bool-cases, if◌then◌else◌,
}
use rallish.Prelude.Int.{pos_part, ltb_ℤ, ◌+ℤ◌, ◌-ℤ◌, ℤ, pos, negsuc, leb_ℤ}
use rallish.Contract.Turns.{Usage}
use rallish.Contract.Ledger.{LedgerEventType, agent_turn, HarnessLedgerEntry}

abbrev pub is_turn : LedgerEventType → Bool
is_turn agent_turn = true
is_turn _ = false

unfoldable pub lifetime_turns : List HarnessLedgerEntry → ℕ
lifetime_turns [] = 0
lifetime_turns (e ∷ es) = if is_turn e.type then lifetime_turns es + 1 else lifetime_turns es

unfoldable pub exceeds_lifetime_ceiling : List HarnessLedgerEntry → ℤ → Bool
unfolding lifetime_turns
exceeds_lifetime_ceiling entries ceiling =
    if leb_ℤ ceiling (pos 0) then false else leb_ℤ ceiling (pos (lifetime_turns entries))

-- At least so many entries of a ledger are agent turns.
pub data HasTurns : ℕ → List HarnessLedgerEntry → Type 0 where
  no_turns : (es : List HarnessLedgerEntry) → HasTurns 0 es
  turn :
      {n : ℕ} (e : HarnessLedgerEntry) {es : List HarnessLedgerEntry}
      → e.type ≡ agent_turn
      → HasTurns n es
      → HasTurns (suc n) (e ∷ es)
  other :
      {n : ℕ} (e : HarnessLedgerEntry) {es : List HarnessLedgerEntry}
      → HasTurns n es
      → HasTurns n (e ∷ es)

is_turn_lem : (t : LedgerEventType) → is_turn t ≡ true → t ≡ agent_turn
is_turn_lem agent_turn h = refl
is_turn_lem _ h = cc

HasTurns-le : (n : ℕ) (es : List HarnessLedgerEntry) → HasTurns n es → n ≤ lifetime_turns es
unfolding lifetime_turns
HasTurns-le zero es (no_turns _) = omega arith
HasTurns-le (suc n) (e ∷ es) (turn _ same has) =
    let is : is_turn e.type ≡ true = ap is_turn same in
    rw (lifetime_turns, is) (omega (arith, HasTurns-le n es has))
HasTurns-le n (e ∷ es) (other _ has) = elim (Bool-cases (is_turn e.type)) [
  | inl is ↦ rw (lifetime_turns, is) (omega (arith, HasTurns-le n es has))
  | inr not_one ↦ rw (lifetime_turns, not_one) (HasTurns-le n es has)
]

le-HasTurns : (n : ℕ) (es : List HarnessLedgerEntry) → n ≤ lifetime_turns es → HasTurns n es
unfolding lifetime_turns
le-HasTurns zero es h = no_turns es
le-HasTurns (suc n) [] h = elim h [ ]
le-HasTurns (suc n) (e ∷ es) h = elim (Bool-cases (is_turn e.type)) [
  | inl is ↦
      let less : suc n ≤ lifetime_turns es + 1 = rw (lifetime_turns, is) at h in
      turn e (is_turn_lem e.type is) (le-HasTurns n es (omega arith))
  | inr not_one ↦ other e (le-HasTurns (suc n) es (rw (lifetime_turns, not_one) at h))
]

switched_off :
    (es : List HarnessLedgerEntry) (ceiling : ℤ)
    → leb_ℤ ceiling (pos 0) ≡ true
    → exceeds_lifetime_ceiling es ceiling ≡ true
    → ⊥
unfolding exceeds_lifetime_ceiling
switched_off es ceiling off h = true≢false (sym (rw off at h))

-- ExceedsLifetimeCeiling answers true exactly when the ceiling is positive and at least so many entries of
-- the ledger are agent turns.
pub exceeds_lifetime_ceiling-HasTurns :
    (es : List HarnessLedgerEntry) (ceiling : ℤ)
    → (exceeds_lifetime_ceiling es ceiling ≡ true)
      ↔ ((n : ℕ) × (ceiling ≡ pos (suc n)) × HasTurns (suc n) es)
unfolding exceeds_lifetime_ceiling
exceeds_lifetime_ceiling-HasTurns es (pos zero) =
    (λ h. absurd (switched_off es (pos zero) refl h), λ (n, same, has). cc)
exceeds_lifetime_ceiling-HasTurns es (negsuc m) =
    (λ h. absurd (switched_off es (negsuc m) (ground arith) h), λ (n, same, has). cc)
exceeds_lifetime_ceiling-HasTurns es (pos (suc n)) = (
  λ h. (n, refl, le-HasTurns (suc n) es (ground arith)),
  λ (m, same, has).
      let many = HasTurns-le (suc m) es has in let numbers : n ≡ m = cc in ground arith,
)

pub record Budget : Type 0 where
  pub tokens_left : ℤ
  pub turns_left : ℤ
  pub deadline_ms : ℤ
  pub dry_rounds_threshold : ℤ

unfoldable pub remaining : Budget → Usage → ℤ → Budget
unfolding ◌+ℤ◌ ◌-ℤ◌
remaining initial used turns_used = record {
  tokens_left = initial.tokens_left -ℤ (used.tokens_in +ℤ used.tokens_out);
  turns_left = initial.turns_left -ℤ turns_used;
  deadline_ms = initial.deadline_ms;
  dry_rounds_threshold = initial.dry_rounds_threshold;
}

unfoldable pub is_exhausted : Budget → Bool
is_exhausted budget = leb_ℤ budget.turns_left (pos 0) || leb_ℤ budget.tokens_left (pos 0)

-- The start and the clock's time in milliseconds are arguments.
unfoldable pub is_deadline_passed : ℤ → ℤ → ℤ → Bool
unfolding ◌+ℤ◌
is_deadline_passed start deadline_minutes now =
    if leb_ℤ deadline_minutes (pos 0)
    then false
    else ltb_ℤ (start +ℤ pos (pos_part deadline_minutes * 60000)) now
