-- ===== src/Cycle/Reviving.antt =====
-- LedgerSealsResume of internal/cycle/reviver.go on ledgers that a halt or a green step has just
-- extended.
use rallish.Prelude.{
  ◌≡◌, refl, ap, Option-cases, inl, inr, true, false, none, some, List, [], ◌∷◌, ◌++◌, All,
}
use rallish.Contract.Ledger.{LedgerEventType, cycle_halted, HarnessLedgerEntry}
use rallish.Cycle.Reviver.{parse_halt_reason_or_stuck, is_halted, is_green, ledger_seals_resume}
use rallish.Cycle.Sealing.{IsQuiet, ledger_seals_resume-IsSealedBy}

abbrev pub IsNotHalted : HarnessLedgerEntry → Type 0
IsNotHalted e = is_halted e.type ≡ false

-- A halt at the end of a ledger seals it.
pub ledger_seals_resume-halt :
    (es : List HarnessLedgerEntry) (halt : HarnessLedgerEntry)
    → is_halted halt.type ≡ true
    → ledger_seals_resume (es ++ halt ∷ []) ≡ some (parse_halt_reason_or_stuck halt.summary)
ledger_seals_resume-halt es halt halted =
    (ledger_seals_resume-IsSealedBy _ (es ++ halt ∷ [])).1 (es, halt, [], refl, halted, refl, tt)

exclusive : (t : LedgerEventType) → is_halted t ≡ true → is_green t ≡ true → ⊥
exclusive cycle_halted h g = cc
exclusive _ h g = cc

module _ (halt green : HarnessLedgerEntry) (after ys : List HarnessLedgerEntry)
    (halted : is_halted halt.type ≡ true) (is : is_green green.type ≡ true) where
  quiet-green : (xs : List HarnessLedgerEntry) → All IsQuiet (xs ++ green ∷ ys) → ⊥
  quiet-green [] quiet = cc
  quiet-green (x ∷ xs) quiet = quiet-green xs quiet.1

  halted-in :
      (before zs : List HarnessLedgerEntry) → All IsNotHalted zs → zs ≡ before ++ halt ∷ after → ⊥
  halted-in [] [] a e = cc
  halted-in [] (z ∷ zs) a e = let same : z ≡ halt = cc in cc (ap (λ t. is_halted t.type) same)
  halted-in (b ∷ before) [] a e = cc
  halted-in (b ∷ before) (z ∷ zs) a e = halted-in before zs a.1 (cc)

  -- A ledger's last halt is not before a green that no halt follows.
  last_halt-green :
      (before xs : List HarnessLedgerEntry)
      → xs ++ green ∷ ys ≡ before ++ halt ∷ after
      → All IsQuiet after
      → All IsNotHalted ys
      → ⊥
  last_halt-green [] [] e quiet running =
      let same : green ≡ halt = cc in exclusive green.type (rw same halted) is
  last_halt-green [] (x ∷ xs) e quiet running =
      let same : xs ++ green ∷ ys ≡ after = cc in quiet-green xs (rw same quiet)
  last_halt-green (b ∷ before) [] e quiet running = halted-in before ys running (cc)
  last_halt-green (b ∷ before) (x ∷ xs) e quiet running =
      last_halt-green before xs (cc) quiet running

-- A green entry with no halt after it unseals a ledger.
pub ledger_seals_resume-green :
    (xs ys : List HarnessLedgerEntry) (green : HarnessLedgerEntry)
    → is_green green.type ≡ true
    → All IsNotHalted ys
    → ledger_seals_resume (xs ++ green ∷ ys) ≡ none
ledger_seals_resume-green xs ys green is running =
    elim (Option-cases (ledger_seals_resume (xs ++ green ∷ ys))) [
      | inl open_end ↦ open_end
      | inr (reason, sealed) ↦
          let (before, halt, after, same, halted, parsed, quiet) =
            (ledger_seals_resume-IsSealedBy reason (xs ++ green ∷ ys)).0 sealed in
          absurd (last_halt-green halt green after ys halted is before xs same quiet running)
    ]
