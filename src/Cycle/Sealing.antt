-- ===== src/Cycle/Sealing.antt =====
-- LedgerSealsResume of internal/cycle/reviver.go, against the last halt of a ledger.
use rallish.Prelude.{
  ℕ, ◌+◌, ◌≡◌, refl, sym, ap, ◌∙◌, ◌⊎◌, inl, inr, ◌↔◌, Bool, true, false, ◌&&◌, some, List, [], ◌∷◌,
  ◌++◌, arith, Bool-cases, some-injective, none≢some, All, length,
}
use rallish.Prelude.Int.{ℤ, pos, ltb_ℤ, leb_ℤ}
use rallish.Contract.Ledger.{HarnessLedgerEntry}
use rallish.Cycle.Halt.{HaltReason}
use rallish.Cycle.Reviver.{
  parse_halt_reason_or_stuck, SealScan, is_halted, is_green, scan_entry, scan_from, unhalted,
  seal_of, ledger_seals_resume,
}

abbrev pub IsQuiet : HarnessLedgerEntry → Type 0
IsQuiet e = (is_halted e.type ≡ false) × (is_green e.type ≡ false)

-- The last halt of the ledger, for this reason, with no validation_green after it.
abbrev pub IsSealedBy : HaltReason → List HarnessLedgerEntry → Type 0
IsSealedBy reason entries =
    (before : List HarnessLedgerEntry) × (halt : HarnessLedgerEntry) × (after : List
      HarnessLedgerEntry)
    × (entries ≡ before ++ halt ∷ after)
    × (is_halted halt.type ≡ true)
    × (parse_halt_reason_or_stuck halt.summary ≡ reason)
    × All IsQuiet after

scan_from-append :
    (xs ys : List HarnessLedgerEntry) (i : ℕ) (st : SealScan)
    → scan_from i (xs ++ ys) st ≡ scan_from (i + length xs) ys (scan_from i xs st)
unfolding scan_from
scan_from-append [] ys i st = let e : i + 0 ≡ i = omega arith in rw e
scan_from-append (x ∷ xs) ys i st =
    let e : i + 1 + length xs ≡ i + length (x ∷ xs) = omega arith in
    rw (scan_from-append xs ys (i + 1) (scan_entry i x st), e)

scan_from-quiet :
    (es : List HarnessLedgerEntry) (i : ℕ) (st : SealScan) → All IsQuiet es → scan_from i es st ≡ st
unfolding scan_from
scan_from-quiet [] i st q = refl
scan_from-quiet (e ∷ es) i st q = rw (q.0.0, scan_entry, q.0.1) (scan_from-quiet es (i + 1) st q.1)

abbrev sealed_at : ℕ → HarnessLedgerEntry → SealScan
sealed_at i halt = record {
  last_halt_idx = pos i;
  last_halt_reason = some (parse_halt_reason_or_stuck halt.summary);
  green_after_halt = false;
}

scan_entry-halted :
    (i : ℕ) (halt : HarnessLedgerEntry) (st : SealScan)
    → is_halted halt.type ≡ true
    → scan_entry i halt st ≡ sealed_at i halt
unfolding scan_entry
scan_entry-halted i halt st h = rw h

seal_of-sealed_at :
    (i : ℕ) (halt : HarnessLedgerEntry)
    → seal_of (sealed_at i halt) ≡ some (parse_halt_reason_or_stuck halt.summary)
seal_of-sealed_at i halt = let e : ltb_ℤ (pos i) (pos 0) ≡ false = ground arith in rw e

IsSealedBy-seals :
    (reason : HaltReason) (entries : List HarnessLedgerEntry)
    → IsSealedBy reason entries
    → ledger_seals_resume entries ≡ some reason
unfolding ledger_seals_resume scan_from
IsSealedBy-seals reason entries (before, halt, after, e, halted, parsed, quiet) =
    let i = 0 + length before in
    let whole : scan_from 0 entries unhalted ≡ sealed_at i halt = rw e (
      scan_from-append before (halt ∷ after) 0 unhalted
      ∙ (rw (scan_entry-halted i halt (scan_from 0 before unhalted) halted)
          (scan_from-quiet after (i + 1) (sealed_at i halt) quiet))) in
    ap seal_of whole ∙ seal_of-sealed_at i halt ∙ ap some parsed

-- What the loop keeps of a ledger without a halt.
abbrev NoHalt : List HarnessLedgerEntry → SealScan → SealScan → Type 0
NoHalt es st st' =
    (st'.last_halt_idx ≡ st.last_halt_idx)
    × (st'.last_halt_reason ≡ st.last_halt_reason)
    × (st'.green_after_halt ≡ false
        → (st.green_after_halt ≡ false) × (leb_ℤ (pos 0) st.last_halt_idx ≡ true → All IsQuiet es))

-- What it keeps of one with a halt.
abbrev LastHalt : List HarnessLedgerEntry → SealScan → Type 0
LastHalt es st' =
    (before : List HarnessLedgerEntry) × (halt : HarnessLedgerEntry) × (after : List
      HarnessLedgerEntry)
    × (es ≡ before ++ halt ∷ after)
    × (is_halted halt.type ≡ true)
    × (st'.last_halt_reason ≡ some (parse_halt_reason_or_stuck halt.summary))
    × (st'.green_after_halt ≡ false → All IsQuiet after)

not_green : (g : Bool) (b : Bool) → (g && b) ≡ false → b ≡ true → g ≡ false
not_green g b h k = ground arith

scan_entry-green :
    (i : ℕ) (e : HarnessLedgerEntry) (st : SealScan)
    → is_halted e.type ≡ false
    → (is_green e.type && leb_ℤ (pos 0) st.last_halt_idx) ≡ true
    → scan_entry i e st ≡ record st { green_after_halt = true }
unfolding scan_entry
scan_entry-green i e st h g = rw (h, g)

scan_entry-other :
    (i : ℕ) (e : HarnessLedgerEntry) (st : SealScan)
    → is_halted e.type ≡ false
    → (is_green e.type && leb_ℤ (pos 0) st.last_halt_idx) ≡ false
    → scan_entry i e st ≡ st
unfolding scan_entry
scan_entry-other i e st h g = rw (h, g)

scan_from-last :
    (es : List HarnessLedgerEntry) (i : ℕ) (st : SealScan)
    → NoHalt es st (scan_from i es st) ⊎ LastHalt es (scan_from i es st)
unfolding scan_from
scan_from-last [] i st = inl (refl, refl, λ g. (g, λ _. tt))
scan_from-last (e ∷ es) i st = elim (scan_from-last es (i + 1) (scan_entry i e st)) [
  | inr (before, halt, after, same, halted, reason, quiet) ↦
      inr (e ∷ before, halt, after, ap (◌∷◌ e) same, halted, reason, quiet)
  | inl later ↦ elim (Bool-cases (is_halted e.type)) [
    | inl halted ↦
        let start : scan_entry i e st ≡ sealed_at i e = scan_entry-halted i e st halted in
        let at_start : leb_ℤ (pos 0) (scan_entry i e st).last_halt_idx ≡ true =
          rw start (ground arith) in
        inr (
          [],
          e,
          es,
          refl,
          halted,
          later.1 ∙ ap (λ t. t.last_halt_reason) start,
          λ g. (later.2 g).1 at_start,
        )
    | inr running ↦ elim (Bool-cases (is_green e.type && leb_ℤ (pos 0) st.last_halt_idx)) [
      | inl green ↦
          let start = scan_entry-green i e st running green in
          inl (
            later.0 ∙ ap (λ t. t.last_halt_idx) start,
            later.1 ∙ ap (λ t. t.last_halt_reason) start,
            λ g. absurd (true≢false (sym (ap (λ t. t.green_after_halt) start) ∙ (later.2 g).0)),
          )
      | inr other ↦
          let start = scan_entry-other i e st running other in
          inl (
            later.0 ∙ ap (λ t. t.last_halt_idx) start,
            later.1 ∙ ap (λ t. t.last_halt_reason) start,
            λ g. (
              sym (ap (λ t. t.green_after_halt) start) ∙ (later.2 g).0,
              λ halted_before. (
                (running, not_green _ _ other halted_before),
                (later.2 g).1 (rw start halted_before),
              ),
            ),
          )
    ]
  ]
]
  where
    true≢false : true ≡ false → ⊥
    true≢false t = cc

-- What the loop's variables say when they seal.
seal_of-some :
    (st : SealScan) (reason : HaltReason)
    → seal_of st ≡ some reason
    → (ltb_ℤ st.last_halt_idx (pos 0) ≡ false)
      × (st.green_after_halt ≡ false)
      × (st.last_halt_reason ≡ some reason)
seal_of-some st reason e = elim (Bool-cases (ltb_ℤ st.last_halt_idx (pos 0))) [
  | inl never ↦ absurd (none≢some (rw never at e))
  | inr halted ↦ elim (Bool-cases st.green_after_halt) [
    | inl green ↦ absurd (none≢some (rw (halted, green) at e))
    | inr dark ↦ (halted, dark, rw (halted, dark) at e)
  ]
]

seals-IsSealedBy :
    (reason : HaltReason) (entries : List HarnessLedgerEntry)
    → ledger_seals_resume entries ≡ some reason
    → IsSealedBy reason entries
unfolding ledger_seals_resume
seals-IsSealedBy reason entries e =
    let st = scan_from 0 entries unhalted in
    let (halted, dark, r) = seal_of-some st reason e in
    elim (scan_from-last entries 0 unhalted) [
      | inl (idx, _, _) ↦ absurd (never (ap (λ (z : ℤ). ltb_ℤ z (pos 0)) idx) halted)
      | inr (before, halt, after, same, is, reason', quiet) ↦
          (before, halt, after, same, is, some-injective (sym reason' ∙ r), quiet dark)
    ]
  where
    never : {b : Bool} → b ≡ true → b ≡ false → ⊥
    never t f = cc

-- LedgerSealsResume answers (reason, true) exactly when the ledger has a halt of that reason with neither
-- a halt nor a validation_green after it: only a verified green after the last halt revives a cycle.
pub ledger_seals_resume-IsSealedBy :
    (reason : HaltReason) (entries : List HarnessLedgerEntry)
    → (ledger_seals_resume entries ≡ some reason) ↔ IsSealedBy reason entries
ledger_seals_resume-IsSealedBy reason entries =
    (seals-IsSealedBy reason entries, IsSealedBy-seals reason entries)
