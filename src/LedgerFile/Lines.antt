-- ===== src/LedgerFile/Lines.antt =====
-- internal/cycle/ledger.go: forEachLedgerLine, ReadAll and readLastHash on a file of marshalled entries.
use rallish.Prelude.{
  ℕ, ◌≡◌, refl, sym, ap, ◌∙◌, ◌≢◌, inl, inr, Bool-cases, true, false, some, List, [], ◌∷◌, ◌++◌,
  Text, ◌==◌, ==_iff, Attempt, returned, after,
}
use mathlib.Core.List.{append-nil, append_assoc}
use rallish.Contract.Ledger.{HarnessLedgerEntry}
use rallish.Contract.Json.{EntryJson, newline, HasNoNewline}
use rallish.Chain.Links.{tip}
use rallish.LedgerFile.{
  LedgerError, on_line, for_each_line_from, for_each_ledger_line, collect, keep_hash,
}

-- The loop reads one whole line and goes on behind it.
for_each_line_from-line {ℓ} :
    {S : Type ℓ} (fn : Text → S → Attempt LedgerError S) (before line rest : Text) (s : S)
    → HasNoNewline line
    → for_each_line_from fn before (line ++ newline ∷ rest) s
      ≡ after (on_line fn (before ++ line) s) (for_each_line_from fn [] rest)
unfolding for_each_line_from
for_each_line_from-line fn before [] rest s clean = rw (append-nil before)
for_each_line_from-line fn before (c ∷ line) rest s clean =
    rw (for_each_line_from, other_byte c clean.0)
      (for_each_line_from-line fn (before ++ c ∷ []) line rest s clean.1
        ∙ ap (λ t. after (on_line fn t s) (for_each_line_from fn [] rest))
            (append_assoc before (c ∷ []) line))
  where
    other_byte : (b : ℕ) → b ≢ newline → (b == newline) ≡ false
    other_byte b ne = elim (Bool-cases (b == newline)) [
      | inl same ↦ absurd (ne ((==_iff b newline).0 same))
      | inr other ↦ other
    ]

module _ (ej : EntryJson) where
  -- The entries of a file, each a line of its own.
  abbrev pub IsFileOf : List HarnessLedgerEntry → Text → Type 0
  IsFileOf [] bytes = bytes ≡ []
  IsFileOf (e ∷ es) bytes =
      (line : Text) × (rest : Text) × (ej.json.marshal e ≡ some line)
      × (ej.json.is_utf8 e ≡ true)
      × (bytes ≡ line ++ newline ∷ rest)
      × IsFileOf es rest

  pub IsFileOf-append :
      (es : List HarnessLedgerEntry) (e : HarnessLedgerEntry) (bytes line : Text)
      → IsFileOf es bytes
      → ej.json.marshal e ≡ some line
      → ej.json.is_utf8 e ≡ true
      → IsFileOf (es ++ e ∷ []) (bytes ++ (line ++ newline ∷ []))
  IsFileOf-append [] e bytes line file m u = (line, [], m, u, rw file refl, refl)
  IsFileOf-append (x ∷ es) e bytes line (line', rest, m', u', same, file) m u = (
    line',
    rest ++ (line ++ newline ∷ []),
    m',
    u',
    rw same (append_assoc line' (newline ∷ rest) (line ++ newline ∷ [])),
    IsFileOf-append es e rest line file m u,
  )

  pub IsFileOf-nil : (es : List HarnessLedgerEntry) → IsFileOf es [] → es ≡ []
  IsFileOf-nil [] file = refl
  IsFileOf-nil (e ∷ es) ([], rest, m, u, same, file) = cc
  IsFileOf-nil (e ∷ es) (c ∷ line, rest, m, u, same, file) = cc

  module _ {ℓ} {S : Type ℓ} (fn : Text → S → Attempt LedgerError S)
      (step : HarnessLedgerEntry → S → S) where
    abbrev steps : List HarnessLedgerEntry → S → S
    steps [] s = s
    steps (e ∷ es) s = steps es (step e s)

    -- A callback that unmarshals each line works through the entries.
    for_each_ledger_line-IsFileOf :
        ((line : Text) (e : HarnessLedgerEntry) (s : S)
          → ej.json.unmarshal line ≡ some e
          → fn line s ≡ returned (step e s))
        → (es : List HarnessLedgerEntry) (bytes : Text) (s : S) → IsFileOf es bytes
        → for_each_ledger_line fn bytes s ≡ returned (steps es s)
    unfolding for_each_ledger_line for_each_line_from
    for_each_ledger_line-IsFileOf reads [] bytes s file = rw file refl
    for_each_ledger_line-IsFileOf reads (e ∷ es) bytes s (line, rest, m, u, same, file) =
        let (clean, some_byte) = ej.marshal_one_line e line m in
        rw (same, for_each_line_from-line fn [] line rest s clean)
          (rw
            (
              on_line-nonempty line s some_byte,
              reads line e s (ej.json.unmarshal-marshal e line u m),
            )
            (for_each_ledger_line-IsFileOf reads es rest (step e s) file))
      where
        on_line-nonempty : (l : Text) (st : S) → l ≢ [] → on_line fn l st ≡ fn l st
        on_line-nonempty [] st ne = absurd (ne refl)
        on_line-nonempty (c ∷ l) st ne = refl

  -- ReadAll gives the entries of the file, in order.
  pub collect-IsFileOf :
      (es : List HarnessLedgerEntry) (bytes : Text)
      → IsFileOf es bytes
      → for_each_ledger_line (collect ej.json) bytes [] ≡ returned es
  collect-IsFileOf es bytes file =
      for_each_ledger_line-IsFileOf (collect ej.json) (λ e s. s ++ e ∷ [])
        (λ line e s r. rw (collect, r) refl) es bytes [] file
      ∙ ap returned (collected es [])
    where
      collected :
          (xs ys : List HarnessLedgerEntry)
          → steps (collect ej.json) (λ e s. s ++ e ∷ []) xs ys ≡ ys ++ xs
      collected [] ys = sym (append-nil ys)
      collected (x ∷ xs) ys = collected xs (ys ++ x ∷ []) ∙ append_assoc ys (x ∷ []) xs

  -- readLastHash gives the hash that the next entry names.
  pub keep_hash-IsFileOf :
      (es : List HarnessLedgerEntry) (bytes prev : Text)
      → IsFileOf es bytes
      → for_each_ledger_line (keep_hash ej.json) bytes prev ≡ returned (tip prev es)
  keep_hash-IsFileOf es bytes prev file =
      for_each_ledger_line-IsFileOf (keep_hash ej.json) (λ e s. e.hash)
        (λ line e s r. rw (keep_hash, r) refl) es bytes prev file
      ∙ ap returned (last es prev)
    where
      last :
          (xs : List HarnessLedgerEntry) (start : Text)
          → steps (keep_hash ej.json) (λ e s. e.hash) xs start ≡ tip start xs
      last [] start = refl
      last (x ∷ xs) start = last xs x.hash
