-- ===== src/Contract/Pins.antt =====
-- pkg/contract/harness_ledger.go: PinGates, GatesTampered and NewGatesPinnedEntry.
use rallish.Prelude.{
  ℕ, ◌≡◌, refl, sym, ap, ◌∙◌, ◌⊎◌, inl, inr, Bool, false, not, List, [], ◌∷◌, ◌++◌, map, Text,
  codes, str_eq, str_eq→eq, not_false→true, if◌then◌else◌, ◌==◌, All, length, decimal,
}
use rallish.Prelude.Int.{ℤ}
use rallish.Hex.{encode, encode-injective}
use rallish.Digest.{Sha256, Collision, sum-injective}
use rallish.Contract.Ledger.{
  LedgerEventType, gates_pinned, gate_tampered, HarnessLedgerEntry, new_harness_ledger_entry,
}

pub record GatePin : Type 0 where
  pub name : Text
  pub command_hash : Text

-- strings.Join(commands, "\n").
unfoldable pub join_lines : List Text → Text
join_lines [] = []
join_lines (c ∷ []) = c
join_lines (c ∷ d ∷ commands) = c ++ b'\n' ∷ join_lines (d ∷ commands)

module _ (h : Sha256) where
  unfoldable pub pin_gates : List Text → Text × List GatePin
  unfolding join_lines encode
  pin_gates commands = (
    encode (h.sum (join_lines commands)),
    map (λ cmd. record { name = codes "cmd:" ++ cmd; command_hash = encode (h.sum cmd) }) commands,
  )

  unfoldable pub gates_tampered : Text → List Text → Bool
  unfolding pin_gates str_eq
  gates_tampered pinned_digest current = not (str_eq (pin_gates current).0 pinned_digest)

unfoldable pub new_gates_pinned_entry : ℤ → Text → Text → List GatePin → Bool → HarnessLedgerEntry
unfolding new_harness_ledger_entry decimal
new_gates_pinned_entry at cycle_id digest pins tampered =
    let typ : LedgerEventType = if tampered then gate_tampered else gates_pinned in
    let prefix : Text =
      if tampered
      then codes "gate set tampered: live digest differs from pinned"
      else codes "gates pinned" in
    let summary : Text =
      prefix ++ (codes ": digest=" ++ (digest ++ (codes " count=" ++ decimal (length pins)))) in
    record (new_harness_ledger_entry at cycle_id typ summary []) {
      files = map (λ (p : GatePin). p.name ++ (codes "=" ++ p.command_hash)) pins;
    }

-- A command of one line.
abbrev pub IsLine : Text → Type 0
IsLine = All (λ c. (c == b'\n') ≡ false)

abbrev cons_first : ℕ → List Text → List Text
cons_first c [] = (c ∷ []) ∷ []
cons_first c (line ∷ lines) = (c ∷ line) ∷ lines

split_lines : Text → List Text
split_lines [] = [] ∷ []
split_lines (c ∷ s) =
    let rest : List Text = split_lines s in if c == b'\n' then [] ∷ rest else cons_first c rest

split_lines-line : (line : Text) → IsLine line → split_lines line ≡ line ∷ []
unfolding split_lines
split_lines-line [] a = refl
split_lines-line (c ∷ line) a = rw (a.0, split_lines-line line a.1)

split_lines-append :
    (line rest : Text) → IsLine line → split_lines (line ++ b'\n' ∷ rest) ≡ line ∷ split_lines rest
unfolding split_lines
split_lines-append [] rest a = refl
split_lines-append (c ∷ line) rest a = rw (a.0, split_lines-append line rest a.1)

split_lines-join_lines :
    (c : Text) (commands : List Text)
    → IsLine c
    → All IsLine commands
    → split_lines (join_lines (c ∷ commands)) ≡ c ∷ commands
unfolding join_lines
split_lines-join_lines c [] a as' = split_lines-line c a
split_lines-join_lines c (d ∷ commands) a as' =
    split_lines-append c (join_lines (d ∷ commands)) a
    ∙ ap (◌∷◌ c) (split_lines-join_lines d commands as'.0 as'.1)

module _ (h : Sha256) where
  -- For gate sets that are not empty, of commands of one line each: a set that GatesTampered does not
  -- report against the digest that PinGates made of another is that other, command by command and in
  -- its order, or the two joined texts collide.
  pub gates_tampered-pin_gates :
      (c c' : Text) (commands commands' : List Text)
      → IsLine c
      → All IsLine commands
      → IsLine c'
      → All IsLine commands'
      → gates_tampered h (pin_gates h (c ∷ commands)).0 (c' ∷ commands') ≡ false
      → (c' ∷ commands' ≡ c ∷ commands)
        ⊎ Collision h (λ t. t ≡ join_lines (c' ∷ commands')) (λ t. t ≡ join_lines (c ∷ commands))
  unfolding gates_tampered pin_gates
  gates_tampered-pin_gates c c' commands commands' a as' b bs e =
      let one = c ∷ commands in
      let two = c' ∷ commands' in
      let digests = str_eq→eq _ _ (not_false→true _ e) in
      elim (sum-injective h (λ t. t ≡ join_lines two) (λ t. t ≡ join_lines one) (join_lines two)
        (join_lines one) refl refl
        (encode-injective _ _ (h.sum-IsDigest (join_lines two)).1
          (h.sum-IsDigest (join_lines one)).1 digests)) [
            | inl same ↦ inl (
                sym (split_lines-join_lines c' commands' b bs)
                ∙ ap split_lines same
                ∙ split_lines-join_lines c commands a as')
            | inr collision ↦ inr collision
          ]
