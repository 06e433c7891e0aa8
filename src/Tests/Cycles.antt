-- ===== src/Tests/Cycles.antt =====
-- The theorems on the cycle and on pinned gates, at small ledgers and gate sets.
use rallish.Prelude.{
  ℕ, suc, ◌≡◌, refl, ◌⊎◌, ◌↔◌, true, false, List, [], ◌∷◌, ◌++◌, none, some, Text, codes, str_eq,
}
use rallish.Prelude.Int.{pos}
use rallish.Digest.{Collision}
use rallish.Contract.Ledger.{
  HarnessLedgerEntry, new_harness_ledger_entry, cycle_created, agent_turn, cycle_halted,
  validation_green,
}
use rallish.Contract.Pins.{join_lines, pin_gates, gates_tampered, gates_tampered-pin_gates}
use rallish.Cycle.Halt.{
  stuck, budget_exceeded, halt_reason_text, parse_halt_reason, parse_halt_reason-halt_reason_text,
}
use rallish.Cycle.Reviver.{ledger_seals_resume}
use rallish.Cycle.Sealing.{IsSealedBy, ledger_seals_resume-IsSealedBy}
use rallish.Cycle.Budget.{exceeds_lifetime_ceiling, HasTurns, exceeds_lifetime_ceiling-HasTurns}
use rallish.Cycle.Alternation.{HasPingPong}
use rallish.Cycle.Stuck.{ping_pong_stuck, stuck_reason}
use rallish.Cycle.PingPong.{ping_pong_stuck-HasPingPong}
use rallish.Tests.Fixtures.{checksum_digest}

-- A cycle that was green, then halted on its budget, then took one more turn.
abbrev halted_ledger : List HarnessLedgerEntry
halted_ledger =
    new_harness_ledger_entry (pos 1) (codes "c1") cycle_created [] []
    ∷ new_harness_ledger_entry (pos 2) (codes "c1") validation_green [] []
    ∷ new_harness_ledger_entry (pos 3) (codes "c1") cycle_halted (codes "budget-exceeded") []
    ∷ new_harness_ledger_entry (pos 4) (codes "c1") agent_turn (codes "again") []
    ∷ []

halted_sealed : ledger_seals_resume halted_ledger ≡ some budget_exceeded
unfolding ledger_seals_resume new_harness_ledger_entry str_eq
halted_sealed = refl

-- A green after the halt revives it.
revived_open :
    ledger_seals_resume
      (halted_ledger ++ new_harness_ledger_entry (pos 5) (codes "c1") validation_green [] [] ∷ [])
    ≡ none
unfolding ledger_seals_resume new_harness_ledger_entry str_eq
revived_open = refl

ledger_seals_resume-IsSealedBy_example :
    (ledger_seals_resume halted_ledger ≡ some budget_exceeded)
    ↔ IsSealedBy budget_exceeded halted_ledger
ledger_seals_resume-IsSealedBy_example =
    ledger_seals_resume-IsSealedBy budget_exceeded halted_ledger

one_turn_exceeds : exceeds_lifetime_ceiling halted_ledger (pos 1) ≡ true
unfolding exceeds_lifetime_ceiling new_harness_ledger_entry
one_turn_exceeds = refl

exceeds_lifetime_ceiling-HasTurns_example :
    (exceeds_lifetime_ceiling halted_ledger (pos 1) ≡ true)
    ↔ ((n : ℕ) × (pos 1 ≡ pos (suc n)) × HasTurns (suc n) halted_ledger)
exceeds_lifetime_ceiling-HasTurns_example = exceeds_lifetime_ceiling-HasTurns halted_ledger (pos 1)

parse_halt_reason-halt_reason_text_example : parse_halt_reason (halt_reason_text stuck) ≡ some stuck
parse_halt_reason-halt_reason_text_example = parse_halt_reason-halt_reason_text stuck

abbrev go_test : Text
go_test = codes "go test"

abbrev go_vet : Text
go_vet = codes "go vet"

gates_kept :
    gates_tampered checksum_digest
      (pin_gates checksum_digest (go_test ∷ go_vet ∷ [])).0
      (go_test ∷ go_vet ∷ [])
    ≡ false
unfolding gates_tampered
gates_kept = refl

-- One command with a newline and the two commands that it joins have one digest.
newline_unseen :
    gates_tampered checksum_digest
      (pin_gates checksum_digest (codes "a" ∷ codes "b" ∷ [])).0
      ((b'a' ∷ b'\n' ∷ b'b' ∷ []) ∷ [])
    ≡ false
unfolding gates_tampered
newline_unseen = refl

gates_tampered-pin_gates_example :
    ◌≡◌ {A = List Text} (go_test ∷ go_vet ∷ []) (go_test ∷ go_vet ∷ [])
    ⊎ Collision checksum_digest
        (λ t. t ≡ join_lines (go_test ∷ go_vet ∷ []))
        (λ t. t ≡ join_lines (go_test ∷ go_vet ∷ []))
gates_tampered-pin_gates_example =
    gates_tampered-pin_gates checksum_digest go_test go_test (go_vet ∷ []) (go_vet ∷ [])
      (refl, (refl, (refl, (refl, (refl, (refl, (refl, tt)))))))
      ((refl, (refl, (refl, (refl, (refl, (refl, tt)))))), tt)
      (refl, (refl, (refl, (refl, (refl, (refl, (refl, tt)))))))
      ((refl, (refl, (refl, (refl, (refl, (refl, tt)))))), tt) gates_kept

abbrev two_agents : List Text
two_agents = codes "x" ∷ go_test ∷ go_vet ∷ go_test ∷ go_vet ∷ go_test ∷ go_vet ∷ codes "y" ∷ []

two_agents_stuck : ping_pong_stuck two_agents ≡ true
unfolding ping_pong_stuck
two_agents_stuck = refl

-- Four turns with one summary and no files.
repeated_turn_stuck :
    stuck_reason (
      new_harness_ledger_entry (pos 1) (codes "c1") agent_turn (codes "again") []
      ∷ new_harness_ledger_entry (pos 2) (codes "c1") agent_turn (codes "again") []
      ∷ new_harness_ledger_entry (pos 3) (codes "c1") agent_turn (codes "again") []
      ∷ new_harness_ledger_entry (pos 4) (codes "c1") agent_turn (codes "again") []
      ∷ [])
    ≡ some stuck
unfolding stuck_reason new_harness_ledger_entry
repeated_turn_stuck = refl

halted_ledger_moves : stuck_reason halted_ledger ≡ none
unfolding stuck_reason new_harness_ledger_entry
halted_ledger_moves = refl

ping_pong_stuck-HasPingPong_example : (ping_pong_stuck two_agents ≡ true) ↔ HasPingPong two_agents
ping_pong_stuck-HasPingPong_example = ping_pong_stuck-HasPingPong two_agents
