-- ===== src/Tests/Fixtures.antt =====
-- A digest, a marshaller and a ledger of three entries to run the definitions on.
use rallish.Prelude.{
  ℕ, zero, suc, ◌+◌, ◌*◌, ◌%◌, ◌<◌, ◌≡◌, refl, ap, List, [], ◌∷◌, ◌++◌, Option, none, some, arith,
  Text, codes, length,
}
use rallish.Prelude.Int.{pos}
use rallish.Digest.{Sha256, digest_size}
use rallish.Hex.{AreBytes}
use rallish.Contract.Ledger.{
  HarnessLedgerEntry, LedgerEventType, new_harness_ledger_entry, cycle_created, agent_turn,
  cycle_completed,
}
use rallish.Chain.{chain_hash, ledger_genesis_hash}

abbrev pub checksum : List ℕ → ℕ
checksum [] = 7
checksum (b ∷ bs) = (b + 31 * checksum bs) % 251

abbrev pub copies : ℕ → ℕ → List ℕ
copies zero b = []
copies (suc n) b = b ∷ copies n b

pub length-copies : (n b : ℕ) → length (copies n b) ≡ n
length-copies zero b = refl
length-copies (suc n) b = ap suc (length-copies n b)

pub copies-AreBytes : (n b : ℕ) → b < 256 → AreBytes (copies n b)
copies-AreBytes zero b h = tt
copies-AreBytes (suc n) b h = (h, copies-AreBytes n b h)

pub checksum-lt : (bs : List ℕ) → checksum bs < 256
checksum-lt [] = omega arith
checksum-lt (b ∷ bs) = omega arith

-- 32 copies of one checksum.
abbrev pub checksum_digest : Sha256
checksum_digest = record {
  sum = λ bs. copies digest_size (checksum bs);
  sum-IsDigest =
      λ bs. (length-copies 32 (checksum bs), copies-AreBytes 32 (checksum bs) (checksum-lt bs));
}

abbrev pub summary_only : HarnessLedgerEntry → Option Text
summary_only e = some (e.cycle_id ++ e.summary)

-- An entry of the cycle "c1" that follows a hash.
abbrev pub linked : Text → LedgerEventType → Text → HarnessLedgerEntry
linked prev typ summary =
    let e : HarnessLedgerEntry =
      record (new_harness_ledger_entry (pos 5) (codes "c1") typ summary []) { prev_hash = prev } in
    record e {
      hash = elim (chain_hash checksum_digest summary_only e prev) [ none ↦ [] | some hash ↦ hash ];
    }

abbrev pub first_entry : HarnessLedgerEntry
first_entry = linked ledger_genesis_hash cycle_created (codes "start")

abbrev pub second_entry : HarnessLedgerEntry
second_entry = linked first_entry.hash agent_turn (codes "turn")

abbrev pub third_entry : HarnessLedgerEntry
third_entry = linked second_entry.hash cycle_completed (codes "done")

abbrev pub three_entries : List HarnessLedgerEntry
three_entries = first_entry ∷ second_entry ∷ third_entry ∷ []
