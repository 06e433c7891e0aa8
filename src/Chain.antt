-- ===== src/Chain.antt =====
-- pkg/contract/harness_ledger.go: ChainHash and VerifyChain. encoding/json's Marshal of an entry is a
-- parameter, and `none` is its error.
pub mod Links
pub mod Tamper
use rallish.Prelude.{
  ℕ, ◌+◌, List, [], ◌∷◌, ◌++◌, Option, none, some, Bool, true, false, not, if◌then◌else◌, Text,
  codes, str_eq,
}
use rallish.Prelude.Int.{ℤ, pos, negsuc}
use rallish.Hex.{encode}
use rallish.Digest.{Sha256}
use rallish.Contract.Ledger.{HarnessLedgerEntry}

abbrev pub ledger_genesis_hash : Text
ledger_genesis_hash = codes "0000000000000000000000000000000000000000000000000000000000000000"

-- -1.
abbrev pub no_broken_link : ℤ
no_broken_link = negsuc 0

module _ (h : Sha256) (marshal : HarnessLedgerEntry → Option Text) where
  unfoldable pub chain_hash : HarnessLedgerEntry → Text → Option Text
  unfolding encode
  chain_hash entry prev_hash = elim (marshal (record entry { hash = [] })) [
    | none ↦ none
    | some canonical ↦ some (encode (h.sum (canonical ++ prev_hash)))
  ]

  unfoldable pub verify_from : Text → ℕ → List HarnessLedgerEntry → ℤ × Bool
  verify_from prev i [] = (no_broken_link, true)
  verify_from prev i (entry ∷ entries) =
      let rest : ℤ × Bool = verify_from entry.hash (i + 1) entries in
      if not (str_eq entry.prev_hash prev)
      then (pos i, false)
      else elim (chain_hash entry entry.prev_hash) [
        | none ↦ (pos i, false)
        | some want ↦ if not (str_eq entry.hash want) then (pos i, false) else rest
      ]

  unfoldable pub verify_chain : List HarnessLedgerEntry → ℤ × Bool
  unfolding verify_from
  verify_chain entries = verify_from ledger_genesis_hash 0 entries
