-- ===== src/Merkle/Consistency.antt =====
-- Consistency proofs of pkg/contract/merkle.go: ConsistencyProof, subProof, isHexSize and decodeRoot.
use rallish.Prelude.{
  none, some, ℕ, zero, suc, ◌-◌, List, [], ◌∷◌, ◌++◌, map, Bool, true, false, not, ◌&&◌, ◌||◌, leb,
  ◌==◌, if◌then◌else◌, length, take, drop, Text,
}
use rallish.Prelude.Int.{ℤ, pos, pos_part, ltb_ℤ}
use rallish.Hex.{encode, decode}
use rallish.Digest.{Sha256, digest_size}
use rallish.Contract.Ledger.{HarnessLedgerEntry}
use rallish.Merkle.Tree.{
  Digest, largest_power_of_two_less_than, merkle_tree_hash, compute_leaf_hashes,
}
use rallish.Merkle.Inclusion.{Result, ok, err, consistency_range}

pub record MerkleConsistencyProof : Type 0 where
  pub old_size : ℤ
  pub new_size : ℤ
  pub path : List Text

module _ (h : Sha256) where
  -- Each call takes a proper part of the leaves, so their number is fuel enough.
  unfoldable pub sub_proof_fuel : ℕ → ℕ → List Digest → Bool → List Digest
  sub_proof_fuel zero m leaves b = if b then [] else merkle_tree_hash h leaves ∷ []
  sub_proof_fuel (suc fuel) m leaves b =
      let n : ℕ = length leaves in
      let k : ℕ = largest_power_of_two_less_than n in
      let left : List Digest =
        sub_proof_fuel fuel m (take k leaves) b ++ merkle_tree_hash h (drop k leaves) ∷ [] in
      let right : List Digest =
        sub_proof_fuel fuel (m - k) (drop k leaves) false
        ++ merkle_tree_hash h (take k leaves) ∷ [] in
      if m == n
      then (if b then [] else merkle_tree_hash h leaves ∷ [])
      else if leb m k
      then left
      else right

  unfoldable pub sub_proof : ℕ → List Digest → Bool → List Digest
  unfolding sub_proof_fuel merkle_tree_hash largest_power_of_two_less_than
  sub_proof m leaves b = sub_proof_fuel (length leaves) m leaves b

  unfoldable pub consistency_proof : ℤ → List HarnessLedgerEntry → Result MerkleConsistencyProof
  unfolding sub_proof compute_leaf_hashes encode
  consistency_proof old_size entries =
      let n : ℕ = length entries in
      let leaves : List Digest = compute_leaf_hashes h entries in
      let path : List Digest =
        if not (pos_part old_size == 0) && not (pos_part old_size == n)
        then sub_proof (pos_part old_size) leaves true
        else [] in
      if ltb_ℤ old_size (pos 0) || ltb_ℤ (pos n) old_size
      then err consistency_range
      else ok (record { old_size = old_size; new_size = pos n; path = map encode path })

-- isHexSize and decodeRoot: 64 hex digits, and the digest that they stand for.
unfoldable pub is_hex_size : Text → Bool
unfolding decode
is_hex_size s = elim (decode s) [ none ↦ false | some bytes ↦ length bytes == digest_size ]

abbrev pub zeros : ℕ → Digest
zeros zero = []
zeros (suc n) = 0 ∷ zeros n

unfoldable pub decode_root : Text → Digest
unfolding decode
decode_root s = elim (decode s) [
  | none ↦ zeros digest_size
  | some bytes ↦ if length bytes == digest_size then bytes else zeros digest_size
]
