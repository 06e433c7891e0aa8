-- ===== src/Merkle/Tree.antt =====
-- The tree hash: merkleLeafHash, merkleNodeHash, largestPowerOfTwoLessThan, merkleTreeHash,
-- computeLeafHashes and MerkleRoot. Recursion on the split point takes fuel, and the number of
-- leaves is enough of it (Merkle/Split).
use rallish.Prelude.{
  ℕ, zero, suc, ◌*◌, List, [], ◌∷◌, ◌++◌, map, none, some, true, false, ltb, length, take, drop,
  Text,
}
use rallish.Hex.{encode, decode}
use rallish.Digest.{Sha256}
use rallish.Contract.Ledger.{HarnessLedgerEntry}

abbrev pub Digest : Type 0
Digest = List ℕ

abbrev pub merkle_leaf_prefix : ℕ
merkle_leaf_prefix = 0

abbrev pub merkle_node_prefix : ℕ
merkle_node_prefix = 1

-- A hash that is no hex text is taken as raw bytes.
unfoldable pub leaf_data : Text → List ℕ
leaf_data hash = elim (decode hash) [ some bytes ↦ bytes | none ↦ hash ]

-- `for k<<1 < n { k <<= 1 }`.
unfoldable pub double_below : ℕ → ℕ → ℕ → ℕ
double_below zero k n = k
double_below (suc fuel) k n = elim (ltb (k * 2) n) [
  | true ↦ double_below fuel (k * 2) n
  | false ↦ k
]

unfoldable pub largest_power_of_two_less_than : ℕ → ℕ
unfolding double_below
largest_power_of_two_less_than n = double_below n 1 n

module _ (h : Sha256) where
  unfoldable pub merkle_leaf_hash : HarnessLedgerEntry → Digest
  unfolding leaf_data
  merkle_leaf_hash entry = h.sum (merkle_leaf_prefix ∷ leaf_data entry.hash)

  unfoldable pub merkle_node_hash : Digest → Digest → Digest
  merkle_node_hash left right = h.sum (merkle_node_prefix ∷ (left ++ right))

  unfoldable pub tree_hash_fuel : ℕ → List Digest → Digest
  tree_hash_fuel fuel [] = h.sum []
  tree_hash_fuel fuel (d ∷ []) = d
  tree_hash_fuel zero (d ∷ e ∷ ds) = h.sum []
  tree_hash_fuel (suc fuel) (d ∷ e ∷ ds) =
      let leaves : List Digest = d ∷ e ∷ ds in
      let k : ℕ = largest_power_of_two_less_than (length leaves) in
      merkle_node_hash (tree_hash_fuel fuel (take k leaves)) (tree_hash_fuel fuel (drop k leaves))

  unfoldable pub merkle_tree_hash : List Digest → Digest
  unfolding tree_hash_fuel largest_power_of_two_less_than merkle_node_hash
  merkle_tree_hash leaves = tree_hash_fuel (length leaves) leaves

  unfoldable pub compute_leaf_hashes : List HarnessLedgerEntry → List Digest
  unfolding merkle_leaf_hash
  compute_leaf_hashes entries = map merkle_leaf_hash entries

  unfoldable pub merkle_root : List HarnessLedgerEntry → Text
  unfolding compute_leaf_hashes merkle_tree_hash encode
  merkle_root entries = encode (merkle_tree_hash (compute_leaf_hashes entries))
