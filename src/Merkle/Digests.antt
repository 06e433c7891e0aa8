-- ===== src/Merkle/Digests.antt =====
-- The hashes of pkg/contract/merkle.go as digests.
use rallish.Prelude.{
  ℕ, zero, suc, ◌-◌, List, [], ◌∷◌, inl, inr, ltb, Bool-cases, length, take, drop, All, All-append,
  All-take, All-drop,
}
use rallish.Digest.{Sha256, IsDigest}
use rallish.Contract.Ledger.{HarnessLedgerEntry}
use rallish.Merkle.Tree.{
  Digest, largest_power_of_two_less_than, merkle_leaf_hash, merkle_node_hash, tree_hash_fuel,
  merkle_tree_hash, compute_leaf_hashes,
}
use rallish.Merkle.Inclusion.{inclusion_path_fuel, inclusion_path}

module _ (h : Sha256) where
  pub leaf_hash-IsDigest : (entry : HarnessLedgerEntry) → IsDigest (merkle_leaf_hash h entry)
  unfolding merkle_leaf_hash
  leaf_hash-IsDigest entry = h.sum-IsDigest _

  pub node_hash-IsDigest : (l r : Digest) → IsDigest (merkle_node_hash h l r)
  unfolding merkle_node_hash
  node_hash-IsDigest l r = h.sum-IsDigest _

  tree_hash_fuel-IsDigest :
      (f : ℕ) (ds : List Digest) → All IsDigest ds → IsDigest (tree_hash_fuel h f ds)
  unfolding tree_hash_fuel
  tree_hash_fuel-IsDigest f [] a = h.sum-IsDigest []
  tree_hash_fuel-IsDigest f (d ∷ []) a = a.0
  tree_hash_fuel-IsDigest zero (d ∷ e ∷ ds) a = h.sum-IsDigest []
  tree_hash_fuel-IsDigest (suc f) (d ∷ e ∷ ds) a = node_hash-IsDigest _ _

  pub tree_hash-IsDigest : (ds : List Digest) → All IsDigest ds → IsDigest (merkle_tree_hash h ds)
  unfolding merkle_tree_hash
  tree_hash-IsDigest ds = tree_hash_fuel-IsDigest (length ds) ds

  path_fuel-AreDigests :
      (f m : ℕ) (ds : List Digest) → All IsDigest ds → All IsDigest (inclusion_path_fuel h f m ds)
  unfolding inclusion_path_fuel
  path_fuel-AreDigests f m [] a = tt
  path_fuel-AreDigests f m (d ∷ []) a = tt
  path_fuel-AreDigests zero m (d ∷ e ∷ ds) a = tt
  path_fuel-AreDigests (suc f) m (d ∷ e ∷ ds) a =
      let leaves : List Digest = d ∷ e ∷ ds in
      let k : ℕ = largest_power_of_two_less_than (length leaves) in
      let lower = All-take IsDigest k leaves a in
      let upper = All-drop IsDigest k leaves a in
      elim (Bool-cases (ltb m k)) [
        | inl left ↦
            rw (left, inclusion_path_fuel)
              (All-append IsDigest (inclusion_path_fuel h f m (take k leaves)) _
                (path_fuel-AreDigests f m (take k leaves) lower)
                (tree_hash-IsDigest (drop k leaves) upper, tt))
        | inr right ↦
            rw (right, inclusion_path_fuel)
              (All-append IsDigest (inclusion_path_fuel h f (m - k) (drop k leaves)) _
                (path_fuel-AreDigests f (m - k) (drop k leaves) upper)
                (tree_hash-IsDigest (take k leaves) lower, tt))
      ]

  pub path-AreDigests :
      (m : ℕ) (ds : List Digest) → All IsDigest ds → All IsDigest (inclusion_path h m ds)
  unfolding inclusion_path
  path-AreDigests m ds = path_fuel-AreDigests (length ds) m ds

  pub leaf_hashes-AreDigests :
      (entries : List HarnessLedgerEntry) → All IsDigest (compute_leaf_hashes h entries)
  unfolding compute_leaf_hashes
  leaf_hashes-AreDigests [] = tt
  leaf_hashes-AreDigests (e ∷ es) = (leaf_hash-IsDigest e, leaf_hashes-AreDigests es)
