-- ===== src/Merkle/Rfc6962.antt =====
-- The Merkle root of pkg/contract/merkle.go against the Merkle tree hash of RFC 6962, section 2.1.
use rallish.Prelude.{
  ℕ, zero, suc, ◌^◌, ◌≤◌, ◌<◌, ◌≡◌, refl, sym, ap, ap₂, ◌∙◌, List, [], ◌∷◌, ◌++◌, map, arith,
  length, take, drop, length-take, length-drop, take-append-drop,
}
use mathlib.Core.Path.{subst}
use rallish.Hex.{encode}
use rallish.Digest.{Sha256}
use rallish.Contract.Ledger.{HarnessLedgerEntry}
use rallish.Merkle.Tree.{
  Digest, leaf_data, merkle_leaf_hash, merkle_node_hash, largest_power_of_two_less_than,
  merkle_tree_hash, compute_leaf_hashes, merkle_root,
}
use rallish.Merkle.Powers.{two_pow_pos}
use rallish.Merkle.Split.{largest_power-IsSplit, merkle_tree_hash-split}

-- The hash of a list of inputs: a leaf behind the byte 0, and a node behind the byte 1, whose left part has
-- the largest power of two of inputs that leaves some for the right part.
pub data IsTreeHash (h : Sha256) : List (List ℕ) → Digest → Type 0 where
  no_inputs : IsTreeHash h [] (h.sum [])
  leaf : (d : List ℕ) → IsTreeHash h (d ∷ []) (h.sum (0 ∷ d))
  node :
      (xs ys : List (List ℕ)) (e : ℕ) (l r : Digest)
      → length xs ≡ 2 ^ e
      → 0 < length ys
      → length ys ≤ 2 ^ e
      → IsTreeHash h xs l
      → IsTreeHash h ys r
      → IsTreeHash h (xs ++ ys) (h.sum (1 ∷ (l ++ r)))

module _ (h : Sha256) where
  abbrev leaves_of : List (List ℕ) → List Digest
  leaves_of [] = []
  leaves_of (d ∷ ds) = h.sum (0 ∷ d) ∷ leaves_of ds

  length-leaves_of : (ds : List (List ℕ)) → length (leaves_of ds) ≡ length ds
  length-leaves_of [] = refl
  length-leaves_of (d ∷ ds) = ap suc (length-leaves_of ds)

  take-leaves_of : (k : ℕ) (ds : List (List ℕ)) → take k (leaves_of ds) ≡ leaves_of (take k ds)
  take-leaves_of zero ds = refl
  take-leaves_of (suc k) [] = refl
  take-leaves_of (suc k) (d ∷ ds) = ap (◌∷◌ (h.sum (0 ∷ d))) (take-leaves_of k ds)

  drop-leaves_of : (k : ℕ) (ds : List (List ℕ)) → drop k (leaves_of ds) ≡ leaves_of (drop k ds)
  drop-leaves_of zero ds = refl
  drop-leaves_of (suc k) [] = refl
  drop-leaves_of (suc k) (d ∷ ds) = drop-leaves_of k ds

  node_lem : (l r : Digest) → merkle_node_hash h l r ≡ h.sum (1 ∷ (l ++ r))
  unfolding merkle_node_hash
  node_lem l r = refl

  merkle_tree_hash-IsTreeHash :
      (f : ℕ) (ds : List (List ℕ))
      → length ds ≤ f
      → IsTreeHash h ds (merkle_tree_hash h (leaves_of ds))
  unfolding merkle_tree_hash
  merkle_tree_hash-IsTreeHash f [] p = no_inputs
  merkle_tree_hash-IsTreeHash f (d ∷ []) p = leaf d
  merkle_tree_hash-IsTreeHash zero (d ∷ d' ∷ ds) p = elim p [ ]
  merkle_tree_hash-IsTreeHash (suc f) (d ∷ d' ∷ ds) p =
      let all : List (List ℕ) = d ∷ d' ∷ ds in
      let n : ℕ = length all in
      let k : ℕ = largest_power_of_two_less_than n in
      let s = largest_power-IsSplit n (omega arith) in
      let many : 1 < length (leaves_of all) = omega (arith, length-leaves_of all) in
      let at_k : k ≡ largest_power_of_two_less_than (length (leaves_of all)) =
        ap largest_power_of_two_less_than (sym (length-leaves_of all)) in
      let l : Digest = merkle_tree_hash h (leaves_of (take k all)) in
      let r : Digest = merkle_tree_hash h (leaves_of (drop k all)) in
      let hash : merkle_tree_hash h (leaves_of all) ≡ h.sum (1 ∷ (l ++ r)) =
        merkle_tree_hash-split h (leaves_of all) k many at_k
        ∙ ap₂ (λ xs ys. merkle_node_hash h (merkle_tree_hash h xs) (merkle_tree_hash h ys))
            (take-leaves_of k all) (drop-leaves_of k all)
        ∙ node_lem l r in
      let left =
        merkle_tree_hash-IsTreeHash f (take k all) (omega (arith, length-take k all, s.below)) in
      let right =
        merkle_tree_hash-IsTreeHash f (drop k all)
          (omega (arith, length-drop k all, s.below, s.power, two_pow_pos s.exponent)) in
      let whole =
        node (take k all) (drop k all) s.exponent l r
          (omega (arith, length-take k all, s.below, s.power))
          (omega (arith, length-drop k all, s.below))
          (omega (arith, length-drop k all, s.covers, s.power)) left right in
      subst (IsTreeHash h all) (sym hash)
        (subst (λ t. IsTreeHash h t (h.sum (1 ∷ (l ++ r)))) (take-append-drop k all) whole)

  -- The bytes that a leaf of the log stands for.
  abbrev pub inputs : List HarnessLedgerEntry → List (List ℕ)
  inputs entries = map (λ (e : HarnessLedgerEntry). leaf_data e.hash) entries

  leaves_of-inputs :
      (entries : List HarnessLedgerEntry)
      → compute_leaf_hashes h entries ≡ leaves_of (inputs entries)
  unfolding compute_leaf_hashes merkle_leaf_hash
  leaves_of-inputs [] = refl
  leaves_of-inputs (e ∷ entries) = ap (◌∷◌ (merkle_leaf_hash h e)) (leaves_of-inputs entries)

  -- MerkleRoot is the hex text of the hash that RFC 6962 gives to the leaf data of the entries.
  pub merkle_root-IsTreeHash :
      (entries : List HarnessLedgerEntry)
      → (root : Digest) × IsTreeHash h (inputs entries) root × (merkle_root h entries ≡ encode root)
  unfolding merkle_root
  merkle_root-IsTreeHash entries = (
    merkle_tree_hash h (leaves_of (inputs entries)),
    merkle_tree_hash-IsTreeHash (length (inputs entries)) (inputs entries) (omega arith),
    ap (λ t. encode (merkle_tree_hash h t)) (leaves_of-inputs entries),
  )
