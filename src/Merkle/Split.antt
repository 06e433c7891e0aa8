-- ===== src/Merkle/Split.antt =====
-- The split point of merkleTreeHash, and its recurrence: enough fuel is given.
use native.Mathlib.Nat.{pow-suc}
use rallish.Prelude.{
  ℕ, zero, suc, ◌+◌, ◌*◌, ◌^◌, ◌≤◌, ◌<◌, ◌≡◌, refl, ap₂, List, [], ◌∷◌, inl, inr, arith, ltb,
  ltb→lt, Bool-cases, length, take, drop, length-take, length-drop,
}
use rallish.Digest.{Sha256}
use rallish.Merkle.Tree.{
  Digest, double_below, largest_power_of_two_less_than, merkle_node_hash, tree_hash_fuel,
  merkle_tree_hash,
}

-- `k` is the largest power of two below `n`.
pub record IsSplit (n k : ℕ) : Type 0 where
  pub exponent : ℕ
  pub power : k ≡ 2 ^ exponent
  pub below : k < n
  pub covers : n ≤ k * 2

double_below-IsSplit :
    (fuel k n e : ℕ) → k ≡ 2 ^ e → k < n → 0 < k → n ≤ k + fuel → IsSplit n (double_below fuel k n)
unfolding double_below
double_below-IsSplit zero k n e p b q h = absurd (omega arith)
double_below-IsSplit (suc fuel) k n e p b q h = elim (Bool-cases (ltb (k * 2) n)) [
  | inl more ↦
      rw (more, double_below)
        (double_below-IsSplit fuel (k * 2) n (suc e) (omega (arith, pow-suc 2 e)) (ltb→lt _ _ more)
          (omega arith) (omega arith))
  | inr done ↦
      rw (done, double_below) (record { exponent = e; power = p; below = b; covers = ground arith })
]

pub largest_power-IsSplit : (n : ℕ) → 1 < n → IsSplit n (largest_power_of_two_less_than n)
unfolding largest_power_of_two_less_than
largest_power-IsSplit n h = double_below-IsSplit n 1 n 0 refl h (omega arith) (omega arith)

pub largest_power_bounds :
    (n : ℕ)
    → 1 < n
    → (0 < largest_power_of_two_less_than n) × (largest_power_of_two_less_than n < n)
largest_power_bounds n h = let s = largest_power-IsSplit n h in (omega (arith, s), s.below)

module _ (h : Sha256) where
  tree_hash_fuel-enough :
      (f g : ℕ) (ds : List Digest)
      → length ds ≤ f
      → length ds ≤ g
      → tree_hash_fuel h f ds ≡ tree_hash_fuel h g ds
  unfolding tree_hash_fuel
  tree_hash_fuel-enough f g [] p q = refl
  tree_hash_fuel-enough f g (d ∷ []) p q = refl
  tree_hash_fuel-enough zero g (d ∷ e ∷ ds) p q = elim p [ ]
  tree_hash_fuel-enough (suc f) zero (d ∷ e ∷ ds) p q = elim q [ ]
  tree_hash_fuel-enough (suc f) (suc g) (d ∷ e ∷ ds) p q =
      let leaves : List Digest = d ∷ e ∷ ds in
      let k : ℕ = largest_power_of_two_less_than (length leaves) in
      let b = largest_power_bounds (length leaves) (omega arith) in
      ap₂ (merkle_node_hash h)
        (tree_hash_fuel-enough f g (take k leaves) (omega (arith, length-take k leaves, b))
          (omega (arith, length-take k leaves, b)))
        (tree_hash_fuel-enough f g (drop k leaves) (omega (arith, length-drop k leaves, b))
          (omega (arith, length-drop k leaves, b)))

  -- The recurrence of RFC 6962: the tree hash of two leaves or more is the node hash of those of its two
  -- parts, split at the largest power of two below their number.
  pub merkle_tree_hash-split :
      (ds : List Digest) (k : ℕ)
      → 1 < length ds
      → k ≡ largest_power_of_two_less_than (length ds)
      → merkle_tree_hash h ds
        ≡ merkle_node_hash h (merkle_tree_hash h (take k ds)) (merkle_tree_hash h (drop k ds))
  unfolding merkle_tree_hash
  merkle_tree_hash-split [] k p e = absurd (omega arith)
  merkle_tree_hash-split (d ∷ []) k p e = absurd (omega arith)
  merkle_tree_hash-split (d ∷ x ∷ ds) k p e =
      let leaves : List Digest = d ∷ x ∷ ds in
      let k' : ℕ = largest_power_of_two_less_than (length leaves) in
      let b = largest_power_bounds (length leaves) p in
      rw e (
        ap₂ (merkle_node_hash h)
          (tree_hash_fuel-enough (suc (length ds)) (length (take k' leaves)) (take k' leaves)
            (omega (arith, length-take k' leaves, b)) (omega arith))
          (tree_hash_fuel-enough (suc (length ds)) (length (drop k' leaves)) (drop k' leaves)
            (omega (arith, length-drop k' leaves, b)) (omega arith)))
