-- ===== src/Merkle/Paths.antt =====
-- The recurrences of inclusionPath and inclusionPathLen, and the length of a path.
use rallish.Prelude.{
  ℕ, zero, suc, ◌+◌, ◌-◌, ◌≤◌, ◌<◌, ◌≡◌, refl, ap, ap₂, List, [], ◌∷◌, ◌++◌, inl, inr, true, false,
  arith, ltb, leb, Bool-cases, if◌then◌else◌, length, take, drop, length-take, length-drop,
  length-append,
}
use rallish.Digest.{Sha256}
use rallish.Merkle.Tree.{Digest, largest_power_of_two_less_than, merkle_tree_hash}
use rallish.Merkle.Split.{largest_power_bounds}
use rallish.Merkle.Inclusion.{
  inclusion_path_len_fuel, inclusion_path_len, inclusion_path_fuel, inclusion_path,
}

module _ (h : Sha256) where
  inclusion_path_fuel-enough :
      (f g m : ℕ) (ds : List Digest)
      → length ds ≤ f
      → length ds ≤ g
      → inclusion_path_fuel h f m ds ≡ inclusion_path_fuel h g m ds
  unfolding inclusion_path_fuel
  inclusion_path_fuel-enough f g m [] p q = refl
  inclusion_path_fuel-enough f g m (d ∷ []) p q = refl
  inclusion_path_fuel-enough zero g m (d ∷ e ∷ ds) p q = elim p [ ]
  inclusion_path_fuel-enough (suc f) zero m (d ∷ e ∷ ds) p q = elim q [ ]
  inclusion_path_fuel-enough (suc f) (suc g) m (d ∷ e ∷ ds) p q =
      let leaves : List Digest = d ∷ e ∷ ds in
      let k : ℕ = largest_power_of_two_less_than (length leaves) in
      let b = largest_power_bounds (length leaves) (omega arith) in
      let lt = length-take k leaves in
      let ld = length-drop k leaves in
      elim (Bool-cases (ltb m k)) [
        | inl left ↦
            rw (left, inclusion_path_fuel)
              (ap (λ s. s ++ merkle_tree_hash h (drop k leaves) ∷ [])
                (inclusion_path_fuel-enough f g m (take k leaves) (omega (arith, lt, b))
                  (omega (arith, lt, b))))
        | inr right ↦
            rw (right, inclusion_path_fuel)
              (ap (λ s. s ++ merkle_tree_hash h (take k leaves) ∷ [])
                (inclusion_path_fuel-enough f g (m - k) (drop k leaves) (omega (arith, ld, b))
                  (omega (arith, ld, b))))
      ]

  pub inclusion_path-left :
      (m : ℕ) (ds : List Digest) (k : ℕ)
      → 1 < length ds
      → k ≡ largest_power_of_two_less_than (length ds)
      → ltb m k ≡ true
      → inclusion_path h m ds
        ≡ inclusion_path h m (take k ds) ++ merkle_tree_hash h (drop k ds) ∷ []
  unfolding inclusion_path
  inclusion_path-left m [] k two split e = absurd (omega arith)
  inclusion_path-left m (d ∷ []) k two split e = absurd (omega arith)
  inclusion_path-left m (d ∷ x ∷ ds) k two split e =
      let leaves : List Digest = d ∷ x ∷ ds in
      let b = largest_power_bounds (length leaves) two in
      let e' : ltb m (largest_power_of_two_less_than (length leaves)) ≡ true = rw (← split) e in
      rw (e', inclusion_path_fuel)
        (rw (← split) (
          ap (λ s. s ++ merkle_tree_hash h (drop k leaves) ∷ [])
            (inclusion_path_fuel-enough (suc (length ds)) (length (take k leaves)) m (take k leaves)
              (omega (arith, length-take k leaves, b)) (omega arith))))

  pub inclusion_path-right :
      (m : ℕ) (ds : List Digest) (k : ℕ)
      → 1 < length ds
      → k ≡ largest_power_of_two_less_than (length ds)
      → ltb m k ≡ false
      → inclusion_path h m ds
        ≡ inclusion_path h (m - k) (drop k ds) ++ merkle_tree_hash h (take k ds) ∷ []
  unfolding inclusion_path
  inclusion_path-right m [] k two split e = absurd (omega arith)
  inclusion_path-right m (d ∷ []) k two split e = absurd (omega arith)
  inclusion_path-right m (d ∷ x ∷ ds) k two split e =
      let leaves : List Digest = d ∷ x ∷ ds in
      let b = largest_power_bounds (length leaves) two in
      let e' : ltb m (largest_power_of_two_less_than (length leaves)) ≡ false = rw (← split) e in
      rw (e', inclusion_path_fuel)
        (rw (← split) (
          ap (λ s. s ++ merkle_tree_hash h (take k leaves) ∷ [])
            (inclusion_path_fuel-enough (suc (length ds)) (length (drop k leaves)) (m - k)
              (drop k leaves) (omega (arith, length-drop k leaves, b)) (omega arith))))

inclusion_path_len_fuel-enough :
    (f g m n : ℕ) → n ≤ f → n ≤ g → inclusion_path_len_fuel f m n ≡ inclusion_path_len_fuel g m n
unfolding inclusion_path_len_fuel
inclusion_path_len_fuel-enough zero zero m n p q = refl
inclusion_path_len_fuel-enough zero (suc g) m n p q = ground arith
inclusion_path_len_fuel-enough (suc f) zero m n p q = ground arith
inclusion_path_len_fuel-enough (suc f) (suc g) m n p q =
    let k : ℕ = largest_power_of_two_less_than n in
    elim (Bool-cases (leb n 1)) [
      | inl one ↦ rw one
      | inr more ↦
          let b = largest_power_bounds n (ground arith) in
          rw more (
            ap₂ (λ (x y : ℕ). if ltb m k then x + 1 else y + 1)
              (inclusion_path_len_fuel-enough f g m k (omega (arith, b)) (omega (arith, b)))
              (inclusion_path_len_fuel-enough f g (m - k) (n - k) (omega (arith, b))
                (omega (arith, b))))
    ]

inclusion_path_len-split :
    (m n : ℕ)
    → 1 < n
    → let k = largest_power_of_two_less_than n in
      inclusion_path_len m n
      ≡ (if ltb m k then inclusion_path_len m k + 1 else inclusion_path_len (m - k) (n - k) + 1)
unfolding inclusion_path_len
inclusion_path_len-split m zero two = absurd (omega arith)
inclusion_path_len-split m (suc j) two =
    let k : ℕ = largest_power_of_two_less_than (suc j) in
    let b = largest_power_bounds (suc j) two in
    let more : leb (suc j) 1 ≡ false = ground arith in
    rw (more, inclusion_path_len_fuel)
      (ap₂ (λ (x y : ℕ). if ltb m k then x + 1 else y + 1)
        (inclusion_path_len_fuel-enough j k m k (omega (arith, b)) (omega arith))
        (inclusion_path_len_fuel-enough j (suc j - k) (m - k) (suc j - k) (omega (arith, b))
          (omega arith)))

inclusion_path_len_one : (m : ℕ) → inclusion_path_len m 1 ≡ 0
unfolding inclusion_path_len inclusion_path_len_fuel
inclusion_path_len_one m = refl

module _ (h : Sha256) where
  length-inclusion_path_bounded :
      (f m : ℕ) (ds : List Digest)
      → length ds ≤ f
      → length (inclusion_path h m ds) ≡ inclusion_path_len m (length ds)
  unfolding inclusion_path inclusion_path_len
  length-inclusion_path_bounded f m [] p = refl
  length-inclusion_path_bounded f m (d ∷ []) p = refl
  length-inclusion_path_bounded zero m (d ∷ x ∷ ds) p = elim p [ ]
  length-inclusion_path_bounded (suc f) m (d ∷ x ∷ ds) p =
      let leaves : List Digest = d ∷ x ∷ ds in
      let k : ℕ = largest_power_of_two_less_than (length leaves) in
      let b = largest_power_bounds (length leaves) (omega arith) in
      let lt : length (take k leaves) ≡ k = omega (arith, length-take k leaves, b) in
      let ld = length-drop k leaves in
      let step = inclusion_path_len-split m (length leaves) (omega arith) in
      elim (Bool-cases (ltb m k)) [
        | inl left ↦
            let ih = length-inclusion_path_bounded f m (take k leaves) (omega (arith, lt, b)) in
            rw (inclusion_path-left h m leaves k (omega arith) refl left)
              (rw (length-append {0}) (rw step (rw left (rw (ih, lt)))))
        | inr right ↦
            let ih =
              length-inclusion_path_bounded f (m - k) (drop k leaves) (omega (arith, ld, b)) in
            rw (inclusion_path-right h m leaves k (omega arith) refl right)
              (rw (length-append {0}) (rw step (rw right (rw (ih, ld)))))
      ]

  -- The audit path of a leaf is as long as VerifyInclusion computes that it must be.
  pub length-inclusion_path :
      (m : ℕ) (ds : List Digest) → length (inclusion_path h m ds) ≡ inclusion_path_len m (length ds)
  length-inclusion_path m ds = length-inclusion_path_bounded (length ds) m ds (omega arith)
