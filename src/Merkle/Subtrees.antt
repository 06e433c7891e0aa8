-- ===== src/Merkle/Subtrees.antt =====
-- The verifier's fold over the path inside a subtree: a perfect one left of the last leaf, and one
-- on the right edge.
use native.Mathlib.Nat.{pow-suc}
use rallish.Prelude.{
  ℕ, zero, suc, ◌+◌, ◌-◌, ◌*◌, ◌/◌, ◌^◌, ◌≤◌, ◌<◌, ◌≡◌, refl, ap, sym, ◌∙◌, List, [], ◌∷◌, some,
  inl, inr, arith, ltb, ltb→lt, ltb_false→le, Bool-cases, length, take, drop, length-take,
  length-drop, get_elem?, get_elem?-take, get_elem?-drop,
}
use rallish.Digest.{Sha256}
use rallish.Merkle.Tree.{Digest, largest_power_of_two_less_than, merkle_tree_hash}
use rallish.Merkle.Split.{largest_power-IsSplit, merkle_tree_hash-split}
use rallish.Merkle.Powers.{two_pow_pos, exponent-lt, largest_power-perfect}
use rallish.Merkle.Inclusion.{inclusion_path}
use rallish.Merkle.Paths.{inclusion_path-left, inclusion_path-right}
use rallish.Merkle.Fold.{
  fold_digests, fold_digests-append, fold_node_right, fold_node_left_odd, fold_node_edge, odd_part,
}

-- A number below 2 ^ (e + 1) by its highest digit.
high_digit :
    (e s : ℕ) → s < 2 ^ suc e → (b : ℕ) × (t : ℕ) × (s ≡ b * 2 ^ e + t) × (t < 2 ^ e) × (b < 2)
high_digit e s p = elim (Bool-cases (ltb s (2 ^ e))) [
  | inl low ↦ (0, s, omega arith, ground arith, omega arith)
  | inr high ↦
      let le : 2 ^ e ≤ s = ground arith in
      (1, s - 2 ^ e, omega arith, omega (arith, pow-suc 2 e), omega arith)
]

module _ (h : Sha256) where
  pub fold-perfect :
      (e m q r s fn sn : ℕ) (ds : List Digest) (leaf : Digest)
      → length ds ≡ 2 ^ e
      → m < 2 ^ e
      → get_elem? ds m ≡ some leaf
      → fn ≡ q * 2 ^ e + m
      → sn ≡ r * 2 ^ e + s
      → s < 2 ^ e
      → q < r
      → fold_digests h (leaf, fn, sn) (inclusion_path h m ds) ≡ (merkle_tree_hash h ds, q, r)
  unfolding fold_digests inclusion_path merkle_tree_hash
  fold-perfect zero m q r s fn sn [] leaf len hm g hfn hsn hs hq = absurd (omega arith)
  fold-perfect zero zero q r s fn sn (d ∷ []) leaf len hm g hfn hsn hs hq =
      let same : leaf ≡ d = cc in
      let a : fn ≡ q = omega arith in let b : sn ≡ r = omega arith in rw (same, a, b)
  fold-perfect zero (suc m) q r s fn sn (d ∷ []) leaf len hm g hfn hsn hs hq = absurd (omega arith)
  fold-perfect zero m q r s fn sn (d ∷ x ∷ ds) leaf len hm g hfn hsn hs hq = absurd (omega arith)
  fold-perfect (suc e) m q r s fn sn ds leaf len hm g hfn hsn hs hq =
      let k : ℕ = 2 ^ e in
      let two : 1 < length ds = omega (arith, two_pow_pos e, pow-suc 2 e) in
      let split : k ≡ largest_power_of_two_less_than (length ds) =
        sym (ap largest_power_of_two_less_than len ∙ largest_power-perfect e) in
      let lt : length (take k ds) ≡ k = omega (arith, length-take k ds, pow-suc 2 e) in
      let ld : length (drop k ds) ≡ k = omega (arith, length-drop k ds, pow-suc 2 e) in
      let tree = merkle_tree_hash-split h ds k two split in
      let (b, t, hs', ht, hb) = high_digit e s hs in
      let twice_q = ap (λ (x : ℕ). q * x) (pow-suc 2 e) in
      let twice_r = ap (λ (x : ℕ). r * x) (pow-suc 2 e) in
      let sn' : sn ≡ (2 * r + b) * k + t = omega (arith, hsn, hs', twice_r) in
      let up : (2 * r + b) / 2 ≡ r = omega arith in
      elim (Bool-cases (ltb m k)) [
        | inl left ↦
            let ih =
              fold-perfect e m (2 * q) (2 * r + b) t fn sn (take k ds) leaf lt (ltb→lt m k left)
                (get_elem?-take k ds m (ltb→lt m k left) ∙ g) (omega (arith, hfn, twice_q)) sn' ht
                (omega arith) in
            rw (inclusion_path-left h m ds k two split left, fold_digests-append h, ih)
              (rw (fold_digests, fold_node_right h q _ _ (2 * r + b) (omega arith), tree, up))
        | inr right ↦
            let above = ltb_false→le m k right in
            let ih =
              fold-perfect e (m - k) (2 * q + 1) (2 * r + b) t fn sn (drop k ds) leaf ld
                (omega (arith, pow-suc 2 e, hm, two_pow_pos e)) (get_elem?-drop k ds m above ∙ g)
                (omega (arith, hfn, twice_q, above)) sn' ht (omega arith) in
            rw (inclusion_path-right h m ds k two split right, fold_digests-append h, ih)
              (rw (fold_digests, fold_node_left_odd h q _ _ (2 * r + b), tree, up))
      ]

-- A multiple of a power of two is an even multiple of each lower one.
even_multiple : (x e q : ℕ) → x < e → (c : ℕ) × (q * 2 ^ e ≡ 2 * c * 2 ^ x)
even_multiple x zero q p = elim p [ ]
even_multiple x (suc e) q p = elim (Bool-cases (ltb x e)) [
  | inl lower ↦
      let (c, ih) = even_multiple x e (2 * q) (ltb→lt x e lower) in
      (c, omega (arith, ih, ap (λ (t : ℕ). q * t) (pow-suc 2 e)))
  | inr top ↦
      let same : x ≡ e = omega (arith, ltb_false→le x e top) in
      (q, rw same (omega (arith, ap (λ (t : ℕ). q * t) (pow-suc 2 e))))
]

module _ (h : Sha256) where
  -- The final state: the subtree's hash, and a number that is the subtree's offset but for the
  -- levels that the verifier has yet to skip.
  abbrev pub EdgeState : List Digest → ℕ → Digest × ℕ × ℕ → Type 0
  EdgeState ds offset s =
      (v : ℕ) × (x : ℕ) × (s ≡ (merkle_tree_hash h ds, v, v)) × (v * 2 ^ x ≡ offset)

  pub fold-edge :
      (f e m q offset fn sn : ℕ) (ds : List Digest) (leaf : Digest)
      → length ds ≤ f
      → length ds ≤ 2 ^ e
      → m < length ds
      → get_elem? ds m ≡ some leaf
      → offset ≡ q * 2 ^ e
      → fn ≡ offset + m
      → sn + 1 ≡ offset + length ds
      → EdgeState ds offset (fold_digests h (leaf, fn, sn) (inclusion_path h m ds))
  unfolding fold_digests inclusion_path merkle_tree_hash
  fold-edge f e m q offset fn sn [] leaf p small hm g ho hfn hsn = elim hm [ ]
  fold-edge f e zero q offset fn sn (d ∷ []) leaf p small hm g ho hfn hsn =
      let same : leaf ≡ d = cc in
      let a : fn ≡ offset = omega arith in
      let b : sn ≡ offset = omega arith in (offset, 0, rw (same, a, b), omega arith)
  fold-edge f e (suc m) q offset fn sn (d ∷ []) leaf p small hm g ho hfn hsn = absurd (omega arith)
  fold-edge zero e m q offset fn sn (d ∷ x ∷ ds) leaf p small hm g ho hfn hsn = elim p [ ]
  fold-edge (suc f) e m q offset fn sn (d ∷ y ∷ ds) leaf p small hm g ho hfn hsn =
      let leaves : List Digest = d ∷ y ∷ ds in
      let n : ℕ = length leaves in
      let two : 1 < n = omega arith in
      let k : ℕ = largest_power_of_two_less_than n in
      let s = largest_power-IsSplit n two in
      let x : ℕ = s.exponent in
      let lt : length (take k leaves) ≡ k = omega (arith, length-take k leaves, s.below) in
      let ld : length (drop k leaves) ≡ n - k = length-drop k leaves in
      let tree = merkle_tree_hash-split h leaves k two refl in
      let lower : x < e = exponent-lt x e (omega (arith, s.power, s.below, small)) in
      let (c, multiple) = even_multiple x e q lower in
      let half : (2 * c + 1) / 2 ≡ c = omega arith in
      let back : c * 2 ^ suc x ≡ offset =
        omega (arith, ho, multiple, ap (λ (t : ℕ). c * t) (pow-suc 2 x)) in
      elim (Bool-cases (ltb m k)) [
        | inl left ↦
            let ih =
              fold-perfect h x m (2 * c) (2 * c + 1) (n - 1 - k) fn sn (take k leaves) leaf
                (lt ∙ s.power) (omega (arith, ltb→lt m k left, s.power))
                (get_elem?-take k leaves m (ltb→lt m k left) ∙ g) (omega (arith, hfn, ho, multiple))
                (omega (arith, hsn, ho, multiple, s.power, s.below))
                (omega (arith, s.power, s.covers, s.below)) (omega arith) in
            (
              c,
              suc x,
              rw (inclusion_path-left h m leaves k two refl left, fold_digests-append h, ih)
                  (rw
                    (fold_digests, fold_node_right h c _ _ (2 * c + 1) (omega arith), tree, half)),
              back,
            )
        | inr right ↦
            let above = ltb_false→le m k right in
            let (v, z, ih, hv) =
              fold-edge f x (m - k) (2 * c + 1) (offset + k) fn sn (drop k leaves) leaf
                (omega (arith, ld, s.power, two_pow_pos x, p))
                (omega (arith, ld, s.power, s.covers)) (omega (arith, ld, hm, above, s.below))
                (get_elem?-drop k leaves m above ∙ g) (omega (arith, ho, multiple, s.power))
                (omega (arith, hfn, above)) (omega (arith, hsn, ld, s.below)) in
            let (j, odd) = odd_part z x v c (omega (arith, hv, ho, multiple, s.power)) in
            (
              c,
              suc x,
              rw (inclusion_path-right h m leaves k two refl right, fold_digests-append h, ih)
                  (rw (fold_digests, fold_node_edge h v j c _ _ odd, tree)),
              back,
            )
      ]
