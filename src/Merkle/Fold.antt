-- ===== src/Merkle/Fold.antt =====
-- VerifyInclusion's fold over a path, on decoded digests, and what it does on each kind of subtree.
use native.Mathlib.Nat.{pow-suc}
use rallish.Prelude.{
  ℕ, zero, suc, ◌+◌, ◌*◌, ◌/◌, ◌%◌, ◌^◌, ◌≤◌, ◌<◌, ◌≡◌, refl, ap, List, [], ◌∷◌, ◌++◌, map, some,
  ◌==◌, not, ◌&&◌, ◌||◌, true, false, arith, All,
}
use rallish.Hex.{encode, decode-encode}
use rallish.Digest.{Sha256, IsDigest}
use rallish.Merkle.Tree.{Digest, merkle_node_hash}
use rallish.Merkle.Powers.{two_pow_pos, lt_two_pow}
use rallish.Merkle.Inclusion.{skip_even, decode_node, fold_node, fold_path}

pub decode_node-encode : (d : Digest) → IsDigest d → decode_node (encode d) ≡ some d
unfolding decode_node
decode_node-encode d (p, q) = rw (decode-encode d q) (rw p refl)

-- The verifier's variables: acc, fn and sn.
abbrev pub FoldState : Type 0
FoldState = Digest × ℕ × ℕ

module _ (h : Sha256) where
  unfoldable pub fold_digests : FoldState → List Digest → FoldState
  fold_digests s [] = s
  fold_digests s (d ∷ ds) = fold_digests (fold_node h s.1 s.2 s.0 d) ds

  pub fold_digests-append :
      (s : FoldState) (xs ys : List Digest)
      → fold_digests s (xs ++ ys) ≡ fold_digests (fold_digests s xs) ys
  unfolding fold_digests
  fold_digests-append s [] ys = refl
  fold_digests-append s (d ∷ ds) ys = fold_digests-append (fold_node h s.1 s.2 s.0 d) ds ys

  pub fold_path-encode :
      (fn sn : ℕ) (acc : Digest) (ds : List Digest)
      → All IsDigest ds
      → fold_path h fn sn acc (map encode ds) ≡ some (fold_digests (acc, fn, sn) ds).0
  unfolding fold_path fold_digests
  fold_path-encode fn sn acc [] a = refl
  fold_path-encode fn sn acc (d ∷ ds) (p, a) =
      let s = fold_node h fn sn acc d in
      rw (decode_node-encode d p, fold_path) (fold_path-encode s.1 s.2 s.0 ds a)

  -- A proof node to the right, and one to the left of an odd node or of one on the right edge.
  pub fold_node_right :
      (v : ℕ) (acc sib : Digest) (sn : ℕ)
      → 2 * v < sn
      → fold_node h (2 * v) sn acc sib ≡ (merkle_node_hash h acc sib, v, sn / 2)
  unfolding fold_node
  fold_node_right v acc sib sn p = ground arith

skip_even_odd :
    (j f c v : ℕ) → v ≡ (2 * c + 1) * 2 ^ j → j ≤ f → skip_even f v v ≡ (2 * c + 1, 2 * c + 1)
unfolding skip_even
skip_even_odd zero zero c v e p = ap (λ (x : ℕ). (x, x)) (omega arith)
skip_even_odd zero (suc f) c v e p =
    let e' : v ≡ 2 * c + 1 = omega arith in
    let odd : (v % 2 == 0 && not (v == 0)) ≡ false = ground arith in rw (odd, skip_even) (rw e')
skip_even_odd (suc j) zero c v e p = elim p [ ]
skip_even_odd (suc j) (suc f) c v e p =
    let half : v / 2 ≡ (2 * c + 1) * 2 ^ j =
      omega (arith, e, ap (λ (t : ℕ). (2 * c + 1) * t) (pow-suc 2 j)) in
    let nonzero : 0 < v =
      omega (arith, e, two_pow_pos j, ap (λ (t : ℕ). (2 * c + 1) * t) (pow-suc 2 j)) in
    let halved : v % 2 ≡ 0 = omega (arith, e, ap (λ (t : ℕ). (2 * c + 1) * t) (pow-suc 2 j)) in
    let even : (v % 2 == 0 && not (v == 0)) ≡ true = ground arith in
    rw (even, skip_even) (skip_even_odd j f c (v / 2) half (omega arith))

skip_even_none : (f v sn : ℕ) → skip_even f (2 * v + 1) sn ≡ (2 * v + 1, sn)
unfolding skip_even
skip_even_none zero v sn = refl
skip_even_none (suc f) v sn =
    let odd : ((2 * v + 1) % 2 == 0 && not (2 * v + 1 == 0)) ≡ false = ground arith in
    rw (odd, skip_even)

-- An odd multiple of a power of two that is a number times a power of two.
pub odd_part : (x e v c : ℕ) → v * 2 ^ x ≡ (2 * c + 1) * 2 ^ e → (j : ℕ) × (v ≡ (2 * c + 1) * 2 ^ j)
odd_part zero e v c p = (e, omega (arith, p))
odd_part (suc x) zero v c p = absurd (omega (arith, p, ap (λ (t : ℕ). v * t) (pow-suc 2 x)))
odd_part (suc x) (suc e) v c p = odd_part x e v c (
    omega (
      arith,
      p,
      ap (λ (t : ℕ). v * t) (pow-suc 2 x),
      ap (λ (t : ℕ). (2 * c + 1) * t) (pow-suc 2 e),
    ))

module _ (h : Sha256) where
  pub fold_node_left_odd :
      (v : ℕ) (acc sib : Digest) (sn : ℕ)
      → fold_node h (2 * v + 1) sn acc sib ≡ (merkle_node_hash h sib acc, v, sn / 2)
  unfolding fold_node
  fold_node_left_odd v acc sib sn =
      let odd : ((2 * v + 1) % 2 == 1 || 2 * v + 1 == sn) ≡ true = ground arith in
      rw odd (
        rw (skip_even_none (2 * v + 1) v sn)
          (ap (λ (t : ℕ). (merkle_node_hash h sib acc, t, sn / 2)) (omega arith)))

  -- On the right edge the verifier skips the levels that have no sibling.
  pub fold_node_edge :
      (v j c : ℕ) (acc sib : Digest)
      → v ≡ (2 * c + 1) * 2 ^ j
      → fold_node h v v acc sib ≡ (merkle_node_hash h sib acc, c, c)
  unfolding fold_node
  fold_node_edge v j c acc sib e =
      let test : (v % 2 == 1 || v == v) ≡ true = ground arith in
      let deep : j ≤ v = omega (arith, e, lt_two_pow j, two_pow_pos j) in
      let half : (2 * c + 1) / 2 ≡ c = omega arith in
      rw test (
        rw (skip_even_odd j v c v e deep) (ap (λ (t : ℕ). (merkle_node_hash h sib acc, t, t)) half))
