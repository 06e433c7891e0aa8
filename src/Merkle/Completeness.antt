-- ===== src/Merkle/Completeness.antt =====
-- InclusionProof against VerifyInclusion, of pkg/contract/merkle.go.
use rallish.Prelude.{
  ℕ, ◌-◌, ◌<◌, ◌≡◌, ap, ◌∙◌, List, some, true, false, arith, ◌==◌, not, ◌||◌, length, length-map,
  get_elem?, get_elem?-map, get_elem?-lt, str_eq_refl, map,
}
use rallish.Prelude.Int.{pos, ltb_ℤ, leb_ℤ}
use rallish.Hex.{encode}
use rallish.Digest.{Sha256}
use rallish.Contract.Ledger.{HarnessLedgerEntry}
use rallish.Merkle.Tree.{
  Digest, merkle_leaf_hash, merkle_tree_hash, compute_leaf_hashes, merkle_root,
}
use rallish.Merkle.Powers.{lt_two_pow}
use rallish.Merkle.Inclusion.{
  MerkleInclusionProof, ok, inclusion_path, inclusion_path_len, inclusion_proof, fold_path,
  verify_inclusion,
}
use rallish.Merkle.Paths.{length-inclusion_path}
use rallish.Merkle.Digests.{path-AreDigests, leaf_hashes-AreDigests}
use rallish.Merkle.Fold.{fold_digests, fold_path-encode}
use rallish.Merkle.Subtrees.{fold-edge}

module _ (h : Sha256) where
  -- The fold over a whole tree's path ends at the tree's hash.
  pub fold_path-tree :
      (m : ℕ) (ds : List Digest) (leaf : Digest)
      → get_elem? ds m ≡ some leaf
      → m < length ds
      → (fold_digests h (leaf, m, length ds - 1) (inclusion_path h m ds)).0 ≡ merkle_tree_hash h ds
  fold_path-tree m ds leaf g p =
      let (v, x, e, _) =
        fold-edge h (length ds) (length ds) m 0 0 m (length ds - 1) ds leaf (omega arith)
          (omega (arith, lt_two_pow (length ds))) p g (omega arith) (omega arith) (omega arith) in
      ap (λ (s : Digest × ℕ × ℕ). s.0) e

  -- The proof that InclusionProof makes for an index in range.
  abbrev pub honest_proof : List HarnessLedgerEntry → ℕ → MerkleInclusionProof
  honest_proof entries m = record {
    leaf_index = pos m;
    tree_size = pos (length entries);
    audit_path = map encode (inclusion_path h m (compute_leaf_hashes h entries));
  }

  pub inclusion_proof_in_range :
      (entries : List HarnessLedgerEntry) (m : ℕ)
      → m < length entries
      → inclusion_proof h entries (pos m) ≡ ok (honest_proof entries m)
  unfolding inclusion_proof
  inclusion_proof_in_range entries m p =
      let a : (length entries == 0) ≡ false = ground arith in
      let b : (ltb_ℤ (pos m) (pos 0) || leb_ℤ (pos (length entries)) (pos m)) ≡ false =
        ground arith in
      rw (a, b)

  length-leaf_hashes :
      (entries : List HarnessLedgerEntry) → length (compute_leaf_hashes h entries) ≡ length entries
  unfolding compute_leaf_hashes
  length-leaf_hashes entries = length-map _ entries

  pub fold_path-honest :
      (entries : List HarnessLedgerEntry) (m : ℕ) (entry : HarnessLedgerEntry)
      → get_elem? entries m ≡ some entry
      → m < length entries
      → fold_path h m
          (length entries - 1)
          (merkle_leaf_hash h entry)
          (honest_proof entries m).audit_path
        ≡ some (merkle_tree_hash h (compute_leaf_hashes h entries))
  unfolding compute_leaf_hashes
  fold_path-honest entries m entry g p =
      let ds = compute_leaf_hashes h entries in
      let len = length-leaf_hashes entries in
      rw
        (fold_path-encode h m (length entries - 1) (merkle_leaf_hash h entry)
          (inclusion_path h m ds) (path-AreDigests h m ds (leaf_hashes-AreDigests h entries)))
        (rw (← len) (
          ap some (
            fold_path-tree m ds (merkle_leaf_hash h entry)
              (get_elem?-map (merkle_leaf_hash h) entries m g) (omega (arith, len)))))

  pub verify_inclusion-honest :
      (entries : List HarnessLedgerEntry) (m : ℕ) (entry : HarnessLedgerEntry)
      → get_elem? entries m ≡ some entry
      → verify_inclusion h entry (honest_proof entries m) (merkle_root h entries) ≡ true
  unfolding verify_inclusion merkle_root
  verify_inclusion-honest entries m entry g =
      let p : m < length entries = get_elem?-lt entries m g in
      let n : ℕ = length entries in
      let path = inclusion_path h m (compute_leaf_hashes h entries) in
      let range : (leb_ℤ (pos n) (pos 0) || ltb_ℤ (pos m) (pos 0) || leb_ℤ (pos n) (pos m))
          ≡ false =
        ground arith in
      let len : length (map encode path) ≡ inclusion_path_len m n =
        length-map encode path
        ∙ length-inclusion_path h m (compute_leaf_hashes h entries)
        ∙ ap (inclusion_path_len m) (length-leaf_hashes entries) in
      let long : not (length (map encode path) == inclusion_path_len m n) ≡ false =
        rw len (ground arith) in
      rw (range, long, fold_path-honest entries m entry g p)
        (str_eq_refl (encode (merkle_tree_hash h (compute_leaf_hashes h entries))))

  -- Every proof that InclusionProof makes for an entry of a log verifies for that entry against the
  -- log's root.
  pub verify_inclusion-inclusion_proof :
      (entries : List HarnessLedgerEntry) (m : ℕ) (entry : HarnessLedgerEntry)
      (proof : MerkleInclusionProof)
      → get_elem? entries m ≡ some entry
      → inclusion_proof h entries (pos m) ≡ ok proof
      → verify_inclusion h entry proof (merkle_root h entries) ≡ true
  verify_inclusion-inclusion_proof entries m entry proof g made =
      let same : proof ≡ honest_proof entries m =
        cc (inclusion_proof_in_range entries m (get_elem?-lt entries m g)) in
      rw same (verify_inclusion-honest entries m entry g)
