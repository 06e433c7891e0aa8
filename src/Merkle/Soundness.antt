-- ===== src/Merkle/Soundness.antt =====
-- VerifyInclusion of pkg/contract/merkle.go on any proof.
use rallish.Prelude.{
  ℕ, ◌-◌, ◌%◌, ◌<◌, ◌≡◌, refl, sym, ap, ◌∙◌, List, [], ◌∷◌, ◌⊎◌, inl, inr, Bool, Option, none, some,
  true, false, arith, ◌==◌, ==_iff, ◌||◌, Bool-cases, Option-cases, length, get_elem?,
  get_elem?_defined, str_eq, str_eq→eq, Text, none≢some, guard_passed, not_false→true,
  append-injective, ◌++◌, if◌then◌else◌,
}
use rallish.Prelude.Int.{pos, ltb_ℤ, leb_ℤ}
use mathlib.Core.Path.{subst}
use rallish.Hex.{encode, encode-injective}
use rallish.Digest.{Sha256, IsDigest, Collision, sum-injective, widen}
use rallish.Contract.Ledger.{HarnessLedgerEntry}
use rallish.Merkle.Tree.{
  Digest, leaf_data, merkle_leaf_prefix, merkle_node_prefix, merkle_leaf_hash, merkle_node_hash,
  merkle_root,
}
use rallish.Merkle.Inclusion.{
  inclusion_path_len, decode_node, decode_node-length, fold_node, fold_path, verify_inclusion,
}
use rallish.Merkle.Digests.{leaf_hash-IsDigest, node_hash-IsDigest}
use rallish.Merkle.Completeness.{honest_proof, verify_inclusion-honest}

module _ (h : Sha256) where
  abbrev pub node_text : Digest → Digest → Text
  node_text l r = merkle_node_prefix ∷ (l ++ r)

  -- The text that a round of the fold hashes.
  abbrev pub round_text : ℕ → ℕ → Digest → Digest → Text
  round_text fn sn acc sib =
      if fn % 2 == 1 || fn == sn then node_text sib acc else node_text acc sib

  -- The texts that VerifyInclusion hashes: of the path's nodes, and of the entry and the path.
  abbrev pub IsPathText : ℕ → ℕ → Digest → List Text → Text → Type 0
  IsPathText fn sn acc [] t = ⊥
  IsPathText fn sn acc (hex ∷ path) t =
      (sib : Digest) × (decode_node hex ≡ some sib)
      × ((t ≡ round_text fn sn acc sib)
          ⊎ IsPathText (fold_node h fn sn acc sib).1 (fold_node h fn sn acc sib).2
              (fold_node h fn sn acc sib).0 path t)

  abbrev pub leaf_text : HarnessLedgerEntry → Text
  leaf_text entry = merkle_leaf_prefix ∷ leaf_data entry.hash

  abbrev pub IsVerifyText : HarnessLedgerEntry → List Text → ℕ → ℕ → Text → Type 0
  IsVerifyText entry path m n t =
      (t ≡ leaf_text entry) ⊎ IsPathText m (n - 1) (merkle_leaf_hash h entry) path t

  node_hash-injective :
      (l l' r r' : Digest)
      → length l ≡ length l'
      → merkle_node_hash h l r ≡ merkle_node_hash h l' r'
      → ((l ≡ l') × (r ≡ r')) ⊎ Collision h (λ t. t ≡ node_text l r) (λ t. t ≡ node_text l' r')
  unfolding merkle_node_hash
  node_hash-injective l l' r r' len e =
      elim (sum-injective h (λ t. t ≡ node_text l r) (λ t. t ≡ node_text l' r') _ _ refl refl e) [
        | inl same ↦ inl (append-injective l l' r r' len (cc))
        | inr c ↦ inr c
      ]

  -- One round keeps the indices and loses nothing of the hash.
  abbrev RoundAgrees : ℕ → ℕ → Digest → Digest → Digest → Digest → Type 0
  RoundAgrees fn sn acc acc' sib sib' =
      let s = fold_node h fn sn acc sib in
      let s' = fold_node h fn sn acc' sib' in
      (s.1 ≡ s'.1)
      × (s.2 ≡ s'.2)
      × IsDigest s.0
      × IsDigest s'.0
      × (s.0 ≡ s'.0
          → (acc ≡ acc')
            ⊎ Collision h (λ t. t ≡ round_text fn sn acc sib) (λ t. t ≡ round_text fn sn acc' sib'))

  fold_node-RoundAgrees :
      (fn sn : ℕ) (acc acc' sib sib' : Digest)
      → length acc ≡ length acc'
      → length sib ≡ length sib'
      → RoundAgrees fn sn acc acc' sib sib'
  unfolding fold_node
  fold_node-RoundAgrees fn sn acc acc' sib sib' la ls =
      elim (Bool-cases (fn % 2 == 1 || fn == sn)) [
        | inl left ↦ rw left (
          refl,
          refl,
          node_hash-IsDigest h sib acc,
          node_hash-IsDigest h sib' acc',
          λ e. elim (node_hash-injective sib sib' acc acc' ls e) [
            | inl same ↦ inl same.1
            | inr c ↦ inr c
          ],
        )
        | inr right ↦ rw right (
          refl,
          refl,
          node_hash-IsDigest h acc sib,
          node_hash-IsDigest h acc' sib',
          λ e. elim (node_hash-injective acc acc' sib sib' la e) [
            | inl same ↦ inl same.0
            | inr c ↦ inr c
          ],
        )
      ]

  fold_node-IsDigest : (fn sn : ℕ) (acc sib : Digest) → IsDigest (fold_node h fn sn acc sib).0
  unfolding fold_node
  fold_node-IsDigest fn sn acc sib = elim (Bool-cases (fn % 2 == 1 || fn == sn)) [
    | inl left ↦ rw left (node_hash-IsDigest h sib acc)
    | inr right ↦ rw right (node_hash-IsDigest h acc sib)
  ]

  -- A fold that succeeds has decoded its first node.
  fold_path-uncons :
      (x : Text) (xs : List Text) (fn sn : ℕ) (acc root : Digest)
      → fold_path h fn sn acc (x ∷ xs) ≡ some root
      → (sib : Digest) × (decode_node x ≡ some sib)
        × (fold_path h
              (fold_node h fn sn acc sib).1
              (fold_node h fn sn acc sib).2
              (fold_node h fn sn acc sib).0
              xs
            ≡ some root)
  unfolding fold_path
  fold_path-uncons x xs fn sn acc root e = elim (Option-cases (decode_node x)) [
    | inl p ↦ absurd (none≢some (rw (p, fold_path) at e))
    | inr (sib, p) ↦ (sib, p, rw (p, fold_path) at e)
  ]

  -- Two paths of one length that fold to one root start from one hash.
  fold_path-injective :
      (path path' : List Text) (fn sn : ℕ) (acc acc' root : Digest)
      → IsDigest acc
      → IsDigest acc'
      → length path ≡ length path'
      → fold_path h fn sn acc path ≡ some root
      → fold_path h fn sn acc' path' ≡ some root
      → (acc ≡ acc') ⊎ Collision h (IsPathText fn sn acc path) (IsPathText fn sn acc' path')
  unfolding fold_path
  fold_path-injective [] [] fn sn acc acc' root d d' len e e' = inl (cc)
  fold_path-injective [] (y ∷ ys) fn sn acc acc' root d d' len e e' = absurd (omega arith)
  fold_path-injective (x ∷ xs) [] fn sn acc acc' root d d' len e e' = absurd (omega arith)
  fold_path-injective (x ∷ xs) (y ∷ ys) fn sn acc acc' root d d' len e e' =
      let (sib, p, rest) = fold_path-uncons x xs fn sn acc root e in
      let (sib', p', rest') = fold_path-uncons y ys fn sn acc' root e' in
      let lengths : length sib ≡ length sib' =
        decode_node-length x sib p ∙ sym (decode_node-length y sib' p') in
      let (same_fn, same_sn, ds, ds', back) =
        fold_node-RoundAgrees fn sn acc acc' sib sib' (d.0 ∙ sym d'.0) lengths in
      let s = fold_node h fn sn acc sib in
      let s' = fold_node h fn sn acc' sib' in
      let moved : fold_path h s.1 s.2 s'.0 ys ≡ some root = rw (same_fn, same_sn) rest' in
      elim (fold_path-injective xs ys s.1 s.2 s.0 s'.0 root ds ds' (omega arith) rest moved) [
        | inl same ↦ elim (back same) [
          | inl agree ↦ inl agree
          | inr c ↦ inr (widen (λ t q. (sib, p, inl q)) (λ t q. (sib', p', inl q)) c)
        ]
        | inr c ↦ inr (
            widen (λ t q. (sib, p, inr q))
              (λ t q. (
                sib',
                p',
                inr (
                    subst (λ i. IsPathText i s'.2 s'.0 ys t) same_fn
                      (subst (λ i. IsPathText s.1 i s'.0 ys t) same_sn q)),
              ))
              c)
      ]

  fold_path-IsDigest :
      (path : List Text) (fn sn : ℕ) (acc root : Digest)
      → IsDigest acc
      → fold_path h fn sn acc path ≡ some root
      → IsDigest root
  unfolding fold_path
  fold_path-IsDigest [] fn sn acc root d e = let same : acc ≡ root = cc in rw (← same) d
  fold_path-IsDigest (x ∷ xs) fn sn acc root d e =
      let (sib, p, rest) = fold_path-uncons x xs fn sn acc root e in
      let s = fold_node h fn sn acc sib in
      fold_path-IsDigest xs s.1 s.2 s.0 root (fold_node-IsDigest fn sn acc sib) rest

  accepted_fold :
      (o : Option Digest) (root : Text)
      → (elim o as (λ _. Bool) [ none ↦ false | some acc ↦ str_eq (encode acc) root ]) ≡ true
      → (acc : Digest) × (o ≡ some acc) × (encode acc ≡ root)
  accepted_fold none root v = cc
  accepted_fold (some acc) root v = (acc, refl, str_eq→eq (encode acc) root v)

  -- What an accepted proof says of its fold.
  verify_inclusion-fold :
      (entry : HarnessLedgerEntry) (path : List Text) (root : Text) (m n : ℕ)
      → verify_inclusion h entry
          (record { leaf_index = pos m; tree_size = pos n; audit_path = path })
          root
        ≡ true
      → (acc : Digest) × (m < n)
        × (length path ≡ inclusion_path_len m n)
        × (fold_path h m (n - 1) (merkle_leaf_hash h entry) path ≡ some acc)
        × (encode acc ≡ root)
  unfolding verify_inclusion
  verify_inclusion-fold entry path root m n v =
      let (range, v1) = guard_passed _ _ v in
      let (long, v2) = guard_passed _ _ v1 in
      let (acc, folded, ends) =
        accepted_fold (fold_path h m (n - 1) (merkle_leaf_hash h entry) path) root v2 in
      (acc, in_range range, (==_iff _ _).0 (not_false→true _ long), folded, ends)
    where
      in_range :
          (leb_ℤ (pos n) (pos 0) || ltb_ℤ (pos m) (pos 0) || leb_ℤ (pos n) (pos m)) ≡ false → m < n
      in_range r = ground arith

  -- A proof for an index and the size of a log that VerifyInclusion accepts for an entry, against that
  -- log's root, proves that the log holds an entry with the same leaf data at the index, or two texts
  -- collide: one hashed to verify the proof, one to verify the log's own proof for the index.
  pub verify_inclusion_sound :
      (entries : List HarnessLedgerEntry) (entry : HarnessLedgerEntry) (path : List Text) (m : ℕ)
      → verify_inclusion h entry
          (record { leaf_index = pos m; tree_size = pos (length entries); audit_path = path })
          (merkle_root h entries)
        ≡ true
      → (logged : HarnessLedgerEntry) × (get_elem? entries m ≡ some logged)
        × ((leaf_data entry.hash ≡ leaf_data logged.hash)
            ⊎ Collision h
                (IsVerifyText entry path m (length entries))
                (IsVerifyText logged (honest_proof h entries m).audit_path m (length entries)))
  unfolding merkle_root merkle_leaf_hash
  verify_inclusion_sound entries entry path m v =
      let (acc, below, long, folded, ends) =
        verify_inclusion-fold entry path (merkle_root h entries) m (length entries) v in
      let (logged, g) = get_elem?_defined entries m below in
      let (acc', _, long', folded', ends') =
        verify_inclusion-fold logged (honest_proof h entries m).audit_path (merkle_root h entries) m
          (length entries) (verify_inclusion-honest h entries m logged g) in
      let d = leaf_hash-IsDigest h entry in
      let d' = leaf_hash-IsDigest h logged in
      let dacc = fold_path-IsDigest path m (length entries - 1) _ acc d folded in
      let dacc' = fold_path-IsDigest _ m (length entries - 1) _ acc' d' folded' in
      let same : acc' ≡ acc = encode-injective acc' acc dacc'.1 dacc.1 (ends' ∙ sym ends) in
      elim (fold_path-injective path _ m (length entries - 1) _ _ acc d d' (long ∙ sym long') folded
        (folded' ∙ ap some same)) [
          | inl leaves ↦
              elim (sum-injective h (IsVerifyText entry path m (length entries))
                (IsVerifyText logged (honest_proof h entries m).audit_path m (length entries)) _ _
                (inl refl) (inl refl) leaves) [
                  | inl data_eq ↦ (logged, g, inl (cc))
                  | inr c ↦ (logged, g, inr c)
                ]
          | inr c ↦ (logged, g, inr (widen (λ t q. inr q) (λ t q. inr q) c))
        ]
