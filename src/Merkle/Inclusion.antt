-- ===== src/Merkle/Inclusion.antt =====
-- Inclusion proofs: InclusionProof, inclusionPath, inclusionPathLen and VerifyInclusion.
use rallish.Prelude.{
  ℕ, zero, suc, ◌+◌, ◌-◌, ◌/◌, ◌%◌, ◌≡◌, List, [], ◌∷◌, ◌++◌, map, Option, none, some, Bool, true,
  false, not, ◌&&◌, ◌||◌, ltb, leb, ◌==◌, arith, if◌then◌else◌, length, take, drop, Text, str_eq,
}
use rallish.Prelude.Int.{ℤ, pos, pos_part, leb_ℤ, ltb_ℤ}
use rallish.Hex.{encode, decode}
use rallish.Digest.{Sha256, digest_size}
use rallish.Contract.Ledger.{HarnessLedgerEntry}
use rallish.Merkle.Tree.{
  Digest, largest_power_of_two_less_than, merkle_leaf_hash, merkle_node_hash, merkle_tree_hash,
  compute_leaf_hashes,
}

pub data MerkleError : Type 0 where
  empty_log index_out_of_range consistency_range : MerkleError

pub data Result {ℓ} (A : Type ℓ) : Type ℓ where
  ok : A → Result A
  err : MerkleError → Result A

pub record MerkleInclusionProof : Type 0 where
  pub leaf_index : ℤ
  pub tree_size : ℤ
  pub audit_path : List Text

unfoldable pub inclusion_path_len_fuel : ℕ → ℕ → ℕ → ℕ
inclusion_path_len_fuel zero m n = 0
inclusion_path_len_fuel (suc fuel) m n =
    let k : ℕ = largest_power_of_two_less_than n in
    let left : ℕ = inclusion_path_len_fuel fuel m k + 1 in
    let right : ℕ = inclusion_path_len_fuel fuel (m - k) (n - k) + 1 in
    if leb n 1 then 0 else if ltb m k then left else right

-- A tree of n leaves is split at most n - 1 times.
unfoldable pub inclusion_path_len : ℕ → ℕ → ℕ
unfolding inclusion_path_len_fuel largest_power_of_two_less_than
inclusion_path_len m n = inclusion_path_len_fuel n m n

-- `for fn%2 == 0 && fn != 0 { fn >>= 1; sn >>= 1 }`; fn is fuel enough.
unfoldable pub skip_even : ℕ → ℕ → ℕ → ℕ × ℕ
skip_even zero fn sn = (fn, sn)
skip_even (suc fuel) fn sn = elim (fn % 2 == 0 && not (fn == 0)) [
  | true ↦ skip_even fuel (fn / 2) (sn / 2)
  | false ↦ (fn, sn)
]

abbrev keep_whole : Option (List ℕ) → Option Digest
keep_whole none = none
keep_whole (some bytes) = if length bytes == digest_size then some bytes else none

-- A proof node must be the hex text of a whole digest.
unfoldable pub decode_node : Text → Option Digest
unfolding decode
decode_node hex = keep_whole (decode hex)

keep_whole-length :
    (o : Option (List ℕ)) (d : Digest) → keep_whole o ≡ some d → length d ≡ digest_size
keep_whole-length none d e = cc
keep_whole-length (some bytes) d e = ground arith

pub decode_node-length :
    (hex : Text) (d : Digest) → decode_node hex ≡ some d → length d ≡ digest_size
unfolding decode_node
decode_node-length hex d e = keep_whole-length (decode hex) d e

module _ (h : Sha256) where
  -- The slice of no leaves never occurs: InclusionProof refuses an empty log.
  unfoldable pub inclusion_path_fuel : ℕ → ℕ → List Digest → List Digest
  inclusion_path_fuel fuel m [] = []
  inclusion_path_fuel fuel m (d ∷ []) = []
  inclusion_path_fuel zero m (d ∷ e ∷ ds) = []
  inclusion_path_fuel (suc fuel) m (d ∷ e ∷ ds) =
      let leaves : List Digest = d ∷ e ∷ ds in
      let k : ℕ = largest_power_of_two_less_than (length leaves) in
      elim (ltb m k) [
        | true ↦
            inclusion_path_fuel fuel m (take k leaves) ++ merkle_tree_hash h (drop k leaves) ∷ []
        | false ↦
            inclusion_path_fuel fuel (m - k) (drop k leaves)
            ++ merkle_tree_hash h (take k leaves) ∷ []
      ]

  unfoldable pub inclusion_path : ℕ → List Digest → List Digest
  unfolding inclusion_path_fuel merkle_tree_hash largest_power_of_two_less_than
  inclusion_path m leaves = inclusion_path_fuel (length leaves) m leaves

  unfoldable pub inclusion_proof : List HarnessLedgerEntry → ℤ → Result MerkleInclusionProof
  unfolding inclusion_path compute_leaf_hashes encode
  inclusion_proof entries i =
      let n : ℕ = length entries in
      if n == 0
      then err empty_log
      else if ltb_ℤ i (pos 0) || leb_ℤ (pos n) i
      then err index_out_of_range
      else ok (record {
        leaf_index = i;
        tree_size = pos n;
        audit_path = map encode (inclusion_path (pos_part i) (compute_leaf_hashes h entries));
      })

  -- One round of the fold: the new hash and the two indices a level up.
  unfoldable pub fold_node : ℕ → ℕ → Digest → Digest → Digest × ℕ × ℕ
  unfolding skip_even merkle_node_hash
  fold_node fn sn acc sib =
      if fn % 2 == 1 || fn == sn
      then (let (fn', sn') = skip_even fn fn sn in (merkle_node_hash h sib acc, fn' / 2, sn' / 2))
      else (merkle_node_hash h acc sib, fn / 2, sn / 2)

  unfoldable pub fold_path : ℕ → ℕ → Digest → List Text → Option Digest
  unfolding fold_node decode_node
  fold_path fn sn acc [] = some acc
  fold_path fn sn acc (hex ∷ path) = elim (decode_node hex) [
    | none ↦ none
    | some sib ↦ let (acc', fn', sn') = fold_node fn sn acc sib in fold_path fn' sn' acc' path
  ]

  unfoldable pub verify_inclusion : HarnessLedgerEntry → MerkleInclusionProof → Text → Bool
  unfolding inclusion_path_len fold_path merkle_leaf_hash encode str_eq
  verify_inclusion leaf_entry proof root =
      let m : ℕ = pos_part proof.leaf_index in
      let n : ℕ = pos_part proof.tree_size in
      if leb_ℤ proof.tree_size (pos 0)
        || ltb_ℤ proof.leaf_index (pos 0)
        || leb_ℤ proof.tree_size proof.leaf_index
      then false
      else if not (length proof.audit_path == inclusion_path_len m n)
      then false
      else elim (fold_path m (n - 1) (merkle_leaf_hash h leaf_entry) proof.audit_path) [
        | none ↦ false
        | some acc ↦ str_eq (encode acc) root
      ]
