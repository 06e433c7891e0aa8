-- ===== src/Tests/Ledgers.antt =====
-- The theorems on the hash chain and the Merkle tree, at a ledger of three entries.
use rallish.Prelude.{
  ℕ, ◌≡◌, refl, ◌⊎◌, true, false, List, [], ◌∷◌, map, some, length, get_elem?, str_eq,
}
use rallish.Prelude.Int.{pos}
use rallish.Digest.{Collision}
use rallish.Contract.Ledger.{HarnessLedgerEntry, new_harness_ledger_entry}
use rallish.Hex.{encode}
use rallish.Chain.{ledger_genesis_hash, no_broken_link, verify_chain, chain_hash}
use rallish.Chain.Links.{IsChain, BreaksAt, verify_chain_exact}
use rallish.Chain.Tamper.{content, IsHashed, verify_chain_tamper_evident}
use rallish.Merkle.Tree.{compute_leaf_hashes, merkle_root, leaf_data}
use rallish.Merkle.Inclusion.{
  ok, MerkleInclusionProof, inclusion_proof, inclusion_path, inclusion_path_len, verify_inclusion,
}
use rallish.Merkle.Paths.{length-inclusion_path}
use rallish.Merkle.Completeness.{honest_proof, verify_inclusion-inclusion_proof}
use rallish.Merkle.Rfc6962.{IsTreeHash, inputs, merkle_root-IsTreeHash}
use rallish.Merkle.Soundness.{IsVerifyText, verify_inclusion_sound}
use rallish.Tests.Fixtures.{checksum_digest, summary_only, first_entry, second_entry, three_entries}

three_accepted : verify_chain checksum_digest summary_only three_entries ≡ (no_broken_link, true)
unfolding verify_chain chain_hash str_eq encode new_harness_ledger_entry
three_accepted = refl

-- The entries in another order break the chain at once.
swapped_rejected :
    verify_chain checksum_digest summary_only (second_entry ∷ first_entry ∷ []) ≡ (pos 0, false)
unfolding verify_chain chain_hash str_eq encode new_harness_ledger_entry
swapped_rejected = refl

verify_chain_exact_example :
    (IsChain checksum_digest summary_only ledger_genesis_hash three_entries
      × (verify_chain checksum_digest summary_only three_entries ≡ (no_broken_link, true)))
    ⊎ ((j : ℕ) × BreaksAt checksum_digest summary_only ledger_genesis_hash j three_entries
        × (verify_chain checksum_digest summary_only three_entries ≡ (pos j, false)))
verify_chain_exact_example = verify_chain_exact checksum_digest summary_only three_entries

verify_chain_tamper_evident_example :
    (map (content checksum_digest summary_only) three_entries
      ≡ map (content checksum_digest summary_only) three_entries)
    ⊎ Collision checksum_digest
        (IsHashed checksum_digest summary_only ledger_genesis_hash three_entries)
        (IsHashed checksum_digest summary_only ledger_genesis_hash three_entries)
verify_chain_tamper_evident_example =
    verify_chain_tamper_evident checksum_digest summary_only three_entries three_entries
      three_accepted three_accepted refl refl

abbrev second_proof : MerkleInclusionProof
second_proof = record {
  leaf_index = pos 1;
  tree_size = pos 3;
  audit_path =
      map encode
        (inclusion_path checksum_digest 1 (compute_leaf_hashes checksum_digest three_entries));
}

second_proof_made : inclusion_proof checksum_digest three_entries (pos 1) ≡ ok second_proof
unfolding inclusion_proof
second_proof_made = refl

verify_inclusion-inclusion_proof_example :
    verify_inclusion checksum_digest second_entry second_proof
      (merkle_root checksum_digest three_entries)
    ≡ true
verify_inclusion-inclusion_proof_example =
    verify_inclusion-inclusion_proof checksum_digest three_entries 1 second_entry second_proof refl
      second_proof_made

verify_inclusion_sound_example :
    (logged : HarnessLedgerEntry) × (get_elem? three_entries 1 ≡ some logged)
    × ((leaf_data second_entry.hash ≡ leaf_data logged.hash)
        ⊎ Collision checksum_digest
            (IsVerifyText checksum_digest second_entry second_proof.audit_path 1 3)
            (IsVerifyText checksum_digest logged
              (honest_proof checksum_digest three_entries 1).audit_path
              1
              3))
verify_inclusion_sound_example =
    verify_inclusion_sound checksum_digest three_entries second_entry second_proof.audit_path 1
      verify_inclusion-inclusion_proof_example

abbrev three_leaves : List (List ℕ)
three_leaves = (1 ∷ []) ∷ (2 ∷ []) ∷ (3 ∷ []) ∷ []

merkle_root-IsTreeHash_example :
    (root : List ℕ) × IsTreeHash checksum_digest (inputs checksum_digest three_entries) root
    × (merkle_root checksum_digest three_entries ≡ encode root)
merkle_root-IsTreeHash_example = merkle_root-IsTreeHash checksum_digest three_entries

length-inclusion_path_example :
    length (inclusion_path checksum_digest 2 three_leaves) ≡ inclusion_path_len 2 3
length-inclusion_path_example = length-inclusion_path checksum_digest 2 three_leaves
