-- ===== src/Merkle.antt =====
-- pkg/contract/merkle.go: the Merkle log over the ledger's entries.
pub mod Tree
pub mod Split
pub mod Rfc6962
pub mod Inclusion
pub mod Consistency
pub mod Paths
pub mod Powers
pub mod Fold
pub mod Subtrees
pub mod Digests
pub mod Completeness
pub mod Soundness
