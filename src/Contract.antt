-- ===== src/Contract.antt =====
-- pkg/contract: the types that the other packages share.
pub mod CycleState
pub mod Json
pub mod Ledger
pub mod Phases
pub mod Pins
pub mod Requests
pub mod Turns
