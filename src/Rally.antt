-- ===== src/Rally.antt =====
-- Rally mode: pkg/contract/rally.go and internal/broker/rally.go.
pub mod Types
pub mod Session
pub mod Channels
pub mod Store
pub mod Baton
pub mod Validity
pub mod States
pub mod Lifecycle
pub mod System
pub mod Open
pub mod Uses
pub mod Joining
pub mod Passing
pub mod Progress
pub mod Turns
pub mod RoundRobin
pub mod Ids
pub mod Patterns
pub mod Delivery
pub mod Final
pub mod Staying
pub mod Absorbing
pub mod Sound
pub mod Ending
