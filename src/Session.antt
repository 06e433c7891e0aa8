-- ===== src/Session.antt =====
-- Sessions of a preset: internal/session, internal/router and internal/exit.
pub mod Records
pub mod Router
pub mod Exit
pub mod Store
pub mod Replays
pub mod Routes
pub mod Dryness
pub mod Progress
pub mod Conditions
pub mod Decisions
pub mod Endings
