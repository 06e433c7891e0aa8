-- ===== src/Cycle.antt =====
-- The cycle: why it halts, what forbids to resume it, when it is stuck, and its lifetime budget.
pub mod Halt
pub mod Reviver
pub mod Sealing
pub mod Budget
pub mod Stuck
pub mod Alternation
pub mod PingPong
pub mod Outcome
pub mod State
pub mod Pipeline
pub mod Runs
pub mod Stores
pub mod Driver
pub mod Steps
pub mod Violations
pub mod Greens
pub mod Reviving
pub mod Turn
