-- ===== src/Tests.antt =====
-- Concrete ledgers and sessions, and the theorems applied to them.
mod Codec
mod EntryCodec
mod RecordCodec
mod Files
mod StateCodec
mod Stores
mod Orchestrations
mod SessionFiles
mod Sessions
mod Runners
mod Fixtures
mod Ledgers
mod Rallies
mod Cycles
