-- ===== src/Postgres/Owners.antt =====
-- How store/postgres/ownership.go changes the table of owners.
pub mod Steps
pub mod Still
pub mod Methods
pub mod Advance
pub mod Invariant
pub mod Takeover
pub mod Fence
pub mod Handoff
