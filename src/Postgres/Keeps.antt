-- ===== src/Postgres/Keeps.antt =====
-- What the methods of store/postgres/postgres.go and store/postgres/ownership.go keep of the rows,
-- counters and suspensions.
pub mod Rows
pub mod Marks
pub mod Retention
pub mod Enqueue
pub mod Suspend
pub mod Claim
pub mod Ownership
