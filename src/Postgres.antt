-- ===== src/Postgres.antt =====
-- store/postgres: the tables of store/postgres/schema.sql, and the methods of postgres.go and
-- ownership.go as the statements that they send. Each statement, and each transaction, is one step: the
-- database runs them one after the other. A time has nanoseconds, and one clock is read.
pub mod State
pub mod Retention
pub mod Enqueue
pub mod Claim
pub mod Marks
pub mod Suspend
pub mod Queries
pub mod Ownership
pub mod Keeps
pub mod History
pub mod Owners
pub mod Refines
