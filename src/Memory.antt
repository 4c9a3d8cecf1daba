-- ===== src/Memory.antt =====
-- store/memory/memory.go: the map-and-mutex store. Each method runs under the mutex, so it is one
-- step from a state to the next.
pub mod State
pub mod Retention
pub mod Enqueue
pub mod Marks
pub mod Claim
pub mod Suspend
pub mod Queries
pub mod Rows
pub mod Invariant
pub mod History
pub mod Api
