-- ===== src/Tests.antt =====
-- Runs of the modelled code at concrete inputs: the uses of the theorems.
mod Stores
mod Tables
mod Signatures
mod Rest
mod Dispatchers
mod Queues
mod Workers
