-- ===== src/Lib.antt =====
-- sharathfold: webhook deliveries in the order of each subscriber's events.
--
-- An event becomes one delivery per subscriber (fold.go). A store keeps the deliveries
-- (store/store.go; the memory store of store/memory/memory.go) and numbers them per subscriber. Workers
-- (worker.go) claim rows of the partitions that they own (partition.go, assign.go,
-- internal/hash/hash.go), post them (deliver.go, transport.go), and mark what came of it, with a wait
-- between attempts (internal/backoff/backoff.go). A subscriber whose delivery fails for good is
-- suspended, and its rows are held back until it resumes.
--
-- Files and code:
--   Prelude: shared names, Boolean tests, signed integers, maps, texts, sorting, bytes, decimals.
--   Store, StoreApi: store/store.go. The errors are one constructor for each message.
--   Memory: store/memory/memory.go. State has the store as a record and the operations of its maps;
--     Enqueue, Claim, Marks, Suspend, Retention and Queries have a function for each method, on the
--     state that the mutex guards. Rows, Invariant, and the children of the operations have the
--     lemmas. History runs lists of calls, which are the interleavings, since a method is one step.
--     Api fills the interface of StoreApi.
--   Runs: runs of calls on any store that has a view as rows, and the order in which they hand rows out.
--   Postgres: store/postgres/postgres.go, store/postgres/ownership.go and store/ownership.go, on the
--     tables of store/postgres/schema.sql. State has the tables and the fields of the process; Enqueue,
--     Claim, Marks, Suspend, Retention, Queries and Ownership have a function for each method and helper.
--     Keeps has the lemmas on the rows, which State.view shows as a memory store; Refines compares the
--     marks of the two stores; Owners has the changes to the table of owners as a step relation; History
--     runs lists of calls.
--   Backoff: internal/backoff/backoff.go, on int64 with its wrap-around.
--   Hash: internal/hash/hash.go. Assign: assign.go. Partition: partition.go. Tokens: the parsing of claim
--     tokens, in partition.go and store/postgres/ownership.go.
--   Deliver: transport.go and deliver.go; Verify has the check of a signature. net/http, HMAC and the
--     clock are parameters.
--   Worker: deliverOne and claimBatch of worker.go, over any store of the interface.
--   Dispatcher: New, Start, Resize and Close of fold.go; Closing has the drain loop, on a list of its
--     rounds, each with the store that it meets. Dispatching: Dispatch and Resume, and the data of
--     types.go. Their children are about who claims what.
--   Fifo: bench/fifo/queue.go. Naive: bench/naive/queue.go. Two simpler queues, for comparison.
--   Tests: runs at concrete inputs.
--
-- A map of rows is a list whose order is the order in which Go ranges over it. Times are natural numbers
-- of nanoseconds since Go's zero time, and a method reads the clock at most once, so the time is an
-- argument. Counters of rows are not bounded. Loops are over a list, or over a count that the source fixes
-- before them; the loop of Close is over the list of its rounds. Only the printing of decimals uses fuel,
-- one more than the number, which has no more digits than that; Prelude.Decimal reads the number back.
-- BackdateClaimForTest is modelled in Memory.Queries and Postgres.Marks, and is not one of the calls of a run.
--
-- A method of the Postgres store is one step, whether it is one transaction or, as Claim and BeginHandoff
-- are, several statements: calls run one after the other. At READ COMMITTED the database promises less. In
-- particular an Enqueue that reads a suspension, while a Resume commits, leaves a retained row of a
-- subscriber that is active. Whether a statement fails, which rows are locked, the collation, and the
-- order of the rows that an UPDATE returns are arguments (Db). A statement that fails has done nothing, but
-- the answer to the UPDATE of Claim, or to the Commit of Enqueue, may be lost when the database has applied
-- it; of the other methods the answers are not lost. One clock with nanoseconds is read. A NULL text is "",
-- and a NULL time the zero time; a BIGINT is not bounded.
--
-- Not modelled: Open, Migrate and TruncateForTest of the Postgres store, methods that interleave
-- within, the loop and the timers of a worker, the dispatchers of the two benchmark queues, and the
-- bridge to Erlang.
pub mod Prelude
pub mod Store
pub mod Memory
pub mod Runs
pub mod Tokens
pub mod Postgres
pub mod Backoff
pub mod Hash
pub mod Assign
pub mod Partition
pub mod Deliver
pub mod StoreApi
pub mod Worker
pub mod Dispatcher
pub mod Dispatching
pub mod Fifo
pub mod Naive
mod Tests
