-- ===== src/Memory/Api.antt =====
-- The memory store implements the Store interface of store/store.go.
use sharathfold.StoreApi.{StoreApi}
use sharathfold.Memory.State.{Store}
use sharathfold.Memory.Enqueue.{enqueue}
use sharathfold.Memory.Claim.{claim}
use sharathfold.Memory.Marks.{mark_delivered, mark_dead_letter, mark_failed, recover_stale}
use sharathfold.Memory.Suspend.{exhaust_and_suspend, resume}
use sharathfold.Memory.Queries.{is_suspended, pending_or_in_flight}

abbrev pub memory_api : StoreApi Store
memory_api = record {
  enqueue = enqueue;
  claim = claim;
  mark_delivered = mark_delivered;
  mark_failed = mark_failed;
  mark_dead_letter = mark_dead_letter;
  exhaust_and_suspend = exhaust_and_suspend;
  resume = resume;
  is_suspended = is_suspended;
  recover_stale = recover_stale;
  pending_or_in_flight = pending_or_in_flight;
}
