-- ===== src/Worker/Batch.antt =====
-- claimBatch of worker.go, a step of a worker: it holds claimGate, so no Resize comes between.
use sharathfold.Prelude.{
  int64_bound, ℕ, ◌<◌, String, List, Option, none, some, ◌≡◌, ap, ◌∙◌, arith, if◌then◌else◌, ltb,
  leb, ℤ, pos, negsuc,
}
use sharathfold.Store.{Delivery, Time, Context, Result}
use sharathfold.StoreApi.{StoreApi}
use sharathfold.Partition.{claim_owner_id, partitions_for}
use sharathfold.Dispatcher.{Dispatcher}
use sharathfold.Tokens.{parse_owner_index}
use sharathfold.Tokens.Index.{parse_owner_index-claim_owner_id}
use sharathfold.Worker.{claim_batch_limit}

-- The worker is not active, or Claim answers.
pub data Batch (S : Type 0) : Type 0 where
  inactive : Batch S
  claimed : Dispatcher S → Result (List Delivery) → Batch S

module _ {S : Type 0} (api : StoreApi S) (ctx : Context) (now : Time) (owner : String)
    (d : Dispatcher S) where
  -- The Claim with the worker's partitions under the dispatcher's generation.
  abbrev claim_own : Batch S
  claim_own =
      let (s, r) =
        api.claim ctx now owner d.generation (partitions_for d.own owner) claim_batch_limit
          d.store in
      claimed (record d { store = s }) r

  -- !ok || idx < 0 || idx >= d.workers
  abbrev if_worker : Option ℤ → Batch S
  if_worker none = inactive
  if_worker (some (negsuc n)) = inactive
  if_worker (some (pos i)) = if leb d.workers i then inactive else claim_own

  unfoldable pub claim_batch : Batch S
  claim_batch = if_worker (parse_owner_index owner)

-- The worker with a number below the count of workers, as Start and Resize spawn it, makes one Claim on the store,
-- of at most 64 rows, in its own name, under the dispatcher's generation, and for the partitions that the
-- map of the process gives to its token. One whose number is not below the count, as after
-- a Resize to fewer workers, claims nothing and ends. The number fits an int.
pub claim_batch-claim_owner_id :
    {S : Type 0} (api : StoreApi S) (ctx : Context) (now : Time) (d : Dispatcher S) (w : ℕ)
    → w < int64_bound
    → let owner = claim_owner_id d.node_id d.incarnation_id w in
      let (s, r) =
        api.claim ctx now owner d.generation (partitions_for d.own owner) (pos 64) d.store in
      claim_batch api ctx now owner d
      ≡ (if ltb w d.workers then claimed (record d { store = s }) r else inactive)
unfolding claim_batch
claim_batch-claim_owner_id api ctx now d w small =
    ap (if_worker api ctx now (claim_owner_id d.node_id d.incarnation_id w) d)
      (parse_owner_index-claim_owner_id d.node_id d.incarnation_id w small)
    ∙ swap w d.workers _ _
  where
    swap :
        {A : Type 0} (w n : ℕ) (x y : A) → (if leb n w then x else y) ≡ (if ltb w n then y else x)
    swap w n x y = ground arith
