-- ===== src/Store.antt =====
-- store/store.go: the data that every store shares, and the errors that the operations return.
-- A byte slice is a list of numbers: a nil slice and an empty one are not told apart, and the
-- defensive copies of Payload and Secret are the identity on such values.
-- A time is a count of nanoseconds since Go's zero time, so `IsZero` is `== 0`.
use sharathfold.Prelude.{ℕ, suc, ◌+◌, ◌-◌, String, List, Bool, ltb, ◌==◌, ℤ, pos, negsuc}

pub data Status : Type 0 where
  pending in_flight delivered dead_lettered retained : Status

abbrev pub Time : Type 0
Time = ℕ

-- t.IsZero()
abbrev pub is_zero : Time → Bool
is_zero t = t == 0

-- t.After(u)
abbrev pub after : Time → Time → Bool
after t u = ltb u t

-- t.Before(u)
abbrev pub before : Time → Time → Bool
before t u = ltb t u

-- t.Add(-d). A result before the zero time is the zero time, which no row is before.
abbrev pub add_neg : Time → ℤ → Time
add_neg t (pos d) = t - d
add_neg t (negsuc d) = t + suc d

-- t.Add(d)
abbrev pub add : Time → ℤ → Time
add t (pos d) = t + d
add t (negsuc d) = t - suc d

-- The partition is what the hash returns, so it is never negative.
pub record Delivery : Type 0 where
  pub id : String
  pub event_id : String
  pub subscriber_id : String
  pub url : String
  pub partition : ℕ
  pub sequence : ℕ
  pub payload : List ℕ
  pub event_type : String
  pub secret : List ℕ
  pub status : Status
  pub attempt : ℕ
  pub next_attempt : Time
  pub last_error : String
  pub owner : String
  pub generation : ℕ
  pub claimed_at : Time
  pub created_at : Time

pub record GapInfo : Type 0 where
  pub occurred : Bool
  pub dropped : ℕ
  pub marker : String

-- Whether the caller's context is done: `ctx.Err() != nil`.
pub data Context : Type 0 where
  live done : Context

-- One constructor for each message of the stores.
pub data Error : Type 0 where
  context_error : Error
  missing_id : Error
  missing_subscriber_id : String → Error
  duplicate_id : String → Error
  claim_requires_owner : Error
  claim_requires_generation : Error
  mark_requires_generation : Error
  unknown_delivery : String → Error
  not_in_flight : String → Error
  stale_claim : String → Error
  resume_requires_subscriber_id : Error
  database_failed : Error
  insert_conflict : String → Error
  claim_requires_distributed_owner : String → Error
  no_partition_owners : Error
  deliveries_lack_owners : ℕ → Error

-- What an operation returns beside its state.
pub data Result {ℓ} (A : Type ℓ) : Type ℓ where
  ok : A → Result A
  err : Error → Result A

abbrev pub is_pending : Status → Bool
is_pending pending = Bool.true
is_pending _ = Bool.false

abbrev pub is_in_flight : Status → Bool
is_in_flight in_flight = Bool.true
is_in_flight _ = Bool.false

abbrev pub is_retained : Status → Bool
is_retained retained = Bool.true
is_retained _ = Bool.false

-- The statuses that the head-of-line gate waits for.
abbrev pub is_unfinished : Status → Bool
is_unfinished pending = Bool.true
is_unfinished in_flight = Bool.true
is_unfinished _ = Bool.false

-- if ctx.Err() != nil { return err }
abbrev pub with_context {ℓ} : {A : Type ℓ} → Context → A → A → A
with_context live on_error body = body
with_context done on_error body = on_error
