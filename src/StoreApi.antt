-- ===== src/StoreApi.antt =====
-- The Store interface of store/store.go: the methods that the dispatcher and its workers call. A
-- method reads the clock at most once, so the time is an argument.
use sharathfold.Prelude.{ℕ, String, Bool, List, ℤ}
use sharathfold.Store.{Delivery, GapInfo, Time, Context, Result}

pub record StoreApi (S : Type 0) : Type 0 where
  pub enqueue : Context → Time → List Delivery → S → S × Result (Unit {0})
  pub claim : Context → Time → String → ℕ → List ℕ → ℤ → S → S × Result (List Delivery)
  pub mark_delivered : Context → String → String → ℕ → S → S × Result (Unit {0})
  pub mark_failed : Context → String → String → ℕ → ℕ → Time → String → S → S × Result (Unit {0})
  pub mark_dead_letter : Context → String → String → ℕ → String → S → S × Result (Unit {0})
  pub exhaust_and_suspend :
      Context → Time → String → String → ℕ → String → S → S × Result (Unit {0})
  pub resume : Context → Time → String → S → S × Result GapInfo
  pub is_suspended : Context → String → S → Result Bool
  pub recover_stale : Context → Time → ℤ → S → S × Result ℕ
  -- store.PendingCounter
  pub pending_or_in_flight : Context → S → Result ℕ
