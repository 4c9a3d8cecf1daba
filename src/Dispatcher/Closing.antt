-- ===== src/Dispatcher/Closing.antt =====
-- Close and waitDrained of fold.go. While Close waits, the workers run, so each round of its loop meets a
-- store of its own, and Close leaves the store that is there when it returns.
use sharathfold.Prelude.{
  ℕ, Bool, true, false, List, [], ◌∷◌, Option, none, some, ◌≡◌, refl, ap, ◌∙◌, sym, if◌then◌else◌,
  ◌==◌, arith, inl, inr, Bool-cases,
}
use sharathfold.Store.{Context, live, done, Result, Error}
use sharathfold.Store as stores
use sharathfold.StoreApi.{StoreApi}
use sharathfold.Dispatcher.{
  Dispatcher, Fallible, returns, fails, context_done, store_failed, drain_count_not_supported,
}

-- A round of the loop: the context and the store when the rows are counted, and what the select chose,
-- `done` for ctx.Done().
pub record Poll (S : Type 0) : Type 0 where
  pub ctx : Context
  pub store : S
  pub woken : Context

abbrev pub on_select {ℓ} : {A : Type ℓ} → Context → Option (Fallible A) → Option (Fallible A)
on_select live rest = rest
on_select done rest = some (fails context_done)

abbrev pub on_count {ℓ} :
    {A : Type ℓ} → Context → A → Result ℕ → Option (Fallible A) → Option (Fallible A)
on_count woken a (stores.err e) rest = some (fails (store_failed e))
on_count woken a (stores.ok n) rest = if n == 0 then some (returns a) else on_select woken rest

-- The loop, on the rounds that it makes. It still waits after the last one, if the result is none.
unfoldable pub drain_loop : {S : Type 0} → StoreApi S → List (Poll S) → Option (Fallible (Unit {0}))
drain_loop api [] = none
drain_loop api (p ∷ polls) =
    on_count p.woken tt (api.pending_or_in_flight p.ctx p.store) (drain_loop api polls)

-- The loop, if the store is a store.PendingCounter.
unfoldable pub wait_drained :
    {S : Type 0} → StoreApi S → Bool → List (Poll S) → Option (Fallible (Unit {0}))
unfolding drain_loop
wait_drained api counts polls =
    let waits = drain_loop api polls in
    if counts then waits else some (fails drain_count_not_supported)

-- The workers are cancelled, and have ended.
abbrev pub stopped : {S : Type 0} → Dispatcher S → Dispatcher S
stopped d = record d { spawned = [] }

-- The last select: the workers' end, or ctx.Done().
abbrev pub join_workers :
    {S : Type 0} → Context → Dispatcher S → Dispatcher S × Option (Fallible (Unit {0}))
join_workers live d = (stopped d, some (returns tt))
join_workers done d = (d, some (fails context_done))

abbrev pub finish_close :
    {S : Type 0}
    → Context
    → Dispatcher S
    → Option (Fallible (Unit {0}))
    → Dispatcher S × Option (Fallible (Unit {0}))
finish_close joined d none = (d, none)
finish_close joined d (some (fails e)) = (stopped d, some (fails e))
finish_close joined d (some (returns u)) = join_workers joined d

-- `counts` says whether the store counts its pending rows, `joined` which case of the last select was
-- ready, and `left` is the store when Close returns from its wait.
unfoldable pub close :
    {S : Type 0}
    → StoreApi S
    → Bool
    → List (Poll S)
    → Context
    → S
    → Dispatcher S
    → Dispatcher S × Option (Fallible (Unit {0}))
unfolding wait_drained
close api counts polls joined left d =
    let d' = record d { closed = true } in
    if d.closed
    then (d, some (returns tt))
    else if d.started
    then finish_close joined (record d' { store = left }) (wait_drained api counts polls)
    else (d', some (returns tt))

-- The round finds rows, and waits for the next one.
pub record Waits {S : Type 0} (api : StoreApi S) (p : Poll S) : Type 0 where
  pub count : ℕ
  pub counted : api.pending_or_in_flight p.ctx p.store ≡ stores.ok count
  pub some_left : (count == 0) ≡ false
  pub woken : p.woken ≡ live

-- One of the rounds finds no row, and each before it found rows and was woken.
pub data Drains {S : Type 0} (api : StoreApi S) : List (Poll S) → Type 0 where
  drained :
      (p : Poll S) (polls : List (Poll S))
      → api.pending_or_in_flight p.ctx p.store ≡ stores.ok 0
      → Drains api (p ∷ polls)
  waits :
      (p : Poll S) (polls : List (Poll S)) → Waits api p → Drains api polls → Drains api (p ∷ polls)

drain_loop-Drains :
    {S : Type 0} (api : StoreApi S) (polls : List (Poll S))
    → Drains api polls
    → drain_loop api polls ≡ some (returns tt)
unfolding drain_loop
drain_loop-Drains api _ (drained p polls h) = rw h refl
drain_loop-Drains api _ (waits p polls w rest) =
    rw (w.counted, w.some_left, w.woken) (drain_loop-Drains api polls rest)

-- What the count and the select of a round came to, if the loop ends without an error.
round_inv :
    {S : Type 0} (api : StoreApi S) (p : Poll S) (polls : List (Poll S)) (woken : Context)
    (r : Result ℕ) (rest : Option (Fallible (Unit {0})))
    → p.woken ≡ woken
    → api.pending_or_in_flight p.ctx p.store ≡ r
    → (rest ≡ some (returns tt) → Drains api polls)
    → on_count woken tt r rest ≡ some (returns tt)
    → Drains api (p ∷ polls)
round_inv api p polls woken (stores.err e) rest a b ih h = cc
round_inv api p polls live (stores.ok n) rest a b ih h = elim (Bool-cases (n == 0)) [
  | inl k ↦ let zero : n ≡ 0 = ground arith in drained p polls (b ∙ ap stores.ok zero)
  | inr k ↦
      waits p polls (record { count = n; counted = b; some_left = k; woken = a }) (ih (rw k at h))
]
round_inv api p polls done (stores.ok n) rest a b ih h = elim (Bool-cases (n == 0)) [
  | inl k ↦ let zero : n ≡ 0 = ground arith in drained p polls (b ∙ ap stores.ok zero)
  | inr k ↦
      let bad : ◌≡◌ {A = Option (Fallible (Unit {0}))} (some (fails context_done))
          (some (returns tt)) =
        rw k at h in
      cc
]

Drains-drain_loop :
    {S : Type 0} (api : StoreApi S) (polls : List (Poll S))
    → drain_loop api polls ≡ some (returns tt)
    → Drains api polls
unfolding drain_loop
Drains-drain_loop api [] h = cc
Drains-drain_loop api (p ∷ polls) h =
    round_inv api p polls p.woken (api.pending_or_in_flight p.ctx p.store) (drain_loop api polls)
      refl refl (Drains-drain_loop api polls) h

close_running :
    {S : Type 0} (api : StoreApi S) (counts : Bool) (polls : List (Poll S)) (joined : Context)
    (left : S) (d : Dispatcher S)
    → d.closed ≡ false
    → d.started ≡ true
    → close api counts polls joined left d
      ≡ finish_close joined
          (record d { closed = true; store = left })
          (if counts then drain_loop api polls else some (fails drain_count_not_supported))
unfolding close
close_running api counts polls joined left d unclosed runs =
    pick d.closed d.started _ _ _ unclosed runs
  where
    pick :
        {A : Type 0} (a b : Bool) (x y z : A)
        → a ≡ false
        → b ≡ true
        → (if a then x else if b then y else z) ≡ y
    pick a b x y z h k = rw (h, k) refl

finish_close-returns :
    {S : Type 0} (joined : Context) (d : Dispatcher S) (r : Option (Fallible (Unit {0})))
    → (finish_close joined d r).1 ≡ some (returns tt)
    → r ≡ some (returns tt)
finish_close-returns joined d none h = cc
finish_close-returns joined d (some (fails e)) h = cc
finish_close-returns joined d (some (returns tt)) h = refl

-- The Close of a dispatcher that runs, over a store that counts its rows, ends without an error only if a
-- round of its loop found nothing pending or in flight, and each round before it found rows and was woken
-- before the context was done. Where that is so, and the workers end before the context does, it does end
-- without an error: the dispatcher is closed then, has no worker, and keeps all else but the store. Over a
-- store that does not count its rows Close fails with that error, and the workers have ended.
pub close_drained :
    {S : Type 0} (api : StoreApi S) (polls : List (Poll S)) (left : S) (d : Dispatcher S)
    → d.closed ≡ false
    → d.started ≡ true
    → ((joined : Context)
        → (close api true polls joined left d).1 ≡ some (returns tt)
        → Drains api polls)
      × (Drains api polls
          → close api true polls live left d
            ≡ (record d { closed = true; spawned = []; store = left }, some (returns tt)))
      × ((joined : Context)
          → close api false polls joined left d ≡ (
            record d { closed = true; spawned = []; store = left },
            some (fails drain_count_not_supported),
          ))
close_drained api polls left d unclosed runs = (
  λ joined h.
      let run = close_running api true polls joined left d unclosed runs in
      Drains-drain_loop api polls (
        finish_close-returns joined (record d { closed = true; store = left })
          (drain_loop api polls) (ap (λ x. x.1) (sym run) ∙ h)),
  λ h.
      close_running api true polls live left d unclosed runs
      ∙ ap (finish_close live (record d { closed = true; store = left }))
          (drain_loop-Drains api polls h),
  λ joined. close_running api false polls joined left d unclosed runs,
)
