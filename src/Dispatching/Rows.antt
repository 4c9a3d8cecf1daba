-- ===== src/Dispatching/Rows.antt =====
-- The rows that Dispatch of fold.go enqueues, and who claims them.
use mathlib.Core.List.Memᴰ
use native.Mathlib.Nat.{mod-lt}
use sharathfold.Prelude.{
  ℕ, ◌+◌, ◌%◌, ◌<◌, String, List, [], ◌∷◌, map, Memᴰ, ◌≡◌, refl, sym, ap, subst, arith, inl, inr,
  pos, Bool, true, false, not, none, some, Option, if◌then◌else◌, str_eq, eq_iff, not_true, ◌≢◌,
  length, ◌==◌, ◌∙◌,
}
use sharathfold.Store.{Delivery, Time, live, Result, ok, err}
use sharathfold.StoreApi.{StoreApi}
use sharathfold.Hash.{partition, or_default_partitions, partition-lt}
use sharathfold.Partition.{partitions_for, claim_owner_id}
use sharathfold.Partition.Exclusive.{Shared}
use sharathfold.Dispatcher.{Dispatcher, Fallible, returns, fails, store_failed}
use sharathfold.Dispatching.{
  Event, Subscriber, rows_for, or_null, encode_once, check_subscribers, finish_dispatch, checked,
  enqueue_encoded, dispatch,
}
use sharathfold.Dispatcher.Resizing.{Manned}

-- What Dispatch does with the answer of the store.
abbrev pub answer_of : Result (Unit {0}) → Fallible (Unit {0})
answer_of (ok u) = returns tt
answer_of (err e) = fails (store_failed e)

finish_dispatch-answer :
    {S : Type 0} (d : Dispatcher S) (x : S × Result (Unit {0}))
    → finish_dispatch d x ≡ (record d { store = x.0 }, answer_of x.1)
finish_dispatch-answer d (s, ok tt) = refl
finish_dispatch-answer d (s, err e) = refl

-- The four tests of Dispatch pass.
tests_pass :
    {A : Type 0} (closed started unnamed nobody : Bool) (u v w x y : A)
    → closed ≡ false
    → started ≡ true
    → unnamed ≡ false
    → nobody ≡ false
    → (if closed
        then u
        else if not started
        then v
        else if unnamed
        then w
        else if nobody
        then x
        else y)
      ≡ y
tests_pass closed started unnamed nobody u v w x y a b c e = rw (a, b, c, e) refl

-- A subscriber with an id and a URL.
abbrev pub Addressed : Subscriber → Type 0
Addressed s = (s.id ≢ "") × (s.url ≢ "")

check_subscribers-Addressed :
    (subs : List Subscriber)
    → ((s : Subscriber) → Memᴰ s subs → Addressed s)
    → check_subscribers subs ≡ none
unfolding check_subscribers
check_subscribers-Addressed [] h = refl
check_subscribers-Addressed (s ∷ subs) h =
    let (named, placed) = h s (Memᴰ.head refl) in
    let a : str_eq s.id "" ≡ false = not_true (λ e. named ((eq_iff s.id "").0 e)) in
    let b : str_eq s.url "" ≡ false = not_true (λ e. placed ((eq_iff s.url "").0 e)) in
    rw (a, b) (check_subscribers-Addressed subs (λ t m. h t (Memᴰ.tail m)))

-- What a row takes from its subscriber.
abbrev pub address_of_row : Delivery → String × String × List ℕ
address_of_row r = (r.subscriber_id, r.url, r.secret)

abbrev pub address_of : Subscriber → String × String × List ℕ
address_of s = (s.id, s.url, s.secret)

module _ {S : Type 0} (random : ℕ → String) (d : Dispatcher S) (ev : Event) (payload : List ℕ) where
  -- One row per subscriber, in their order.
  rows_for-subscribers :
      (i : ℕ) (subs : List Subscriber)
      → map address_of_row (rows_for random d ev payload i subs) ≡ map address_of subs
  unfolding rows_for
  rows_for-subscribers i [] = refl
  rows_for-subscribers i (s ∷ subs) = ap (λ l. address_of s ∷ l) (rows_for-subscribers (i + 1) subs)

  -- What each row carries.
  abbrev Carries : Delivery → Type 0
  Carries r =
      (r.event_id ≡ ev.id)
      × (r.payload ≡ payload)
      × (r.partition ≡ partition r.subscriber_id (pos d.own.partitions))

  rows_for-Carries :
      (i : ℕ) (subs : List Subscriber) (r : Delivery)
      → Memᴰ r (rows_for random d ev payload i subs)
      → Carries r
  unfolding rows_for
  rows_for-Carries i [] r m = absurd (Memᴰ.not-nil m)
  rows_for-Carries i (s ∷ subs) r m = elim (Memᴰ.cases_cons m) [
    | inl e ↦ subst (λ x. Carries x) (sym e) (refl, refl, refl)
    | inr n ↦ rows_for-Carries (i + 1) subs r n
  ]

module _ {S : Type 0} (d : Dispatcher S) where
  -- The partition of a row is claimed by one of the owners, for which a worker was spawned.
  abbrev pub Worked : Delivery → Type 0
  Worked r =
      (w : ℕ) × (w < d.workers)
      × Memᴰ r.partition (partitions_for d.own (claim_owner_id d.node_id d.incarnation_id w))
      × Memᴰ (claim_owner_id d.node_id d.incarnation_id w) d.spawned

  Worked-row :
      Manned d
      → 0 < d.workers
      → Shared d.own.partitions d.workers d.node_id d.incarnation_id d.own
      → (r : Delivery) → r.partition ≡ partition r.subscriber_id (pos d.own.partitions)
      → Worked r
  Worked-row h some_worker shared r c =
      let inside = partition-lt r.subscriber_id (pos d.own.partitions) in
      let same : or_default_partitions (pos d.own.partitions) ≡ d.own.partitions =
        ground (arith, h.some_partitions) in
      let w = r.partition % d.workers in
      let below = mod-lt r.partition some_worker in
      (
        w,
        below,
        (shared w r.partition below).1 (omega (arith, c, inside, same), refl),
        h.manned w below,
      )

module _ {S : Type 0} (api : StoreApi S) (marshal : String → String → List ℕ → Option (List ℕ))
    (random : ℕ → String) (now : Time) (ev : Event) (subs : List Subscriber) (d : Dispatcher S)
    (payload : List ℕ) where
  -- Dispatch up to its Enqueue.
  dispatch-rows :
      d.closed ≡ false
      → d.started ≡ true
      → ev.id ≢ ""
      → length subs ≢ 0
      → ((s : Subscriber) → Memᴰ s subs → Addressed s)
      → marshal ev.id ev.event_type (or_null ev.payload) ≡ some payload
      → let (t, r) = api.enqueue live now (rows_for random d ev payload 0 subs) d.store in
        dispatch api marshal random live now ev subs d ≡ (record d { store = t }, answer_of r)
  unfolding dispatch encode_once
  dispatch-rows opened runs named some_subs addressed encoded =
      let a : str_eq ev.id "" ≡ false = not_true (λ e. named ((eq_iff ev.id "").0 e)) in
      let b : (length subs == 0) ≡ false = ground arith in
      tests_pass d.closed d.started (str_eq ev.id "") (length subs == 0) _ _ _ _ _ opened runs a b
      ∙ ap
          (λ c. checked d c (
            enqueue_encoded api random live now d ev subs
              (marshal ev.id ev.event_type (or_null ev.payload))))
          (check_subscribers-Addressed subs addressed)
      ∙ ap (enqueue_encoded api random live now d ev subs) encoded
      ∙ finish_dispatch-answer d
          (api.enqueue live now (rows_for random d ev payload 0 subs) d.store)

  -- A Dispatch under a live context, of an event with an id that can be encoded, to at least one
  -- subscriber, each with an id and a URL, by a started dispatcher over the whole hash space with at
  -- least one worker and the partitions shared out, makes one Enqueue and returns what it returns. The
  -- rows of that Enqueue are one per subscriber, in their order, with their id, URL and secret; each
  -- carries the event's id and the one encoded payload, and its partition is claimed by an owner for
  -- which a worker was spawned.
  pub dispatch_enqueues :
      Manned d
      → 0 < d.workers
      → Shared d.own.partitions d.workers d.node_id d.incarnation_id d.own
      → ev.id ≢ ""
      → length subs ≢ 0
      → ((s : Subscriber) → Memᴰ s subs → Addressed s)
      → marshal ev.id ev.event_type (or_null ev.payload) ≡ some payload
      → (rows : List Delivery) × (let (t, r) = api.enqueue live now rows d.store in
          dispatch api marshal random live now ev subs d ≡ (record d { store = t }, answer_of r))
        × (map address_of_row rows ≡ map address_of subs)
        × ((r : Delivery) → Memᴰ r rows → (r.event_id ≡ ev.id) × (r.payload ≡ payload) × Worked d r)
  dispatch_enqueues h some_worker shared named some_subs addressed encoded = (
    rows_for random d ev payload 0 subs,
    dispatch-rows h.is_open h.is_started named some_subs addressed encoded,
    rows_for-subscribers random d ev payload 0 subs,
    λ r m.
        let (a, b, c) = rows_for-Carries random d ev payload 0 subs r m in
        (a, b, Worked-row d h some_worker shared r c),
  )
