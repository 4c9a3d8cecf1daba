-- ===== src/Memory/Suspend/Keeps.antt =====
-- ExhaustAndSuspend and Resume of store/memory/memory.go keep the order of deliveries.
use sharathfold.Prelude.{
  ℕ, String, false, List, Memᴰ, ◌≡◌, refl, ◌∙◌, inl, inr, if◌then◌else◌, str_eq, Bool-cases,
  not_true, str_eq-false→ne,
}
use sharathfold.Store.{Delivery, Status, Time, Context, live, done, Result, ok, err, is_in_flight}
use sharathfold.Memory.State.{Store, signal, update}
use sharathfold.Memory.Rows.{mem-find}
use sharathfold.Memory.Invariant.{
  Inv, Past, Same, Image-all, in_flight_only, Settle-Inv, Settle-Past,
}
use sharathfold.Memory.Invariant.Steps.{Drops-Settle, signal-Settle, update-Image}
use sharathfold.Memory.Retention.Drops.{apply_retention-Drops}
use sharathfold.Memory.Marks.{require_owner, close_row}
use sharathfold.Memory.Marks.Keeps.{
  Owned, require_owner-Owned, update-Settle-Owned, close_row-Same, close_row-Settles,
}
use sharathfold.Memory.Suspend.{suspend_rows, finish_exhaust, exhaust_and_suspend}
use sharathfold.Memory.Suspend.Suspending.{suspending, suspending-Inv, suspending-Past}

closed_idle :
    (s : Store) (id owner : String) (generation : ℕ) (err_msg : String) (d : Delivery)
    → Inv s
    → Owned id owner generation s d
    → (e : Delivery) → Memᴰ e (update id (close_row Status.dead_lettered err_msg) s.by_id)
    → e.subscriber_id ≡ d.subscriber_id
    → is_in_flight e.status ≡ false
closed_idle s id owner generation err_msg d v o e m =
    Image-all (λ e. e.subscriber_id ≡ d.subscriber_id → is_in_flight e.status ≡ false)
      (update-Image id close s.by_id same) others e m
  where
    close : Delivery → Delivery
    close = close_row Status.dead_lettered err_msg

    same : (x : Delivery) → Same x (close x)
    same = close_row-Same Status.dead_lettered err_msg

    others :
        (x : Delivery)
        → Memᴰ x s.by_id
        → (if str_eq x.id id then close x else x).subscriber_id ≡ d.subscriber_id
        → is_in_flight (if str_eq x.id id then close x else x).status ≡ false
    others x n = elim (Bool-cases (str_eq x.id id)) [
      | inl k ↦ rw k (λ _. refl)
      | inr k ↦ rw k λ h. not_true λ fl.
          let (md, p) = mem-find id s.by_id o.there in
          str_eq-false→ne x.id id k (in_flight_only x d v n md h fl o.in_flight ∙ p)
    ]

suspend_rows-Inv :
    (s : Store) (id owner : String) (generation : ℕ) (now : Time) (err_msg : String) (d : Delivery)
    → Inv s
    → Owned id owner generation s d
    → (h : List Delivery) → Past h s
    → Inv (suspend_rows id now err_msg d s) × Past h (suspend_rows id now err_msg d s)
unfolding suspend_rows
suspend_rows-Inv s id owner generation now err_msg d v o h p =
    let closing =
      update-Settle-Owned s id owner generation d (close_row Status.dead_lettered err_msg) v o
        (close_row-Same Status.dead_lettered err_msg)
        (λ e _. close_row-Settles Status.dead_lettered err_msg e refl) in
    let closed : Store = record s {
      by_id = update id (close_row Status.dead_lettered err_msg) s.by_id;
    } in
    let sub = d.subscriber_id in
    let v' = Settle-Inv s closed v closing in
    let p' = Settle-Past h s closed p closing in
    let idle = closed_idle s id owner generation err_msg d v o in
    let drops =
      Drops-Settle (suspending sub closed) _
        (apply_retention-Drops sub now (suspending sub closed)) in
    (
      Settle-Inv (suspending sub closed) _ (suspending-Inv sub closed v' idle) drops,
      Settle-Past h (suspending sub closed) _ (suspending-Past sub closed v' idle h p') drops,
    )

-- ExhaustAndSuspend keeps the invariant, and puts nothing before what was claimed.
pub exhaust_and_suspend-Inv :
    (ctx : Context) (now : Time) (id owner : String) (generation : ℕ) (err_msg : String) (s : Store)
    (h : List Delivery)
    → Inv s
    → Past h s
    → let t = (exhaust_and_suspend ctx now id owner generation err_msg s).0 in Inv t × Past h t
unfolding exhaust_and_suspend
exhaust_and_suspend-Inv done now id owner generation err_msg s h v p = (v, p)
exhaust_and_suspend-Inv live now id owner generation err_msg s h v p =
    go (require_owner id owner generation s) refl
  where
    go :
        (r : Result Delivery)
        → require_owner id owner generation s ≡ r
        → let t = (finish_exhaust id now err_msg s r).0 in Inv t × Past h t
    go (err x) e = (v, p)
    go (ok d) e =
        let (w, q) =
          suspend_rows-Inv s id owner generation now err_msg d v
            (require_owner-Owned id owner generation s e) h p in
        let t = suspend_rows id now err_msg d s in
        (
          Settle-Inv t (signal t) w (signal-Settle t),
          Settle-Past h t (signal t) q (signal-Settle t),
        )
