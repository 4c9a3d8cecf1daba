-- ===== src/Fifo/Counts.antt =====
-- Enqueue of bench/fifo/queue.go, and the count that Close waits on.
use sharathfold.Prelude.{
  false, Option, none, some, ◌+◌, List, [], ◌∷◌, ◌≡◌, refl, ap, ◌∙◌, arith, length,
}
use sharathfold.Store.{Delivery, Time, Context, live, done, Result, ok, err}
use sharathfold.Memory.Queries.{count_unfinished}
use sharathfold.Memory.State.{find}
use sharathfold.Memory.Enqueue.{is_known}
use sharathfold.Fifo.{
  Queue, put_over, stored_row, insert_row, enqueue_rows, finish_enqueue, enqueue,
  pending_or_in_flight,
}

put_over-new :
    (d : Delivery) (ds : List Delivery) (r : Option Delivery)
    → is_known r ≡ false
    → put_over d ds r ≡ d ∷ ds
unfolding put_over
put_over-new d ds none h = refl
put_over-new d ds (some e) h = cc

-- A key that is new is added.
insert_row-counted :
    (now : Time) (d : Delivery) (q : Queue)
    → is_known (find d.id q.by_id) ≡ false
    → pending_or_in_flight (insert_row now d q) ≡ pending_or_in_flight q + 1
unfolding insert_row pending_or_in_flight
insert_row-counted now d q new =
    ap count_unfinished (put_over-new (stored_row q now d) q.by_id (find d.id q.by_id) new)

enqueue_rows-counted :
    (now : Time) (ds : List Delivery) (q : Queue)
    → (enqueue_rows now ds q).1 ≡ ok tt
    → pending_or_in_flight (enqueue_rows now ds q).0 ≡ pending_or_in_flight q + length ds
unfolding enqueue_rows
enqueue_rows-counted now [] q h = omega arith
enqueue_rows-counted now (d ∷ ds) q h =
    ground (arith, insert_row-counted now d q, enqueue_rows-counted now ds (insert_row now d q))

finish_enqueue-ok :
    (r : Queue × Result (Unit {0}))
    → (finish_enqueue r).1 ≡ ok tt
    → ((finish_enqueue r).0.by_id ≡ r.0.by_id) × (r.1 ≡ ok tt)
finish_enqueue-ok (q, ok u) h = (refl, refl)
finish_enqueue-ok (q, err e) h = cc

-- An Enqueue that succeeds adds each of its deliveries to the rows that Close waits on.
pub enqueue-counted :
    (ctx : Context) (now : Time) (ds : List Delivery) (q : Queue)
    → (enqueue ctx now ds q).1 ≡ ok tt
    → pending_or_in_flight (enqueue ctx now ds q).0 ≡ pending_or_in_flight q + length ds
unfolding enqueue pending_or_in_flight
enqueue-counted done now ds q h = cc
enqueue-counted live now ds q h =
    let (same, fine) = finish_enqueue-ok (enqueue_rows now ds q) h in
    ap count_unfinished same ∙ enqueue_rows-counted now ds q fine
