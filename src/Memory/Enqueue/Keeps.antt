-- ===== src/Memory/Enqueue/Keeps.antt =====
-- Enqueue of store/memory/memory.go adds rows behind those of the same subscriber.
use sharathfold.Prelude.{String, List, [], ◌∷◌, inl, inr, str_eq, Bool-cases, Option-cases}
use sharathfold.Store.{Delivery, Time, Context, live, done, Result, ok, err}
use sharathfold.Memory.State.{Store, signal, find}
use sharathfold.Memory.Invariant.{Inv, Past, Settle-Inv, Settle-Past}
use sharathfold.Memory.Invariant.Steps.{Drops-Settle, signal-Settle}
use sharathfold.Memory.Retention.{apply_retention}
use sharathfold.Memory.Retention.Drops.{apply_retention-Drops}
use sharathfold.Memory.Enqueue.{insert_row, enqueue_rows, retain_touched, finish_enqueue, enqueue}
use sharathfold.Memory.Enqueue.Row.{insert_row-Inv, insert_row-Past}

enqueue_rows-Inv :
    (now : Time) (ds : List Delivery) (touched : List String) (s : Store) (h : List Delivery)
    → Inv s
    → Past h s
    → let t = (enqueue_rows now ds touched s).0 in Inv t × Past h t
unfolding enqueue_rows
enqueue_rows-Inv now [] touched s h v p = (v, p)
enqueue_rows-Inv now (d ∷ ds) touched s h v p = elim (Bool-cases (str_eq d.id "")) [
  | inl k ↦ rw k (v, p)
  | inr k ↦ rw k (elim (Bool-cases (str_eq d.subscriber_id "")) [
    | inl l ↦ rw l (v, p)
    | inr l ↦ rw l (elim (Option-cases (find d.id s.by_id)) [
      | inr (x, e) ↦ rw e (v, p)
      | inl e ↦ rw e (
          enqueue_rows-Inv now ds _ (insert_row now d s) h (insert_row-Inv now d s v e)
            (insert_row-Past now d s v e h p))
    ])
  ])
]

retain_touched-Inv :
    (now : Time) (touched : List String) (s : Store) (h : List Delivery)
    → Inv s
    → Past h s
    → Inv (retain_touched now touched s) × Past h (retain_touched now touched s)
unfolding retain_touched
retain_touched-Inv now [] s h v p = (v, p)
retain_touched-Inv now (sub ∷ touched) s h v p =
    let t = apply_retention sub now s in
    let drops = Drops-Settle s t (apply_retention-Drops sub now s) in
    retain_touched-Inv now touched t h (Settle-Inv s t v drops) (Settle-Past h s t p drops)

finish_enqueue-Inv :
    (now : Time) (r : Store × Result (List String)) (h : List Delivery)
    → Inv r.0
    → Past h r.0
    → Inv (finish_enqueue now r).0 × Past h (finish_enqueue now r).0
finish_enqueue-Inv now (s, err e) h v p = (v, p)
finish_enqueue-Inv now (s, ok touched) h v p =
    let t = retain_touched now touched s in
    let (w, q) = retain_touched-Inv now touched s h v p in
    (Settle-Inv t (signal t) w (signal-Settle t), Settle-Past h t (signal t) q (signal-Settle t))

-- Enqueue keeps the invariant, and puts nothing before what was claimed, also where it fails.
pub enqueue-Inv :
    (ctx : Context) (now : Time) (ds : List Delivery) (s : Store) (h : List Delivery)
    → Inv s
    → Past h s
    → let t = (enqueue ctx now ds s).0 in Inv t × Past h t
unfolding enqueue
enqueue-Inv done now ds s h v p = (v, p)
enqueue-Inv live now ds s h v p =
    let (w, q) = enqueue_rows-Inv now ds [] s h v p in
    finish_enqueue-Inv now (enqueue_rows now ds [] s) h w q
