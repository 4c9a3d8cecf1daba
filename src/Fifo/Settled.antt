-- ===== src/Fifo/Settled.antt =====
-- The marks of bench/fifo/queue.go settle a delivery once.
use sharathfold.Prelude.{
  ℕ, String, true, false, some, ◌≡◌, ◌≢◌, refl, arith, ◌==◌, str_eq, eq_iff, if◌then◌else◌, inl,
  inr, Bool-cases,
}
use sharathfold.Store.{
  Delivery, Status, Time, live, ok, err, Error, is_in_flight, not_in_flight,
  mark_requires_generation,
}
use sharathfold.Memory.State.{find}
use sharathfold.Memory.Rows.{find-update}
use sharathfold.Memory.Marks.{close_row}
use sharathfold.Fifo.{
  Queue, require_owner, mark_terminal, mark_delivered, mark_dead_letter, mark_failed,
}

-- Who holds the claim of a row.
pub record Holds (id owner : String) (generation : ℕ) (d : Delivery) (q : Queue) : Type 0 where
  pub there : find id q.by_id ≡ some d
  pub is_taken : is_in_flight d.status ≡ true
  pub owned : d.owner ≡ owner
  pub stamped : d.generation ≡ generation

require_owner-Holds :
    (id owner : String) (generation : ℕ) (d : Delivery) (q : Queue)
    → generation ≢ 0
    → Holds id owner generation d q
    → require_owner id owner generation q ≡ ok d
unfolding require_owner
require_owner-Holds id owner generation d q nz h =
    let a : (generation == 0) ≡ false = ground arith in
    let b : str_eq d.owner owner ≡ true = (eq_iff d.owner owner).1 h.owned in
    let c : (d.generation == generation) ≡ true = ground (arith, h.stamped) in
    rw (a, h.there, h.is_taken, b, c) refl

-- Why a row that is not in flight cannot be marked.
abbrev pub refusal : String → ℕ → Error
refusal id stamp = if stamp == 0 then mark_requires_generation else not_in_flight id

-- Nobody can mark the row: under a live context each of the three marks, whatever the owner and the
-- generation, is refused, and leaves the queue as it is.
pub record Unmarked (id : String) (q : Queue) : Type 0 where
  pub not_delivered :
      (owner : String) (stamp : ℕ)
      → mark_delivered live id owner stamp q ≡ (q, err (refusal id stamp))
  pub not_dead_lettered :
      (owner : String) (stamp : ℕ) (err_msg : String)
      → mark_dead_letter live id owner stamp err_msg q ≡ (q, err (refusal id stamp))
  pub not_failed :
      (owner : String) (stamp attempt : ℕ) (next : Time) (err_msg : String)
      → mark_failed live id owner stamp attempt next err_msg q ≡ (q, err (refusal id stamp))

require_owner-idle :
    (id : String) (q : Queue) (d : Delivery)
    → find id q.by_id ≡ some d
    → is_in_flight d.status ≡ false
    → (owner : String) (stamp : ℕ) → require_owner id owner stamp q ≡ err (refusal id stamp)
unfolding require_owner
require_owner-idle id q d there idle owner stamp = elim (Bool-cases (stamp == 0)) [
  | inl k ↦ rw k refl
  | inr k ↦ rw (k, there, idle) refl
]

find-Unmarked :
    (id : String) (q : Queue) (d : Delivery)
    → find id q.by_id ≡ some d
    → is_in_flight d.status ≡ false
    → Unmarked id q
unfolding mark_delivered mark_dead_letter mark_terminal mark_failed
find-Unmarked id q d there idle =
    let refused = require_owner-idle id q d there idle in
    record {
      not_delivered = λ owner stamp. rw (refused owner stamp) refl;
      not_dead_lettered = λ owner stamp err_msg. rw (refused owner stamp) refl;
      not_failed = λ owner stamp attempt next err_msg. rw (refused owner stamp) refl;
    }

-- A live worker that holds the claim of a row settles it with any status but in_flight: the row gets the
-- status and the message, and loses its owner, its generation and the time of the claim. From then on each
-- of the three marks of it, under a live context and whatever the owner and the generation, is refused and
-- changes nothing.
pub mark_terminal_once :
    (id owner : String) (generation : ℕ) (status : Status) (err_msg : String) (d : Delivery)
    (q : Queue)
    → generation ≢ 0
    → Holds id owner generation d q
    → is_in_flight status ≡ false
    → let (t, r) = mark_terminal live id owner generation status err_msg q in
      (r ≡ ok tt)
      × (find id t.by_id
          ≡ some (record d {
            status = status;
            last_error = err_msg;
            owner = "";
            generation = 0;
            claimed_at = 0;
          }))
      × Unmarked id t
unfolding mark_terminal
mark_terminal_once id owner generation status err_msg d q nz h closed =
    let mine = require_owner-Holds id owner generation d q nz h in
    let written = find-update id (close_row status err_msg) q.by_id (λ e. refl) h.there in
    rw mine (refl, written, find-Unmarked id _ (close_row status err_msg d) written closed)
