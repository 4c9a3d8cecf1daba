-- ===== src/Memory/Marks/Once.antt =====
-- A mark of store/memory/memory.go settles a delivery once, and a retry can be claimed again.
use sharathfold.Prelude.{
  ℕ, String, false, some, ◌≡◌, refl, ◌==◌, if◌then◌else◌, inl, inr, Bool-cases,
}
use sharathfold.Store.{
  Delivery, Status, Time, live, ok, err, Error, is_in_flight, not_in_flight,
  mark_requires_generation,
}
use sharathfold.Memory.State.{Store, find}
use sharathfold.Memory.Rows.{find-update}
use sharathfold.Memory.Marks.{
  require_owner, close_row, mark_terminal, mark_delivered, mark_dead_letter, retry_row, mark_failed,
}
use sharathfold.Memory.Suspend.{exhaust_and_suspend}
use sharathfold.Memory.Marks.Keeps.{Owned, Owned-require_owner}

-- Why a row that is not in flight cannot be marked.
abbrev pub refusal : String → ℕ → Error
refusal id stamp = if stamp == 0 then mark_requires_generation else not_in_flight id

-- Nobody can mark the row: under a live context each of the four marks, whatever the owner and the
-- generation, is refused, and leaves the store as it is.
pub record Unmarked (id : String) (s : Store) : Type 0 where
  pub not_delivered :
      (owner : String) (stamp : ℕ)
      → mark_delivered live id owner stamp s ≡ (s, err (refusal id stamp))
  pub not_dead_lettered :
      (owner : String) (stamp : ℕ) (err_msg : String)
      → mark_dead_letter live id owner stamp err_msg s ≡ (s, err (refusal id stamp))
  pub not_failed :
      (owner : String) (stamp attempt : ℕ) (next : Time) (err_msg : String)
      → mark_failed live id owner stamp attempt next err_msg s ≡ (s, err (refusal id stamp))
  pub not_suspended :
      (owner : String) (stamp : ℕ) (now : Time) (err_msg : String)
      → exhaust_and_suspend live now id owner stamp err_msg s ≡ (s, err (refusal id stamp))

require_owner-idle :
    (id : String) (s : Store) (d : Delivery)
    → find id s.by_id ≡ some d
    → is_in_flight d.status ≡ false
    → (owner : String) (stamp : ℕ) → require_owner id owner stamp s ≡ err (refusal id stamp)
unfolding require_owner
require_owner-idle id s d there idle owner stamp = elim (Bool-cases (stamp == 0)) [
  | inl k ↦ rw k refl
  | inr k ↦ rw (k, there, idle) refl
]

find-Unmarked :
    (id : String) (s : Store) (d : Delivery)
    → find id s.by_id ≡ some d
    → is_in_flight d.status ≡ false
    → Unmarked id s
unfolding mark_delivered mark_dead_letter mark_terminal mark_failed exhaust_and_suspend
find-Unmarked id s d there idle =
    let refused = require_owner-idle id s d there idle in
    record {
      not_delivered = λ owner stamp. rw (refused owner stamp) refl;
      not_dead_lettered = λ owner stamp err_msg. rw (refused owner stamp) refl;
      not_failed = λ owner stamp attempt next err_msg. rw (refused owner stamp) refl;
      not_suspended = λ owner stamp now err_msg. rw (refused owner stamp) refl;
    }

-- Whoever holds the claim of a row, under a live context, settles it with any status but in_flight:
-- the row gets the status and the message, and loses its owner, its generation and the time of the
-- claim. After that each of the four marks of it, under a live context and whatever the owner and the
-- generation, is refused and changes nothing.
pub mark_terminal-Unmarked :
    (id owner : String) (generation : ℕ) (status : Status) (err_msg : String) (s : Store)
    (d : Delivery)
    → Owned id owner generation s d
    → is_in_flight status ≡ false
    → let (t, r) = mark_terminal live id owner generation status err_msg s in
      (r ≡ ok tt)
      × (find id t.by_id
          ≡ some (record d {
            status = status;
            last_error = err_msg;
            owner = "";
            generation = 0;
            claimed_at = 0;
          }))
      × Unmarked id t
unfolding mark_terminal
mark_terminal-Unmarked id owner generation status err_msg s d o closed =
    let mine = Owned-require_owner id owner generation s d o in
    let written = find-update id (close_row status err_msg) s.by_id (λ e. refl) o.there in
    rw mine (refl, written, find-Unmarked id _ (close_row status err_msg d) written closed)

-- Whoever holds the claim of a row, under a live context, returns it: the row is pending with the
-- attempt, the time of the next attempt and the message that were given, and loses its owner, its
-- generation and the time of the claim. After that each of the four marks of it is refused and changes
-- nothing.
pub mark_failed-Unmarked :
    (id owner : String) (generation attempt : ℕ) (next : Time) (err_msg : String) (s : Store)
    (d : Delivery)
    → Owned id owner generation s d
    → let (t, r) = mark_failed live id owner generation attempt next err_msg s in
      (r ≡ ok tt)
      × (find id t.by_id
          ≡ some (record d {
            status = Status.pending;
            attempt = attempt;
            next_attempt = next;
            last_error = err_msg;
            owner = "";
            generation = 0;
            claimed_at = 0;
          }))
      × Unmarked id t
unfolding mark_failed
mark_failed-Unmarked id owner generation attempt next err_msg s d o =
    let mine = Owned-require_owner id owner generation s d o in
    let written = find-update id (retry_row attempt next err_msg) s.by_id (λ e. refl) o.there in
    rw mine (refl, written, find-Unmarked id _ (retry_row attempt next err_msg d) written refl)
