-- ===== src/Memory/Enqueue/Partial.antt =====
-- What Enqueue of store/memory/memory.go leaves behind when it fails.
use sharathfold.Prelude.{
  ℕ, ◌+◌, String, List, [], ◌∷◌, ◌++◌, map, true, ◌≡◌, ◌∙◌, refl, ap, subst, inl, inr, str_eq,
  eq_iff, if◌then◌else◌, Bool-cases,
}
use mathlib.Core.Path.{fun_ext}
use sharathfold.Store.{
  Delivery, Time, live, Result, ok, err, Error, missing_id, missing_subscriber_id, duplicate_id,
}
use sharathfold.Memory.State.{Store, find, seq_of}
use sharathfold.Memory.Rows.{seq_of-insert}
use sharathfold.Memory.Enqueue.{
  is_known, insert_row, stored_row, enqueue_rows, finish_enqueue, enqueue,
}

-- Why a delivery is refused by the store.
pub data Refused (d : Delivery) (s : Store) : Error → Type 0 where
  no_id : d.id ≡ "" → Refused d s missing_id
  no_subscriber : d.subscriber_id ≡ "" → Refused d s (missing_subscriber_id d.id)
  known : is_known (find d.id s.by_id) ≡ true → Refused d s (duplicate_id d.id)

-- The counters after one more row of the subscriber.
abbrev pub bump : String → (String → ℕ) → String → ℕ
bump sub counts other = if str_eq sub other then counts sub + 1 else counts other

-- The counters after the deliveries.
pub counts_after : List Delivery → (String → ℕ) → String → ℕ
counts_after [] counts = counts
counts_after (d ∷ ds) counts = counts_after ds (bump d.subscriber_id counts)

-- The ids and the sequence numbers of the rows: each delivery takes the next number of its subscriber.
pub numbered : List Delivery → (String → ℕ) → List (String × ℕ) → List (String × ℕ)
numbered [] counts rows = rows
numbered (d ∷ ds) counts rows =
    numbered ds (bump d.subscriber_id counts) ((d.id, counts d.subscriber_id + 1) ∷ rows)

abbrev pub number_of : Delivery → String × ℕ
number_of d = (d.id, d.sequence)

-- The store holds the deliveries before the one that was refused, and nothing else is new.
pub record Partly (ds : List Delivery) (s t : Store) (e : Error) : Type 0 where
  pub kept : List Delivery
  pub bad : Delivery
  pub rest : List Delivery
  pub split : ds ≡ kept ++ bad ∷ rest
  pub refused : Refused bad t e
  pub rows : map number_of t.by_id ≡ numbered kept (seq_of s.seq) (map number_of s.by_id)
  pub counters : seq_of t.seq ≡ counts_after kept (seq_of s.seq)
  pub same_signal : t.notify ≡ s.notify

err-inj : {A : Type 0} (e f : Error) → ◌≡◌ {A = Result A} (err e) (err f) → e ≡ f
err-inj e f h = cc

seq_of-insert_row :
    (now : Time) (d : Delivery) (s : Store)
    → seq_of (insert_row now d s).seq ≡ bump d.subscriber_id (seq_of s.seq)
unfolding insert_row
seq_of-insert_row now d s = fun_ext (λ sub. seq_of-insert d.subscriber_id sub _ s.seq)

at_once :
    (d : Delivery) (ds : List Delivery) (s : Store) (e : Error)
    → Refused d s e
    → Partly (d ∷ ds) s s e
unfolding numbered counts_after
at_once d ds s e r = record {
  kept = [];
  bad = d;
  rest = ds;
  split = refl;
  refused = r;
  rows = refl;
  counters = refl;
  same_signal = refl;
}

Partly-cons :
    (now : Time) (d : Delivery) (ds : List Delivery) (s t : Store) (e : Error)
    → Partly ds (insert_row now d s) t e
    → Partly (d ∷ ds) s t e
unfolding numbered counts_after insert_row stored_row
Partly-cons now d ds s t e p = record {
  kept = d ∷ p.kept;
  bad = p.bad;
  rest = p.rest;
  split = ap (λ l. d ∷ l) p.split;
  refused = p.refused;
  rows =
      p.rows
      ∙ ap
          (λ c.
            numbered p.kept c ((d.id, seq_of s.seq d.subscriber_id + 1) ∷ map number_of s.by_id))
          (seq_of-insert_row now d s);
  counters = p.counters ∙ ap (counts_after p.kept) (seq_of-insert_row now d s);
  same_signal = p.same_signal;
}

enqueue_rows-Partly :
    (now : Time) (ds : List Delivery) (touched : List String) (s : Store) (e : Error)
    → (enqueue_rows now ds touched s).1 ≡ err e
    → Partly ds s (enqueue_rows now ds touched s).0 e
unfolding enqueue_rows
enqueue_rows-Partly now [] touched s e h = cc
enqueue_rows-Partly now (d ∷ ds) touched s e h = elim (Bool-cases (str_eq d.id "")) [
  | inl k ↦
      let same : missing_id ≡ e = err-inj _ _ (rw k at h) in
      rw k (
        subst (λ f. Partly (d ∷ ds) s s f) same
          (at_once d ds s missing_id (no_id ((eq_iff d.id "").0 k))))
  | inr k ↦ elim (Bool-cases (str_eq d.subscriber_id "")) [
    | inl l ↦
        let same : missing_subscriber_id d.id ≡ e = err-inj _ _ (rw (k, l) at h) in
        rw (k, l)
          (subst (λ f. Partly (d ∷ ds) s s f) same
            (at_once d ds s _ (no_subscriber ((eq_iff d.subscriber_id "").0 l))))
    | inr l ↦ elim (Bool-cases (is_known (find d.id s.by_id))) [
      | inl j ↦
          let same : duplicate_id d.id ≡ e = err-inj _ _ (rw (k, l, j) at h) in
          rw (k, l, j) (subst (λ f. Partly (d ∷ ds) s s f) same (at_once d ds s _ (known j)))
      | inr j ↦
          rw (k, l, j)
            (Partly-cons now d ds s _ e
              (enqueue_rows-Partly now ds _ (insert_row now d s) e (rw (k, l, j) at h)))
    ]
  ]
]

finish_enqueue-err :
    (now : Time) (r : Store × Result (List String)) (e : Error)
    → (finish_enqueue now r).1 ≡ err e
    → (r.1 ≡ err e) × ((finish_enqueue now r).0 ≡ r.0)
finish_enqueue-err now (s, ok touched) e h = cc
finish_enqueue-err now (s, err f) e h = let same : f ≡ e = err-inj f e h in (ap err same, refl)

-- An Enqueue under a live context that fails stops at one of the deliveries, whose id or subscriber is
-- empty, or whose id is that of a row by then: the error says which. The deliveries before it stay
-- inserted: their rows are added with the next sequence numbers of their subscribers, the counters count
-- them, no other row is added or renumbered, and no signal is sent.
pub enqueue-Partly :
    (now : Time) (ds : List Delivery) (s : Store) (e : Error)
    → (enqueue live now ds s).1 ≡ err e
    → Partly ds s (enqueue live now ds s).0 e
unfolding enqueue
enqueue-Partly now ds s e h =
    let (bad, same) = finish_enqueue-err now (enqueue_rows now ds [] s) e h in
    rw same (enqueue_rows-Partly now ds [] s e bad)
