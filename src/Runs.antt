-- ===== src/Runs.antt =====
-- Runs of calls on a store, and the order in which they hand rows out. A store is seen as the rows,
-- counters and suspensions of Memory.State.
use mathlib.Core.List.Memᴰ
use mathlib.Core.List.{append-nil, append_assoc}
use sharathfold.Prelude.{◌≤◌, List, [], ◌∷◌, ◌++◌, Memᴰ, ◌≡◌, refl, sym, ◌∙◌, subst, inl, inr}
use sharathfold.Store.{Delivery}
use sharathfold.Memory.State.{Store}
use sharathfold.Memory.Invariant.{Inv, Past}
use sharathfold.Memory.Invariant.Takes.{Claims}

module _ {S C : Type 0} (step : C → S → S × List Delivery) where
  -- The store after the calls, and all rows that were handed out, in that order.
  unfoldable pub run_calls : List C → S → S × List Delivery
  run_calls [] s = (s, [])
  run_calls (c ∷ cs) s =
      let (t, out) = step c s in let (u, rest) = run_calls cs t in (u, out ++ rest)

-- In the list, the rows of a subscriber stand in the order of their sequence numbers.
abbrev pub InOrder : List Delivery → Type 0
InOrder [] = Unit
InOrder (d ∷ ds) =
    ((e : Delivery) → Memᴰ e ds → d.subscriber_id ≡ e.subscriber_id → d.sequence ≤ e.sequence)
    × InOrder ds

-- No row of `es` is earlier than a row of `ds` of its subscriber.
abbrev NotEarlier : List Delivery → List Delivery → Type 0
NotEarlier ds es =
    (d e : Delivery)
    → Memᴰ d ds
    → Memᴰ e es
    → d.subscriber_id ≡ e.subscriber_id
    → d.sequence ≤ e.sequence

InOrder-of_all : (ds : List Delivery) → NotEarlier ds ds → InOrder ds
InOrder-of_all [] h = tt
InOrder-of_all (d ∷ ds) h = (
  λ e m. h d e (Memᴰ.head refl) (Memᴰ.tail m),
  InOrder-of_all ds (λ x y m n. h x y (Memᴰ.tail m) (Memᴰ.tail n)),
)

InOrder-append :
    (ds es : List Delivery) → InOrder ds → InOrder es → NotEarlier ds es → InOrder (ds ++ es)
InOrder-append [] es p q c = q
InOrder-append (d ∷ ds) es p q c = (
  λ e m k. elim (Memᴰ.append_cases ds m) [ inl n ↦ p.0 e n k | inr n ↦ c d e (Memᴰ.head refl) n k ],
  InOrder-append ds es p.1 q (λ x y m n. c x y (Memᴰ.tail m) n),
)

-- What a call hands out is not earlier than what was handed out before, nor than itself.
step-NotEarlier :
    (h : List Delivery) (s t : Store) (out : List Delivery)
    → Past h s
    → Claims h s t out
    → NotEarlier h out × NotEarlier out out
step-NotEarlier h s t out p k = (
  λ d e m n q. let (x, l, a, b, o) = k.opened e n in rw b (p.before d x m l (q ∙ a) o),
  λ d e m n q. let (x, l, a, b, o) = k.opened e n in rw b (k.heads d x m l (q ∙ a) o),
)

-- What holds at the end of a run.
pub record Ran (h : List Delivery) (t : Store) (out : List Delivery) : Type 0 where
  pub inv : Inv t
  pub past : Past (h ++ out) t
  pub not_earlier : NotEarlier h out
  pub in_order : InOrder out

-- Each call keeps the invariant and the order, so a run does.
module _ {S C : Type 0} (step : C → S → S × List Delivery) (view : S → Store)
    (keeps : (c : C) (s : S) (h : List Delivery)
      → Inv (view s)
      → Past h (view s)
      → Claims h (view s) (view (step c s).0) (step c s).1) where
  pub run_calls-Ran :
      (cs : List C) (s : S) (h : List Delivery)
      → Inv (view s)
      → Past h (view s)
      → Ran h (view (run_calls step cs s).0) (run_calls step cs s).1
  unfolding run_calls
  run_calls-Ran [] s h v p = record {
    inv = v;
    past = subst (λ l. Past l (view s)) (sym (append-nil h)) p;
    not_earlier = λ d e m n. absurd (Memᴰ.not-nil n);
    in_order = tt;
  }
  run_calls-Ran (c ∷ cs) s h v p =
      let t = (step c s).0 in
      let out = (step c s).1 in
      let k = keeps c s h v p in
      let r = run_calls-Ran cs t (h ++ out) k.inv k.past in
      let rest = (run_calls step cs t).1 in
      let (a, b) = step-NotEarlier h (view s) (view t) out p k in
      record {
        inv = r.inv;
        past = subst (λ l. Past l (view (run_calls step cs t).0)) (append_assoc h out rest) r.past;
        not_earlier = λ d e m n. elim (Memᴰ.append_cases out n) [
          | inl l ↦ a d e m l
          | inr l ↦ r.not_earlier d e (Memᴰ.append_left out m) l
        ];
        in_order =
            InOrder-append out rest (InOrder-of_all out b) r.in_order
              (λ d e m n. r.not_earlier d e (Memᴰ.append_right h m) n);
      }
