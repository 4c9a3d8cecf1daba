-- ===== src/Memory/Claim/Heads.antt =====
-- The map of earliest unfinished sequences that Claim of store/memory/memory.go builds.
use mathlib.Core.List.Memᴰ
use native.Mathlib.Nat.{le_antisymm}
use sharathfold.Prelude.{
  ℕ, ◌≤◌, String, true, ◌&&◌, List, [], ◌∷◌, Memᴰ, none, some, ◌≡◌, refl, sym, ◌∙◌, ◌⊎◌, subst,
  Option, if◌then◌else◌, eq_iff, Dict, lookup, insert, lookup-insert, arith, inl, inr,
}
use sharathfold.Store.{Delivery, is_unfinished}
use sharathfold.Memory.State.{seq_of}
use sharathfold.Memory.Claim.{heads, is_lower}

abbrev next_head : Delivery → Dict ℕ → Dict ℕ
next_head d head =
    if is_unfinished d.status && is_lower d.sequence (lookup d.subscriber_id head)
    then insert d.subscriber_id d.sequence head
    else head

-- An entry is there, and is at most `n`.
abbrev AtMost : ℕ → Option ℕ → Type 0
AtMost n none = ⊥
AtMost n (some k) = k ≤ n

-- A round lowers what is there.
next_head-AtMost :
    (x : String) (d : Delivery) (head : Dict ℕ) (n : ℕ)
    → AtMost n (lookup x head)
    → AtMost n (lookup x (next_head d head))
next_head-AtMost x d head n h =
    ground (arith, lookup-insert d.subscriber_id x d.sequence head, eq_iff d.subscriber_id x, h)

-- A round sees its own row.
next_head-AtMost_self :
    (d : Delivery) (head : Dict ℕ)
    → is_unfinished d.status ≡ true
    → AtMost d.sequence (lookup d.subscriber_id (next_head d head))
next_head-AtMost_self d head h = ground (
  arith,
  lookup-insert d.subscriber_id d.subscriber_id d.sequence head,
  eq_iff d.subscriber_id d.subscriber_id,
)

seq_of-AtMost : (x : String) (head : Dict ℕ) (n : ℕ) → AtMost n (lookup x head) → seq_of head x ≤ n
unfolding seq_of
seq_of-AtMost x head n h = ground (arith, h)

heads-AtMost :
    (x : String) (ds : List Delivery) (head : Dict ℕ) (n : ℕ)
    → AtMost n (lookup x head)
    → AtMost n (lookup x (heads ds head))
unfolding heads
heads-AtMost x [] head n h = h
heads-AtMost x (d ∷ ds) head n h =
    heads-AtMost x ds (next_head d head) n (next_head-AtMost x d head n h)

heads-AtMost_mem :
    (ds : List Delivery) (head : Dict ℕ) {e : Delivery}
    → Memᴰ e ds
    → is_unfinished e.status ≡ true
    → AtMost e.sequence (lookup e.subscriber_id (heads ds head))
unfolding heads
heads-AtMost_mem [] head m u = absurd (Memᴰ.not-nil m)
heads-AtMost_mem (d ∷ ds) head {e} m u = elim (Memᴰ.cases_cons m) [
  | inl r ↦ heads-AtMost e.subscriber_id ds (next_head d head) e.sequence (
      subst (λ (x : Delivery). AtMost e.sequence (lookup e.subscriber_id (next_head x head))) r
        (next_head-AtMost_self e head u))
  | inr n ↦ heads-AtMost_mem ds (next_head d head) n u
]

-- The head of a subscriber is at most any of its unfinished sequences.
pub heads-le :
    (ds : List Delivery) {e : Delivery}
    → Memᴰ e ds
    → is_unfinished e.status ≡ true
    → seq_of (heads ds []) e.subscriber_id ≤ e.sequence
heads-le ds {e} m u =
    seq_of-AtMost e.subscriber_id (heads ds []) e.sequence (heads-AtMost_mem ds [] m u)

next_head-cases :
    (x : String) (d : Delivery) (head : Dict ℕ)
    → (lookup x (next_head d head) ≡ lookup x head)
      ⊎ (d.subscriber_id ≡ x)
        × (is_unfinished d.status ≡ true)
        × (lookup x (next_head d head) ≡ some d.sequence)
next_head-cases x d head =
    ground (arith, lookup-insert d.subscriber_id x d.sequence head, eq_iff d.subscriber_id x)

-- An entry of the loop's map is an entry of the map before it, or the number of an unfinished row.
abbrev Origin : String → List Delivery → Dict ℕ → Dict ℕ → Type 0
Origin x ds head result =
    (lookup x result ≡ lookup x head)
    ⊎ ((e : Delivery) × Memᴰ e ds
        × (e.subscriber_id ≡ x)
        × (is_unfinished e.status ≡ true)
        × (lookup x result ≡ some e.sequence))

heads-Origin : (x : String) (ds : List Delivery) (head : Dict ℕ) → Origin x ds head (heads ds head)
unfolding heads
heads-Origin x [] head = inl refl
heads-Origin x (d ∷ ds) head = elim (heads-Origin x ds (next_head d head)) [
  | inr (e, m, h, u, p) ↦ inr (e, Memᴰ.tail m, h, u, p)
  | inl p ↦ elim (next_head-cases x d head) [
    | inl q ↦ inl (p ∙ q)
    | inr (h, u, q) ↦ inr (d, Memᴰ.head refl, h, u, p ∙ q)
  ]
]

-- The head of a subscriber is the number of its first unfinished row.
pub heads-eq :
    (ds : List Delivery) (d : Delivery)
    → Memᴰ d ds
    → is_unfinished d.status ≡ true
    → ((e : Delivery)
        → Memᴰ e ds
        → d.subscriber_id ≡ e.subscriber_id
        → is_unfinished e.status ≡ true
        → d.sequence ≤ e.sequence)
    → seq_of (heads ds []) d.subscriber_id ≡ d.sequence
unfolding seq_of lookup
heads-eq ds d m u first =
    let low : AtMost d.sequence (lookup d.subscriber_id (heads ds [])) =
      heads-AtMost_mem ds [] m u in
    elim (heads-Origin d.subscriber_id ds []) [
      | inl p ↦ absurd (rw p at low)
      | inr (e, n, h, un, p) ↦ rw p (le_antisymm (rw p at low) (first e n (sym h) un))
    ]
