-- ===== src/Memory/Rows.antt =====
-- The map operations of store/memory/memory.go: find, update, delete, and the subscribers' records.
use mathlib.Core.List.Memᴰ
use sharathfold.Prelude.{
  ℕ, String, true, List, [], ◌∷◌, Memᴰ, none, some, ◌≡◌, refl, sym, ◌∙◌, ap, ◌≢◌, inl, inr,
  if◌then◌else◌, str_eq, str_eq→eq, eq_iff, Bool-cases, Dict, insert, lookup-insert, arith,
}
use sharathfold.Store.{Delivery}
use sharathfold.Memory.State.{SubMeta, new_meta, meta_of, touch_meta, seq_of, find, update, delete}

-- A row that is found is a row of the map, under its key.
pub mem-find :
    (id : String) (ds : List Delivery) {d : Delivery}
    → find id ds ≡ some d
    → Memᴰ d ds × (d.id ≡ id)
unfolding find
mem-find id [] h = cc
mem-find id (e ∷ ds) {d} h = elim (Bool-cases (str_eq e.id id)) [
  | inl k ↦
      let p : some e ≡ some d = rw k at h in
      let q : e ≡ d = cc in (Memᴰ.head (sym q), rw (← q) (str_eq→eq e.id id k))
  | inr k ↦ let (m, p) = mem-find id ds (rw k at h) in (Memᴰ.tail m, p)
]

-- A key that is not found is no row's.
pub find-none :
    (id : String) (ds : List Delivery) {d : Delivery} → find id ds ≡ none → Memᴰ d ds → d.id ≢ id
unfolding find
find-none id [] h m q = Memᴰ.not-nil m
find-none id (e ∷ ds) {d} h m q = elim (Bool-cases (str_eq e.id id)) [
  | inl k ↦ let p : some e ≡ none = rw k at h in cc
  | inr k ↦ elim (Memᴰ.cases_cons m) [
    | inl r ↦
        let p : str_eq e.id id ≡ true =
          (eq_iff e.id id).1 (ap (λ (x : Delivery). x.id) (sym r) ∙ q) in
        cc
    | inr n ↦ find-none id ds (rw k at h) n q
  ]
]

-- A row of the map is found by its key, if no two rows share one.
pub find-mem :
    (ds : List Delivery) {d : Delivery}
    → Memᴰ d ds
    → ((e : Delivery) → Memᴰ e ds → e.id ≡ d.id → e ≡ d)
    → find d.id ds ≡ some d
unfolding find
find-mem [] m only = absurd (Memᴰ.not-nil m)
find-mem (e ∷ ds) {d} m only = elim (Bool-cases (str_eq e.id d.id)) [
  | inl k ↦ rw k (ap some (only e (Memᴰ.head refl) (str_eq→eq e.id d.id k)))
  | inr k ↦ elim (Memᴰ.cases_cons m) [
    | inl r ↦
        let p : str_eq e.id d.id ≡ true =
          (eq_iff e.id d.id).1 (ap (λ (x : Delivery). x.id) (sym r)) in
        cc
    | inr n ↦ rw k (find-mem ds n (λ e' m' q. only e' (Memᴰ.tail m') q))
  ]
]

pub mem-delete :
    (id : String) (ds : List Delivery) {d : Delivery} → Memᴰ d (delete id ds) → Memᴰ d ds
unfolding delete
mem-delete id [] m = m
mem-delete id (e ∷ ds) m = elim (Bool-cases (str_eq e.id id)) [
  | inl k ↦ Memᴰ.tail (mem-delete id ds (rw k at m))
  | inr k ↦ elim (Memᴰ.cases_cons (rw k at m)) [
    | inl p ↦ Memᴰ.head p
    | inr n ↦ Memᴰ.tail (mem-delete id ds n)
  ]
]

-- `s.meta` changes no record that can be read.
pub meta_of-touch_meta :
    (x y : String) (subs : Dict SubMeta) → meta_of (touch_meta x subs) y ≡ meta_of subs y
unfolding meta_of touch_meta
meta_of-touch_meta x y subs = ground (arith, lookup-insert x y new_meta subs, eq_iff x y)

pub meta_of-insert :
    (x y : String) (m : SubMeta) (subs : Dict SubMeta)
    → meta_of (insert x m subs) y ≡ (if str_eq x y then m else meta_of subs y)
unfolding meta_of
meta_of-insert x y m subs = ground (arith, lookup-insert x y m subs)

pub seq_of-insert :
    (x y : String) (n : ℕ) (seq : Dict ℕ)
    → seq_of (insert x n seq) y ≡ (if str_eq x y then n else seq_of seq y)
unfolding seq_of
seq_of-insert x y n seq = ground (arith, lookup-insert x y n seq)

-- A write through the pointer of a key is read back under the key.
pub find-update :
    (id : String) (f : Delivery → Delivery) (ds : List Delivery) {d : Delivery}
    → ((e : Delivery) → (f e).id ≡ e.id)
    → find id ds ≡ some d
    → find id (update id f ds) ≡ some (f d)
unfolding find update
find-update id f [] keeps h = cc
find-update id f (e ∷ ds) {d} keeps h = elim (Bool-cases (str_eq e.id id)) [
  | inl k ↦
      let p : some e ≡ some d = rw k at h in
      let q : e ≡ d = cc in
      let t : str_eq (f e).id id ≡ true = ap (λ x. str_eq x id) (keeps e) ∙ k in
      rw (k, t) (ap (λ x. some (f x)) q)
  | inr k ↦ rw (k, k) (find-update id f ds keeps (rw k at h))
]
