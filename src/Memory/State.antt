-- ===== src/Memory/State.antt =====
-- The state of store/memory/memory.go, its rows and the subscribers' records.
-- The map of rows is a list: its order stands for the order in which Go ranges over the map.
-- The counters are Go int64; they count rows and calls, and are left unbounded.
use sharathfold.Prelude.{
  ℕ, String, Bool, true, false, List, [], ◌∷◌, map, Option, none, some, if◌then◌else◌, str_eq, ℤ,
  pos, le_zero, to_nat, Dict, lookup, insert,
}
use sharathfold.Store.{Delivery}

pub record SubMeta : Type 0 where
  pub suspended : Bool
  pub gap : Bool
  pub dropped : ℕ
  pub marker : String

-- &subMeta{}
abbrev pub new_meta : SubMeta
new_meta = record { suspended = false; gap = false; dropped = 0; marker = "" }

pub record Store : Type 0 where
  pub by_id : List Delivery
  pub seq : Dict ℕ
  pub subs : Dict SubMeta
  -- A signal waits in the channel of capacity one.
  pub notify : Bool
  pub retention_max_count : ℤ
  pub retention_max_age : ℤ
  pub disable_hol : Bool
  pub skip_suspend_gate : Bool
  pub claim_calls : ℕ
  pub claim_rows : ℕ
  pub claim_non_empty : ℕ

unfoldable pub new : Store
new = record {
  by_id = [];
  seq = [];
  subs = [];
  notify = false;
  retention_max_count = pos 0;
  retention_max_age = pos 0;
  disable_hol = false;
  skip_suspend_gate = false;
  claim_calls = 0;
  claim_rows = 0;
  claim_non_empty = 0;
}

abbrev pub signal : Store → Store
signal s = record s { notify = true }

abbrev pub or_new : Option SubMeta → SubMeta
or_new none = new_meta
or_new (some m) = m

-- What `s.meta(sub)` returns.
unfoldable pub meta_of : Dict SubMeta → String → SubMeta
meta_of subs sub = or_new (lookup sub subs)

abbrev add_missing : String → Dict SubMeta → Option SubMeta → Dict SubMeta
add_missing sub subs none = insert sub new_meta subs
add_missing sub subs (some m) = subs

-- What `s.meta(sub)` does to the map: a missing record is added.
unfoldable pub touch_meta : String → Dict SubMeta → Dict SubMeta
touch_meta sub subs = add_missing sub subs (lookup sub subs)

abbrev or_zero : Option ℕ → ℕ
or_zero none = 0
or_zero (some n) = n

-- s.seq[sub], which is 0 where the key is missing
unfoldable pub seq_of : Dict ℕ → String → ℕ
seq_of seq sub = or_zero (lookup sub seq)

abbrev pub default_retention_max_count : ℕ
default_retention_max_count = 1000

-- 24 hours in nanoseconds
abbrev pub default_retention_max_age : ℤ
default_retention_max_age = pos 86400000000000

unfoldable pub retention_count : Store → ℕ
retention_count s =
    if le_zero s.retention_max_count
    then default_retention_max_count
    else to_nat s.retention_max_count

unfoldable pub retention_age : Store → ℤ
retention_age s =
    if le_zero s.retention_max_age then default_retention_max_age else s.retention_max_age

-- s.byID[id]
unfoldable pub find : String → List Delivery → Option Delivery
find id [] = none
find id (d ∷ ds) = if str_eq d.id id then some d else find id ds

-- Writes through the pointer s.byID[id].
unfoldable pub update : String → (Delivery → Delivery) → List Delivery → List Delivery
update id f = map (λ d. if str_eq d.id id then f d else d)

-- delete(s.byID, id)
unfoldable pub delete : String → List Delivery → List Delivery
delete id [] = []
delete id (d ∷ ds) = let rest = delete id ds in if str_eq d.id id then rest else d ∷ rest
