-- ===== src/Hash.antt =====
-- internal/hash/hash.go: the partition of a subscriber, by 64-bit FNV-1a.
use Prim.Native.Nat.{bit_xor}
use native.Mathlib.Nat.{mod-lt}
use sharathfold.Prelude.{
  ℕ, ◌*◌, ◌%◌, ◌<◌, String, List, [], ◌∷◌, ◌≡◌, refl, if◌then◌else◌, ℤ, pos, negsuc, le_zero,
  to_nat, bytes, arith,
}

abbrev pub default_partitions : ℕ
default_partitions = 256

abbrev fnv_offset : ℕ
fnv_offset = 14695981039346656037

abbrev fnv_prime : ℕ
fnv_prime = 1099511628211

-- h.Write on fnv.New64a(): for each byte, xor it in and multiply.
fnv1a : ℕ → List ℕ → ℕ
fnv1a h [] = h
fnv1a h (b ∷ bs) = fnv1a (bit_xor h b * fnv_prime % 18446744073709551616) bs

sum64 : String → ℕ
unfolding fnv1a bytes
sum64 s = fnv1a fnv_offset (bytes s)

-- if partitions <= 0 { partitions = DefaultPartitions }
abbrev pub or_default_partitions : ℤ → ℕ
or_default_partitions partitions =
    if le_zero partitions then default_partitions else to_nat partitions

unfoldable pub partition : String → ℤ → ℕ
unfolding sum64
partition subscriber_id partitions = sum64 subscriber_id % or_default_partitions partitions

pub or_default_partitions-pos : (partitions : ℤ) → 0 < or_default_partitions partitions
or_default_partitions-pos (pos n) = ground arith
or_default_partitions-pos (negsuc n) = omega arith

-- The partition of a subscriber is in range, for every number of partitions.
pub partition-lt :
    (subscriber_id : String) (partitions : ℤ)
    → partition subscriber_id partitions < or_default_partitions partitions
unfolding partition
partition-lt subscriber_id partitions =
    mod-lt (sum64 subscriber_id) (or_default_partitions-pos partitions)

-- FNV-1a of "a" and of "foobar", from the function's published test vectors.
fnv_a : sum64 "a" ≡ 0xaf63dc4c8601ec8c
unfolding sum64
fnv_a = refl

fnv_foobar : sum64 "foobar" ≡ 0x85944171f73967e8
unfolding sum64
fnv_foobar = refl
