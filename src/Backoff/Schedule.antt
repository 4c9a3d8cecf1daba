-- ===== src/Backoff/Schedule.antt =====
-- The schedule of internal/backoff/backoff.go is the one that its comment states.
use native.Mathlib.Nat.{
  pow-succ', mul_assoc, le-mul_of_pos_right, pow-le-pow_right, mul-le-mul_left,
}
use sharathfold.Prelude.{
  ℕ, zero, suc, ◌+◌, ◌-◌, ◌*◌, ◌/◌, ◌^◌, ◌≤◌, ◌<◌, min, false, if◌then◌else◌, ltb, leb, ℤ, pos,
  negsuc, ◌≡◌, sym, arith, Bool-cases, leb→le, ◌⊎◌, inl, inr,
}
use sharathfold.Backoff.{
  uint64_mod, int64_bound, wrap64, grow, rounds_of, default_base, default_max, or_default,
  core_delay, delay,
}

-- A doubling of what is below an int64 bound either stays one, or wraps below 0.
wrap64_cases :
    (n : ℕ)
    → n < uint64_mod
    → ((n < int64_bound) × (wrap64 n ≡ pos n))
      ⊎ ((int64_bound ≤ n) × (wrap64 n ≡ negsuc (uint64_mod - n - 1)))
wrap64_cases n h = ground arith

pow_pos : (n : ℕ) → 0 < 2 ^ n
pow_pos zero = omega arith
pow_pos (suc n) = omega (arith, pow-succ' 2 n, pow_pos n)

double_pow : (n d : ℕ) → d * 2 ^ suc n ≡ d * 2 * 2 ^ n
double_pow n d = rw (pow-succ' 2 n) (sym (mul_assoc d 2 (2 ^ n)))

le_double_pow : (n d : ℕ) → d ≤ d * 2 ^ n
le_double_pow n d = le-mul_of_pos_right d (pow_pos n)

-- Doubling n times, clipped at the maximum.
abbrev clamp : ℕ → ℕ → ℕ
clamp max d = if ltb max d then max else d

grow_clamped :
    (n max d : ℕ) → 0 < d → max < int64_bound → clamp max (grow n max d) ≡ min max (d * 2 ^ n)
unfolding grow
grow_clamped zero max d p b = ground arith
grow_clamped (suc n) max d p b = elim (Bool-cases (leb max d)) [
  | inl full ↦ rw full (ground (arith, leb→le max d full, le_double_pow (suc n) d))
  | inr less ↦
      let below : d < max = ground arith in
      let big : d * 2 ≤ d * 2 ^ suc n = omega (arith, double_pow n d, le_double_pow n (d * 2)) in
      elim (wrap64_cases (d * 2) (omega arith)) [
        | inr (over, e) ↦ rw (less, e) (ground (arith, big))
        | inl (fits, e) ↦
            rw (less, e)
              (elim (Bool-cases (ltb max (d * 2))) [
                | inl past ↦ rw past (ground (arith, big))
                | inr within ↦
                    let no_wrap : ltb (d * 2) d ≡ false = ground arith in
                    rw (within, no_wrap, double_pow n d)
                      (grow_clamped n max (d * 2) (omega arith) b)
              ])
      ]
]

-- The fields of a configuration that Go's int64 can hold.
abbrev pub IsInt64 : ℤ → Type 0
IsInt64 (pos n) = n < int64_bound
IsInt64 (negsuc n) = n < int64_bound

or_default-pos : (d : ℤ) (fallback : ℕ) → 0 < fallback → 0 < or_default d fallback
or_default-pos (pos zero) fallback h = h
or_default-pos (pos (suc n)) fallback h = omega arith
or_default-pos (negsuc n) fallback h = h

or_default-lt :
    (d : ℤ) (fallback : ℕ)
    → fallback < int64_bound
    → IsInt64 d
    → or_default d fallback < int64_bound
or_default-lt (pos zero) fallback h k = h
or_default-lt (pos (suc n)) fallback h k = k
or_default-lt (negsuc n) fallback h k = h

pub core_delay-eq-min :
    (attempt base max : ℤ)
    → IsInt64 max
    → core_delay attempt base max
      ≡ min (or_default max default_max) (or_default base default_base * 2 ^ rounds_of attempt)
unfolding core_delay
core_delay-eq-min attempt base max h =
    grow_clamped (rounds_of attempt) (or_default max default_max) (or_default base default_base)
      (or_default-pos base default_base (omega arith))
      (or_default-lt max default_max (omega arith) h)

-- With a jitter below its bound, and a max that leaves room for a tenth more, the wait is an int64
-- from the delay without jitter to a tenth above it, so it is positive and never wraps.
pub delay_bounds :
    (rand : ℕ → ℕ) (attempt base max : ℤ)
    → ((n : ℕ) → 0 < n → rand n < n)
    → IsInt64 max
    → or_default max default_max + or_default max default_max / 10 < int64_bound
    → (n : ℕ) × (delay rand attempt base max ≡ pos n)
      × (core_delay attempt base max ≤ n)
      × (n ≤ core_delay attempt base max + core_delay attempt base max / 10)
      × (0 < n)
unfolding delay
delay_bounds rand attempt base max small h room =
    let c = core_delay attempt base max in
    let j = small (c / 10 + 1) (omega arith) in
    let e = core_delay-eq-min attempt base max h in
    let low : 0 < or_default base default_base * 2 ^ rounds_of attempt = omega (
      arith,
      le_double_pow (rounds_of attempt) (or_default base default_base),
      or_default-pos base default_base (omega arith),
    ) in
    let m = or_default-pos max default_max (omega arith) in
    elim (wrap64_cases (c + rand (c / 10 + 1)) (omega arith)) [
      | inl (fits, w) ↦ (c + rand (c / 10 + 1), w, omega arith, omega arith, omega arith)
      | inr (over, w) ↦ absurd (omega arith)
    ]

-- A longer run of failures never waits less, jitter aside.
pub core_delay_mono :
    (a b : ℕ) (base max : ℤ)
    → IsInt64 max
    → a ≤ b
    → core_delay (pos a) base max ≤ core_delay (pos b) base max
core_delay_mono a b base max h k =
    let grows : 2 ^ (a - 1) ≤ 2 ^ (b - 1) = pow-le-pow_right (omega arith) (omega arith) in
    let scaled = mul-le-mul_left (or_default base default_base) grows in
    omega
      (arith, core_delay-eq-min (pos a) base max h, core_delay-eq-min (pos b) base max h, scaled)
