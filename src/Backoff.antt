-- ===== src/Backoff.antt =====
-- internal/backoff/backoff.go: the wait before the next attempt. A duration is an int64 number of
-- nanoseconds: sums and doublings wrap around. `rand` is math/rand's Int63n.
pub mod Schedule
use sharathfold.Prelude.{
  ℕ, zero, suc, ◌+◌, ◌-◌, ◌*◌, ◌/◌, ◌%◌, Bool, true, false, ◌||◌, if◌then◌else◌, ltb, leb, ℤ, pos,
  negsuc, le_zero, to_nat,
}

-- 2^64 and 2^63
abbrev pub uint64_mod : ℕ
uint64_mod = 18446744073709551616

abbrev pub int64_bound : ℕ
int64_bound = 9223372036854775808

-- The int64 that a result wraps to.
abbrev pub wrap64 : ℕ → ℤ
wrap64 n =
    let r = n % uint64_mod in if ltb r int64_bound then pos r else negsuc (uint64_mod - r - 1)

-- next > max || next < delay, for max and delay that are not negative
abbrev overshoots : ℤ → ℕ → ℕ → Bool
overshoots (pos next) max delay = ltb max next || ltb next delay
overshoots (negsuc next) max delay = true

-- for i := 1; i < attempt; i++, with the rounds that are left
grow : ℕ → ℕ → ℕ → ℕ
grow zero max delay = delay
grow (suc rounds) max delay =
    let next = wrap64 (delay * 2) in
    let rest = grow rounds max (to_nat next) in
    if leb max delay then max else if overshoots next max delay then max else rest

-- if attempt < 1 { attempt = 1 }: the rounds of the loop
abbrev pub rounds_of : ℤ → ℕ
rounds_of (pos n) = n - 1
rounds_of (negsuc n) = 0

-- one second, and fifteen minutes
abbrev pub default_base : ℕ
default_base = 1000000000

abbrev pub default_max : ℕ
default_max = 900000000000

abbrev pub or_default : ℤ → ℕ → ℕ
or_default d fallback = if le_zero d then fallback else to_nat d

-- The delay before the jitter.
pub core_delay : ℤ → ℤ → ℤ → ℕ
unfolding grow
core_delay attempt base max =
    let m = or_default max default_max in
    let delay = grow (rounds_of attempt) m (or_default base default_base) in
    if ltb m delay then m else delay

pub delay : (ℕ → ℕ) → ℤ → ℤ → ℤ → ℤ
delay rand attempt base max = let d = core_delay attempt base max in wrap64 (d + rand (d / 10 + 1))
