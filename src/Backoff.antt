-- ===== src/Backoff.antt =====
-- `retryDelay` of internal/worker/retry.go: capped exponential backoff with jitter. Durations are
-- nanoseconds (int64); `rand.Int64N(n)` is the argument `rand`, which returns a number below n.
pub mod Curve
mod Tests
use webhook_delivery_system.Prelude.{
  ℕ, zero, suc, ◌+◌, ◌-◌, ◌*◌, ◌/◌, ◌%◌, Bool, true, false, ltb, if◌then◌else◌, ◌==◌,
}

-- The loop `for i := 1; i < attempt && delay < max; i++` with `rounds` rounds left.
grow : ℕ → ℕ → ℕ → ℕ
grow zero max delay = delay
grow (suc rounds) max delay =
    let rest = grow rounds max (delay * 3 % 18446744073709551616) in
    if ltb delay max then if ltb (max / 3) delay then max else rest else delay

pub jittered : (ℕ → ℕ) → ℕ → ℕ
jittered rand delay =
    let jitter = delay / 5 in
    if jitter == 0
    then delay
    else (delay - jitter + rand (2 * jitter % 18446744073709551616)) % 18446744073709551616

unfoldable pub retry_delay : (ℕ → ℕ) → ℕ → ℕ → ℕ → ℕ
unfolding grow jittered
retry_delay rand attempt base max = jittered rand (grow (attempt - 1) max base)
