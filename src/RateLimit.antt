-- ===== src/RateLimit.antt =====
-- internal/infra/ratelimit/token_bucket.go and internal/infra/semaphore/semaphore.go. The floating
-- point product `int64(elapsed.Seconds() * float64(rate))` is a parameter; times are nanoseconds.
pub mod Bounds
pub mod Semaphore
mod Tests
use webhook_delivery_system.Prelude.{
  ℕ, ◌+◌, ◌-◌, ◌*◌, ◌%◌, ◌≤◌, Bool, true, false, List, [], ◌∷◌, leb, if◌then◌else◌,
}

abbrev pub scale : ℕ
scale = 1000

pub record TokenBucket : Type 0 where
  pub tokens : ℕ  -- int64, tokens × scale
  pub max_tokens : ℕ  -- int64
  pub refill_rate : ℕ  -- int64, tokens per second × scale
  pub last_refill : ℕ

-- What the floating point product may do: it exceeds the exact product of seconds and rate by at
-- most `slack` nano-units (0 for an exact product that is rounded down).
pub record Product : Type 0 where
  pub tokens_for : ℕ → ℕ → ℕ
  pub slack : ℕ
  pub near : (elapsed rate : ℕ) → tokens_for elapsed rate * 1000000000 ≤ elapsed * rate + slack

-- The signed order on int64 bit patterns, and Go's `min` by it.
abbrev pub i64_leb : ℕ → ℕ → Bool
i64_leb a b =
    leb ((a + 9223372036854775808) % 18446744073709551616)
      ((b + 9223372036854775808) % 18446744073709551616)

abbrev pub i64_min : ℕ → ℕ → ℕ
i64_min a b = if i64_leb a b then a else b

-- `NewTokenBucket`, constructed at time `now`.
unfoldable pub new : ℕ → ℕ → ℕ → TokenBucket
new rate_per_sec burst now = record {
  tokens = burst * scale % 18446744073709551616;
  max_tokens = burst * scale % 18446744073709551616;
  refill_rate = rate_per_sec * scale % 18446744073709551616;
  last_refill = now;
}

module _ (p : Product) where
  -- `refill`: `elapsed <= 0` leaves the bucket as it is.
  refill : ℕ → TokenBucket → TokenBucket
  refill now tb = if leb now tb.last_refill then tb else record tb {
    tokens =
        i64_min tb.max_tokens
          ((tb.tokens + p.tokens_for (now - tb.last_refill) tb.refill_rate) % 18446744073709551616);
    last_refill = now;
  }

  take_token : TokenBucket → TokenBucket × Bool
  take_token tb =
      if i64_leb scale tb.tokens
      then (record tb { tokens = tb.tokens - scale }, true)
      else (tb, false)

  unfoldable pub allow : ℕ → TokenBucket → TokenBucket × Bool
  unfolding refill take_token
  allow now tb = take_token (refill now tb)

  -- A sequence of requests at the given times, and how many were admitted.
  pub admit_all : TokenBucket → List ℕ → TokenBucket × ℕ
  admit_all tb [] = (tb, 0)
  admit_all tb (now ∷ times) =
      let (tb', ok) = allow now tb in
      let (last, n) = admit_all tb' times in (last, if ok then n + 1 else n)
