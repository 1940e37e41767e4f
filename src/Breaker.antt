-- ===== src/Breaker.antt =====
-- internal/infra/breaker/circuit_breaker.go: the per-URL circuit breaker. Each method is one step;
-- times are nanoseconds, and `cb.now()` is the argument `now`.
pub mod Sessions
pub mod Tripping
pub mod Spec
pub mod Refinement
mod Tests
use webhook_delivery_system.Prelude.{
  ℕ, ◌+◌, ◌%◌, Bool, true, false, ◌&&◌, not, ltb, leb, ◌==◌, if◌then◌else◌,
}

pub data State : Type 0 where
  state_closed state_open state_half_open : State

pub record CircuitBreaker : Type 0 where
  pub state : State
  pub failures : ℕ  -- the bit pattern of an int32
  pub last_opened_at : ℕ
  pub generation : ℕ  -- the bit pattern of an int64
  pub probing : Bool
  pub threshold : ℕ  -- the bit pattern of an int32
  pub reset_timeout : ℕ

abbrev pub i32 : ℕ → ℕ
i32 n = n % 4294967296

abbrev pub i64 : ℕ → ℕ
i64 n = n % 18446744073709551616

-- The signed order on int32 bit patterns.
abbrev pub i32_leb : ℕ → ℕ → Bool
i32_leb a b = leb ((a + 2147483648) % 4294967296) ((b + 2147483648) % 4294967296)

-- `New`: the zero values of the atomics are a closed breaker.
pub new : ℕ → ℕ → CircuitBreaker
new threshold reset_timeout = record {
  state = state_closed;
  failures = 0;
  last_opened_at = 0;
  generation = 0;
  probing = false;
  threshold = i32 threshold;
  reset_timeout = reset_timeout;
}

-- `elapsed > cb.resetTimeout && cb.probing.CompareAndSwap(false, true)`
admit_probe : ℕ → CircuitBreaker → CircuitBreaker × Bool × ℕ
admit_probe now cb =
    if ltb (cb.last_opened_at + cb.reset_timeout) now && not cb.probing
    then (
      record cb { probing = true; state = state_half_open; generation = i64 (cb.generation + 1) },
      true,
      i64 (cb.generation + 1),
    )
    else (cb, false, 0)

allow_in : State → ℕ → CircuitBreaker → CircuitBreaker × Bool × ℕ
unfolding admit_probe
allow_in state_closed now cb = (cb, true, cb.generation)
allow_in state_open now cb = admit_probe now cb
allow_in state_half_open now cb = (cb, false, 0)

unfoldable pub allow : ℕ → CircuitBreaker → CircuitBreaker × Bool × ℕ
unfolding allow_in
allow now cb = allow_in cb.state now cb

-- A success that counts: in the half-open state it is the probe's, and closes the breaker.
settle : State → CircuitBreaker → CircuitBreaker
settle state_half_open cb = record cb { state = state_closed; probing = false; failures = 0 }
settle state_closed cb = record cb { failures = 0 }
settle state_open cb = record cb { failures = 0 }

unfoldable pub record_success : ℕ → CircuitBreaker → CircuitBreaker
unfolding settle
record_success token cb = if cb.generation == token then settle cb.state cb else cb

-- `cb.state.CompareAndSwap(closed, open)` and the bump of the generation if it was swapped.
trip : State → CircuitBreaker → CircuitBreaker
trip state_closed cb = record cb { state = state_open; generation = i64 (cb.generation + 1) }
trip _ cb = cb

count_failure : ℕ → CircuitBreaker → CircuitBreaker
unfolding trip
count_failure now cb =
    let failed = record cb { failures = i32 (cb.failures + 1) } in
    if i32_leb cb.threshold failed.failures
    then trip cb.state (record failed { last_opened_at = now })
    else failed

fail_in : State → ℕ → CircuitBreaker → CircuitBreaker
unfolding count_failure
fail_in state_half_open now cb = record cb {
  last_opened_at = now;
  state = state_open;
  generation = i64 (cb.generation + 1);
  probing = false;
}
fail_in state_closed now cb = count_failure now cb
fail_in state_open now cb = count_failure now cb

unfoldable pub record_failure : ℕ → ℕ → CircuitBreaker → CircuitBreaker
unfolding fail_in
record_failure now token cb = if cb.generation == token then fail_in cb.state now cb else cb

-- `State()`, as one of the three names.
pub data StateName : Type 0 where
  name_open name_half_open name_closed : StateName

name_of : State → StateName
name_of state_open = name_open
name_of state_half_open = name_half_open
name_of _ = name_closed

pub state_name : CircuitBreaker → StateName
unfolding name_of
state_name cb = name_of cb.state
