-- ===== src/Backoff/Curve.antt =====
-- The loop computes the curve min(max, base × 3^(attempt - 1)), and the jitter stays within 20%.
use webhook_delivery_system.Prelude.{
  ℕ, zero, suc, ◌+◌, ◌-◌, ◌*◌, ◌/◌, ◌%◌, ◌^◌, ◌≤◌, ◌<◌, ◌≡◌, min, arith,
}
use native.Mathlib.Nat.{pow-suc}
use webhook_delivery_system.Backoff.{grow, jittered, retry_delay}

grow_capped :
    (rounds max delay : ℕ)
    → max < 4611686018427387904
    → max ≤ delay
    → delay ≤ max
    → grow rounds max delay ≡ max
unfolding grow
grow_capped zero max delay h l k = omega arith
grow_capped (suc rounds) max delay h l k = ground arith

pow_pos : (k : ℕ) → 1 ≤ 3 ^ k
pow_pos zero = omega arith
pow_pos (suc k) = grind (arith, pow-suc 3 k, pow_pos k)

three_times_over : (max delay p : ℕ) → 1 ≤ p → max / 3 < delay → max ≤ delay * (p * 3)
three_times_over max delay p h k = grind arith

-- One more round of the curve, by whether three times the delay is still within the cap.
curve_step :
    (max delay p : ℕ)
    → 1 ≤ p
    → delay ≤ max
    → (max / 3 < delay → min max (delay * (p * 3)) ≡ max) × (delay * 3 * p ≡ delay * (p * 3))
curve_step max delay p h l = ((λ k. omega (arith, three_times_over max delay p h k)), grind arith)

grow_curve :
    (rounds max delay : ℕ)
    → max < 4611686018427387904
    → delay ≤ max
    → grow rounds max delay ≡ min max (delay * 3 ^ rounds)
unfolding grow
grow_curve zero max delay h l = omega arith
grow_curve (suc rounds) max delay h l = grind (
  arith,
  pow-suc 3 rounds,
  pow_pos rounds,
  curve_step max delay (3 ^ rounds),
  grow_curve rounds max (delay * 3 % 18446744073709551616),
)

-- `rand.Int64N(n)` for a positive n.
abbrev pub Below : (ℕ → ℕ) → Type 0
Below rand = (n : ℕ) → 0 < n → rand n < n

jittered_bounds :
    (rand : ℕ → ℕ) (delay : ℕ)
    → Below rand
    → delay < 4611686018427387904
    → (delay ≤ jittered rand delay + delay / 5) × (jittered rand delay ≤ delay + delay / 5)
unfolding jittered
jittered_bounds rand delay h l = ground (arith, h (2 * (delay / 5) % 18446744073709551616))

-- For a base delay within a cap below 2^62 nanoseconds, and a random source that returns numbers
-- below its bound: the delay before the next attempt is within a fifth of the exponential curve
-- min(max, base × 3^(attempt - 1)), so no step of the loop overflows.
pub retry_delay_bounds :
    (rand : ℕ → ℕ) (attempt base max : ℕ)
    → Below rand
    → base ≤ max
    → max < 4611686018427387904
    → let curve = min max (base * 3 ^ (attempt - 1)) in
      (curve ≤ retry_delay rand attempt base max + curve / 5)
      × (retry_delay rand attempt base max ≤ curve + curve / 5)
unfolding retry_delay
retry_delay_bounds rand attempt base max h l k =
    rw (grow_curve (attempt - 1) max base k l)
      (jittered_bounds rand (min max (base * 3 ^ (attempt - 1))) h (omega arith))
