-- ===== src/Backoff/Tests.antt =====
-- Runs of `retryDelay` of internal/worker/retry.go.
use webhook_delivery_system.Prelude.{ℕ, ◌+◌, ◌-◌, ◌*◌, ◌/◌, ◌≤◌, ◌≡◌, ◌^◌, min, refl, arith}
use webhook_delivery_system.Backoff.{retry_delay}
use webhook_delivery_system.Backoff.Curve.{retry_delay_bounds}

abbrev half : ℕ → ℕ
half n = n / 2

capped : retry_delay half 5 10 100 ≡ 100
unfolding retry_delay
capped = refl

retry_delay_bounds_example :
    let curve = min 100 (10 * 3 ^ (3 - 1)) in
    (curve ≤ retry_delay half 3 10 100 + curve / 5)
    × (retry_delay half 3 10 100 ≤ curve + curve / 5)
retry_delay_bounds_example =
    retry_delay_bounds half 3 10 100 (λ n h. omega (arith)) (omega arith) (omega arith)
