-- ===== src/RateLimit/Tests.antt =====
-- Runs of the token bucket of internal/infra/ratelimit/token_bucket.go.
use webhook_delivery_system.Prelude.{ℕ, ◌*◌, ◌/◌, ◌≡◌, refl, List, [], ◌∷◌, arith}
use webhook_delivery_system.RateLimit.{Product, TokenBucket, new, admit_all}
use webhook_delivery_system.RateLimit.Bounds.{Paid, admit_all-Paid}

-- An exact product, rounded down.
abbrev exact : Product
exact = record {
  tokens_for = λ elapsed rate. elapsed * rate / 1000000000;
  slack = 0;
  near = λ elapsed rate. omega arith;
}

-- A burst of two, then a second at one token per second.
abbrev burst : List ℕ
burst = 0 ∷ 0 ∷ 0 ∷ 1000000000 ∷ 1000000000 ∷ []

abbrev bucket : TokenBucket
bucket = record { tokens = 2000; max_tokens = 2000; refill_rate = 1000; last_refill = 0 }

starts_full : new 1 2 0 ≡ bucket
unfolding new
starts_full = refl

three_admitted : (admit_all exact bucket burst).1 ≡ 3
unfolding admit_all webhook_delivery_system.RateLimit.allow
three_admitted = refl

admit_all-Paid_example :
    Paid exact 2000000000 bucket (admit_all exact bucket burst).0 (admit_all exact bucket burst).1 5
admit_all-Paid_example =
    admit_all-Paid exact 2000000000 bucket burst
      (record { capped = omega arith; small = omega arith; fits = omega arith }) (omega arith)
      (omega arith, (omega arith, (omega arith, (omega arith, (omega arith, tt)))))
