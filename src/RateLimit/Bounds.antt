-- ===== src/RateLimit/Bounds.antt =====
-- How many requests a bucket lets through.
use native.Mathlib.Nat.{add-mul}
use webhook_delivery_system.Prelude.{
  sym, ap, ◌∙◌, ℕ, ◌+◌, ◌-◌, ◌*◌, ◌≤◌, ◌<◌, ◌≡◌, Bool, List, [], ◌∷◌, arith, length, if◌then◌else◌,
}
use webhook_delivery_system.RateLimit.{Product, TokenBucket, allow, admit_all}

-- The bucket is within its capacity, and the numbers of a run up to `horizon` fit 62 bits.
pub record Inv (p : Product) (horizon : ℕ) (tb : TokenBucket) : Type 0 where
  pub capped : tb.tokens ≤ tb.max_tokens
  pub small : tb.max_tokens < 4611686018427387904
  pub fits : horizon * tb.refill_rate + p.slack < 4611686018427387904000000000

elapsed_product : (l n r : ℕ) → l ≤ n → (n - l) * r + l * r ≡ n * r
elapsed_product l n r h = sym (add-mul (n - l) l r) ∙ ap (λ t. t * r) (omega arith)

module _ (p : Product) (horizon : ℕ) where
  elapsed_fits :
      (tb : TokenBucket) (now : ℕ)
      → now ≤ horizon
      → Inv p horizon tb
      → p.tokens_for (now - tb.last_refill) tb.refill_rate < 4611686018427387904
  elapsed_fits tb now h v = grind (arith, p.near (now - tb.last_refill) tb.refill_rate)

  -- One request: what is spent and kept comes from what was there and from the time that passed.
  abbrev Balance : TokenBucket → TokenBucket → ℕ → Type 0
  Balance tb tb' n =
      tb'.tokens * 1000000000 + n * 1000000000000 + tb.last_refill * tb.refill_rate
      ≤ tb.tokens * 1000000000 + tb'.last_refill * tb.refill_rate + p.slack

  record Spends (tb tb' : TokenBucket) (ok : Bool) : Type 0 where
    kept : Inv p horizon tb'
    same_rate : tb'.refill_rate ≡ tb.refill_rate
    same_max : tb'.max_tokens ≡ tb.max_tokens
    timely : tb'.last_refill ≤ horizon
    balance : Balance tb tb' (if ok then 1 else 0)

  allow-Spends :
      (tb : TokenBucket) (now : ℕ)
      → now ≤ horizon
      → tb.last_refill ≤ horizon
      → Inv p horizon tb
      → Spends tb (allow p now tb).0 (allow p now tb).1
  unfolding allow
  allow-Spends tb now h l v = ground (
    arith,
    elapsed_fits tb now h v,
    p.near (now - tb.last_refill) tb.refill_rate,
    elapsed_product tb.last_refill now tb.refill_rate,
  )

  abbrev pub Within : List ℕ → Type 0
  Within [] = Unit {0}
  Within (now ∷ times) = (now ≤ horizon) × Within times

  -- The capacity is never exceeded, and the number of admitted requests is paid for.
  abbrev pub Paid : TokenBucket → TokenBucket → ℕ → ℕ → Type 0
  Paid tb tb' n requests =
      (tb'.tokens ≤ tb.max_tokens)
      × (tb'.last_refill ≤ horizon)
      × (tb'.tokens * 1000000000 + n * 1000000000000 + tb.last_refill * tb.refill_rate
          ≤ tb.tokens * 1000000000 + tb'.last_refill * tb.refill_rate + requests * p.slack)

  -- For a bucket within its capacity, whose times and rate fit the machine words, and any sequence
  -- of requests: the bucket never holds more than its capacity, and the requests that it admits
  -- cost (1000 fixed-point units each, counted in nano-units) no more than the tokens it began
  -- with and what its rate yields over the time that passed, up to the rounding of each request.
  pub admit_all-Paid :
      (tb : TokenBucket) (times : List ℕ)
      → Inv p horizon tb
      → tb.last_refill ≤ horizon
      → Within times
      → Paid tb (admit_all p tb times).0 (admit_all p tb times).1 (length times)
  unfolding admit_all
  admit_all-Paid tb [] v l h = ground arith
  admit_all-Paid tb (now ∷ times) v l h =
      let s = allow-Spends tb now h.0 l v in
      ground (arith, s, admit_all-Paid (allow p now tb).0 times s.kept s.timely h.1)
