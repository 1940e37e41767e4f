-- ===== src/Breaker/Tripping.antt =====
-- When the breaker trips, and how it recovers.
use webhook_delivery_system.Prelude.{
  ℕ, zero, suc, ◌+◌, ◌≤◌, ◌<◌, ◌≡◌, refl, true, false, Bool, arith, List, [], ◌∷◌, All,
}
use webhook_delivery_system.Breaker.{
  state_closed, state_open, state_half_open, CircuitBreaker, new, allow, record_success,
  record_failure,
}

-- One delivery through the breaker that fails at `now`, as the deliverer calls it.
attempt_report : ℕ → Bool → ℕ → CircuitBreaker → CircuitBreaker
attempt_report now true token cb = record_failure now token cb
attempt_report now false token cb = cb

fail_once : ℕ → CircuitBreaker → CircuitBreaker
unfolding attempt_report
fail_once now cb = attempt_report now (allow now cb).1 (allow now cb).2 (allow now cb).0

pub fail_times : ℕ → ℕ → CircuitBreaker → CircuitBreaker
fail_times now zero cb = cb
fail_times now (suc k) cb = fail_once now (fail_times now k cb)

abbrev pub Counting : ℕ → ℕ → CircuitBreaker → Type 0
Counting threshold k cb = (cb.state ≡ state_closed) × (cb.failures ≡ k) × (cb.threshold ≡ threshold)

fail_times_below :
    (threshold timeout now k : ℕ)
    → threshold < 2147483648
    → k < threshold
    → Counting threshold k (fail_times now k (new threshold timeout))
unfolding fail_times new
fail_times_below threshold timeout now zero h l = ground arith
fail_times_below threshold timeout now (suc k) h l =
    counts (fail_times now k (new threshold timeout))
      (fail_times_below threshold timeout now k h (omega arith))
  where
    counts :
        (cb : CircuitBreaker)
        → Counting threshold k cb
        → Counting threshold (suc k) (fail_once now cb)
    counts cb v = unfold fail_once allow record_failure in ground arith

fail_once_trips :
    (threshold now k : ℕ) (cb : CircuitBreaker)
    → threshold < 2147483648
    → suc k ≡ threshold
    → Counting threshold k cb
    → (fail_once now cb).state ≡ state_open
unfolding fail_once allow record_failure
fail_once_trips threshold now k cb h e v = ground arith

-- A new breaker stays closed, and counts, through fewer consecutive failures than its threshold
-- (an int32), and is open after exactly as many as the threshold.
pub trips_at_threshold :
    (threshold timeout now : ℕ)
    → threshold < 2147483647
    → ((k : ℕ)
        → k < suc threshold
        → Counting (suc threshold) k (fail_times now k (new (suc threshold) timeout)))
      × ((fail_times now (suc threshold) (new (suc threshold) timeout)).state ≡ state_open)
unfolding fail_times
trips_at_threshold threshold timeout now h = (
  (λ k l. fail_times_below (suc threshold) timeout now k (omega arith) l),
  fail_once_trips (suc threshold) now threshold _ (omega arith) refl
      (fail_times_below (suc threshold) timeout now threshold (omega arith) (omega arith)),
)

probe_settles :
    (cb : CircuitBreaker) (now later : ℕ)
    → cb.state ≡ state_open
    → cb.probing ≡ false
    → cb.last_opened_at + cb.reset_timeout < now
    → let (probed, ok, token) = allow now cb in
      (ok ≡ true)
      × (probed.state ≡ state_half_open)
      × ((record_success token probed).state ≡ state_closed)
      × ((record_success token probed).failures ≡ 0)
      × ((record_failure later token probed).state ≡ state_open)
      × ((record_failure later token probed).last_opened_at ≡ later)
unfolding allow record_success record_failure
probe_settles cb now later o p n = ground arith

-- Requests at the given times, one after the other.
pub knock : List ℕ → CircuitBreaker → CircuitBreaker
knock [] cb = cb
knock (now ∷ times) cb = knock times (allow now cb).0

abbrev pub AllRefused : List ℕ → CircuitBreaker → Type 0
AllRefused [] cb = Unit {0}
AllRefused (now ∷ times) cb = ((allow now cb).1 ≡ false) × AllRefused times (allow now cb).0

refused_early :
    (cb : CircuitBreaker) (now : ℕ)
    → cb.state ≡ state_open
    → now ≤ cb.last_opened_at + cb.reset_timeout
    → allow now cb ≡ (cb, false, 0)
unfolding allow
refused_early cb now o early = rw o (ground arith)

refused_probing :
    (cb : CircuitBreaker) (now : ℕ) → cb.state ≡ state_half_open → allow now cb ≡ (cb, false, 0)
unfolding allow
refused_probing cb now o = rw o refl

-- A breaker that refuses each request, and is as it was, refuses all of them.
knock_refused :
    (times : List ℕ) (cb : CircuitBreaker) (P : ℕ → Type 0)
    → ((now : ℕ) → P now → allow now cb ≡ (cb, false, 0))
    → All P times
    → AllRefused times cb × (knock times cb ≡ cb)
unfolding knock
knock_refused [] cb P h all = (tt, refl)
knock_refused (now ∷ times) cb P h (here, all) =
    rw (h now here)
      (let (refused, same) = knock_refused times cb P h all in ((refl, refused), same))

always : (times : List ℕ) → All (λ now. Unit {0}) times
always [] = tt
always (now ∷ times) = (tt, always times)

-- An open breaker with no probe in flight refuses every request of any sequence until its reset
-- timeout has passed since it opened; it then admits the next request, and refuses every request of
-- any sequence until that probe is reported; when the probe succeeds the breaker is closed with no
-- failure counted, and when it fails the breaker is open again from that moment.
pub open_breaker_probes :
    (cb : CircuitBreaker) (early during : List ℕ) (now later : ℕ)
    → cb.state ≡ state_open
    → cb.probing ≡ false
    → All (λ soon. soon ≤ cb.last_opened_at + cb.reset_timeout) early
    → cb.last_opened_at + cb.reset_timeout < now
    → let (probed, ok, token) = allow now (knock early cb) in
      let held = knock during probed in
      AllRefused early cb
      × (ok ≡ true)
      × AllRefused during probed
      × ((record_success token held).state ≡ state_closed)
      × ((record_success token held).failures ≡ 0)
      × ((record_failure later token held).state ≡ state_open)
      × ((record_failure later token held).last_opened_at ≡ later)
open_breaker_probes cb early during now later o p s n =
    let (refused, waited) =
      knock_refused early cb (λ soon. soon ≤ cb.last_opened_at + cb.reset_timeout)
        (λ soon before. refused_early cb soon o before) s in
    let probed = (allow now cb).0 in
    let (ok, half_open, good, counted, bad, opened) = probe_settles cb now later o p n in
    let (busy, held) =
      knock_refused during probed (λ t. Unit {0}) (λ t _. refused_probing probed t half_open)
        (always during) in
    rw waited (rw held (refused, ok, busy, good, counted, bad, opened))
