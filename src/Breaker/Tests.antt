-- ===== src/Breaker/Tests.antt =====
-- Runs of the circuit breaker of internal/infra/breaker/circuit_breaker.go.
use webhook_delivery_system.Prelude.{ℕ, ◌≤◌, ◌<◌, ◌≡◌, refl, true, false, List, [], ◌∷◌, arith}
use webhook_delivery_system.Breaker.{
  state_closed, state_open, CircuitBreaker, new, allow, record_success, record_failure,
}
use webhook_delivery_system.Breaker.Sessions.{
  Action, asks, succeeds, fails, take_out, step, run, fresh, Agrees, run-new-Agrees,
}
use webhook_delivery_system.Breaker.Tripping.{
  fail_times, Counting, trips_at_threshold, knock, AllRefused, open_breaker_probes,
}
use webhook_delivery_system.Breaker.Spec.{closed, spec_run}
use webhook_delivery_system.Breaker.Refinement.{Refines, run-Refines}

-- Three requests, two failures that trip the breaker, a probe, a late report and the probe's.
abbrev outage : List Action
outage = asks 0 ∷ asks 1 ∷ asks 2 ∷ fails 0 5 ∷ fails 1 6 ∷ asks 20 ∷ succeeds 1 ∷ succeeds 0 ∷ []

outage_closes : (run (fresh 2 10) outage).breaker.state ≡ state_closed
unfolding run step take_out allow record_success record_failure new
outage_closes = refl

run-new-Agrees_example :
    let s = run (fresh 2 10) outage in
    Agrees s.breaker.state s.breaker s.tokens × (s.breaker.failures ≤ s.breaker.threshold)
run-new-Agrees_example = run-new-Agrees 2 10 outage (omega arith) (omega arith) (omega arith)

trips_at_threshold_example :
    ((k : ℕ) → k < 3 → Counting 3 k (fail_times 7 k (new 3 60)))
    × ((fail_times 7 3 (new 3 60)).state ≡ state_open)
trips_at_threshold_example = trips_at_threshold 2 60 7 (omega arith)

abbrev open_breaker : CircuitBreaker
open_breaker = record {
  state = state_open;
  failures = 2;
  last_opened_at = 100;
  generation = 4;
  probing = false;
  threshold = 2;
  reset_timeout = 30;
}

open_breaker_probes_example :
    let (probed, ok, token) = allow 140 (knock (105 ∷ 110 ∷ []) open_breaker) in
    let held = knock (150 ∷ 160 ∷ []) probed in
    AllRefused (105 ∷ 110 ∷ []) open_breaker
    × (ok ≡ true)
    × AllRefused (150 ∷ 160 ∷ []) probed
    × ((record_success token held).state ≡ state_closed)
    × ((record_success token held).failures ≡ 0)
    × ((record_failure 170 token held).state ≡ state_open)
    × ((record_failure 170 token held).last_opened_at ≡ 170)
open_breaker_probes_example =
    open_breaker_probes open_breaker (105 ∷ 110 ∷ []) (150 ∷ 160 ∷ []) 140 170 refl refl
      (omega arith, (omega arith, tt)) (omega arith)

-- Two failures open the breaker, a late success is not counted, the probe's is.
run-Refines_example :
    Refines 2 30
      (run
        (fresh 2 30)
        (asks 1 ∷ asks 2 ∷ asks 3 ∷ fails 0 4 ∷ fails 0 5 ∷ succeeds 0 ∷ asks 50 ∷ succeeds 0 ∷ []))
      (spec_run 2 30
        (record { phase = closed 0; current = [] })
        (asks 1 ∷ asks 2 ∷ asks 3 ∷ fails 0 4 ∷ fails 0 5 ∷ succeeds 0 ∷ asks 50 ∷ succeeds 0 ∷ []))
run-Refines_example =
    run-Refines 2 30
      (asks 1 ∷ asks 2 ∷ asks 3 ∷ fails 0 4 ∷ fails 0 5 ∷ succeeds 0 ∷ asks 50 ∷ succeeds 0 ∷ [])
      (omega arith) (omega arith) (omega arith)
