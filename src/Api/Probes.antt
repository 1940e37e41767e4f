-- ===== src/Api/Probes.antt =====
-- internal/api/handler_health.go and internal/api/handler_monitor.go. A ping of a server is its result;
-- the uptime, the time and the latency distribution are given.
use webhook_delivery_system.Prelude.{
  ℕ, Bool, true, false, ◌&&◌, Option, none, some, List, [], ◌∷◌, Text, if◌then◌else◌,
}
use webhook_delivery_system.Domain.{Error, Result, ok, err}
use webhook_delivery_system.Store.Sql.{Db, Trip, Outcome}
use webhook_delivery_system.Registry.{Registry, snapshot}
use webhook_delivery_system.Breaker.{CircuitBreaker, StateName, state_name}
use webhook_delivery_system.Redis.{Redis, queue_depth, dlq_depth}
use webhook_delivery_system.Http.{Response, write_json}
use webhook_delivery_system.Store.Recovery.{StatusCounts, count_by_status_since}
use webhook_delivery_system.Api.Status.{total_of}

-- `probe`: "ok", or the text of the error; and a worker that does not run.
pub data Check : Type 0 where
  passing not_running : Check
  failing : Error → Check

pub data Overall : Type 0 where
  fine degraded ready not_ready : Overall

-- The checks are a map, by "database", "redis" and "worker".
pub record HealthResponse : Type 0 where
  pub status : Overall
  pub checks : List Check

abbrev pub probe : Result (Unit {0}) → Check
probe (ok _) = passing
probe (err e) = failing e

abbrev pub is_passing : Check → Bool
is_passing passing = true
is_passing _ = false

abbrev pub all_passing : List Check → Bool
all_passing [] = true
all_passing (c ∷ cs) = is_passing c && all_passing cs

abbrev pub reported : Overall → Overall → List Check → Response HealthResponse
reported good bad checks =
    if all_passing checks
    then write_json 200 (record { status = good; checks = checks })
    else write_json 503 (record { status = bad; checks = checks })

-- `handleHealth` and `handleReady`
unfoldable pub handle_health : Result (Unit {0}) → Result (Unit {0}) → Response HealthResponse
handle_health database redis = reported fine degraded (probe database ∷ probe redis ∷ [])

abbrev pub worker_check : Bool → Check
worker_check running = if running then passing else not_running

unfoldable pub handle_ready : Result (Unit {0}) → Result (Unit {0}) → Bool → Response HealthResponse
handle_ready database redis running =
    reported ready not_ready (probe database ∷ probe redis ∷ worker_check running ∷ [])

-- `handleMonitor`: an empty map of metrics where the tables cannot be read, else the counts and their
-- total; a depth that cannot be read is 0.
pub record MonitorResponse : Type 0 where
  pub uptime_seconds : ℕ
  pub current_time : ℕ
  pub delivery_metrics : Option (StatusCounts × ℕ)
  pub queue_depth : ℕ
  pub dead_letter_queue_depth : ℕ
  pub circuit_breakers : List (Text × StateName)

abbrev pub metrics_of : Result StatusCounts → Option (StatusCounts × ℕ)
metrics_of (ok n) = some (n, total_of n)
metrics_of (err e) = none

abbrev pub depth_of : Result ℕ → ℕ
depth_of (ok n) = n
depth_of (err e) = 0

-- `BreakerStates` of cmd/server/main.go.
abbrev pub named_states : List (Text × CircuitBreaker) → List (Text × StateName)
named_states [] = []
named_states ((url, cb) ∷ rest) = (url, state_name cb) ∷ named_states rest

abbrev pub breaker_states : Registry Text CircuitBreaker → List (Text × StateName)
breaker_states r = named_states (snapshot r)

unfoldable pub handle_monitor :
    ℕ
    → ℕ
    → Trip
    → Outcome
    → Outcome
    → Db
    → Redis
    → Registry Text CircuitBreaker
    → Response MonitorResponse
unfolding count_by_status_since
handle_monitor uptime now t queued dead db redis breakers = write_json 200 (record {
  uptime_seconds = uptime;
  current_time = now;
  delivery_metrics = metrics_of (count_by_status_since t 0 db).0;
  queue_depth = depth_of (queue_depth queued redis).0;
  dead_letter_queue_depth = depth_of (dlq_depth dead redis).0;
  circuit_breakers = breaker_states breakers;
})
