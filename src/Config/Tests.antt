-- ===== src/Config/Tests.antt =====
-- Runs of internal/config/config.go.
use webhook_delivery_system.Prelude.{
  List, ◌<◌, ◌+◌, ◌*◌, ◌≡◌, refl, true, false, none, [], ◌∷◌, arith,
}
use webhook_delivery_system.Domain.{ok}
use webhook_delivery_system.Store.Sql.{Trip, second}
use webhook_delivery_system.Store.Lifecycle.{claim_pending}
use webhook_delivery_system.Delivery.Fixtures.{trip, world}
use webhook_delivery_system.Http.Numbers.{pos}
use webhook_delivery_system.Config.{
  ConfigLibrary, Config, database_url_required, redis_url_required, validate, hours_of, hour,
  get_env_csv,
}
use webhook_delivery_system.Config.Load.{invalid_values, load}
use webhook_delivery_system.Store.History.{Op, run}
use webhook_delivery_system.Config.Timeouts.{claim_outlives_timeout}

abbrev library : ConfigLibrary
library = record { trim_space = λ t. t; parse_bool = λ t. none; parse_duration = λ t. none }

-- With nothing set, the two required variables are missing.
nothing_set :
    load library (λ key. []) ≡ invalid_values database_url_required (redis_url_required ∷ [])
unfolding load
nothing_set = refl

-- The origins "a,,b".
two_origins :
    get_env_csv library (λ key. 97 ∷ 44 ∷ 44 ∷ 98 ∷ []) "CORS_ALLOWED_ORIGINS"
    ≡ (97 ∷ []) ∷ (98 ∷ []) ∷ []
two_origins = refl

-- So many hours that their nanoseconds wrap around to 25 minutes.
wrapped_hours : hours_of (pos 5124096) ≡ pos 1526290448384
wrapped_hours = refl

abbrev defaults : Config
defaults = record {
  database_url = 100 ∷ [];
  redis_url = 114 ∷ [];
  port = 56 ∷ 48 ∷ 56 ∷ 48 ∷ [];
  webhook_timeout = pos (10 * second);
  worker_concurrency = pos 50;
  per_sub_concurrency = pos 5;
  drain_timeout = pos (30 * second);
  max_retry_attempts = pos 5;
  retry_base_delay = pos (10 * second);
  retry_max_delay = pos (900 * second);
  visibility_timeout = pos (60 * second);
  orphan_threshold = pos (900 * second);
  recovery_scan_interval = pos (300 * second);
  log_retention = pos (72 * hour);
  dlq_max_age = pos (720 * hour);
  idempotency_ttl = pos (300 * second);
  cache_ttl = pos (300 * second);
  registry_idle_ttl = pos hour;
  rate_limit_per_sec = pos 100;
  rate_limit_burst = pos 200;
  breaker_threshold = pos 5;
  breaker_reset_timeout = pos (30 * second);
  auto_disable_threshold = pos 5;
  signature_drift_window = pos (300 * second);
  secret_grace_window = pos (24 * hour);
  allow_http_urls = false;
  sync_delivery = false;
  enable_pprof = false;
  cors_allowed_origins = [];
  admin_api_key = [];
}

defaults_pass : validate library defaults ≡ []
unfolding validate
defaults_pass = refl

claimed : (claim_pending trip 2 (60 * second) world.state.db).0 ≡ ok true
unfolding claim_pending
claimed = refl

-- A second claim, ten seconds later. Meanwhile another deliverer drops the row 9 and claims the row 4.
abbrev meanwhile : List (Trip × Op)
meanwhile = (trip, Op.drops 9 []) ∷ (record trip { now = 3000 }, Op.claims 4 (60 * second)) ∷ []

claim_outlives_timeout_example :
    let db' = run meanwhile (claim_pending trip 2 (60 * second) world.state.db).1 in
    let later : Trip = record trip { now = 1000 + 10 * second } in
    (10 * second < 60 * second)
    × ((claim_pending later 2 1 db').0 ≡ ok false)
    × ((claim_pending later 2 1 db').1.logs ≡ db'.logs)
claim_outlives_timeout_example =
    claim_outlives_timeout library defaults (60 * second) (10 * second) trip
      (record trip { now = 1000 + 10 * second }) 2 1 2000 meanwhile world.state.db defaults_pass
      refl refl refl (omega arith) claimed (omega arith) (tt, (omega arith, tt)) refl (omega arith)
