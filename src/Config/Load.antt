-- ===== src/Config/Load.antt =====
-- `Load` of internal/config/config.go.
use Prim.Native.String.{String}
use webhook_delivery_system.Prelude.{◌*◌, false, Option, none, some, List, [], ◌∷◌, Text}
use webhook_delivery_system.Http.Numbers.{pos}
use webhook_delivery_system.Store.Sql.{second}
use webhook_delivery_system.Config.{
  ConfigLibrary, Config, Problem, validate, hour, get_env, parse_env_int, parse_env_bool,
  parse_env_duration, parse_env_hours, get_env_csv,
}

pub data Loaded : Type 0 where
  loaded : Config → Loaded
  invalid_environment : Loaded
  invalid_values : Problem → List Problem → Loaded

infixl 5 ◌>>=◌
abbrev pub ◌>>=◌ : {A B : Type 0} → Option A → (A → Option B) → Option B
none >>= f = none
some a >>= f = f a

-- Every variable is read before an unreadable one is reported.
unfoldable pub read_config : ConfigLibrary → (String → Text) → Option Config
unfolding parse_env_int parse_env_bool parse_env_duration parse_env_hours
read_config l env = do
  webhook_timeout ← parse_env_duration l env "WEBHOOK_TIMEOUT" (10 * second)
  worker_concurrency ← parse_env_int l env "WORKER_CONCURRENCY" (pos 50)
  per_sub_concurrency ← parse_env_int l env "PER_SUB_CONCURRENCY" (pos 5)
  drain_timeout ← parse_env_duration l env "DRAIN_TIMEOUT" (30 * second)
  max_retry_attempts ← parse_env_int l env "MAX_RETRY_ATTEMPTS" (pos 5)
  retry_base_delay ← parse_env_duration l env "RETRY_BASE_DELAY" (10 * second)
  retry_max_delay ← parse_env_duration l env "RETRY_MAX_DELAY" (900 * second)
  visibility_timeout ← parse_env_duration l env "VISIBILITY_TIMEOUT" (60 * second)
  orphan_threshold ← parse_env_duration l env "ORPHAN_THRESHOLD" (900 * second)
  recovery_scan_interval ← parse_env_duration l env "RECOVERY_SCAN_INTERVAL" (300 * second)
  log_retention ← parse_env_hours l env "LOG_RETENTION_HOURS" (72 * hour)
  dlq_max_age ← parse_env_duration l env "DLQ_MAX_AGE" (720 * hour)
  idempotency_ttl ← parse_env_duration l env "IDEMPOTENCY_TTL" (300 * second)
  cache_ttl ← parse_env_duration l env "CACHE_TTL" (300 * second)
  registry_idle_ttl ← parse_env_duration l env "REGISTRY_IDLE_TTL" hour
  rate_limit_per_sec ← parse_env_int l env "RATE_LIMIT_PER_SEC" (pos 100)
  rate_limit_burst ← parse_env_int l env "RATE_LIMIT_BURST" (pos 200)
  breaker_threshold ← parse_env_int l env "BREAKER_THRESHOLD" (pos 5)
  breaker_reset_timeout ← parse_env_duration l env "BREAKER_RESET_TIMEOUT" (30 * second)
  auto_disable_threshold ← parse_env_int l env "AUTO_DISABLE_THRESHOLD" (pos 5)
  signature_drift_window ← parse_env_duration l env "SIGNATURE_DRIFT_WINDOW" (300 * second)
  secret_grace_window ← parse_env_duration l env "SECRET_GRACE_WINDOW" (24 * hour)
  allow_http_urls ← parse_env_bool l env "ALLOW_HTTP_URLS" false
  sync_delivery ← parse_env_bool l env "SYNC_DELIVERY" false
  enable_pprof ← parse_env_bool l env "ENABLE_PPROF" false
  some (record {
    database_url = env "DATABASE_URL";
    redis_url = env "REDIS_URL";
    port = get_env l env "PORT" (56 ∷ 48 ∷ 56 ∷ 48 ∷ []);
    webhook_timeout = webhook_timeout;
    worker_concurrency = worker_concurrency;
    per_sub_concurrency = per_sub_concurrency;
    drain_timeout = drain_timeout;
    max_retry_attempts = max_retry_attempts;
    retry_base_delay = retry_base_delay;
    retry_max_delay = retry_max_delay;
    visibility_timeout = visibility_timeout;
    orphan_threshold = orphan_threshold;
    recovery_scan_interval = recovery_scan_interval;
    log_retention = log_retention;
    dlq_max_age = dlq_max_age;
    idempotency_ttl = idempotency_ttl;
    cache_ttl = cache_ttl;
    registry_idle_ttl = registry_idle_ttl;
    rate_limit_per_sec = rate_limit_per_sec;
    rate_limit_burst = rate_limit_burst;
    breaker_threshold = breaker_threshold;
    breaker_reset_timeout = breaker_reset_timeout;
    auto_disable_threshold = auto_disable_threshold;
    signature_drift_window = signature_drift_window;
    secret_grace_window = secret_grace_window;
    allow_http_urls = allow_http_urls;
    sync_delivery = sync_delivery;
    enable_pprof = enable_pprof;
    cors_allowed_origins = get_env_csv l env "CORS_ALLOWED_ORIGINS";
    admin_api_key = env "ADMIN_API_KEY";
  })

abbrev pub validated : Config → List Problem → Loaded
validated c [] = loaded c
validated c (p ∷ ps) = invalid_values p ps

abbrev pub of_read : ConfigLibrary → Option Config → Loaded
of_read l none = invalid_environment
of_read l (some c) = validated c (validate l c)

-- `Load`
unfoldable pub load : ConfigLibrary → (String → Text) → Loaded
unfolding read_config validate
load l env = of_read l (read_config l env)
