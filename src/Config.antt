-- ===== src/Config.antt =====
-- internal/config/config.go. The environment is a function from names to values, empty where a variable is
-- not set; `time.ParseDuration`, `strconv.ParseBool` and `strings.TrimSpace` are parameters. Ints and
-- durations are int64.
pub mod Load
pub mod Timeouts
mod Tests
use Prim.Native.String.{String}
use webhook_delivery_system.Prelude.{
  ℕ, suc, ◌+◌, ◌-◌, ◌*◌, ◌%◌, Bool, true, false, ◌&&◌, not, Option, none, some, List, [], ◌∷◌, Text,
  text_eq, leb, ltb, if◌then◌else◌, ◌==◌,
}
use webhook_delivery_system.Http.Numbers.{ℤ, pos, negsuc, parse_int}

pub record ConfigLibrary : Type 0 where
  pub trim_space : Text → Text
  pub parse_bool : Text → Option Bool
  pub parse_duration : Text → Option ℤ

pub record Config : Type 0 where
  pub database_url : Text
  pub redis_url : Text
  pub port : Text
  pub webhook_timeout : ℤ
  pub worker_concurrency : ℤ
  pub per_sub_concurrency : ℤ
  pub drain_timeout : ℤ
  pub max_retry_attempts : ℤ
  pub retry_base_delay : ℤ
  pub retry_max_delay : ℤ
  pub visibility_timeout : ℤ
  pub orphan_threshold : ℤ
  pub recovery_scan_interval : ℤ
  pub log_retention : ℤ
  pub dlq_max_age : ℤ
  pub idempotency_ttl : ℤ
  pub cache_ttl : ℤ
  pub registry_idle_ttl : ℤ
  pub rate_limit_per_sec : ℤ
  pub rate_limit_burst : ℤ
  pub breaker_threshold : ℤ
  pub breaker_reset_timeout : ℤ
  pub auto_disable_threshold : ℤ
  pub signature_drift_window : ℤ
  pub secret_grace_window : ℤ
  pub allow_http_urls : Bool
  pub sync_delivery : Bool
  pub enable_pprof : Bool
  pub cors_allowed_origins : List Text
  pub admin_api_key : Text

abbrev pub leb_int : ℤ → ℤ → Bool
leb_int (pos a) (pos b) = leb a b
leb_int (pos a) (negsuc b) = false
leb_int (negsuc a) (pos b) = true
leb_int (negsuc a) (negsuc b) = leb b a

abbrev pub ltb_int : ℤ → ℤ → Bool
ltb_int a b = not (leb_int b a)

-- The addends of `errs`, one for each check.
pub data Problem : Type 0 where
  database_url_required redis_url_required bad_port bad_webhook_timeout : Problem
  bad_worker_concurrency bad_per_sub_concurrency bad_drain_timeout drain_below_webhook : Problem
  bad_max_retry_attempts bad_retry_base_delay bad_retry_max_delay max_below_base : Problem
  visibility_not_above_webhook orphan_below_visibility bad_recovery_scan_interval : Problem
  bad_log_retention bad_dlq_max_age bad_idempotency_ttl ttl_below_drift bad_cache_ttl : Problem
  registry_not_above_webhook bad_rate_limit_per_sec bad_rate_limit_burst : Problem
  bad_breaker_threshold bad_breaker_reset_timeout bad_auto_disable_threshold : Problem
  bad_signature_drift_window bad_secret_grace_window : Problem

abbrev pub failed : List (Bool × Problem) → List Problem
failed [] = []
failed ((holds, p) ∷ rest) = if holds then failed rest else p ∷ failed rest

abbrev pub positive : ℤ → Bool
positive n = ltb_int (pos 0) n

abbrev pub port_ok : Option ℤ → Bool
port_ok none = false
port_ok (some n) = leb_int (pos 1) n && leb_int n (pos 65535)

abbrev pub checks : ConfigLibrary → Config → List (Bool × Problem)
checks l c =
    (not (text_eq (l.trim_space c.database_url) []), database_url_required)
    ∷ (not (text_eq (l.trim_space c.redis_url) []), redis_url_required)
    ∷ (port_ok (parse_int c.port), bad_port)
    ∷ (positive c.webhook_timeout, bad_webhook_timeout)
    ∷ (leb_int (pos 1) c.worker_concurrency, bad_worker_concurrency)
    ∷ (leb_int (pos 1) c.per_sub_concurrency, bad_per_sub_concurrency)
    ∷ (positive c.drain_timeout, bad_drain_timeout)
    ∷ (leb_int c.webhook_timeout c.drain_timeout, drain_below_webhook)
    ∷ (leb_int (pos 1) c.max_retry_attempts, bad_max_retry_attempts)
    ∷ (positive c.retry_base_delay, bad_retry_base_delay)
    ∷ (positive c.retry_max_delay, bad_retry_max_delay)
    ∷ (leb_int c.retry_base_delay c.retry_max_delay, max_below_base)
    ∷ (ltb_int c.webhook_timeout c.visibility_timeout, visibility_not_above_webhook)
    ∷ (leb_int c.visibility_timeout c.orphan_threshold, orphan_below_visibility)
    ∷ (positive c.recovery_scan_interval, bad_recovery_scan_interval)
    ∷ (positive c.log_retention, bad_log_retention)
    ∷ (positive c.dlq_max_age, bad_dlq_max_age)
    ∷ (positive c.idempotency_ttl, bad_idempotency_ttl)
    ∷ (leb_int c.signature_drift_window c.idempotency_ttl, ttl_below_drift)
    ∷ (positive c.cache_ttl, bad_cache_ttl)
    ∷ (ltb_int c.webhook_timeout c.registry_idle_ttl, registry_not_above_webhook)
    ∷ (positive c.rate_limit_per_sec, bad_rate_limit_per_sec)
    ∷ (positive c.rate_limit_burst, bad_rate_limit_burst)
    ∷ (positive c.breaker_threshold, bad_breaker_threshold)
    ∷ (positive c.breaker_reset_timeout, bad_breaker_reset_timeout)
    ∷ (positive c.auto_disable_threshold, bad_auto_disable_threshold)
    ∷ (positive c.signature_drift_window, bad_signature_drift_window)
    ∷ (leb_int (pos 0) c.secret_grace_window, bad_secret_grace_window)
    ∷ []

-- `validate`: the problems, in order.
unfoldable pub validate : ConfigLibrary → Config → List Problem
unfolding parse_int
validate l c = failed (checks l c)

-- A variable that is set and cannot be read is an error.
abbrev pub parse_env : {A : Type 0} → (Text → Option A) → A → Text → Option A
parse_env parse def [] = some def
parse_env parse def (c ∷ v) = parse (c ∷ v)

abbrev pub hour : ℕ
hour = 3600000000000

-- An int64 from its bit pattern, and `time.Duration(n) * time.Hour`, which wraps around.
abbrev pub from_bits : ℕ → ℤ
from_bits m = if ltb m 9223372036854775808 then pos m else negsuc (18446744073709551615 - m)

abbrev pub hours_of : ℤ → ℤ
hours_of (pos n) = from_bits (n * hour % 18446744073709551616)
hours_of (negsuc n) =
    from_bits ((18446744073709551616 - suc n * hour % 18446744073709551616) % 18446744073709551616)

abbrev pub hours_option : Option ℤ → Option ℤ
hours_option none = none
hours_option (some n) = some (hours_of n)

abbrev pub or_default : Text → Text → Text
or_default [] def = def
or_default (c ∷ v) def = c ∷ v

-- `strings.Split` at the commas, and the parts that are not blank.
abbrev pub split_parts : Text → Text × List Text
split_parts [] = ([], [])
split_parts (c ∷ s) =
    let (first, rest) = split_parts s in if c == 44 then ([], first ∷ rest) else (c ∷ first, rest)

abbrev pub given_parts : (Text → Text) → List Text → List Text
given_parts trim [] = []
given_parts trim (t ∷ ts) =
    if text_eq (trim t) [] then given_parts trim ts else trim t ∷ given_parts trim ts

abbrev pub csv_of : (Text → Text) → Text × List Text → List Text
csv_of trim (first, rest) = given_parts trim (first ∷ rest)

-- The readers of one variable: `getEnv`, `parseEnvInt`, `parseEnvBool`, `parseEnvDuration`,
-- `parseEnvHours` and `getEnvCSV`. An unset list of origins is empty.
module _ (l : ConfigLibrary) (env : String → Text) where
  abbrev pub get_env : String → Text → Text
  get_env key def = or_default (env key) def

  unfoldable pub parse_env_int : String → ℤ → Option ℤ
  unfolding parse_int
  parse_env_int key def = parse_env parse_int def (l.trim_space (env key))

  unfoldable pub parse_env_bool : String → Bool → Option Bool
  parse_env_bool key def = parse_env l.parse_bool def (l.trim_space (env key))

  unfoldable pub parse_env_duration : String → ℕ → Option ℤ
  parse_env_duration key def = parse_env l.parse_duration (pos def) (l.trim_space (env key))

  unfoldable pub parse_env_hours : String → ℕ → Option ℤ
  unfolding parse_int
  parse_env_hours key def =
      parse_env (λ v. hours_option (parse_int v)) (pos def) (l.trim_space (env key))

  abbrev pub get_env_csv : String → List Text
  get_env_csv key =
      if text_eq (l.trim_space (env key)) []
      then []
      else csv_of l.trim_space (split_parts (l.trim_space (env key)))
