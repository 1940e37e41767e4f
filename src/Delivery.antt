-- ===== src/Delivery.antt =====
-- internal/worker/delivery.go: one call of `Deliverer.Process`, with nothing else running
-- meanwhile. The response of the target, or the lack of one, is given; Attempt has the request and
-- what is kept of the response. A call that would block for ever is `none`.
pub mod Process
pub mod Attempt
pub mod Permits
pub mod Fixtures
mod Tests
use webhook_delivery_system.Prelude.{
  ℕ, ◌+◌, Bool, true, false, ◌&&◌, Option, none, some, List, [], ◌∷◌, Text, text_eq, text_eq_iff,
  ltb, leb, if◌then◌else◌,
}
use webhook_delivery_system.Domain.{
  DeliveryLog, Subscription, Error, not_found, Result, ok, err, is_pending,
}
use webhook_delivery_system.Store.Sql.{Db, Trip, Outcome}
use webhook_delivery_system.Store.Lifecycle.{
  claim_pending, mark_dropped, fail_and_schedule_retry, reschedule_same_pending,
}
use webhook_delivery_system.Store.Subscriptions.{get_log}
use webhook_delivery_system.Registry.{Key, Slot, Registry, lookup, store, get}
use webhook_delivery_system.RateLimit.Semaphore.{Semaphore, try_acquire, release}
use webhook_delivery_system.Breaker.{CircuitBreaker, record_success, record_failure}
use webhook_delivery_system.Breaker
use webhook_delivery_system.Backoff.{retry_delay}
use webhook_delivery_system.Cache.{
  State, Net, id_key, get_by_id, record_delivery_success, record_final_failure,
}
use webhook_delivery_system.Redis.{Redis, schedule_at, push}

instance abbrev pub url_key : Key Text
url_key = record { same = text_eq; same_iff = text_eq_iff }

pub record DelivererConfig : Type 0 where
  pub visibility_timeout : ℕ
  pub max_retry_attempts : ℕ
  pub retry_base_delay : ℕ
  pub retry_max_delay : ℕ
  pub breaker_reset_timeout : ℕ
  pub auto_disable_threshold : ℕ

-- What the deliverer works on; `sent` lists the rows whose request was sent, `recorded` what the
-- metrics were told, both newest first.
pub record World : Type 0 where
  pub state : State
  pub breakers : Registry Text CircuitBreaker
  pub redis : Redis
  pub sent : List ℕ
  pub recorded : List Bool

-- The round trips, times and response of one call.
pub record Calls : Type 0 where
  pub load : Trip
  pub claim : Trip
  pub reload : Trip
  pub dropped : Trip
  pub requeued : Trip
  pub retried : Trip
  pub fetched : Net
  pub finished : Net
  pub zadd : Outcome
  pub lpush : Outcome
  pub started_at : ℕ
  pub ended_at : ℕ
  pub http_status : Option ℕ
  pub details : Text
  pub rand : ℕ → ℕ

abbrev pub concurrency_backoff : ℕ
concurrency_backoff = 3000000000

-- "subscription deactivated"
abbrev pub deactivated : Text
deactivated =
    115 ∷ 117 ∷ 98 ∷ 115 ∷ 99 ∷ 114 ∷ 105 ∷ 112 ∷ 116 ∷ 105 ∷ 111 ∷ 110 ∷ 32 ∷ 100 ∷ 101 ∷ 97 ∷ 99
    ∷ 116 ∷ 105 ∷ 118 ∷ 97 ∷ 116 ∷ 101 ∷ 100 ∷ []

abbrev pub with_db : Db → World → World
with_db db w = record w { state = record w.state { db = db } }

abbrev pub zadd_at : Calls → ℕ → ℕ → World → World
zadd_at c id at w = record w { redis = (schedule_at c.zadd id at w.redis).1 }

-- `rescheduleNoAttempt`
pub zadd_if_won : Calls → ℕ → ℕ → Result Bool → World → World
zadd_if_won c id at (ok true) w = zadd_at c id at w
zadd_if_won c id at (ok false) w = w
zadd_if_won c id at (err e) w = w

unfoldable pub reschedule_no_attempt : Calls → ℕ → ℕ → World → World
unfolding zadd_if_won
reschedule_no_attempt c id at w =
    let (r, db) = reschedule_same_pending c.requeued id at w.state.db in
    zadd_if_won c id at r (with_db db w)

-- `rescheduleIfNotDue`
pub zadd_if_later : Calls → ℕ → Option ℕ → World → World
zadd_if_later c id none w = w
zadd_if_later c id (some at) w = if ltb c.started_at at then zadd_at c id at w else w

pub zadd_if_pending : Calls → ℕ → Result DeliveryLog → World → World
unfolding zadd_if_later
zadd_if_pending c id (err e) w = w
zadd_if_pending c id (ok cur) w =
    if is_pending cur.status then zadd_if_later c id cur.next_retry_at w else w

unfoldable pub reschedule_if_not_due : Calls → ℕ → World → World
unfolding zadd_if_pending
reschedule_if_not_due c id w = zadd_if_pending c id (get_log c.reload id w.state.db).0 w

-- `handleFailure`
pub retry_scheduled : Calls → ℕ → Result (Option ℕ) → World → Result (Unit {0}) × World
retry_scheduled c at (err e) w = (err e, w)
retry_scheduled c at (ok none) w = (ok tt, w)
retry_scheduled c at (ok (some successor)) w = (ok tt, zadd_at c successor at w)

pub finalized : Calls → ℕ → Result (Bool × Bool) → World → Result (Unit {0}) × World
finalized c id (err e) w = (err e, w)
finalized c id (ok (won, disabled)) w =
    (ok tt, if won then record w { redis = (push c.lpush id w.redis).1 } else w)

unfoldable pub handle_failure :
    DelivererConfig → Calls → DeliveryLog → World → Result (Unit {0}) × World
unfolding retry_scheduled finalized
handle_failure cfg c log w =
    if ltb log.attempt_number cfg.max_retry_attempts
    then (let at =
          c.ended_at
          + retry_delay c.rand log.attempt_number cfg.retry_base_delay cfg.retry_max_delay in
        let (r, db) =
          fail_and_schedule_retry c.retried log.id c.http_status c.details at w.state.db in
        retry_scheduled c at r (with_db db w))
    else (let (r, s) =
          record_final_failure c.finished log.id log.subscription_id c.http_status c.details
            cfg.auto_disable_threshold w.state in
        finalized c log.id r (record w { state = s }))
