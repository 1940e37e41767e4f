-- ===== src/Delivery/Process.antt =====
-- internal/worker/delivery.go: `Deliverer.Process`, from its last step to its first.
use webhook_delivery_system.Prelude.{
  ℕ, ◌+◌, Bool, true, false, ◌&&◌, Option, none, some, ◌∷◌, Text, leb, ltb, if◌then◌else◌,
}
use webhook_delivery_system.Domain.{
  DeliveryLog, Subscription, not_found, Result, ok, err, is_pending,
}
use webhook_delivery_system.Store.Lifecycle.{claim_pending, mark_dropped}
use webhook_delivery_system.Store.Subscriptions.{get_log}
use webhook_delivery_system.Registry.{Slot, Registry, lookup, store, get}
use webhook_delivery_system.RateLimit.Semaphore.{Semaphore, try_acquire, release}
use webhook_delivery_system.Breaker.{CircuitBreaker, record_success, record_failure}
use webhook_delivery_system.Breaker
use webhook_delivery_system.Cache.{id_key, get_by_id, record_delivery_success}
use webhook_delivery_system.Delivery.{
  url_key, DelivererConfig, World, Calls, concurrency_backoff, deactivated, with_db,
  reschedule_no_attempt, reschedule_if_not_due, handle_failure,
}

-- The object that a registry holds for a key is changed in place; an object that was removed from
-- the registry is not seen again.
abbrev pub change_breaker :
    (CircuitBreaker → CircuitBreaker)
    → Text
    → Registry Text CircuitBreaker
    → Registry Text CircuitBreaker
change_breaker f url r = elim (lookup url r.items) [
  | none ↦ r
  | some slot ↦ record r { items = store url (record slot { val = f slot.val }) r.items }
]

abbrev pub is_success : Option ℕ → Bool
is_success none = false
is_success (some status) = leb 200 status && ltb status 300

abbrev pub status_of : Option ℕ → ℕ
status_of none = 0
status_of (some status) = status

abbrev pub report : Bool → ℕ → ℕ → CircuitBreaker → CircuitBreaker
report true now token cb = record_success token cb
report false now token cb = record_failure now token cb

pub succeeded : Result Bool → Result (Unit {0})
succeeded (ok won) = ok tt
succeeded (err e) = err e

-- The attempt, its report to the metrics and the breaker, and what follows from it.
unfoldable pub attempted :
    DelivererConfig → Calls → DeliveryLog → Subscription → ℕ → World → Result (Unit {0}) × World
unfolding succeeded
attempted cfg c log sub token w =
    let success = is_success c.http_status in
    let w' = record w {
      sent = log.id ∷ w.sent;
      recorded = success ∷ w.recorded;
      breakers = change_breaker (report success c.ended_at token) log.target_url w.breakers;
    } in
    if success
    then (let (r, s) =
          record_delivery_success c.finished log.id sub.id (status_of c.http_status) w'.state in
        (succeeded r, record w' { state = s }))
    else handle_failure cfg c log w'

-- The circuit breaker of the target.
unfoldable pub through_breaker :
    DelivererConfig → Calls → DeliveryLog → Subscription → World → Result (Unit {0}) × World
unfolding attempted
through_breaker cfg c log sub w =
    let (reg, cb) = get c.started_at log.target_url w.breakers in
    let (cb', allowed, token) = Breaker.allow c.started_at cb in
    let w' = record w { breakers = change_breaker (λ _. cb') log.target_url reg } in
    if allowed
    then attempted cfg c log sub token w'
    else (ok tt, reschedule_no_attempt c log.id (c.started_at + cfg.breaker_reset_timeout) w')

-- The deferred `sem.Release`, on the object that was acquired: a removed one has the permit alone. Since
-- no other call runs meanwhile, the object is still the one that the registry holds, or was removed.
abbrev pub release_slot :
    ℕ → Registry ℕ Semaphore → Option (Slot Semaphore) → Option (Registry ℕ Semaphore)
release_slot id r none = some r
release_slot id r (some slot) = elim (release slot.val) [
  | none ↦ none
  | some sem ↦ some (record r { items = store id (record slot { val = sem }) r.items })
]

unfoldable pub released : ℕ → Result (Unit {0}) × World → Option (Result (Unit {0}) × World)
released id (r, w) =
    elim (release_slot id w.state.semaphores (lookup id w.state.semaphores.items)) [
      | none ↦ none
      | some reg ↦ some (r, record w { state = record w.state { semaphores = reg } })
    ]

abbrev pub with_semaphores : Registry ℕ Semaphore → World → World
with_semaphores reg w = record w { state = record w.state { semaphores = reg } }

unfoldable pub with_permit :
    DelivererConfig
    → Calls
    → DeliveryLog
    → Subscription
    → World
    → Option (Result (Unit {0}) × World)
unfolding released through_breaker
with_permit cfg c log sub w =
    let (reg, sem) = get c.started_at sub.id w.state.semaphores in
    let (sem', acquired) = try_acquire sem in
    if acquired
    then (let held =
          with_semaphores
            (record reg {
              items = store sub.id (record { val = sem'; last_used = c.started_at }) reg.items;
            })
            w in
        released sub.id (through_breaker cfg c log sub held))
    else some (
      ok tt,
      reschedule_no_attempt c log.id (c.started_at + concurrency_backoff) (with_semaphores reg w),
    )

pub dropped_result : Result Bool → Result (Unit {0})
dropped_result (ok won) = ok tt
dropped_result (err e) = err e

unfoldable pub with_sub :
    DelivererConfig
    → Calls
    → DeliveryLog
    → Result Subscription
    → World
    → Option (Result (Unit {0}) × World)
unfolding with_permit dropped_result
with_sub cfg c log (err not_found) w = some (ok tt, w)
with_sub cfg c log (err e) w = some (err e, w)
with_sub cfg c log (ok sub) w =
    if sub.is_active
    then with_permit cfg c log sub w
    else (let (r, db) = mark_dropped c.dropped log.id deactivated w.state.db in
        some (dropped_result r, with_db db w))

unfoldable pub when_claimed :
    DelivererConfig → Calls → DeliveryLog → Result Bool → World → Option (Result (Unit {0}) × World)
unfolding with_sub
when_claimed cfg c log (err e) w = some (err e, w)
when_claimed cfg c log (ok false) w = some (ok tt, reschedule_if_not_due c log.id w)
when_claimed cfg c log (ok true) w =
    let (r, s) = get_by_id c.fetched log.subscription_id w.state in
    with_sub cfg c log r (record w { state = s })

unfoldable pub when_loaded :
    DelivererConfig → Calls → Result DeliveryLog → World → Option (Result (Unit {0}) × World)
unfolding when_claimed
when_loaded cfg c (err not_found) w = some (ok tt, w)
when_loaded cfg c (err e) w = some (err e, w)
when_loaded cfg c (ok log) w =
    if is_pending log.status
    then (let (claimed, db) = claim_pending c.claim log.id cfg.visibility_timeout w.state.db in
        when_claimed cfg c log claimed (with_db db w))
    else some (ok tt, w)

-- `Process`
unfoldable pub process : DelivererConfig → Calls → ℕ → World → Option (Result (Unit {0}) × World)
unfolding when_loaded
process cfg c id w = when_loaded cfg c (get_log c.load id w.state.db).0 w
