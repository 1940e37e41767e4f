-- ===== src/Delivery/Permits/Held.antt =====
-- What leaves the taken permits of internal/worker/delivery.go as they are.
use webhook_delivery_system.Prelude.{
  ℕ, ◌+◌, ◌≡◌, refl, Bool, true, false, Option, none, some, ltb, ◌==◌, inl, inr, Bool-cases,
}
use webhook_delivery_system.Domain.{DeliveryLog, Subscription, Result, ok, err}
use webhook_delivery_system.Store.Sql.{Db, Outcome, done, refused, lost}
use webhook_delivery_system.Store.Lifecycle.{finalize_failure}
use webhook_delivery_system.Registry.{Slot, Registry, lookup, get, remove}
use webhook_delivery_system.Registry.Laws.{lookup-delete}
use webhook_delivery_system.RateLimit.Semaphore.{Semaphore}
use webhook_delivery_system.Breaker
use webhook_delivery_system.Cache.{
  State, Net, id_key, evict_locked, reset_runtime, success_result, failure_result,
  record_delivery_success, record_final_failure,
}
use webhook_delivery_system.Delivery.{
  url_key, DelivererConfig, World, Calls, zadd_if_won, reschedule_no_attempt, retry_scheduled,
  finalized, handle_failure,
}
use webhook_delivery_system.Delivery.Process.{
  attempted, through_breaker, is_success, change_breaker,
}

-- The permits that are taken of a semaphore, if the registry holds it.
abbrev pub Taken : ℕ → Option (Slot Semaphore) → Type 0
Taken n none = Unit
Taken n (some slot) = slot.val.tokens ≡ n

abbrev pub Holds : ℕ → ℕ → Registry ℕ Semaphore → Type 0
Holds id n r = Taken n (lookup id r.items)

remove-Holds : (id n j : ℕ) (r : Registry ℕ Semaphore) → Holds id n r → Holds id n (remove j r)
unfolding remove
remove-Holds id n j r h =
    rw (lookup-delete j id r.items)
      (elim (Bool-cases (j == id)) [ inl hit ↦ rw hit tt | inr miss ↦ rw miss h ])

evict_semaphores :
    (w : Outcome) (now id : ℕ) (s : State) → (evict_locked w now id s).semaphores ≡ s.semaphores
unfolding evict_locked
evict_semaphores done now id s = refl
evict_semaphores refused now id s = refl
evict_semaphores lost now id s = refl

success_semaphores :
    (n : Net) (id : ℕ) (s : State) (r : Result (Bool × Bool) × Db)
    → (success_result n id s r).1.semaphores ≡ s.semaphores
unfolding success_result
success_semaphores n id s (err e, db) = refl
success_semaphores n id s (ok (won, true), db) = evict_semaphores n.write n.marked id _
success_semaphores n id s (ok (won, false), db) = refl

module _ (key n : ℕ) where
  failure-Holds :
      (net : Net) (id : ℕ) (s : State) (r : Result (Bool × Bool) × Db)
      → Holds key n s.semaphores
      → Holds key n (failure_result net id s r).1.semaphores
  unfolding failure_result reset_runtime
  failure-Holds net id s (err e, db) h = h
  failure-Holds net id s (ok (true, true), db) h =
      remove-Holds key n id _
        (rw (evict_semaphores net.write net.marked id (record s { db = db })) h)
  failure-Holds net id s (ok (true, false), db) h =
      rw (evict_semaphores net.write net.marked id (record s { db = db })) h
  failure-Holds net id s (ok (false, true), db) h = remove-Holds key n id s.semaphores h
  failure-Holds net id s (ok (false, false), db) h = h

  zadd-Holds :
      (c : Calls) (id at : ℕ) (r : Result Bool) (w : World)
      → Holds key n w.state.semaphores
      → Holds key n (zadd_if_won c id at r w).state.semaphores
  unfolding zadd_if_won
  zadd-Holds c id at (ok true) w h = h
  zadd-Holds c id at (ok false) w h = h
  zadd-Holds c id at (err e) w h = h

  pub reschedule-Holds :
      (c : Calls) (id at : ℕ) (w : World)
      → Holds key n w.state.semaphores
      → Holds key n (reschedule_no_attempt c id at w).state.semaphores
  unfolding reschedule_no_attempt
  reschedule-Holds c id at w h = zadd-Holds c id at _ _ h

  retried-Holds :
      (c : Calls) (at : ℕ) (r : Result (Option ℕ)) (w : World)
      → Holds key n w.state.semaphores
      → Holds key n (retry_scheduled c at r w).1.state.semaphores
  unfolding retry_scheduled
  retried-Holds c at (err e) w h = h
  retried-Holds c at (ok none) w h = h
  retried-Holds c at (ok (some id)) w h = h

  finalized-Holds :
      (c : Calls) (id : ℕ) (r : Result (Bool × Bool)) (w : World)
      → Holds key n w.state.semaphores
      → Holds key n (finalized c id r w).1.state.semaphores
  unfolding finalized
  finalized-Holds c id (err e) w h = h
  finalized-Holds c id (ok (true, d)) w h = h
  finalized-Holds c id (ok (false, d)) w h = h

  handle_failure-Holds :
      (cfg : DelivererConfig) (c : Calls) (log : DeliveryLog) (w : World)
      → Holds key n w.state.semaphores
      → Holds key n (handle_failure cfg c log w).1.state.semaphores
  unfolding handle_failure record_final_failure
  handle_failure-Holds cfg c log w h =
      elim (Bool-cases (ltb log.attempt_number cfg.max_retry_attempts)) [
        | inl more ↦ rw more (retried-Holds c _ _ _ h)
        | inr last ↦ rw last (
            finalized-Holds c log.id _ _ (
              failure-Holds c.finished log.subscription_id w.state
                (finalize_failure c.finished.trip log.id log.subscription_id c.http_status c.details
                  cfg.auto_disable_threshold w.state.db)
                h))
      ]

  attempted-Holds :
      (cfg : DelivererConfig) (c : Calls) (log : DeliveryLog) (sub : Subscription) (token : ℕ)
      (w : World)
      → Holds key n w.state.semaphores
      → Holds key n (attempted cfg c log sub token w).1.state.semaphores
  unfolding attempted record_delivery_success
  attempted-Holds cfg c log sub token w h = elim (Bool-cases (is_success c.http_status)) [
    | inl good ↦ rw good (rw (success_semaphores c.finished sub.id w.state _) h)
    | inr bad ↦ rw bad (handle_failure-Holds cfg c log _ h)
  ]

  pub through_breaker-Holds :
      (cfg : DelivererConfig) (c : Calls) (log : DeliveryLog) (sub : Subscription) (w : World)
      → Holds key n w.state.semaphores
      → Holds key n (through_breaker cfg c log sub w).1.state.semaphores
  unfolding through_breaker
  through_breaker-Holds cfg c log sub w h =
      let g = get c.started_at log.target_url w.breakers in
      let a = Breaker.allow c.started_at g.1 in
      let w' : World = record w { breakers = change_breaker (λ _. a.0) log.target_url g.0 } in
      elim (Bool-cases a.1) [
        | inl allowed ↦ rw allowed (attempted-Holds cfg c log sub a.2 w' h)
        | inr denied ↦
            rw denied (reschedule-Holds c log.id (c.started_at + cfg.breaker_reset_timeout) w' h)
      ]
