-- ===== src/Delivery/Permits.antt =====
-- The permit of a delivery is given back on every branch.
pub mod Held
use webhook_delivery_system.Prelude.{
  ℕ, zero, suc, ◌+◌, ◌<◌, ◌≡◌, subst, sym, refl, Bool, true, false, Option, none, some, arith, ltb,
  ◌==◌, ==_iff, inl, inr, Bool-cases,
}
use webhook_delivery_system.Domain.{
  DeliveryLog, Subscription, not_found, Result, ok, err, is_pending,
}
use webhook_delivery_system.Store.Sql.{Db, Outcome, done, refused, lost}
use webhook_delivery_system.Store.Lifecycle.{finalize_failure}
use webhook_delivery_system.Registry.{Slot, Registry, lookup, store, get, remove}
use webhook_delivery_system.Registry.Laws.{lookup-store, lookup-delete}
use webhook_delivery_system.RateLimit.Semaphore.{Semaphore, try_acquire, release, receive}
use webhook_delivery_system.Breaker
use webhook_delivery_system.Delivery.Permits.Held.{
  Taken, Holds, reschedule-Holds, through_breaker-Holds,
}
use webhook_delivery_system.Cache.Controls.{get_by_id_semaphores}
use webhook_delivery_system.Cache.{
  get_by_id, State, Net, id_key, evict_locked, reset_runtime, success_result, failure_result,
  record_delivery_success, record_final_failure,
}
use webhook_delivery_system.Delivery.{
  url_key, DelivererConfig, World, Calls, concurrency_backoff, zadd_if_later, zadd_if_pending,
  reschedule_if_not_due, zadd_if_won, reschedule_no_attempt, retry_scheduled, finalized,
  handle_failure,
}
use webhook_delivery_system.Delivery.Process.{
  attempted, through_breaker, release_slot, released, with_permit, with_sub, when_claimed,
  when_loaded, process, is_success, change_breaker, with_semaphores,
}

-- The permits that a caller who gets the key's semaphore finds taken.
abbrev pub permits_of : Semaphore → Option (Slot Semaphore) → ℕ
permits_of fresh none = fresh.tokens
permits_of fresh (some slot) = slot.val.tokens

abbrev pub permits : ℕ → Registry ℕ Semaphore → ℕ
permits key r = permits_of (r.create key) (lookup key r.items)

-- For every key, the registry holds no semaphore any more, or one with as many permits taken.
abbrev pub IsKept : Registry ℕ Semaphore → Registry ℕ Semaphore → Type 0
IsKept before after = (key : ℕ) → Holds key (permits key before) after

-- A call comes to an end, with the permits that it found.
abbrev pub Settles : Registry ℕ Semaphore → Option (Result (Unit {0}) × World) → Type 0
Settles before o =
    (out : Result (Unit {0}) × World) × (o ≡ some out) × IsKept before out.1.state.semaphores

permits-Taken : (fresh : Semaphore) (o : Option (Slot Semaphore)) → Taken (permits_of fresh o) o
permits-Taken fresh none = tt
permits-Taken fresh (some slot) = refl

unchanged : (before : Registry ℕ Semaphore) → IsKept before before
unchanged before key = permits-Taken (before.create key) (lookup key before.items)

settled :
    (r : Result (Unit {0})) (w : World) (before : Registry ℕ Semaphore)
    → w.state.semaphores ≡ before
    → Settles before (some (r, w))
settled r w before e = ((r, w), refl, subst (IsKept before) (sym e) (unchanged before))

-- What `get` finds, as a number of permits.
get-permits :
    (now id : ℕ) (r : Registry ℕ Semaphore) (o : Option (Slot Semaphore))
    → lookup id r.items ≡ o
    → (get now id r).1.tokens ≡ permits id r
unfolding get
get-permits now id r none e = rw e refl
get-permits now id r (some slot) e = rw e refl

-- Storing a semaphore under one key leaves the others.
store-Holds :
    (id key n : ℕ) (slot : Slot Semaphore) (r : Registry ℕ Semaphore)
    → (id == key) ≡ false
    → Holds key n r
    → Taken n (lookup key (store id slot r.items))
store-Holds id key n slot r miss h = rw (lookup-store id key slot r.items) (rw miss h)

stored-Holds :
    (id n : ℕ) (slot : Slot Semaphore) (r : Registry ℕ Semaphore)
    → slot.val.tokens ≡ n
    → Taken n (lookup id (store id slot r.items))
stored-Holds id n slot r h = rw (lookup-store id id slot r.items) (rw ((==_iff id id).1 refl) h)

same_key : (id key : ℕ) → (id == key) ≡ true → id ≡ key
same_key id key h = (==_iff id key).0 h

releases :
    (n tokens : ℕ) (s : Semaphore)
    → tokens ≡ suc n
    → (s' : Semaphore) × (receive tokens s ≡ some s') × (s'.tokens ≡ n)
unfolding receive
releases n zero s h = absurd (omega (arith, h))
releases n (suc m) s h = (record s { tokens = m }, refl, omega (arith, h))

-- A permit that is held can be given back, and the other keys are left.
release_slot-Holds :
    (id n : ℕ) (r : Registry ℕ Semaphore) (o : Option (Slot Semaphore))
    → lookup id r.items ≡ o
    → Taken (suc n) o
    → (r' : Registry ℕ Semaphore) × (release_slot id r o ≡ some r')
      × Holds id n r'
      × ((key m : ℕ) → (id == key) ≡ false → Holds key m r → Holds key m r')
release_slot-Holds id n r none e h = (r, refl, rw e tt, λ key m miss k. k)
release_slot-Holds id n r (some slot) e h =
    let (s, given, left) = releases n slot.val.tokens slot.val h in
    let back : release slot.val ≡ some s = unfold release in given in
    (
      record r { items = store id (record slot { val = s }) r.items },
      rw (back, release_slot) refl,
      stored-Holds id n (record slot { val = s }) r left,
      λ key m miss k. store-Holds id key m (record slot { val = s }) r miss k,
    )

released-Settles :
    (id : ℕ) (before : Registry ℕ Semaphore) (r : Result (Unit {0})) (w : World)
    → Holds id (suc (permits id before)) w.state.semaphores
    → ((key : ℕ) → (id == key) ≡ false → Holds key (permits key before) w.state.semaphores)
    → Settles before (released id (r, w))
unfolding released
released-Settles id before r w mine others =
    let (reg, e, back, kept) =
      release_slot-Holds id (permits id before) w.state.semaphores
        (lookup id w.state.semaphores.items) refl mine in
    rw (e, released)
      (
        (r, record w { state = record w.state { semaphores = reg } }),
        refl,
        λ key. elim (Bool-cases (id == key)) [
          | inl hit ↦ subst (λ i. Holds i (permits i before) reg) (same_key id key hit) back
          | inr miss ↦ kept key (permits key before) miss (others key miss)
        ],
      )

-- The registry after a `get`, and after the acquisition of a permit.
got-Holds : (now id key : ℕ) (r : Registry ℕ Semaphore) → Holds key (permits key r) (get now id r).0
got-Holds now id key r = elim (Bool-cases (id == key)) [
  | inl hit ↦
      subst (λ i. Holds i (permits i r) (get now id r).0) (same_key id key hit)
        (unfold get in
          stored-Holds id (permits id r) _ r (get-permits now id r (lookup id r.items) refl))
  | inr miss ↦ unfold get in store-Holds id key (permits key r) _ r miss (unchanged r key)
]

with_permit-Settles :
    (cfg : DelivererConfig) (c : Calls) (log : DeliveryLog) (sub : Subscription) (w : World)
    → Settles w.state.semaphores (with_permit cfg c log sub w)
unfolding with_permit try_acquire
with_permit-Settles cfg c log sub w =
    let before = w.state.semaphores in
    let g = get c.started_at sub.id before in
    let slot : Slot Semaphore = record {
      val = record g.1 { tokens = g.1.tokens + 1 };
      last_used = c.started_at;
    } in
    let held : World = with_semaphores (record g.0 { items = store sub.id slot g.0.items }) w in
    let waiting : World = with_semaphores g.0 w in
    let found = get-permits c.started_at sub.id before (lookup sub.id before.items) refl in
    elim (Bool-cases (ltb g.1.tokens g.1.capacity)) [
      | inl free ↦ rw free (
          released-Settles sub.id before (through_breaker cfg c log sub held).0
            (through_breaker cfg c log sub held).1
            (through_breaker-Holds sub.id (suc (permits sub.id before)) cfg c log sub held
              (stored-Holds sub.id (suc (permits sub.id before)) slot g.0 (omega (arith, found))))
            (λ key miss. through_breaker-Holds key (permits key before) cfg c log sub held (
              store-Holds sub.id key (permits key before) slot g.0 miss
                (got-Holds c.started_at sub.id key before))))
      | inr full ↦ rw full (
          (
            _,
            refl,
            λ key.
                reschedule-Holds key (permits key before) c log.id
                  (c.started_at + concurrency_backoff) waiting
                  (got-Holds c.started_at sub.id key before),
          ))
    ]

with_sub-Settles :
    (cfg : DelivererConfig) (c : Calls) (log : DeliveryLog) (r : Result Subscription) (w : World)
    → Settles w.state.semaphores (with_sub cfg c log r w)
unfolding with_sub
with_sub-Settles cfg c log (err not_found) w = settled _ w _ refl
with_sub-Settles cfg c log (err x) w = settled _ w _ refl
with_sub-Settles cfg c log (ok sub) w = elim (Bool-cases sub.is_active) [
  | inl active ↦ rw active (with_permit-Settles cfg c log sub w)
  | inr inactive ↦ rw inactive (settled _ _ _ refl)
]

later_semaphores :
    (c : Calls) (id : ℕ) (due : Option ℕ) (w : World)
    → (zadd_if_later c id due w).state.semaphores ≡ w.state.semaphores
unfolding zadd_if_later
later_semaphores c id none w = refl
later_semaphores c id (some at) w = elim (Bool-cases (ltb c.started_at at)) [
  | inl ahead ↦ rw ahead refl
  | inr past ↦ rw past refl
]

pending_semaphores :
    (c : Calls) (id : ℕ) (r : Result DeliveryLog) (w : World)
    → (zadd_if_pending c id r w).state.semaphores ≡ w.state.semaphores
unfolding zadd_if_pending
pending_semaphores c id (err e) w = refl
pending_semaphores c id (ok cur) w = elim (Bool-cases (is_pending cur.status)) [
  | inl pending ↦ rw pending (later_semaphores c id cur.next_retry_at w)
  | inr handled ↦ rw handled refl
]

not_due_semaphores :
    (c : Calls) (id : ℕ) (w : World)
    → (reschedule_if_not_due c id w).state.semaphores ≡ w.state.semaphores
unfolding reschedule_if_not_due
not_due_semaphores c id w = pending_semaphores c id _ w

when_claimed-Settles :
    (cfg : DelivererConfig) (c : Calls) (log : DeliveryLog) (r : Result Bool) (w : World)
    → Settles w.state.semaphores (when_claimed cfg c log r w)
unfolding when_claimed
when_claimed-Settles cfg c log (err x) w = settled _ w _ refl
when_claimed-Settles cfg c log (ok false) w = settled _ _ _ (not_due_semaphores c log.id w)
when_claimed-Settles cfg c log (ok true) w =
    let (r, s) = get_by_id c.fetched log.subscription_id w.state in
    subst (λ b. Settles b (with_sub cfg c log r (record w { state = s })))
      (get_by_id_semaphores c.fetched log.subscription_id w.state)
      (with_sub-Settles cfg c log r (record w { state = s }))

when_loaded-Settles :
    (cfg : DelivererConfig) (c : Calls) (r : Result DeliveryLog) (w : World)
    → Settles w.state.semaphores (when_loaded cfg c r w)
unfolding when_loaded
when_loaded-Settles cfg c (err not_found) w = settled _ w _ refl
when_loaded-Settles cfg c (err x) w = settled _ w _ refl
when_loaded-Settles cfg c (ok log) w = elim (Bool-cases (is_pending log.status)) [
  | inl pending ↦ rw pending (when_claimed-Settles cfg c log _ _)
  | inr handled ↦ rw handled (settled _ w _ refl)
]

-- One call of the deliverer comes to an end on every branch, whatever the database, Redis, the
-- target and the tables do, and it gives back exactly the permit that it took: afterwards the semaphore of
-- every subscription has as many permits taken as before, unless it was dropped with the
-- subscription's controls.
pub process-returns :
    (cfg : DelivererConfig) (c : Calls) (id : ℕ) (w : World)
    → Settles w.state.semaphores (process cfg c id w)
unfolding process
process-returns cfg c id w = when_loaded-Settles cfg c _ w
