-- ===== src/Cache.antt =====
-- internal/subscription/state.go: the boundary of subscription state. The tables are those of
-- Store; a Redis entry is a subscription, or unreadable bytes, with its expiry. The operations on
-- one subscription run under its stripe's lock, so each is one step; what happens at which time
-- inside it is in its `Net`.
pub mod Controls
pub mod Coherence
pub mod Effects
pub mod Reads
pub mod Mutations
pub mod Histories
mod Tests
use webhook_delivery_system.Prelude.{
  ℕ, ◌+◌, ◌≡◌, Bool, true, false, ◌&&◌, not, Option, none, some, List, [], ◌∷◌, Text, ltb,
  if◌then◌else◌, ◌==◌, ==_iff,
}
use webhook_delivery_system.Domain.{RecoveryCursor, Subscription, Error, not_found, Result, ok, err}
use webhook_delivery_system.Store.Sql.{Db, Trip, Outcome, done, refused, lost}
use webhook_delivery_system.Store.Lifecycle.{mark_success, finalize_failure}
use webhook_delivery_system.Store.Subscriptions.{
  list_subs, get_sub, create_sub, update_sub, rotate_secret, delete_sub,
}
use webhook_delivery_system.Registry.{Key, Registry, lookup, store, get, remove, sweep}
use webhook_delivery_system.Registry
use webhook_delivery_system.RateLimit.{Product, TokenBucket}
use webhook_delivery_system.RateLimit
use webhook_delivery_system.RateLimit.Semaphore
use webhook_delivery_system.RateLimit.Semaphore.{Semaphore}

instance abbrev pub id_key : Key ℕ
id_key = record { same = ◌==◌; same_iff = ==_iff }

pub record Entry : Type 0 where
  pub value : Option Subscription  -- `none`: not the JSON of a subscription
  pub expires : ℕ

pub record State : Type 0 where
  pub db : Db
  pub cache : ℕ → Option Entry
  pub dirty : ℕ → Option ℕ
  pub ttl : ℕ
  pub buckets : Registry ℕ TokenBucket
  pub semaphores : Registry ℕ Semaphore

-- What the servers and the clock do during one operation: the database trip, the read and the
-- write of Redis, and the times of the dirty check, the read, the write and the dirty mark.
pub record Net : Type 0 where
  pub trip : Trip
  pub read : Outcome
  pub write : Outcome
  pub checked : ℕ
  pub read_at : ℕ
  pub write_at : ℕ
  pub marked : ℕ

abbrev pub assign : {A : Type 0} → (ℕ → A) → ℕ → A → ℕ → A
assign f k v j = if j == k then v else f j

abbrev pub mark_dirty : ℕ → ℕ → State → State
mark_dirty now id s = record s { dirty = assign s.dirty id (some (now + s.ttl)) }

abbrev pub clear_dirty : ℕ → State → State
clear_dirty id s = record s { dirty = assign s.dirty id none }

-- `isDirty`: a mark whose time has passed is removed.
pub dirty_at : ℕ → ℕ → State → Option ℕ → State × Bool
dirty_at now id s none = (s, false)
dirty_at now id s (some until) = if ltb until now then (clear_dirty id s, false) else (s, true)

unfoldable pub is_dirty : ℕ → ℕ → State → State × Bool
unfolding dirty_at
is_dirty now id s = dirty_at now id s (s.dirty id)

-- DEL and what the caller does with its result.
unfoldable pub evict_locked : Outcome → ℕ → ℕ → State → State
evict_locked done now id s = clear_dirty id (record s { cache = assign s.cache id none })
evict_locked refused now id s = mark_dirty now id s
evict_locked lost now id s = mark_dirty now id (record s { cache = assign s.cache id none })

-- A live entry that is readable.
abbrev pub visible : ℕ → Option Entry → Option Subscription
visible now none = none
visible now (some e) = if ltb now e.expires then e.value else none

-- The part of `GetByID` after the cache: read the repository and write the cache.
pub evict_missing : Outcome → ℕ → State → State
evict_missing done id s = clear_dirty id (record s { cache = assign s.cache id none })
evict_missing refused id s = s
evict_missing lost id s = record s { cache = assign s.cache id none }

pub on_error : Error → Outcome → ℕ → State → State
unfolding evict_missing
on_error not_found o id s = evict_missing o id s
on_error _ o id s = s

pub cached : Outcome → ℕ → ℕ → ℕ → Subscription → State → State
cached done now marked id sub s = clear_dirty id (record s {
  cache = assign s.cache id (some (record { value = some sub; expires = now + s.ttl }));
})
cached refused now marked id sub s = mark_dirty marked id s
cached lost now marked id sub s = mark_dirty marked id (record s {
  cache = assign s.cache id (some (record { value = some sub; expires = now + s.ttl }));
})

pub after_read : Net → ℕ → State → Result Subscription → Result Subscription × State
unfolding on_error cached
after_read n id s (ok sub) = (ok sub, cached n.write n.write_at n.marked id sub s)
after_read n id s (err e) = (err e, on_error e n.write id s)

pub refill : Net → ℕ → State → Result Subscription × State
unfolding after_read
refill n id s = after_read n id s (get_sub n.trip id s.db).0

pub hit_or : Net → ℕ → State → Option Subscription → Result Subscription × State
unfolding refill
hit_or n id s none = refill n id s
hit_or n id s (some sub) = (ok sub, s)

-- A Redis error other than a missing key falls back to the repository alone.
pub read_cache : Outcome → Net → ℕ → State → Result Subscription × State
unfolding hit_or
read_cache done n id s = hit_or n id s (visible n.read_at (s.cache id))
read_cache _ n id s = ((get_sub n.trip id s.db).0, s)

pub read_clean : Net → ℕ → State × Bool → Result Subscription × State
unfolding read_cache refill
read_clean n id (s, true) = refill n id s
read_clean n id (s, false) = read_cache n.read n id s

-- `GetByID`
unfoldable pub get_by_id : Net → ℕ → State → Result Subscription × State
unfolding read_clean is_dirty
get_by_id n id s = read_clean n id (is_dirty n.checked id s)

-- `resetRuntime`
unfoldable pub reset_runtime : ℕ → State → State
reset_runtime id s = record s { buckets = remove id s.buckets; semaphores = remove id s.semaphores }

-- The mutations: the transaction, and the eviction when it returned no error.
pub evict_if_ok : {A : Type 0} → Net → ℕ → State → Result A × Db → Result A × State
evict_if_ok n id s (ok a, db) = (ok a, evict_locked n.write n.marked id (record s { db = db }))
evict_if_ok n id s (err e, db) = (err e, record s { db = db })

pub created_id : ℕ → Result Subscription → ℕ
created_id id (ok sub) = sub.id
created_id id (err e) = id

-- The insert, which the source runs before it takes the lock, and the eviction are one step.
unfoldable pub create : Net → Subscription → State → Result Subscription × State
unfolding evict_if_ok created_id evict_locked
create n sub s =
    let r = create_sub n.trip sub s.db in evict_if_ok n (created_id n.trip.uuid r.0) s r

unfoldable pub update : Net → Subscription → State → Result Subscription × State
unfolding evict_if_ok evict_locked
update n sub s = evict_if_ok n sub.id s (update_sub n.trip sub s.db)

unfoldable pub rotate : Net → ℕ → Text → State → Result Subscription × State
unfolding evict_if_ok evict_locked
rotate n id new_secret s = evict_if_ok n id s (rotate_secret n.trip id new_secret s.db)

pub reset_if_ok : {A : Type 0} → ℕ → Result A × State → Result A × State
unfolding reset_runtime
reset_if_ok id (ok a, s) = (ok a, reset_runtime id s)
reset_if_ok id (err e, s) = (err e, s)

unfoldable pub delete : Net → ℕ → State → Result (Unit {0}) × State
unfolding evict_if_ok reset_if_ok evict_locked
delete n id s = reset_if_ok id (evict_if_ok n id s (delete_sub n.trip id s.db))

-- `RecordDeliverySuccess`: evicts only when the failure counter was reset.
unfoldable pub success_result : Net → ℕ → State → Result (Bool × Bool) × Db → Result Bool × State
unfolding evict_locked
success_result n id s (err e, db) = (err e, record s { db = db })
success_result n id s (ok (won, changed), db) = (
  ok won,
  if changed then evict_locked n.write n.marked id (record s { db = db }) else record s { db = db },
)

unfoldable pub record_delivery_success : Net → ℕ → ℕ → ℕ → State → Result Bool × State
unfolding success_result
record_delivery_success n id subscription_id http_status s =
    success_result n subscription_id s (mark_success n.trip id subscription_id http_status s.db)

-- `RecordFinalFailure`: evicts when the transition won, and resets the runtime when it disabled.
unfoldable pub failure_result :
    Net → ℕ → State → Result (Bool × Bool) × Db → Result (Bool × Bool) × State
unfolding evict_locked reset_runtime
failure_result n id s (err e, db) = (err e, record s { db = db })
failure_result n id s (ok (won, disabled), db) =
    let s' = record s { db = db } in
    let evicted = if won then evict_locked n.write n.marked id s' else s' in
    (ok (won, disabled), if disabled then reset_runtime id evicted else evicted)

unfoldable pub record_final_failure :
    Net → ℕ → ℕ → Option ℕ → Text → ℕ → State → Result (Bool × Bool) × State
unfolding failure_result
record_final_failure n id subscription_id http_status details threshold s =
    failure_result n subscription_id s
      (finalize_failure n.trip id subscription_id http_status details threshold s.db)

-- `Allow`: the bucket of the subscription is created or found, and changed in place.
put_back : {V : Type 0} → ℕ → ℕ → V → Registry ℕ V → Registry ℕ V
put_back now id v r = record r { items = store id (record { val = v; last_used = now }) r.items }

unfoldable pub allow : Product → ℕ → ℕ → State → State × Bool
unfolding put_back
allow p now id s =
    let (r, bucket) = get now id s.buckets in
    let (bucket', admitted) = RateLimit.allow p now bucket in
    (record s { buckets = put_back now id bucket' r }, admitted)

-- `Sweep`
unfoldable pub sweep_all : ℕ → State → State × ℕ
sweep_all now s =
    let (b, n) = sweep now s.buckets in
    let (m, k) = sweep now s.semaphores in (record s { buckets = b; semaphores = m }, n + k)

-- `New`, over what Redis and the tables hold already. A bucket is created full when it is first used;
-- here its last refill is the time `now` of the construction, which its first refill replaces.
unfoldable pub new : Db → (ℕ → Option Entry) → ℕ → ℕ → ℕ → ℕ → ℕ → ℕ → State
new db cache cache_ttl registry_idle_ttl rate_limit_per_sec rate_limit_burst concurrency_limit now =
    record {
      db = db;
      cache = cache;
      dirty = λ id. none;
      ttl = cache_ttl;
      buckets =
          Registry.new (λ id. RateLimit.new rate_limit_per_sec rate_limit_burst now)
            registry_idle_ttl;
      semaphores = Registry.new (λ id. Semaphore.new concurrency_limit) registry_idle_ttl;
    }

-- `Semaphore`
unfoldable pub semaphore : ℕ → ℕ → State → State × Semaphore
semaphore now id s = let (r, sem) = get now id s.semaphores in (record s { semaphores = r }, sem)

-- `List`
unfoldable pub list :
    Trip → ℕ → Option RecoveryCursor → State → Result (List Subscription × Option RecoveryCursor)
list t limit after s = (list_subs t limit after s.db).0
