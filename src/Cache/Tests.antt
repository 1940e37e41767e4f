-- ===== src/Cache/Tests.antt =====
-- A run of internal/subscription/state.go: a subscription is created and cached, an update commits
-- while Redis refuses the eviction, and the next reads bypass the stale entry.
use webhook_delivery_system.Prelude.{ℕ, ◌+◌, ◌≡◌, ◌≢◌, refl, true, none, List, [], ◌∷◌, Text, arith}
use webhook_delivery_system.Domain.{Subscription, Result, ok, err}
use webhook_delivery_system.Store.Sql.{Outcome, done, refused, lost}
use webhook_delivery_system.Store.Subscriptions.{
  get_sub, create_sub, create_tx, update_sub, change_sub,
}
use webhook_delivery_system.RateLimit
use webhook_delivery_system.RateLimit.Semaphore
use webhook_delivery_system.Registry
use webhook_delivery_system.Cache.{State, Net, get_by_id, is_dirty, create, update, evict_locked}
use webhook_delivery_system.Cache.Coherence.{stored}
use webhook_delivery_system.Cache.Reads.{Returns}
use webhook_delivery_system.Cache.Histories.{Op, perform, run, run-Returns}

abbrev cold : State
cold = record {
  db = record { logs = []; subs = []; idem = [] };
  cache = λ id. none;
  dirty = λ id. none;
  ttl = 300;
  buckets = Registry.new (λ id. RateLimit.new 10 10 0) 100;
  semaphores = Registry.new (λ id. Semaphore.new 5) 100;
}

abbrev draft : Text → Subscription
draft url = record {
  id = 1;
  target_url = url;
  secret_key = 115 ∷ [];
  previous_secret_key = [];
  secret_rotated_at = none;
  event_types = [];
  is_active = true;
  consecutive_failures = 0;
  created_at = 0;
  updated_at = 0;
}

abbrev at : ℕ → Outcome → Net
at now write = record {
  trip = record { outcome = done; now = now; uuid = 1; jsonb = λ text. text };
  read = done;
  write = write;
  checked = now;
  read_at = now + 1;
  write_at = now + 2;
  marked = now + 3;
}

abbrev stale_entry : List (Net × Op)
stale_entry =
    (at 0 done, Op.creates (draft (104 ∷ [])))
    ∷ (at 10 done, Op.reads 1)
    ∷ (at 20 refused, Op.updates (draft (105 ∷ [])))
    ∷ []

url_of : Result Subscription → Text
url_of (ok s) = s.target_url
url_of (err e) = []

new_url_read : url_of (get_by_id (at 30 refused) 1 (run stale_entry cold)).0 ≡ 105 ∷ []
unfolding url_of get_by_id run perform create update create_sub create_tx update_sub change_sub
    get_sub evict_locked is_dirty
new_url_read = refl

not_lost : done ≢ lost
not_lost e = cc

run-Returns_example :
    Returns
      (get_by_id (at 30 refused) 1 (run stale_entry cold)).0
      (stored 1 (run stale_entry cold).db)
run-Returns_example =
    run-Returns 0 stale_entry cold (at 30 refused) 1
      (
        ((omega arith, (omega arith, (omega arith, omega arith))), not_lost),
        (
          ((omega arith, (omega arith, (omega arith, omega arith))), not_lost),
          (((omega arith, (omega arith, (omega arith, omega arith))), not_lost), tt),
        ),
      )
      (record { keyed = λ j. omega arith; coherent = λ id. tt })
      (omega arith, (omega arith, (omega arith, omega arith)))
