-- ===== src/Delivery/Fixtures.antt =====
-- A deliverer, a subscriber and a pending row, for the runs of the deliverer and of the handlers.
use webhook_delivery_system.Prelude.{ℕ, ◌/◌, Option, none, some, [], ◌∷◌, true}
use webhook_delivery_system.Domain.{Subscription}
use webhook_delivery_system.Store.Sql.{Trip, done}
use webhook_delivery_system.Store.Lifecycle.{new_row}
use webhook_delivery_system.Registry
use webhook_delivery_system.Breaker
use webhook_delivery_system.RateLimit
use webhook_delivery_system.RateLimit.Semaphore
use webhook_delivery_system.Cache.{Net}
use webhook_delivery_system.Delivery.{DelivererConfig, World, Calls}

abbrev pub config : DelivererConfig
config = record {
  visibility_timeout = 60000000000;
  max_retry_attempts = 5;
  retry_base_delay = 1000;
  retry_max_delay = 100000;
  breaker_reset_timeout = 30000;
  auto_disable_threshold = 10;
}

abbrev pub trip : Trip
trip = record { outcome = done; now = 1000; uuid = 3; jsonb = λ text. 32 ∷ text }

abbrev pub net : Net
net = record {
  trip = trip;
  read = done;
  write = done;
  checked = 1000;
  read_at = 1001;
  write_at = 1002;
  marked = 1003;
}

abbrev pub calls : Option ℕ → Calls
calls status = record {
  load = trip;
  claim = trip;
  reload = trip;
  dropped = trip;
  requeued = trip;
  retried = trip;
  fetched = net;
  finished = net;
  zadd = done;
  lpush = done;
  started_at = 1000;
  ended_at = 2000;
  http_status = status;
  details = [];
  rand = λ n. n / 2;
}

abbrev pub subscriber : Subscription
subscriber = record {
  id = 1;
  target_url = 104 ∷ [];
  secret_key = 115 ∷ [];
  previous_secret_key = [];
  secret_rotated_at = none;
  event_types = [];
  is_active = true;
  consecutive_failures = 0;
  created_at = 0;
  updated_at = 0;
}

abbrev pub world : World
world = record {
  state = record {
    db = record {
      logs = new_row (record trip { uuid = 2; now = 5 }) 50 1 (104 ∷ []) [] [] 1 0 (some 5) ∷ [];
      subs = subscriber ∷ [];
      idem = [];
    };
    cache = λ id. none;
    dirty = λ id. none;
    ttl = 300;
    buckets = Registry.new (λ id. RateLimit.new 10 10 0) 100;
    semaphores = Registry.new (λ id. Semaphore.new 1) 100;
  };
  breakers = Registry.new (λ url. Breaker.new 5 100) 100;
  redis = record { queue = []; schedule = []; dlq = [] };
  sent = [];
  recorded = [];
}
