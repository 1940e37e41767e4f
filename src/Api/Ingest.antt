-- ===== src/Api/Ingest.antt =====
-- `handleIngest` of internal/api/handler_ingest.go, from its last step to its first. A request whose
-- synchronous delivery would block for ever is `none`.
pub mod Admission
pub mod Durability
use webhook_delivery_system.Prelude.{
  ℕ, Bool, true, false, ◌||◌, not, Option, none, some, [], Text, text_eq, if◌then◌else◌,
}
use webhook_delivery_system.Domain.{
  Subscription, DeliveryLog, IngestParams, IngestResult, timestamp_out_of_window, invalid_input,
  infrastructure, Result, ok, err, accepts_event,
}
use webhook_delivery_system.Store.Lifecycle.{ingest_pending, validate_event_type}
use webhook_delivery_system.Store.Subscriptions.{get_log}
use webhook_delivery_system.Signature.{valid_idempotency_key}
use webhook_delivery_system.Redis.{enqueue}
use webhook_delivery_system.Cache.{id_key, get_by_id}
use webhook_delivery_system.Cache
use webhook_delivery_system.Delivery.{World, with_db}
use webhook_delivery_system.Delivery.Process.{process}
use webhook_delivery_system.Http.{
  Read, content, too_large, broken, read_all, write_json, write_error, write_domain_error,
}
use webhook_delivery_system.Api.{Libraries, Options, IngestRequest, IngestCalls}
use webhook_delivery_system.Api.Dto.{
  Answer, ingested, IngestResponse, IngestStatus, ignored, repeated, accepted, persisted, delivered,
}
use webhook_delivery_system.Api.Verification.{verify_ingest}

abbrev pub ingest_max_bytes : ℕ
ingest_max_bytes = 65536

abbrev pub answer : ℕ → Option ℕ → Option ℕ → IngestStatus → Bool → Answer
answer status webhook_id delivery_id outcome duplicate = write_json status (
    ingested (record {
      webhook_id = webhook_id;
      delivery_id = delivery_id;
      status = outcome;
      duplicate = duplicate;
    }))

-- The persisted outcome of a synchronous delivery; "delivered" where it cannot be read.
abbrev pub outcome_of : Result DeliveryLog → IngestStatus
outcome_of (ok d) = persisted d.status
outcome_of (err e) = delivered

abbrev pub after_process :
    IngestCalls → ℕ → ℕ → Option (Result (Unit {0}) × World) → Option (Answer × World)
after_process c webhook_id id none = none
after_process c webhook_id id (some (err e, w)) = some (write_error 500 "delivery error", w)
after_process c webhook_id id (some (ok _, w)) = some (
  answer 200 (some webhook_id) (some id) (outcome_of (get_log c.reloaded id w.state.db).0) false,
  w,
)

-- Deliver in the request, or enqueue: a failure to enqueue leaves the row to the recovery scan.
unfoldable pub deliver_or_enqueue : Options → IngestCalls → ℕ → ℕ → World → Option (Answer × World)
unfolding process
deliver_or_enqueue o c webhook_id id w =
    if o.sync_delivery
    then after_process c webhook_id id (process o.deliverer c.delivered id w)
    else some (
      answer 202 (some webhook_id) (some id) accepted false,
      record w { redis = (enqueue c.enqueued id w.redis).1 },
    )

-- A result without an id is a duplicate.
abbrev pub delivery : Options → IngestCalls → ℕ → Option ℕ → World → Option (Answer × World)
delivery o c webhook_id none w = some (answer 200 (some webhook_id) none repeated true, w)
delivery o c webhook_id (some id) w = deliver_or_enqueue o c webhook_id id w

abbrev pub after_insert :
    Options → IngestCalls → Result IngestResult → World → Option (Answer × World)
after_insert o c (err e) w = some (write_domain_error e, w)
after_insert o c (ok res) w =
    if res.duplicate
    then some (answer 200 (some res.webhook_id) none repeated true, w)
    else delivery o c res.webhook_id res.delivery_log_id w

abbrev pub params : IngestRequest → Subscription → Text → ℕ → IngestParams
params q sub body webhook_id = record {
  subscription_id = sub.id;
  idempotency_key = q.idempotency_key;
  webhook_id = webhook_id;
  target_url = sub.target_url;
  payload = body;
  event_type = q.event_type;
}

unfoldable pub insert :
    Libraries
    → Options
    → IngestCalls
    → IngestRequest
    → Subscription
    → Text
    → Option ℕ
    → World
    → Option (Answer × World)
unfolding deliver_or_enqueue
insert l o c q sub body none w = some (write_domain_error infrastructure, w)
insert l o c q sub body (some webhook_id) w =
    let (r, db) =
      ingest_pending l.validators c.inserted (params q sub body webhook_id) w.state.db in
    after_insert o c r (with_db db w)

-- After the rate limit: the payload, the event type and the filter of the subscription.
unfoldable pub admitted :
    Libraries
    → Options
    → IngestCalls
    → IngestRequest
    → Subscription
    → Text
    → World
    → Option (Answer × World)
unfolding insert
admitted l o c q sub body w =
    if not (l.validators.json_valid body)
    then some (write_error 400 "payload must be valid JSON", w)
    else if not (validate_event_type l.validators q.event_type)
    then some (write_domain_error invalid_input, w)
    else if not (accepts_event sub q.event_type)
    then some (answer 202 none none ignored false, w)
    else insert l o c q sub body c.minted w

unfoldable pub authenticated :
    Libraries
    → Options
    → IngestCalls
    → IngestRequest
    → Subscription
    → Text
    → Result (Unit {0})
    → World
    → Option (Answer × World)
unfolding admitted
authenticated l o c q sub body (err timestamp_out_of_window) w =
    some (write_error 400 "timestamp outside the allowed drift window", w)
authenticated l o c q sub body (err e) w = some (write_error 401 "signature verification failed", w)
authenticated l o c q sub body (ok _) w =
    let (s, within) = Cache.allow l.product c.admitted_at sub.id w.state in
    if within
    then admitted l o c q sub body (record w { state = s })
    else some (write_error 429 "rate limit exceeded", record w { state = s })

unfoldable pub with_body :
    Libraries
    → Options
    → IngestCalls
    → IngestRequest
    → Subscription
    → Read
    → World
    → Option (Answer × World)
unfolding authenticated
with_body l o c q sub too_large w = some (write_error 413 "payload exceeds 64KB limit", w)
with_body l o c q sub broken w = some (write_error 400 "could not read request body", w)
with_body l o c q sub (content body) w =
    authenticated l o c q sub body
      (verify_ingest l.mac o c.checked_at c.graced_at sub body q.timestamp q.idempotency_key
        q.signature)
      w

unfoldable pub with_subscription :
    Libraries
    → Options
    → IngestCalls
    → IngestRequest
    → Result Subscription
    → World
    → Option (Answer × World)
unfolding with_body read_all
with_subscription l o c q (err e) w = some (write_domain_error e, w)
with_subscription l o c q (ok sub) w =
    if not sub.is_active
    then some (write_error 403 "subscription is inactive", w)
    else if text_eq q.signature [] || text_eq q.timestamp []
    then some (write_error 400 "missing X-Hub-Signature-256 or Webhook-Timestamp header", w)
    else if not (valid_idempotency_key q.idempotency_key)
    then some (write_error 400 "invalid X-Idempotency-Key (must match [A-Za-z0-9_-]{1,128})", w)
    else with_body l o c q sub (read_all ingest_max_bytes q.body) w

unfoldable pub handle_ingest :
    Libraries → Options → IngestCalls → IngestRequest → World → Option (Answer × World)
unfolding with_subscription get_by_id
handle_ingest l o c q w =
    let (r, s) = get_by_id c.fetched q.subscription_id w.state in
    with_subscription l o c q r (record w { state = s })
