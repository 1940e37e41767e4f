-- ===== src/Store/History.antt =====
-- Every operation that changes the tables, and histories of them. The processes of the service and
-- the concurrent requests touch the tables by these transactions only, so a history in any order
-- covers every interleaving of theirs.
use webhook_delivery_system.Prelude.{ℕ, ◌≢◌, Bool, Option, List, [], ◌∷◌, Text, All}
use webhook_delivery_system.Domain.{Subscription, IngestParams}
use webhook_delivery_system.Store.Sql.{Db, Trip}
use webhook_delivery_system.Store.Lifecycle.{
  Validators, ingest_pending, mark_success, finalize_failure, mark_dropped, reschedule_same_pending,
  claim_pending, fail_and_schedule_retry,
}
use webhook_delivery_system.Store.Recovery.{rearm_lease_less_pending}
use webhook_delivery_system.Store.Dlq.{
  ack_dlq, replay_dlq, delete_expired, prune_idempotency, force_ack_old_dlq,
}
use webhook_delivery_system.Store.Subscriptions.{create_sub, update_sub, rotate_secret, delete_sub}

pub data Op : Type 0 where
  ingests : Validators → IngestParams → Op
  succeeds : ℕ → ℕ → ℕ → Op
  finalizes : ℕ → ℕ → Option ℕ → Text → ℕ → Op
  drops : ℕ → Text → Op
  reschedules : ℕ → ℕ → Op
  claims : ℕ → ℕ → Op
  retries : ℕ → Option ℕ → Text → ℕ → Op
  rearms : (ℕ → Bool) → ℕ → ℕ → Op
  acks : ℕ → ℕ → Op
  replays : ℕ → ℕ → Op
  expires : ℕ → Op
  prunes : ℕ → Op
  force_acks : ℕ → Op
  creates : Subscription → Op
  updates : Subscription → Op
  rotates : ℕ → Text → Op
  deletes : ℕ → Op

unfoldable pub apply : Trip → Op → Db → Db
apply t (ingests v p) db = (ingest_pending v t p db).1
apply t (succeeds id sub http_status) db = (mark_success t id sub http_status db).1
apply t (finalizes id sub http_status details threshold) db =
    (finalize_failure t id sub http_status details threshold db).1
apply t (drops id details) db = (mark_dropped t id details db).1
apply t (reschedules id at) db = (reschedule_same_pending t id at db).1
apply t (claims id lease) db = (claim_pending t id lease db).1
apply t (retries id http_status details at) db =
    (fail_and_schedule_retry t id http_status details at db).1
apply t (rearms locked limit threshold) db =
    (rearm_lease_less_pending locked t limit threshold db).1
apply t (acks sub webhook) db = (ack_dlq t sub webhook db).1
apply t (replays sub webhook) db = (replay_dlq t sub webhook db).1
apply t (expires retention) db = (delete_expired t retention db).1
apply t (prunes ttl) db = (prune_idempotency t ttl db).1
apply t (force_acks max_age) db = (force_ack_old_dlq t max_age db).1
apply t (creates s) db = (create_sub t s db).1
apply t (updates s) db = (update_sub t s db).1
apply t (rotates id secret) db = (rotate_secret t id secret db).1
apply t (deletes id) db = (delete_sub t id db).1

unfoldable pub run : List (Trip × Op) → Db → Db
run [] db = db
run ((t, op) ∷ ops) db = run ops (apply t op db)

-- An ingest brings a webhook id that no row has: it was minted for the request.
abbrev pub IsMinted : Op → Db → Type 0
IsMinted (ingests v p) db = All (λ r. r.webhook_id ≢ p.webhook_id) db.logs
IsMinted _ db = Unit {0}

abbrev pub AllMinted : List (Trip × Op) → Db → Type 0
AllMinted [] db = Unit {0}
AllMinted ((t, op) ∷ ops) db = IsMinted op db × AllMinted ops (apply t op db)

abbrev pub empty_db : Db
empty_db = record { logs = []; subs = []; idem = [] }
