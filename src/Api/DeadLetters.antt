-- ===== src/Api/DeadLetters.antt =====
-- internal/api/handler_dlq.go: replaying and acknowledging a dead letter.
pub mod Claims
use webhook_delivery_system.Prelude.{ℕ, Option, none, some}
use webhook_delivery_system.Domain.{Result, ok, err}
use webhook_delivery_system.Store.Sql.{Db, Trip, Outcome}
use webhook_delivery_system.Store.Dlq.{ack_dlq, replay_dlq}
use webhook_delivery_system.Redis.{enqueue, lrem}
use webhook_delivery_system.Delivery.{World, with_db}
use webhook_delivery_system.Http.{write_json, write_error, write_domain_error}
use webhook_delivery_system.Api.Dto.{Answer, replaying, acknowledged}

abbrev pub no_entry : Answer
no_entry = write_error 404 "no DLQ entry for that subscription and webhook"

-- After the commit, the new chain is queued and the old id leaves the list; failures are logged.
abbrev pub after_replay : Outcome → Outcome → ℕ → Result (Option (ℕ × ℕ)) → World → Answer × World
after_replay queued removed webhook_id (err e) w = (write_domain_error e, w)
after_replay queued removed webhook_id (ok none) w = (no_entry, w)
after_replay queued removed webhook_id (ok (some (claimed_id, new_id))) w = (
  write_json 202 (replaying webhook_id new_id),
  record w { redis = (lrem removed claimed_id (enqueue queued new_id w.redis).1).1 },
)

-- `handleReplay`
unfoldable pub handle_replay : Trip → Outcome → Outcome → ℕ → ℕ → World → Answer × World
unfolding replay_dlq
handle_replay t queued removed subscription_id webhook_id w =
    let (r, db) = replay_dlq t subscription_id webhook_id w.state.db in
    after_replay queued removed webhook_id r (with_db db w)

abbrev pub after_ack : Outcome → ℕ → Result (Option ℕ) → World → Answer × World
after_ack removed webhook_id (err e) w = (write_domain_error e, w)
after_ack removed webhook_id (ok none) w = (no_entry, w)
after_ack removed webhook_id (ok (some claimed_id)) w = (
  write_json 200 (acknowledged webhook_id),
  record w { redis = (lrem removed claimed_id w.redis).1 },
)

-- `handleAckDLQ`
unfoldable pub handle_ack_dlq : Trip → Outcome → ℕ → ℕ → World → Answer × World
unfolding ack_dlq
handle_ack_dlq t removed subscription_id webhook_id w =
    let (r, db) = ack_dlq t subscription_id webhook_id w.state.db in
    after_ack removed webhook_id r (with_db db w)
