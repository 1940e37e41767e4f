-- ===== src/Store/Dlq.antt =====
-- internal/store/dlq.go: acknowledging and replaying dead letters, and retention.
use webhook_delivery_system.Prelude.{
  ℕ, ◌+◌, Bool, false, ◌&&◌, not, Option, none, some, List, ◌==◌, ltb, select, map,
}
use webhook_delivery_system.Domain.{DeliveryLog, Result, ok, err, is_pending}
use webhook_delivery_system.Store.Sql.{
  Idempotency, Db, Trip, in_tx, update_where, affected, delete_where, query_row, log_by_id,
  seconds_arg,
}
use webhook_delivery_system.Store.Lifecycle.{new_row, insert_copy}

-- WHERE subscription_id = $1 AND webhook_id = $2 AND in_dlq = TRUE
abbrev pub dead_letter : ℕ → ℕ → DeliveryLog → Bool
dead_letter subscription_id webhook_id r =
    r.subscription_id == subscription_id && (r.webhook_id == webhook_id && r.in_dlq)

abbrev pub clear_dlq : Trip → DeliveryLog → DeliveryLog
clear_dlq t r = record r { in_dlq = false; updated_at = t.now }

unfoldable pub cleared : Trip → ℕ → ℕ → Db → Db
cleared t subscription_id webhook_id db = record db {
  logs = update_where (dead_letter subscription_id webhook_id) (clear_dlq t) db.logs;
}

-- `AckDLQ`: the id of the first row that the UPDATE returns; `none` is `ok=false`.
unfoldable pub ack_tx : Trip → ℕ → ℕ → Db → Result (Option ℕ) × Db
unfolding cleared
ack_tx t subscription_id webhook_id db =
    elim (query_row (dead_letter subscription_id webhook_id) db.logs) [
      | none ↦ (ok none, db)
      | some r ↦ (ok (some r.id), cleared t subscription_id webhook_id db)
    ]

unfoldable pub ack_dlq : Trip → ℕ → ℕ → Db → Result (Option ℕ) × Db
unfolding in_tx ack_tx
ack_dlq t subscription_id webhook_id db = in_tx t (ack_tx t subscription_id webhook_id) db

-- The first row of a new chain.
abbrev pub replay_row : Trip → ℕ → DeliveryLog → DeliveryLog
replay_row t replay r =
    new_row t r.webhook_id r.subscription_id r.target_url r.payload r.event_type 1 replay
      (some t.now)

-- `ReplayDLQ`: the old id and the new.
unfoldable pub replay_tx : Trip → ℕ → ℕ → Db → Result (Option (ℕ × ℕ)) × Db
unfolding cleared insert_copy
replay_tx t subscription_id webhook_id db =
    elim (query_row (dead_letter subscription_id webhook_id) db.logs) [
      | none ↦ (ok none, db)
      | some claimed ↦
          let (r, db') =
            insert_copy claimed.id (replay_row t (claimed.replay_number + 1))
              (cleared t subscription_id webhook_id db) in
          elim r [ err e ↦ (err e, db') | ok id ↦ (ok (some (claimed.id, id)), db') ]
    ]

unfoldable pub replay_dlq : Trip → ℕ → ℕ → Db → Result (Option (ℕ × ℕ)) × Db
unfolding in_tx replay_tx
replay_dlq t subscription_id webhook_id db = in_tx t (replay_tx t subscription_id webhook_id) db

-- `DeleteExpired`
abbrev pub expired : ℕ → ℕ → DeliveryLog → Bool
expired now retention r =
    ltb (r.created_at + retention) now && (not r.in_dlq && not (is_pending r.status))

unfoldable pub delete_expired : Trip → ℕ → Db → Result ℕ × Db
unfolding in_tx seconds_arg
delete_expired t retention db =
    let old = expired t.now (seconds_arg retention) in
    in_tx t (λ d. (ok (affected old d.logs), record d { logs = delete_where old d.logs })) db

-- `PruneIdempotency`
abbrev pub stale_key : ℕ → ℕ → Idempotency → Bool
stale_key now ttl i = ltb (i.created_at + ttl) now

unfoldable pub prune_idempotency : Trip → ℕ → Db → Result ℕ × Db
unfolding in_tx seconds_arg
prune_idempotency t ttl db =
    let old = stale_key t.now (seconds_arg ttl) in
    in_tx t (λ d. (ok (affected old d.idem), record d { idem = delete_where old d.idem })) db

-- `ListInDLQ`
unfoldable pub list_in_dlq : Trip → Db → Result (List ℕ) × Db
unfolding in_tx
list_in_dlq t db = in_tx t (λ d. (ok (map (λ r. r.id) (select (λ r. r.in_dlq) d.logs)), d)) db

-- `IsInDLQ`: a row that is gone is not in the queue.
unfoldable pub flag_of : Option DeliveryLog → Bool
flag_of none = false
flag_of (some r) = r.in_dlq

unfoldable pub is_in_dlq : Trip → ℕ → Db → Result Bool × Db
unfolding in_tx flag_of
is_in_dlq t id db = in_tx t (λ d. (ok (flag_of (query_row (log_by_id id) d.logs)), d)) db

-- `ForceAckOldDLQ`
abbrev pub aged : ℕ → ℕ → DeliveryLog → Bool
aged now max_age r = r.in_dlq && ltb (r.updated_at + max_age) now

unfoldable pub force_ack_old_dlq : Trip → ℕ → Db → Result (List ℕ) × Db
unfolding in_tx seconds_arg
force_ack_old_dlq t max_age db =
    let old = aged t.now (seconds_arg max_age) in
    in_tx t
      (λ d. (
        ok (map (λ r. r.id) (select old d.logs)),
        record d { logs = update_where old (clear_dlq t) d.logs },
      ))
      db
