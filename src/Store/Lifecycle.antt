-- ===== src/Store/Lifecycle.antt =====
-- internal/store/delivery_lifecycle.go: the transactions of a delivery attempt. Each takes the
-- round trip `t` that stands for the environment, and returns the tables after it.
use webhook_delivery_system.Prelude.{
  ℕ, ◌+◌, Bool, true, false, ◌&&◌, not, Option, none, some, [], ◌∷◌, Text, if◌then◌else◌, ◌==◌, ltb,
  leb, text_eq, length,
}
use webhook_delivery_system.Domain.{
  pending, success, failed_attempt, final_failure, DeliveryLog, Subscription, IngestParams,
  IngestResult, not_found, invalid_input, infrastructure, Result, ok, err, is_pending,
  max_target_url_length, max_event_type_length,
}
use webhook_delivery_system.Store.Sql.{
  Idempotency, Db, Trip, in_tx, update_where, affected, query_row, log_by_id, sub_by_id,
  seconds_arg, insert_log,
}

-- What the ingest validation takes from the standard library.
pub record Validators : Type 0 where
  pub json_valid : Text → Bool  -- json.Valid
  pub utf8_valid : Text → Bool  -- utf8.ValidString
  pub rune_count : Text → ℕ  -- utf8.RuneCountInString

-- `ValidateEventType`
unfoldable pub validate_event_type : Validators → Text → Bool
validate_event_type v event_type =
    v.utf8_valid event_type && leb (v.rune_count event_type) max_event_type_length

-- WHERE id = $1 AND status = 'pending'
abbrev pub pending_by_id : ℕ → DeliveryLog → Bool
pending_by_id id r = r.id == id && is_pending r.status

-- The row that an ingest, a retry or a replay inserts.
abbrev pub new_row : Trip → ℕ → ℕ → Text → Text → Text → ℕ → ℕ → Option ℕ → DeliveryLog
new_row t webhook_id subscription_id target_url payload event_type attempt replay due = record {
  id = t.uuid;
  webhook_id = webhook_id;
  subscription_id = subscription_id;
  target_url = target_url;
  payload = payload;
  event_type = event_type;
  attempt_number = attempt;
  replay_number = replay;
  status = pending;
  http_status = none;
  error_details = [];
  next_retry_at = due;
  in_dlq = false;
  created_at = t.now;
  updated_at = t.now;
}

abbrev pub idem_by_key : ℕ → Text → Idempotency → Bool
idem_by_key subscription_id key i =
    i.subscription_id == subscription_id && text_eq i.idempotency_key key

unfoldable pub insert_pending : Trip → IngestParams → Db → Result IngestResult × Db
unfolding insert_log
insert_pending t p db =
    let (r, db') =
      insert_log not_found
        (new_row t p.webhook_id p.subscription_id p.target_url (t.jsonb p.payload) p.event_type 1 0
          (some t.now))
        db in
    elim r [
      | err e ↦ (err e, db')
      | ok id ↦ (
        ok (record { webhook_id = p.webhook_id; delivery_log_id = some id; duplicate = false }),
        db',
      )
    ]

-- INSERT … ON CONFLICT DO NOTHING on the idempotency key, and the branch on what it returned.
unfoldable pub claim_key : Trip → IngestParams → Db → Result IngestResult × Db
unfolding insert_pending
claim_key t p db = elim (query_row (idem_by_key p.subscription_id p.idempotency_key) db.idem) [
  | some i ↦
      (ok (record { webhook_id = i.webhook_id; delivery_log_id = none; duplicate = true }), db)
  | none ↦ elim (query_row (sub_by_id p.subscription_id) db.subs) [
    | none ↦ (err not_found, db)
    | some s ↦
        let row : Idempotency = record {
          subscription_id = p.subscription_id;
          idempotency_key = p.idempotency_key;
          webhook_id = p.webhook_id;
          created_at = t.now;
        } in
        insert_pending t p (record db { idem = row ∷ db.idem })
  ]
]

unfoldable pub ingest_tx : Trip → IngestParams → Db → Result IngestResult × Db
unfolding claim_key
ingest_tx t p db = if text_eq p.idempotency_key [] then insert_pending t p db else claim_key t p db

-- `IngestPending`
unfoldable pub ingest_pending : Validators → Trip → IngestParams → Db → Result IngestResult × Db
unfolding in_tx ingest_tx validate_event_type
ingest_pending v t p db =
    if not (v.json_valid p.payload)
    then (err invalid_input, db)
    else if ltb max_target_url_length (length p.target_url)
    then (err invalid_input, db)
    else if not (validate_event_type v p.event_type)
    then (err invalid_input, db)
    else in_tx t (ingest_tx t p) db

-- `MarkSuccess`: the row, then the failure counter if it is not zero already.
abbrev pub succeed : Trip → ℕ → DeliveryLog → DeliveryLog
succeed t http_status r = record r {
  status = success;
  http_status = some http_status;
  error_details = [];
  updated_at = t.now;
}

abbrev pub has_failures : ℕ → Subscription → Bool
has_failures id s = s.id == id && not (s.consecutive_failures == 0)

unfoldable pub mark_success_tx : Trip → ℕ → ℕ → ℕ → Db → Result (Bool × Bool) × Db
mark_success_tx t id subscription_id http_status db =
    if affected (pending_by_id id) db.logs == 0 then (ok (false, false), db) else (
      ok (true, affected (has_failures subscription_id) db.subs == 1),
      record db {
        logs = update_where (pending_by_id id) (succeed t http_status) db.logs;
        subs =
            update_where (has_failures subscription_id)
              (λ s. record s { consecutive_failures = 0; updated_at = t.now }) db.subs;
      },
    )

unfoldable pub mark_success : Trip → ℕ → ℕ → ℕ → Db → Result (Bool × Bool) × Db
unfolding in_tx mark_success_tx
mark_success t id subscription_id http_status db =
    in_tx t (mark_success_tx t id subscription_id http_status) db

-- `FinalizeFailure`
abbrev pub finalize : Trip → Option ℕ → Text → DeliveryLog → DeliveryLog
finalize t http_status details r = record r {
  status = final_failure;
  in_dlq = true;
  http_status = http_status;
  error_details = details;
  updated_at = t.now;
}

abbrev pub bump : Trip → ℕ → Subscription → Subscription
bump t threshold s = record s {
  consecutive_failures = s.consecutive_failures + 1;
  is_active = ltb (s.consecutive_failures + 1) threshold && s.is_active;
  updated_at = t.now;
}

-- `disabled = !isActive` from the RETURNING clause; a vanished subscription is not disabled.
disabled_by : Trip → ℕ → Option Subscription → Bool
disabled_by t threshold none = false
disabled_by t threshold (some s) = not (bump t threshold s).is_active

unfoldable pub finalize_failure_tx :
    Trip → ℕ → ℕ → Option ℕ → Text → ℕ → Db → Result (Bool × Bool) × Db
unfolding disabled_by
finalize_failure_tx t id subscription_id http_status details threshold db =
    if affected (pending_by_id id) db.logs == 0 then (ok (false, false), db) else (
      ok (true, disabled_by t threshold (query_row (sub_by_id subscription_id) db.subs)),
      record db {
        logs = update_where (pending_by_id id) (finalize t http_status details) db.logs;
        subs = update_where (sub_by_id subscription_id) (bump t threshold) db.subs;
      },
    )

unfoldable pub finalize_failure :
    Trip → ℕ → ℕ → Option ℕ → Text → ℕ → Db → Result (Bool × Bool) × Db
unfolding in_tx finalize_failure_tx
finalize_failure t id subscription_id http_status details threshold db =
    in_tx t (finalize_failure_tx t id subscription_id http_status details threshold) db

-- UPDATE … WHERE id = $1 AND …, which reports whether it affected one row.
update_one : Trip → (DeliveryLog → Bool) → (DeliveryLog → DeliveryLog) → Db → Result Bool × Db
unfolding in_tx
update_one t p f db =
    in_tx t (λ d. (ok (affected p d.logs == 1), record d { logs = update_where p f d.logs })) db

abbrev pub drop : Trip → Text → DeliveryLog → DeliveryLog
drop t details r = record r {
  status = final_failure;
  in_dlq = false;
  http_status = none;
  error_details = details;
  next_retry_at = none;
  updated_at = t.now;
}

-- `MarkDropped`
unfoldable pub mark_dropped : Trip → ℕ → Text → Db → Result Bool × Db
unfolding update_one
mark_dropped t id details db = update_one t (pending_by_id id) (drop t details) db

-- `RescheduleSamePending`
unfoldable pub reschedule_same_pending : Trip → ℕ → ℕ → Db → Result Bool × Db
unfolding update_one
reschedule_same_pending t id at db =
    update_one t (pending_by_id id) (λ r. record r { next_retry_at = some at; updated_at = t.now })
      db

-- next_retry_at <= NOW(), which is not true of NULL.
abbrev pub is_due : ℕ → Option ℕ → Bool
is_due now none = false
is_due now (some at) = leb at now

abbrev pub claimable : ℕ → ℕ → DeliveryLog → Bool
claimable now id r = r.id == id && (is_pending r.status && is_due now r.next_retry_at)

-- `ClaimPending`
unfoldable pub claim_pending : Trip → ℕ → ℕ → Db → Result Bool × Db
unfolding update_one seconds_arg
claim_pending t id lease db =
    update_one t (claimable t.now id)
      (λ r. record r { next_retry_at = some (t.now + seconds_arg lease); updated_at = t.now }) db

-- `FailAndScheduleRetry`
abbrev pub fail_attempt : Trip → Option ℕ → Text → DeliveryLog → DeliveryLog
fail_attempt t http_status details r = record r {
  status = failed_attempt;
  http_status = http_status;
  error_details = details;
  updated_at = t.now;
}

abbrev pub successor : Trip → ℕ → DeliveryLog → DeliveryLog
successor t next_retry_at r =
    new_row t r.webhook_id r.subscription_id r.target_url r.payload r.event_type
      (r.attempt_number + 1) r.replay_number (some next_retry_at)

-- INSERT … SELECT … WHERE id = $1 RETURNING id.
unfoldable pub insert_copy : ℕ → (DeliveryLog → DeliveryLog) → Db → Result ℕ × Db
unfolding insert_log
insert_copy id copy db = elim (query_row (log_by_id id) db.logs) [
  | none ↦ (err infrastructure, db)
  | some r ↦ insert_log infrastructure (copy r) db
]

pub fail_and_schedule_tx : Trip → ℕ → Option ℕ → Text → ℕ → Db → Result (Option ℕ) × Db
unfolding insert_copy
fail_and_schedule_tx t prev_id http_status details next_retry_at db =
    if affected (pending_by_id prev_id) db.logs == 0
    then (ok none, db)
    else let (r, db') = insert_copy prev_id (successor t next_retry_at) (record db {
      logs = update_where (pending_by_id prev_id) (fail_attempt t http_status details) db.logs;
    }) in
      elim r [ err e ↦ (err e, db') | ok id ↦ (ok (some id), db') ]

-- `none` is `won=false`.
unfoldable pub fail_and_schedule_retry :
    Trip → ℕ → Option ℕ → Text → ℕ → Db → Result (Option ℕ) × Db
unfolding in_tx fail_and_schedule_tx
fail_and_schedule_retry t prev_id http_status details next_retry_at db =
    in_tx t (fail_and_schedule_tx t prev_id http_status details next_retry_at) db
