-- ===== src/Store/Tests.antt =====
-- A history of the tables of internal/store: a subscription, a webhook that fails twice and is
-- replayed from the dead letter queue, and a duplicate ingest.
use webhook_delivery_system.Prelude.{
  ℕ, ◌≤◌, ◌≡◌, ◌<◌, ◌+◌, ◌≢◌, refl, true, false, none, some, List, [], ◌∷◌, arith, length,
}
use webhook_delivery_system.Domain.{
  IngestResult, ok, err, infrastructure, Subscription, IngestParams,
}
use webhook_delivery_system.Store.Sql.{
  seconds_arg, Db, Trip, Outcome, done, refused, lost, affected,
}
use webhook_delivery_system.Store.Lifecycle.{
  new_row, Validators, ingest_pending, claim_pending, fail_and_schedule_retry, finalize_failure,
  mark_success,
}
use webhook_delivery_system.Store.Dlq.{dead_letter, replay_dlq}
use webhook_delivery_system.Store.Subscriptions.{create_sub, create_tx}
use webhook_delivery_system.Store.History.{Op, run, apply, AllMinted, empty_db}
use webhook_delivery_system.Store.Leases.{claim_excludes}
use webhook_delivery_system.Store.Ingestion.{retry_is_duplicate}
use webhook_delivery_system.Store.Invariant.{live_of, run-one_live}

abbrev ascii : Validators
ascii = record { json_valid = λ t. true; utf8_valid = λ t. true; rune_count = length }

abbrev subscriber : Subscription
subscriber = record {
  id = 0;
  target_url = 104 ∷ [];
  secret_key = 115 ∷ [];
  previous_secret_key = [];
  secret_rotated_at = none;
  event_types = [];
  is_active = true;
  consecutive_failures = 0;
  created_at = 0;
  updated_at = 0;
}

abbrev event : ℕ → IngestParams
event webhook = record {
  subscription_id = 1;
  idempotency_key = 107 ∷ [];
  webhook_id = webhook;
  target_url = 104 ∷ [];
  payload = 123 ∷ 125 ∷ [];
  event_type = 101 ∷ [];
}

abbrev at : Outcome → ℕ → ℕ → Trip
at o now uuid = record { outcome = o; now = now; uuid = uuid; jsonb = λ text. text }

abbrev history : List (Trip × Op)
history =
    (at done 1 1, Op.creates subscriber)
    ∷ (at done 2 2, Op.ingests ascii (event 50))
    ∷ (at done 3 9, Op.claims 2 60)
    ∷ (at refused 4 9, Op.retries 2 (some 500) [] 5)
    ∷ (at lost 4 3, Op.retries 2 (some 500) [] 5)
    ∷ (at done 6 9, Op.finalizes 3 1 (some 500) [] 10)
    ∷ (at done 7 4, Op.replays 1 50)
    ∷ (at done 8 9, Op.ingests ascii (event 51))
    ∷ (at done 9 9, Op.succeeds 4 1 200)
    ∷ []

three_rows : length (run history empty_db).logs ≡ 3
unfolding run apply create_sub create_tx ingest_pending claim_pending fail_and_schedule_retry
    finalize_failure replay_dlq mark_success
three_rows = refl

apart : ◌≢◌ {A = ℕ} 50 51
apart e = omega (arith, e)

history_minted : AllMinted history empty_db
unfolding apply create_sub create_tx ingest_pending claim_pending fail_and_schedule_retry
    finalize_failure replay_dlq mark_success
history_minted = (tt, (tt, (tt, (tt, (tt, (tt, (tt, ((apart, (apart, (apart, tt))), (tt, tt)))))))))

run-one_live_example :
    (affected (live_of 50) (run history empty_db).logs ≤ 1)
    × (affected (dead_letter 1 50) (run history empty_db).logs ≤ 1)
run-one_live_example = run-one_live history 50 1 history_minted

abbrev subscribed : Db
subscribed = record { logs = []; subs = record subscriber { id = 1 } ∷ []; idem = [] }

ingest_accepted :
    (ingest_pending ascii (at lost 2 2) (event 50) subscribed).1.logs
    ≡ (ingest_pending ascii (at done 2 2) (event 50) subscribed).1.logs
unfolding ingest_pending
ingest_accepted = refl

abbrev first_result : IngestResult
first_result = record { webhook_id = 50; delivery_log_id = some 2; duplicate = false }

first_ingest : (ingest_pending ascii (at done 2 2) (event 50) subscribed).0 ≡ ok first_result
unfolding ingest_pending
first_ingest = refl

retry_is_duplicate_example :
    let db' = (ingest_pending ascii (at done 2 2) (event 50) subscribed).1 in
    ingest_pending ascii (at done 5 6) (record (event 50) { webhook_id = 51 }) db'
    ≡ (ok (record { webhook_id = 50; delivery_log_id = none; duplicate = true }), db')
retry_is_duplicate_example =
    retry_is_duplicate ascii (at done 2 2) (at done 5 6) (event 50) 51 subscribed first_result refl
      first_ingest refl

abbrev queued : Db
queued = record subscribed { logs = new_row (at done 2 2) 50 1 [] [] [] 1 0 (some 2) ∷ [] }

first_claim : (claim_pending (at lost 10 0) 2 60000000000 queued).0 ≡ err infrastructure
unfolding claim_pending
first_claim = refl

won_claim : (claim_pending (at done 10 0) 2 60000000000 queued).0 ≡ ok true
unfolding claim_pending
won_claim = refl

within_lease : 500 < 10 + seconds_arg 60000000000
unfolding seconds_arg
within_lease = omega arith

claim_excludes_example :
    let db' = (claim_pending (at done 10 0) 2 60000000000 queued).1 in
    ((claim_pending (at done 500 0) 2 60000000000 db').0 ≡ ok false)
    × ((claim_pending (at done 500 0) 2 60000000000 db').1.logs ≡ db'.logs)
claim_excludes_example =
    claim_excludes (at done 10 0) (at done 500 0) 2 60000000000 60000000000 queued (omega arith)
      won_claim refl within_lease
