-- ===== src/Store/Inserted.antt =====
-- The row that `IngestPending` of internal/store/delivery_lifecycle.go leaves behind.
use webhook_delivery_system.Prelude.{ℕ, ◌≡◌, sym, subst, ap, ◌∙◌, false, some, ◌∷◌, arith}
use webhook_delivery_system.Domain.{DeliveryLog, IngestParams, IngestResult, Result, ok}
use webhook_delivery_system.Store.Sql.{
  Db, Trip, Outcome, finish, in_tx, finish_ok, query_row, log_by_id, insert_log,
}
use webhook_delivery_system.Store.Lifecycle.{
  Validators, new_row, insert_pending, claim_key, ingest_tx, ingest_pending,
}

-- The row of an ingest: the first attempt of its webhook, pending and due at once.
abbrev pub first_attempt : Trip → IngestParams → DeliveryLog
first_attempt t p =
    new_row t p.webhook_id p.subscription_id p.target_url (t.jsonb p.payload) p.event_type 1 0
      (some t.now)

abbrev pub fresh : ℕ → ℕ → IngestResult
fresh webhook_id id = record {
  webhook_id = webhook_id;
  delivery_log_id = some id;
  duplicate = false;
}

-- A result that is not a duplicate names a row that is stored.
abbrev pub Stored : Trip → IngestParams → Result IngestResult × Db → Type 0
Stored t p r =
    (webhook_id id : ℕ)
    → r.0 ≡ ok (fresh webhook_id id)
    → (webhook_id ≡ p.webhook_id) × (query_row (log_by_id id) r.1.logs ≡ some (first_attempt t p))

insert_pending-Stored : (t : Trip) (p : IngestParams) (db : Db) → Stored t p (insert_pending t p db)
unfolding insert_pending insert_log
insert_pending-Stored t p db webhook_id id h = ground arith

claim_key-Stored : (t : Trip) (p : IngestParams) (db : Db) → Stored t p (claim_key t p db)
unfolding claim_key
claim_key-Stored t p db webhook_id id h = ground (
  arith,
  insert_pending-Stored t p
      (record db {
        idem =
            record {
              subscription_id = p.subscription_id;
              idempotency_key = p.idempotency_key;
              webhook_id = p.webhook_id;
              created_at = t.now;
            }
            ∷ db.idem;
      })
      webhook_id id,
)

ingest_tx-Stored : (t : Trip) (p : IngestParams) (db : Db) → Stored t p (ingest_tx t p db)
unfolding ingest_tx
ingest_tx-Stored t p db webhook_id id h =
    ground
      (arith, insert_pending-Stored t p db webhook_id id, claim_key-Stored t p db webhook_id id)

finish-Stored :
    (t : Trip) (p : IngestParams) (o : Outcome) (db : Db) (r : Result IngestResult × Db)
    → Stored t p r
    → Stored t p (finish o db r)
finish-Stored t p o db r stored webhook_id id h =
    let applied = finish_ok o db r (fresh webhook_id id) h in
    subst
      (λ s.
        (webhook_id ≡ p.webhook_id)
        × (query_row (log_by_id id) s.1.logs ≡ some (first_attempt t p)))
      (sym applied) (stored webhook_id id (ap (λ s. s.0) (sym applied) ∙ h))

-- An ingest that returns a new row has stored it.
pub ingest_pending-Stored :
    (v : Validators) (t : Trip) (p : IngestParams) (db : Db) → Stored t p (ingest_pending v t p db)
unfolding ingest_pending in_tx
ingest_pending-Stored v t p db webhook_id id h = ground (
  arith,
  finish-Stored t p t.outcome db (ingest_tx t p db) (ingest_tx-Stored t p db) webhook_id id,
)
