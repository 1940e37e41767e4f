-- ===== src/Worker.antt =====
-- internal/worker/cleanup.go: the cleanup worker and the reconciler of the dead letter list, over
-- the tables and Redis. A call for one id has an outcome of its own.
pub mod Reconciled
mod Tests
use webhook_delivery_system.Prelude.{ℕ, Bool, true, false, List, [], ◌∷◌, if◌then◌else◌}
use webhook_delivery_system.Domain.{Result, ok, err}
use webhook_delivery_system.Store.Sql.{Db, Trip, Outcome}
use webhook_delivery_system.Store.Recovery.{has_id}
use webhook_delivery_system.Store.Dlq.{
  delete_expired, prune_idempotency, list_in_dlq, is_in_dlq, force_ack_old_dlq,
}
use webhook_delivery_system.Redis.{Redis, push, lrem, list_dlq}

-- `CleanupWorker.cleanup`: the keys are pruned only if the rows were.
pruned : Trip → ℕ → Result ℕ × Db → Db
pruned t ttl (ok n, db) = (prune_idempotency t ttl db).1
pruned t ttl (err e, db) = db

unfoldable pub cleanup : Trip → Trip → ℕ → ℕ → Db → Db
unfolding pruned
cleanup t u retention idempotency_ttl db = pruned u idempotency_ttl (delete_expired t retention db)

-- The calls of one reconciliation.
pub record Calls : Type 0 where
  pub force : Trip
  pub list : Trip
  pub read : Outcome
  pub check : ℕ → Trip  -- IsInDLQ of the id
  pub write : ℕ → Outcome  -- LREM or LPUSH of the id

-- LREM of each forced id.
unfoldable pub remove_all : Calls → List ℕ → Redis → Redis
remove_all c [] r = r
remove_all c (id ∷ ids) r = remove_all c ids (lrem (c.write id) id r).1

-- flag→list, for one id.
pub repush_checked : Calls → ℕ → Result Bool → Redis → Redis
repush_checked c id (ok true) r = (push (c.write id) id r).1
repush_checked c id (ok false) r = r
repush_checked c id (err e) r = r

unfoldable pub repush : Calls → Db → List ℕ → List ℕ → Redis → Redis
unfolding repush_checked
repush c db listed [] r = r
repush c db listed (id ∷ ids) r =
    repush c db listed ids
      (if has_id listed id then r else repush_checked c id (is_in_dlq (c.check id) id db).0 r)

-- list→flag, for one id.
pub unlist_checked : Calls → ℕ → Result Bool → Redis → Redis
unlist_checked c id (ok false) r = (lrem (c.write id) id r).1
unlist_checked c id (ok true) r = r
unlist_checked c id (err e) r = r

unfoldable pub unlist : Calls → Db → List ℕ → List ℕ → Redis → Redis
unfolding unlist_checked
unlist c db flagged [] r = r
unlist c db flagged (id ∷ ids) r =
    unlist c db flagged ids
      (if has_id flagged id then r else unlist_checked c id (is_in_dlq (c.check id) id db).0 r)

-- The rest of `reconcile` once both sides were read.
unfoldable pub repair : Calls → Db → Result (List ℕ) → Result (List ℕ) → Redis → Redis
unfolding repush unlist
repair c db (ok flagged) (ok listed) r = unlist c db flagged listed (repush c db listed flagged r)
repair c db (ok flagged) (err e) r = r
repair c db (err e) listed r = r

unfoldable pub forced_then : Calls → Result (List ℕ) × Db → Redis → Db × Redis
unfolding remove_all repair
forced_then c (err e, db) r = (db, r)
forced_then c (ok forced, db) r =
    let r' = remove_all c forced r in
    (db, repair c db (list_in_dlq c.list db).0 (list_dlq c.read r').0 r')

-- `DLQReconciler.reconcile`
unfoldable pub reconcile : Calls → ℕ → Db × Redis → Db × Redis
unfolding forced_then
reconcile c max_age (db, r) = forced_then c (force_ack_old_dlq c.force max_age db) r
