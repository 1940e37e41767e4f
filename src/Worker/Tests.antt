-- ===== src/Worker/Tests.antt =====
-- A run of the reconciler of internal/worker/cleanup.go: the list misses a flagged row and holds the
-- id of a row that is gone.
use webhook_delivery_system.Prelude.{◌≡◌, refl, true, false, none, [], ◌∷◌, arith}
use webhook_delivery_system.Domain.{DeliveryLog, final_failure}
use webhook_delivery_system.Store.Sql.{Db, Trip, done, refused}
use webhook_delivery_system.Store.Lifecycle.{new_row}
use webhook_delivery_system.Store.Recovery.{has_id}
use webhook_delivery_system.Store.Dlq.{force_ack_old_dlq, list_in_dlq, is_in_dlq}
use webhook_delivery_system.Redis.{Redis}
use webhook_delivery_system.Worker.{Calls, reconcile}
use webhook_delivery_system.Worker.Reconciled.{flagged, reconcile_repairs}

abbrev trip : Trip
trip = record { outcome = done; now = 1000; uuid = 3; jsonb = λ text. text }

abbrev dead_row : DeliveryLog
dead_row = record (new_row trip 50 1 [] [] [] 5 0 none) { status = final_failure; in_dlq = true }

abbrev tables : Db
tables = record {
  logs = dead_row ∷ record dead_row { id = 4; in_dlq = false } ∷ [];
  subs = [];
  idem = [];
}

abbrev diverged : Redis
diverged = record { queue = []; schedule = []; dlq = 8 ∷ [] }

abbrev calls : Calls
calls = record { force = trip; list = trip; read = done; check = λ id. trip; write = λ id. done }

repaired : (reconcile calls 60000000000 (tables, diverged)).1.dlq ≡ 3 ∷ []
unfolding reconcile force_ack_old_dlq list_in_dlq is_in_dlq
repaired = refl

-- A refused read of the list leaves it alone.
left_alone :
    (reconcile (record calls { read = refused }) 60000000000 (tables, diverged)).1.dlq ≡ 8 ∷ []
unfolding reconcile force_ack_old_dlq list_in_dlq
left_alone = refl

reconcile_repairs_example :
    has_id (reconcile calls 60000000000 (tables, diverged)).1.dlq 3
    ≡ flagged 3 (reconcile calls 60000000000 (tables, diverged)).0
reconcile_repairs_example =
    reconcile_repairs calls 60000000000 tables diverged
      (record { force = refl; list = refl; read = refl; check = λ id. refl; write = λ id. refl })
      (λ id. ground arith) 3
