-- ===== src/Scan/Tests.antt =====
-- Runs of the recovery pass of internal/worker/retry.go.
use webhook_delivery_system.Prelude.{
  ℕ, ◌≡◌, ◌≢◌, refl, false, Option, none, some, List, [], ◌∷◌, arith,
}
use webhook_delivery_system.Domain.{DeliveryLog}
use webhook_delivery_system.Store.Sql.{Db, Trip, Outcome, done, refused, lost}
use webhook_delivery_system.Store.Lifecycle.{new_row}
use webhook_delivery_system.Store.Recovery.{find_due_pending, rearm_lease_less_pending}
use webhook_delivery_system.Redis.{Redis}
use webhook_delivery_system.Scan.{Calls, scan}
use webhook_delivery_system.Scan.Coverage.{Queued}
use webhook_delivery_system.Scan.Recovery.{scan_ends, scan-Queued}

abbrev at : ℕ → ℕ → Trip
at now uuid = record { outcome = done; now = now; uuid = uuid; jsonb = λ text. text }

abbrev row : ℕ → ℕ → Option ℕ → DeliveryLog
row id webhook due = new_row (at 1 id) webhook 1 (104 ∷ []) [] [] 1 0 due

-- Two rows that are due, one that is leased, and one without a lease.
abbrev table : Db
table = record {
  logs = row 2 50 (some 5) ∷ row 3 51 (some 7) ∷ row 4 52 (some 5000) ∷ row 5 53 none ∷ [];
  subs = [];
  idem = [];
}

abbrev calls : Outcome → Calls
calls o = record {
  page = λ n. at 1000 n;
  rearm = λ n. record { outcome = o; now = 1000000000000; uuid = n; jsonb = λ text. text };
  locked = λ n id. false;
  push = λ id. done;
}

abbrev idle : Redis
idle = record { queue = []; schedule = []; dlq = [] }

abbrev queue_of : Option (Db × Redis) → List ℕ
queue_of none = []
queue_of (some (db, r)) = r.queue

-- Pages of one row: the due rows first, then the row without a lease.
queued_in_order : queue_of (scan 5 (calls done) 1 1 table idle) ≡ 5 ∷ 3 ∷ 2 ∷ []
unfolding scan find_due_pending rearm_lease_less_pending
queued_in_order = refl

scan_ends_example : scan 5 (calls lost) 1 1 table idle ≢ none
scan_ends_example = scan_ends 5 (calls lost) 0 1 table idle (omega arith)

scan-Queued_example :
    (db' : Db) × (r' : Redis) × (scan 5 (calls refused) 1 1 table idle ≡ some (db', r'))
    × Queued 1000 table.logs r'
scan-Queued_example =
    scan-Queued 5 (calls refused) 0 1 1000 table idle (omega arith) (λ n. refl) (λ n. omega arith)
      (λ id. refl)
