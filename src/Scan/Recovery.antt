-- ===== src/Scan/Recovery.antt =====
-- `RecoveryWorker.scan` of internal/worker/retry.go as a whole: it ends, and it queues what is due.
use webhook_delivery_system.Prelude.{
  ℕ, zero, suc, ◌≤◌, ◌<◌, ◌≡◌, ◌≢◌, ◌⊎◌, inl, inr, refl, ◌∙◌, Bool, true, false, Option, none, some,
  List, [], ◌∷◌, arith, ltb, length, Bool-cases,
}
use webhook_delivery_system.Domain.{DeliveryLog, RecoveryCursor, infrastructure, ok, err}
use webhook_delivery_system.Store.Sql.{Db, Trip, done, in_tx, finish_read, affected}
use webhook_delivery_system.Store.Recovery.{past_cursor, find_due_pending}
use webhook_delivery_system.Redis.{Redis}
use webhook_delivery_system.Scan.{
  Calls, enqueue_all, ids_of, cursor_after, scan_due, scan_rearm, scan,
}
use webhook_delivery_system.Scan.Pages.{page}
use webhook_delivery_system.Scan.Progress.{remaining}
use webhook_delivery_system.Scan.Coverage.{candidates, fewer, Queued, scan_due-Queued}
use webhook_delivery_system.Scan.Termination.{unleased, scan_rearm_returns}

affected_le_length : (p : DeliveryLog → Bool) (xs : List DeliveryLog) → affected p xs ≤ length xs
affected_le_length p [] = omega arith
affected_le_length p (x ∷ xs) = ground (arith, affected_le_length p xs)

-- What a page comes to: the rows, or a failure.
page_or_failure :
    (t : Trip) (limit : ℕ) (after : Option RecoveryCursor) (db : Db)
    → ((find_due_pending t limit after db).0 ≡ ok (page limit (candidates t.now after db.logs)))
      ⊎ ((find_due_pending t limit after db).0 ≡ err infrastructure)
unfolding find_due_pending in_tx
page_or_failure t limit after db =
    finish_read t.outcome db (page limit (candidates t.now after db.logs))

abbrev DueReturns : Option (Bool × Redis) → Type 0
DueReturns o = (b : Bool) × (r' : Redis) × (o ≡ some (b, r'))

module _ (c : Calls) (k : ℕ) (db : Db) where
  scan_due_returns :
      (fuel : ℕ) (after : Option RecoveryCursor) (r : Redis)
      → remaining after db.logs < fuel
      → DueReturns (scan_due fuel c (suc k) after db r)
  unfolding scan_due
  scan_due_returns zero after r m = absurd (omega (arith, m))
  scan_due_returns (suc fuel) after r m =
      let t = c.page fuel in
      let items = page (suc k) (candidates t.now after db.logs) in
      elim (page_or_failure t (suc k) after db) [
        | inr failed ↦ (false, r, rw (failed, scan_due) refl)
        | inl found ↦ elim (Bool-cases (ltb (length items) (suc k))) [
          | inl short ↦ (true, enqueue_all c (ids_of items) r, rw (found, scan_due) (rw short refl))
          | inr full ↦
              let (b, r', e) =
                scan_due_returns fuel (cursor_after items after) (enqueue_all c (ids_of items) r)
                  (fewer k t.now after db.logs fuel m full) in
              (b, r', rw (found, scan_due) (rw full e))
        ]
      ]

scan-true :
    (fuel : ℕ) (c : Calls) (batch threshold : ℕ) (db : Db) (r r' : Redis)
    → scan_due fuel c batch none db r ≡ some (true, r')
    → scan fuel c batch threshold db r ≡ scan_rearm fuel c batch threshold db r'
unfolding scan
scan-true fuel c batch threshold db r r' e = rw (e, scan) refl

scan-false :
    (fuel : ℕ) (c : Calls) (batch threshold : ℕ) (db : Db) (r r' : Redis)
    → scan_due fuel c batch none db r ≡ some (false, r')
    → scan fuel c batch threshold db r ≡ some (db, r')
unfolding scan
scan-false fuel c batch threshold db r r' e = rw (e, scan) refl

of_due :
    (fuel : ℕ) (c : Calls) (k threshold : ℕ) (db : Db) (r r' : Redis) (b : Bool)
    → length db.logs < fuel
    → scan_due fuel c (suc k) none db r ≡ some (b, r')
    → scan fuel c (suc k) threshold db r ≢ none
of_due fuel c k threshold db r r' false m e =
    rw (scan-false fuel c (suc k) threshold db r r' e) (λ n. cc)
of_due fuel c k threshold db r r' true m e =
    let (db', r'', returned, keeps) =
      scan_rearm_returns c k threshold fuel db r'
        (omega (arith, m, affected_le_length unleased db.logs)) in
    rw (scan-true fuel c (suc k) threshold db r r' e) (rw returned (λ n. cc))

-- Over tables that no other transaction changes during the pass, with a page size of at least 1, and
-- one round of fuel more than there are attempt rows, the recovery pass ends, whatever the round
-- trips, the locks of other transactions and the queue come to in each round.
pub scan_ends :
    (fuel : ℕ) (c : Calls) (k threshold : ℕ) (db : Db) (r : Redis)
    → length db.logs < fuel
    → scan fuel c (suc k) threshold db r ≢ none
scan_ends fuel c k threshold db r m =
    let (b, r', e) =
      scan_due_returns c k db fuel none r
        (omega (arith, m, affected_le_length (past_cursor none) db.logs)) in
    of_due fuel c k threshold db r r' b m e

-- Over tables that no other transaction changes during the pass, with a page size of at least 1 and
-- one round of fuel more than there are attempt rows, a recovery pass whose reads of the table and
-- whose enqueues are done returns, and queues every pending row that is due when it begins, over any
-- number of pages, whatever the re-arming of rows without a lease comes to.
pub scan-Queued :
    (fuel : ℕ) (c : Calls) (k threshold now : ℕ) (db : Db) (r : Redis)
    → length db.logs < fuel
    → ((n : ℕ) → (c.page n).outcome ≡ done)
    → ((n : ℕ) → now ≤ (c.page n).now)
    → ((id : ℕ) → c.push id ≡ done)
    → (db' : Db) × (r' : Redis) × (scan fuel c (suc k) threshold db r ≡ some (db', r'))
      × Queued now db.logs r'
scan-Queued fuel c k threshold now db r m connected since pushed =
    let (r', e, queued) =
      scan_due-Queued c k now db connected since pushed fuel none r
        (omega (arith, m, affected_le_length (past_cursor none) db.logs))
        (λ row found due. inl refl) in
    let (db', r'', returned, keeps) =
      scan_rearm_returns c k threshold fuel db r'
        (omega (arith, m, affected_le_length unleased db.logs)) in
    (
      db',
      r'',
      scan-true fuel c (suc k) threshold db r r' e ∙ returned,
      λ row found due. keeps row.id (queued row found due),
    )
