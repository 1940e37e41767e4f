-- ===== src/Scan.antt =====
-- internal/worker/retry.go: one pass of the recovery worker. It enqueues page after page of due
-- rows, and then batches of rows without a lease that it re-arms; each loop has fuel. All rounds of a
-- pass read the same tables, which the pass alone changes: other transactions that commit between two
-- rounds are not modelled.
pub mod Pages
pub mod Progress
pub mod Coverage
pub mod Termination
pub mod Recovery
mod Tests
use webhook_delivery_system.Prelude.{
  ℕ, zero, suc, Bool, true, false, Option, none, some, List, [], ◌∷◌, ltb, length, if◌then◌else◌,
}
use webhook_delivery_system.Domain.{RecoveryCursor, ok, err}
use webhook_delivery_system.Store.Sql.{Db, Trip, Outcome}
use webhook_delivery_system.Store.Recovery.{find_due_pending, rearm_lease_less_pending}
use webhook_delivery_system.Redis.{Redis, enqueue}

-- The calls of one pass: the trip of each page and batch, the rows that another transaction has
-- locked at each batch, and the outcome of each enqueue.
pub record Calls : Type 0 where
  pub page : ℕ → Trip
  pub rearm : ℕ → Trip
  pub locked : ℕ → ℕ → Bool
  pub push : ℕ → Outcome

-- `RecoveryWorker.enqueue` for each id: a failure is logged and passed over.
pub enqueue_all : Calls → List ℕ → Redis → Redis
enqueue_all c [] r = r
enqueue_all c (id ∷ ids) r = enqueue_all c ids (enqueue (c.push id) id r).1

unfoldable pub ids_of : List RecoveryCursor → List ℕ
ids_of [] = []
ids_of (i ∷ items) = i.id ∷ ids_of items

unfoldable pub last_cursor : RecoveryCursor → List RecoveryCursor → RecoveryCursor
last_cursor i [] = i
last_cursor i (j ∷ items) = last_cursor j items

unfoldable pub cursor_after : List RecoveryCursor → Option RecoveryCursor → Option RecoveryCursor
cursor_after [] after = after
cursor_after (i ∷ items) after = some (last_cursor i items)

-- The first loop: `none` without fuel, otherwise whether the pass goes on, and Redis.
pub scan_due : ℕ → Calls → ℕ → Option RecoveryCursor → Db → Redis → Option (Bool × Redis)
unfolding enqueue_all ids_of cursor_after last_cursor
scan_due zero c batch after db r = none
scan_due (suc fuel) c batch after db r = elim (find_due_pending (c.page fuel) batch after db).0 [
  | err e ↦ some (false, r)
  | ok items ↦
      let r' = enqueue_all c (ids_of items) r in
      let rest = scan_due fuel c batch (cursor_after items after) db r' in
      if ltb (length items) batch then some (true, r') else rest
]

-- The second loop.
pub scan_rearm : ℕ → Calls → ℕ → ℕ → Db → Redis → Option (Db × Redis)
unfolding enqueue_all
scan_rearm zero c batch orphan_threshold db r = none
scan_rearm (suc fuel) c batch orphan_threshold db r =
    let (result, db') =
      rearm_lease_less_pending (c.locked fuel) (c.rearm fuel) batch orphan_threshold db in
    elim result [
      | err e ↦ some (db', r)
      | ok ids ↦
          let r' = enqueue_all c ids r in
          let rest = scan_rearm fuel c batch orphan_threshold db' r' in
          if ltb (length ids) batch then some (db', r') else rest
    ]

-- `RecoveryWorker.scan`
unfoldable pub scan : ℕ → Calls → ℕ → ℕ → Db → Redis → Option (Db × Redis)
unfolding scan_due scan_rearm
scan fuel c batch orphan_threshold db r = elim (scan_due fuel c batch none db r) [
  | none ↦ none
  | some (false, r') ↦ some (db, r')
  | some (true, r') ↦ scan_rearm fuel c batch orphan_threshold db r'
]
