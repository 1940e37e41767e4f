-- ===== src/Store/Recovery.antt =====
-- internal/store/delivery_lifecycle.go: the queries of the recovery scan.
use webhook_delivery_system.Prelude.{
  leb, ℕ, Bool, true, false, ◌&&◌, ◌||◌, not, Option, none, some, List, [], ◌∷◌, if◌then◌else◌,
  ◌==◌, ltb, leb, ◌+◌, select, take, map,
}
use webhook_delivery_system.Domain.{
  DeliveryStatus, pending, success, failed_attempt, final_failure, DeliveryLog, RecoveryCursor,
  Result, ok, is_pending,
}
use webhook_delivery_system.Store.Sql.{Db, Trip, in_tx, update_where, seconds_arg, affected}
use webhook_delivery_system.Store.Lifecycle.{is_due}

-- ORDER BY with a strict order on rows.
unfoldable pub insert_sorted : {A : Type 0} → (A → A → Bool) → A → List A → List A
insert_sorted before x [] = x ∷ []
insert_sorted before x (y ∷ ys) = if before x y then x ∷ y ∷ ys else y ∷ insert_sorted before x ys

unfoldable pub order_by : {A : Type 0} → (A → A → Bool) → List A → List A
unfolding insert_sorted
order_by before [] = []
order_by before (x ∷ xs) = insert_sorted before x (order_by before xs)

-- (next_retry_at, id) of a row that is due.
abbrev pub due_at : Option ℕ → ℕ
due_at none = 0
due_at (some at) = at

-- Lexicographic order on a time and an id.
abbrev pub lex_before : ℕ → ℕ → ℕ → ℕ → Bool
lex_before t i u j = ltb t u || (t == u && ltb i j)

abbrev pub due_before : DeliveryLog → DeliveryLog → Bool
due_before r s = lex_before (due_at r.next_retry_at) r.id (due_at s.next_retry_at) s.id

abbrev pub past_cursor : Option RecoveryCursor → DeliveryLog → Bool
past_cursor none r = true
past_cursor (some c) r = lex_before c.due_at c.id (due_at r.next_retry_at) r.id

abbrev pub due_item : DeliveryLog → RecoveryCursor
due_item r = record { due_at = due_at r.next_retry_at; id = r.id }

abbrev pub due_pending : ℕ → DeliveryLog → Bool
due_pending now r = is_pending r.status && is_due now r.next_retry_at

-- `FindDuePending`: an item is a `DuePending`, which has the fields of a cursor.
unfoldable pub find_due_pending :
    Trip → ℕ → Option RecoveryCursor → Db → Result (List RecoveryCursor) × Db
unfolding in_tx order_by
find_due_pending t limit after db =
    in_tx t
      (λ d. (
        ok (
            map due_item (
              take limit (
                order_by due_before
                  (select (λ r. due_pending t.now r && past_cursor after r) d.logs)))),
        d,
      ))
      db

-- `RearmLeaseLessPending`: the rows that other transactions hold locked are skipped.
abbrev pub created_before : DeliveryLog → DeliveryLog → Bool
created_before r s = lex_before r.created_at r.id s.created_at s.id

abbrev pub is_null : Option ℕ → Bool
is_null none = true
is_null (some _) = false

abbrev pub lease_less : ℕ → ℕ → DeliveryLog → Bool
lease_less now threshold r =
    is_pending r.status && is_null r.next_retry_at && leb (r.created_at + threshold) now

abbrev pub has_id : List ℕ → ℕ → Bool
has_id [] id = false
has_id (i ∷ ids) id = i == id || has_id ids id

unfoldable pub rearm_candidates : (ℕ → Bool) → Trip → ℕ → ℕ → Db → List ℕ
unfolding order_by seconds_arg
rearm_candidates locked t limit threshold db =
    map (λ r. r.id)
      (take limit (
        order_by created_before
          (select (λ r. lease_less t.now (seconds_arg threshold) r && not (locked r.id)) db.logs)))

unfoldable pub rearm_lease_less_pending : (ℕ → Bool) → Trip → ℕ → ℕ → Db → Result (List ℕ) × Db
unfolding in_tx rearm_candidates
rearm_lease_less_pending locked t limit threshold db =
    let ids = rearm_candidates locked t limit threshold db in
    in_tx t
      (λ d. (
        ok ids,
        record d {
          logs =
              update_where (λ r. has_id ids r.id)
                (λ r. record r { next_retry_at = some t.now; updated_at = t.now }) d.logs;
        },
      ))
      db

-- The map of `CountByStatusSince`: a status without rows has no entry, and reads as 0.
pub record StatusCounts : Type 0 where
  pub pending : ℕ
  pub success : ℕ
  pub failed_attempt : ℕ
  pub final_failure : ℕ

abbrev pub has_status : DeliveryStatus → DeliveryStatus → Bool
has_status pending pending = true
has_status success success = true
has_status failed_attempt failed_attempt = true
has_status final_failure final_failure = true
has_status _ _ = false

abbrev pub since_with : ℕ → DeliveryStatus → DeliveryLog → Bool
since_with since st r = leb since r.created_at && has_status st r.status

unfoldable pub count_by_status_since : Trip → ℕ → Db → Result StatusCounts × Db
unfolding in_tx
count_by_status_since t since db =
    in_tx t
      (λ d. (
        ok (record {
          pending = affected (since_with since pending) d.logs;
          success = affected (since_with since success) d.logs;
          failed_attempt = affected (since_with since failed_attempt) d.logs;
          final_failure = affected (since_with since final_failure) d.logs;
        }),
        d,
      ))
      db
