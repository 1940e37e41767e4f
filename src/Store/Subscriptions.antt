-- ===== src/Store/Subscriptions.antt =====
-- internal/store/subscription_repo.go: the subscriptions table, and the reads of delivery_logs in
-- internal/store/delivery_log_repo.go.
use webhook_delivery_system.Prelude.{
  ℕ, ◌+◌, Bool, true, Option, none, some, List, [], ◌∷◌, Text, if◌then◌else◌, ◌==◌, ltb, select,
  take, length,
}
use webhook_delivery_system.Domain.{
  DeliveryLog, Subscription, RecoveryCursor, not_found, infrastructure, Result, ok, err,
}
use webhook_delivery_system.Store.Sql.{
  Db, Trip, in_tx, update_where, affected, delete_where, query_row, log_by_id, sub_by_id,
}
use webhook_delivery_system.Store.Recovery.{lex_before, order_by}

-- A row, or `ErrNotFound` (`isAbsent`).
abbrev pub or_not_found : {A : Type 0} → Option A → Result A
or_not_found none = err not_found
or_not_found (some a) = ok a

-- `DeliveryLogRepo.GetByID` and `SubscriptionRepo.GetByID`
unfoldable pub get_log : Trip → ℕ → Db → Result DeliveryLog × Db
unfolding in_tx
get_log t id db = in_tx t (λ d. (or_not_found (query_row (log_by_id id) d.logs), d)) db

unfoldable pub get_sub : Trip → ℕ → Db → Result Subscription × Db
unfolding in_tx
get_sub t id db = in_tx t (λ d. (or_not_found (query_row (sub_by_id id) d.subs), d)) db

-- `Create`: the id and the times are the database's.
created_sub : Trip → Subscription → Subscription
created_sub t s = record s {
  id = t.uuid;
  previous_secret_key = [];
  secret_rotated_at = none;
  consecutive_failures = 0;
  created_at = t.now;
  updated_at = t.now;
}

unfoldable pub create_tx : Trip → Subscription → Db → Result Subscription × Db
unfolding created_sub
create_tx t s db = elim (query_row (sub_by_id t.uuid) db.subs) [
  | some _ ↦ (err infrastructure, db)
  | none ↦ (ok (created_sub t s), record db { subs = created_sub t s ∷ db.subs })
]

unfoldable pub create_sub : Trip → Subscription → Db → Result Subscription × Db
unfolding in_tx create_tx
create_sub t s db = in_tx t (create_tx t s) db

-- UPDATE … WHERE id = $1 RETURNING, on the subscriptions.
unfoldable pub change_sub : ℕ → (Subscription → Subscription) → Db → Result Subscription × Db
change_sub id f db = elim (query_row (sub_by_id id) db.subs) [
  | none ↦ (err not_found, db)
  | some s ↦ (ok (f s), record db { subs = update_where (sub_by_id id) f db.subs })
]

-- `Update` writes the operator-mutable columns.
abbrev pub rewrite : Trip → Subscription → Subscription → Subscription
rewrite t s old = record old {
  target_url = s.target_url;
  event_types = s.event_types;
  is_active = s.is_active;
  updated_at = t.now;
}

unfoldable pub update_sub : Trip → Subscription → Db → Result Subscription × Db
unfolding in_tx change_sub
update_sub t s db = in_tx t (change_sub s.id (rewrite t s)) db

-- `RotateSecret`
abbrev pub rotate : Trip → Text → Subscription → Subscription
rotate t new_secret old = record old {
  previous_secret_key = old.secret_key;
  secret_key = new_secret;
  secret_rotated_at = some t.now;
  updated_at = t.now;
}

unfoldable pub rotate_secret : Trip → ℕ → Text → Db → Result Subscription × Db
unfolding in_tx change_sub
rotate_secret t id new_secret db = in_tx t (change_sub id (rotate t new_secret)) db

-- `Delete`, with ON DELETE CASCADE on both tables that refer to a subscription.
unfoldable pub delete_tx : ℕ → Db → Result (Unit {0}) × Db
delete_tx id db = if affected (sub_by_id id) db.subs == 0 then (err not_found, db) else (
  ok tt,
  record {
    logs = delete_where (λ r. r.subscription_id == id) db.logs;
    subs = delete_where (sub_by_id id) db.subs;
    idem = delete_where (λ i. i.subscription_id == id) db.idem;
  },
)

unfoldable pub delete_sub : Trip → ℕ → Db → Result (Unit {0}) × Db
unfolding in_tx delete_tx
delete_sub t id db = in_tx t (delete_tx id) db

-- `List`: one keyset page, newest first, and the cursor of the next.
abbrev pub newer : Subscription → Subscription → Bool
newer r s = lex_before s.created_at s.id r.created_at r.id

abbrev pub older_than : Option RecoveryCursor → Subscription → Bool
older_than none s = true
older_than (some c) s = lex_before s.created_at s.id c.due_at c.id

last_of : List Subscription → Option RecoveryCursor
last_of [] = none
last_of (s ∷ []) = some (record { due_at = s.created_at; id = s.id })
last_of (s ∷ r ∷ rest) = last_of (r ∷ rest)

page_of : ℕ → List Subscription → List Subscription × Option RecoveryCursor
unfolding last_of
page_of limit items =
    if ltb limit (length items)
    then (take limit items, last_of (take limit items))
    else (items, none)

unfoldable pub list_subs :
    Trip → ℕ → Option RecoveryCursor → Db → Result (List Subscription × Option RecoveryCursor) × Db
unfolding in_tx page_of order_by
list_subs t limit after db =
    let n = if limit == 0 then 20 else limit in
    in_tx t
      (λ d. (ok (page_of n (take (n + 1) (order_by newer (select (older_than after) d.subs)))), d))
      db

-- `ListByWebhookID`, in the order of the status endpoint, and `ListBySubscription`, newest first.
unfoldable pub list_by_webhook_id : Trip → ℕ → Db → Result (List DeliveryLog) × Db
unfolding in_tx order_by
list_by_webhook_id t webhook_id db =
    in_tx t
      (λ d. (
        ok (
            order_by
              (λ r s. lex_before r.replay_number r.attempt_number s.replay_number s.attempt_number)
              (select (λ r. r.webhook_id == webhook_id) d.logs)),
        d,
      ))
      db

unfoldable pub list_by_subscription : Trip → ℕ → ℕ → Db → Result (List DeliveryLog) × Db
unfolding in_tx order_by
list_by_subscription t subscription_id limit db =
    in_tx t
      (λ d. (
        ok (
            take (if limit == 0 then 50 else limit) (
              order_by (λ r s. ltb s.created_at r.created_at)
                (select (λ r. r.subscription_id == subscription_id) d.logs))),
        d,
      ))
      db
