-- ===== src/Store/Lineage.antt =====
-- The chains survive every operation, in every order.
use webhook_delivery_system.Prelude.{
  ℕ, ◌+◌, ◌≡◌, inl, inr, Bool, true, Option, some, Text, arith, ◌==◌, Bool-cases, Option-cases,
}
use webhook_delivery_system.Domain.{DeliveryLog, Subscription}
use webhook_delivery_system.Store.Sql.{
  Db, Trip, seconds_arg, query_row, sub_by_id, affected, finish-keeps,
}
use webhook_delivery_system.Store.Lifecycle.{
  mark_success, finalize_failure, mark_dropped, reschedule_same_pending, claim_pending,
  pending_by_id, succeed, finalize, drop, fail_attempt,
}
use webhook_delivery_system.Store.Recovery.{rearm_lease_less_pending}
use webhook_delivery_system.Store.Dlq.{
  ack_dlq, delete_expired, prune_idempotency, force_ack_old_dlq, dead_letter, clear_dlq, ack_tx,
}
use webhook_delivery_system.Store.Subscriptions.{
  create_sub, update_sub, rotate_secret, delete_sub, create_tx, change_sub,
}
use webhook_delivery_system.Store.Chains.{
  IsChained, Ages, update_where-IsChained, delete_where-IsChained,
}

abbrev pub Chained : Db → Type 0
Chained db = IsChained db.logs

pub touch-Ages :
    (r : DeliveryLog) (at : Option ℕ) (now : ℕ)
    → Ages r (record r { next_retry_at = at; updated_at = now })
touch-Ages r at now = ground arith

pub clear_dlq-Ages : (t : Trip) (r : DeliveryLog) → Ages r (clear_dlq t r)
clear_dlq-Ages t r = ground arith

module _ (t : Trip) (id : ℕ) where
  pub succeed-Ages :
      (http : ℕ) (r : DeliveryLog) → pending_by_id id r ≡ true → Ages r (succeed t http r)
  succeed-Ages http r h = ground arith

  pub finalize-Ages :
      (http : Option ℕ) (details : Text) (r : DeliveryLog)
      → pending_by_id id r ≡ true
      → Ages r (finalize t http details r)
  finalize-Ages http details r h = ground arith

  pub drop-Ages :
      (details : Text) (r : DeliveryLog) → pending_by_id id r ≡ true → Ages r (drop t details r)
  drop-Ages details r h = ground arith

  pub fail_attempt-Ages :
      (http : Option ℕ) (details : Text) (r : DeliveryLog)
      → pending_by_id id r ≡ true
      → Ages r (fail_attempt t http details r)
  fail_attempt-Ages http details r h = ground arith

module _ (t : Trip) (db : Db) (h : Chained db) where
  pub mark_success-Chained : (id sub http : ℕ) → Chained (mark_success t id sub http db).1
  unfolding mark_success
  mark_success-Chained id sub http =
      finish-keeps Chained t.outcome db _ h
        (elim (Bool-cases (affected (pending_by_id id) db.logs == 0)) [
          | inl missed ↦ rw missed h
          | inr hit ↦ rw hit (update_where-IsChained _ _ (succeed-Ages t id http) db.logs h)
        ])

  pub finalize_failure-Chained :
      (id sub : ℕ) (http : Option ℕ) (details : Text) (threshold : ℕ)
      → Chained (finalize_failure t id sub http details threshold db).1
  unfolding finalize_failure
  finalize_failure-Chained id sub http details threshold =
      finish-keeps Chained t.outcome db _ h
        (elim (Bool-cases (affected (pending_by_id id) db.logs == 0)) [
          | inl missed ↦ rw missed h
          | inr hit ↦
              rw hit (update_where-IsChained _ _ (finalize-Ages t id http details) db.logs h)
        ])

  pub mark_dropped-Chained : (id : ℕ) (details : Text) → Chained (mark_dropped t id details db).1
  unfolding mark_dropped
  mark_dropped-Chained id details =
      finish-keeps Chained t.outcome db _ h
        (update_where-IsChained _ _ (drop-Ages t id details) db.logs h)

  pub reschedule-Chained : (id at : ℕ) → Chained (reschedule_same_pending t id at db).1
  unfolding reschedule_same_pending
  reschedule-Chained id at =
      finish-keeps Chained t.outcome db _ h
        (update_where-IsChained _ _ (λ r q. touch-Ages r (some at) t.now) db.logs h)

  pub claim_pending-Chained : (id lease : ℕ) → Chained (claim_pending t id lease db).1
  unfolding claim_pending
  claim_pending-Chained id lease = finish-keeps Chained t.outcome db _ h (
      update_where-IsChained _ _ (λ r q. touch-Ages r (some (t.now + seconds_arg lease)) t.now)
        db.logs h)

  pub rearm-Chained :
      (locked : ℕ → Bool) (limit threshold : ℕ)
      → Chained (rearm_lease_less_pending locked t limit threshold db).1
  unfolding rearm_lease_less_pending
  rearm-Chained locked limit threshold =
      finish-keeps Chained t.outcome db _ h
        (update_where-IsChained _ _ (λ r q. touch-Ages r (some t.now) t.now) db.logs h)

  pub force_ack-Chained : (max_age : ℕ) → Chained (force_ack_old_dlq t max_age db).1
  unfolding force_ack_old_dlq
  force_ack-Chained max_age =
      finish-keeps Chained t.outcome db _ h
        (update_where-IsChained _ _ (λ r q. clear_dlq-Ages t r) db.logs h)

  pub delete_expired-Chained : (retention : ℕ) → Chained (delete_expired t retention db).1
  unfolding delete_expired
  delete_expired-Chained retention =
      finish-keeps Chained t.outcome db _ h (delete_where-IsChained _ db.logs h)

  pub prune-Chained : (ttl : ℕ) → Chained (prune_idempotency t ttl db).1
  unfolding prune_idempotency
  prune-Chained ttl = finish-keeps Chained t.outcome db _ h h

  pub ack-Chained : (sub webhook : ℕ) → Chained (ack_dlq t sub webhook db).1
  unfolding ack_dlq
  ack-Chained sub webhook = elim (Option-cases (query_row (dead_letter sub webhook) db.logs)) [
    | inl absent ↦ finish-keeps Chained t.outcome db _ h (rw (absent, ack_tx) h)
    | inr (r, found) ↦
        finish-keeps Chained t.outcome db _ h
          (rw (found, ack_tx) (update_where-IsChained _ _ (λ r q. clear_dlq-Ages t r) db.logs h))
  ]

  pub delete_sub-Chained : (id : ℕ) → Chained (delete_sub t id db).1
  unfolding delete_sub
  delete_sub-Chained id =
      finish-keeps Chained t.outcome db _ h
        (elim (Bool-cases (affected (sub_by_id id) db.subs == 0)) [
          | inl missed ↦ rw missed h
          | inr hit ↦ rw hit (delete_where-IsChained _ db.logs h)
        ])

  pub create_sub-Chained : (s : Subscription) → Chained (create_sub t s db).1
  unfolding create_sub
  create_sub-Chained s = elim (Option-cases (query_row (sub_by_id t.uuid) db.subs)) [
    | inl absent ↦ finish-keeps Chained t.outcome db _ h (rw (absent, create_tx) h)
    | inr (r, found) ↦ finish-keeps Chained t.outcome db _ h (rw (found, create_tx) h)
  ]

  pub update_sub-Chained : (s : Subscription) → Chained (update_sub t s db).1
  unfolding update_sub
  update_sub-Chained s = elim (Option-cases (query_row (sub_by_id s.id) db.subs)) [
    | inl absent ↦ finish-keeps Chained t.outcome db _ h (rw (absent, change_sub) h)
    | inr (r, found) ↦ finish-keeps Chained t.outcome db _ h (rw (found, change_sub) h)
  ]

  pub rotate-Chained : (id : ℕ) (secret : Text) → Chained (rotate_secret t id secret db).1
  unfolding rotate_secret
  rotate-Chained id secret = elim (Option-cases (query_row (sub_by_id id) db.subs)) [
    | inl absent ↦ finish-keeps Chained t.outcome db _ h (rw (absent, change_sub) h)
    | inr (r, found) ↦ finish-keeps Chained t.outcome db _ h (rw (found, change_sub) h)
  ]
