-- ===== src/Store/Exclusion.antt =====
-- A claimed row of internal/store/delivery_lifecycle.go, while other deliverers work on the tables.
use webhook_delivery_system.Prelude.{
  ℕ, ◌+◌, ◌≤◌, ◌<◌, ◌≡◌, ◌≢◌, refl, Bool, true, false, Option, some, Option-cases, List, [], ◌∷◌,
  Text, arith, ◌==◌, ==_iff, inl, inr, Bool-cases,
}
use webhook_delivery_system.Domain.{DeliveryLog, Error, infrastructure, Result, ok, err}
use webhook_delivery_system.Store.Sql.{
  finish-keeps, Db, Trip, done, in_tx, update_where, affected, query_row, log_by_id, sub_by_id,
  insert_log, seconds_arg,
}
use webhook_delivery_system.Store.Lifecycle.{
  claim_pending, claimable, pending_by_id, succeed, finalize, drop, mark_success, mark_success_tx,
  finalize_failure, finalize_failure_tx, mark_dropped, successor, fail_attempt, insert_copy,
  fail_and_schedule_retry, reschedule_same_pending,
}
use webhook_delivery_system.Store.History.{Op, apply, run}
use webhook_delivery_system.Store.Leases.{leased, leased_unclaimable, claimed, refused_claim}

-- What other deliverers do meanwhile: claims of any row up to a time, reschedules of other rows, and
-- successes, failures with a retry under another id, final failures and drops of any row.
abbrev pub IsForeign : ℕ → ℕ → Trip × Op → Type 0
IsForeign id limit (t, Op.claims j lease) = t.now ≤ limit
IsForeign id limit (t, Op.reschedules j at) = j ≢ id
IsForeign id limit (t, Op.succeeds j sub http_status) = Unit {0}
IsForeign id limit (t, Op.finalizes j sub http_status details threshold) = Unit {0}
IsForeign id limit (t, Op.drops j details) = Unit {0}
IsForeign id limit (t, Op.retries j http_status details at) = t.uuid ≢ id
IsForeign id limit (t, op) = ⊥

abbrev pub AreForeign : ℕ → ℕ → List (Trip × Op) → Type 0
AreForeign id limit [] = Unit {0}
AreForeign id limit (op ∷ ops) = IsForeign id limit op × AreForeign id limit ops

earlier_claims :
    (now limit id : ℕ) (rows : List DeliveryLog)
    → now ≤ limit
    → affected (claimable now id) rows ≤ affected (claimable limit id) rows
earlier_claims now limit id [] h = omega arith
earlier_claims now limit id (r ∷ rows) h = ground (arith, earlier_claims now limit id rows h)

module _ (id limit : ℕ) where
  -- No row of the id can be claimed by the limit.
  abbrev pub IsLeased : Db → Type 0
  IsLeased db = affected (claimable limit id) db.logs ≡ 0

  update_keeps :
      (p : DeliveryLog → Bool) (f : DeliveryLog → DeliveryLog) (rows : List DeliveryLog)
      → ((r : DeliveryLog)
          → p r ≡ true
          → claimable limit id r ≡ false
          → claimable limit id (f r) ≡ false)
      → affected (claimable limit id) rows ≡ 0
      → affected (claimable limit id) (update_where p f rows) ≡ 0
  update_keeps p f [] keeps h = refl
  update_keeps p f (r ∷ rows) keeps h = ground (arith, keeps r, update_keeps p f rows keeps)

  claim-IsLeased :
      (t : Trip) (j lease : ℕ) (db : Db)
      → t.now ≤ limit
      → IsLeased db
      → IsLeased (claim_pending t j lease db).1
  unfolding claim_pending in_tx
  claim-IsLeased t j lease db early h = finish-keeps IsLeased t.outcome db _ h (
      update_keeps (claimable t.now j) (leased (t.now + seconds_arg lease) t.now) db.logs
        (λ r hit shut. ground arith) h)

  reschedule-IsLeased :
      (t : Trip) (j at : ℕ) (db : Db)
      → j ≢ id
      → IsLeased db
      → IsLeased (reschedule_same_pending t j at db).1
  unfolding reschedule_same_pending in_tx
  reschedule-IsLeased t j at db other h = finish-keeps IsLeased t.outcome db _ h (
      update_keeps (pending_by_id j) (λ r. record r { next_retry_at = some at; updated_at = t.now })
        db.logs (λ r hit shut. another r hit) h)
    where
      another :
          (r : DeliveryLog)
          → pending_by_id j r ≡ true
          → claimable limit id (record r { next_retry_at = some at; updated_at = t.now }) ≡ false
      another r hit = elim (Bool-cases (r.id == id)) [
        | inl same ↦
            let mine : r.id ≡ id = (==_iff r.id id).0 same in
            let theirs : r.id ≡ j = ground arith in absurd (other (cc))
        | inr apart ↦ rw apart refl
      ]

  drop-IsLeased :
      (t : Trip) (j : ℕ) (details : Text) (db : Db)
      → IsLeased db
      → IsLeased (mark_dropped t j details db).1
  unfolding mark_dropped in_tx
  drop-IsLeased t j details db h =
      finish-keeps IsLeased t.outcome db _ h
        (update_keeps (pending_by_id j) (drop t details) db.logs (λ r hit shut. ground arith) h)

  success-IsLeased :
      (t : Trip) (j sub http_status : ℕ) (db : Db)
      → IsLeased db
      → IsLeased (mark_success t j sub http_status db).1
  unfolding mark_success mark_success_tx in_tx
  success-IsLeased t j sub http_status db h =
      finish-keeps IsLeased t.outcome db (mark_success_tx t j sub http_status db) h
        (elim (Bool-cases (affected (pending_by_id j) db.logs == 0)) [
          | inl absent ↦ rw absent h
          | inr found ↦ rw found (
              update_keeps (pending_by_id j) (succeed t http_status) db.logs
                (λ r hit shut. ground arith) h)
        ])

  failure-IsLeased :
      (t : Trip) (j sub : ℕ) (http_status : Option ℕ) (details : Text) (threshold : ℕ) (db : Db)
      → IsLeased db
      → IsLeased (finalize_failure t j sub http_status details threshold db).1
  unfolding finalize_failure finalize_failure_tx in_tx
  failure-IsLeased t j sub http_status details threshold db h =
      finish-keeps IsLeased t.outcome db
        (finalize_failure_tx t j sub http_status details threshold db) h
        (elim (Bool-cases (affected (pending_by_id j) db.logs == 0)) [
          | inl absent ↦ rw absent h
          | inr found ↦ rw found (
              update_keeps (pending_by_id j) (finalize t http_status details) db.logs
                (λ r hit shut. ground arith) h)
        ])

  -- A row of another id is inserted, or nothing is.
  inserted-IsLeased :
      (missing : Error) (row : DeliveryLog) (db : Db)
      → row.id ≢ id
      → IsLeased db
      → IsLeased (insert_log missing row db).1
  unfolding insert_log
  inserted-IsLeased missing row db other h =
      elim (Option-cases (query_row (sub_by_id row.subscription_id) db.subs)) [
        | inl absent ↦ rw (absent, insert_log) h
        | inr (s, found) ↦ elim (Option-cases (query_row (log_by_id row.id) db.logs)) [
          | inr (r, taken) ↦ rw (found, insert_log) (rw (taken, insert_log) h)
          | inl free ↦
              rw (found, insert_log)
                (rw (free, insert_log)
                  (elim (Bool-cases (row.id == id)) [
                    | inl same ↦ absurd (other ((==_iff row.id id).0 same))
                    | inr apart ↦ rw apart h
                  ]))
        ]
      ]

  copied-IsLeased :
      (j : ℕ) (copy : DeliveryLog → DeliveryLog) (db : Db)
      → ((r : DeliveryLog) → (copy r).id ≢ id)
      → IsLeased db
      → IsLeased (insert_copy j copy db).1
  unfolding insert_copy
  copied-IsLeased j copy db other h = elim (Option-cases (query_row (log_by_id j) db.logs)) [
    | inl absent ↦ rw (absent, insert_copy) h
    | inr (r, found) ↦
        rw (found, insert_copy) (inserted-IsLeased infrastructure (copy r) db (other r) h)
  ]

  reported-IsLeased :
      (r : Result ℕ × Db)
      → IsLeased r.1
      → ◌≡◌ {A = ℕ}
          (affected
            (claimable limit id)
            (elim r.0 as (λ _. Result (Option ℕ) × Db) [
              | err e ↦ (err e, r.1)
              | ok i ↦ (ok (some i), r.1)
            ]).1.logs)
          0
  reported-IsLeased (err e, db) h = h
  reported-IsLeased (ok i, db) h = h

  retry-IsLeased :
      (t : Trip) (j : ℕ) (http_status : Option ℕ) (details : Text) (at : ℕ) (db : Db)
      → t.uuid ≢ id
      → IsLeased db
      → IsLeased (fail_and_schedule_retry t j http_status details at db).1
  unfolding fail_and_schedule_retry
  retry-IsLeased t j http_status details at db other h =
      finish-keeps IsLeased t.outcome db _ h
        (elim (Bool-cases (affected (pending_by_id j) db.logs == 0)) [
          | inl absent ↦ rw absent h
          | inr found ↦ rw found (
              reported-IsLeased _ (
                copied-IsLeased j (successor t at) _ (λ r. other)
                  (update_keeps (pending_by_id j) (fail_attempt t http_status details) db.logs
                    (λ r hit shut. ground arith) h)))
        ])

  apply-IsLeased :
      (t : Trip) (op : Op) (db : Db)
      → IsForeign id limit (t, op)
      → IsLeased db
      → IsLeased (apply t op db)
  unfolding apply
  apply-IsLeased t (Op.claims j lease) db f h = claim-IsLeased t j lease db f h
  apply-IsLeased t (Op.reschedules j at) db f h = reschedule-IsLeased t j at db f h
  apply-IsLeased t (Op.succeeds j sub http_status) db f h =
      success-IsLeased t j sub http_status db h
  apply-IsLeased t (Op.finalizes j sub http_status details threshold) db f h =
      failure-IsLeased t j sub http_status details threshold db h
  apply-IsLeased t (Op.drops j details) db f h = drop-IsLeased t j details db h
  apply-IsLeased t (Op.retries j http_status details at) db f h =
      retry-IsLeased t j http_status details at db f h
  apply-IsLeased t (Op.ingests _ _) db f h = absurd f
  apply-IsLeased t (Op.rearms _ _ _) db f h = absurd f
  apply-IsLeased t (Op.acks _ _) db f h = absurd f
  apply-IsLeased t (Op.replays _ _) db f h = absurd f
  apply-IsLeased t (Op.expires _) db f h = absurd f
  apply-IsLeased t (Op.prunes _) db f h = absurd f
  apply-IsLeased t (Op.force_acks _) db f h = absurd f
  apply-IsLeased t (Op.creates _) db f h = absurd f
  apply-IsLeased t (Op.updates _) db f h = absurd f
  apply-IsLeased t (Op.rotates _ _) db f h = absurd f
  apply-IsLeased t (Op.deletes _) db f h = absurd f

  run-IsLeased :
      (ops : List (Trip × Op)) (db : Db)
      → AreForeign id limit ops
      → IsLeased db
      → IsLeased (run ops db)
  unfolding run
  run-IsLeased [] db f h = h
  run-IsLeased ((t, op) ∷ ops) db (f, rest) h =
      run-IsLeased ops (apply t op db) rest (apply-IsLeased t op db f h)

-- A row that was claimed is not claimed again by the limit, whatever the other deliverers do meanwhile.
pub still_leased :
    (t u : Trip) (id lease next limit : ℕ) (ops : List (Trip × Op)) (db : Db)
    → affected (log_by_id id) db.logs ≤ 1
    → (claim_pending t id lease db).0 ≡ ok true
    → limit < t.now + seconds_arg lease
    → AreForeign id limit ops
    → u.outcome ≡ done
    → u.now ≤ limit
    → let db' = run ops (claim_pending t id lease db).1 in
      ((claim_pending u id next db').0 ≡ ok false)
      × ((claim_pending u id next db').1.logs ≡ db'.logs)
still_leased t u id lease next limit ops db k h l f d e =
    let (one, rows) = claimed t id lease db h in
    let due = t.now + seconds_arg lease in
    let first : IsLeased id limit (claim_pending t id lease db).1 =
      rw rows (leased_unclaimable id t.now limit due db.logs k one l) in
    let after = run-IsLeased id limit ops (claim_pending t id lease db).1 f first in
    let now = earlier_claims u.now limit id (run ops (claim_pending t id lease db).1).logs e in
    refused_claim u id next (run ops (claim_pending t id lease db).1) d (omega (arith, now, after))
