-- ===== src/Store/Invariant.antt =====
-- The operations that insert attempt rows, and the invariant of every history.
use native.Mathlib.Nat.{le_trans}
use webhook_delivery_system.Prelude.{
  ℕ, ◌+◌, ◌≡◌, ◌≢◌, inl, inr, refl, Bool, true, false, Option, some, List, [], ◌∷◌, Text, arith,
  All, ◌==◌, Bool-cases, Option-cases, subst, text_eq, ltb, length, ◌&&◌, ◌≤◌,
}
use webhook_delivery_system.Domain.{
  DeliveryLog, IngestParams, ok, err, Result, not_found, max_target_url_length,
}
use webhook_delivery_system.Store.Sql.{
  inserted, Db, Trip, update_where, query_row, sub_by_id, affected, finish-keeps,
}
use webhook_delivery_system.Store.Lifecycle.{
  Validators, validate_event_type, ingest_pending, insert_pending, ingest_tx, claim_key,
  fail_and_schedule_retry, pending_by_id, fail_attempt, successor, insert_copy, new_row,
  idem_by_key,
}
use webhook_delivery_system.Store.Dlq.{replay_dlq, replay_tx, dead_letter, clear_dlq, replay_row}
use webhook_delivery_system.Store.Chains.{
  is_live, Apart, Pairwise, Sound, IsChained, All-query, update_where-IsChained,
}
use webhook_delivery_system.Store.Extend.{
  Follows, query-Alone, update-Quiet, insert_copy-IsChained, insert_first-IsChained,
}
use webhook_delivery_system.Store.Lineage
use webhook_delivery_system.Store.Lineage.{Chained, fail_attempt-Ages, clear_dlq-Ages}
use webhook_delivery_system.Store.History.{Op, apply, run, IsMinted, AllMinted, empty_db}

-- A test that affects a row finds one.
affected→found :
    (p : DeliveryLog → Bool) (rs : List DeliveryLog)
    → (affected p rs == 0) ≡ false
    → (r : DeliveryLog) × (query_row p rs ≡ some r)
affected→found p [] h = absurd (cc)
affected→found p (r ∷ rs) h = elim (Bool-cases (p r)) [
  | inl hit ↦ (r, rw hit refl)
  | inr miss ↦ let (s, e) = affected→found p rs (ground arith) in (s, rw miss e)
]

inserted-Chained :
    {A : Type 0} (f : ℕ → Result A) (r : Result ℕ × Db) → Chained r.1 → Chained (inserted f r).1
inserted-Chained f (ok id, db) h = h
inserted-Chained f (err e, db) h = h

successor-Follows :
    (t : Trip) (at : ℕ) (p r : DeliveryLog)
    → r.webhook_id ≡ p.webhook_id
    → r.replay_number ≡ p.replay_number
    → r.attempt_number ≡ p.attempt_number
    → Follows p (successor t at r)
successor-Follows t at p r w n a = ground arith

replay_row-Follows :
    (t : Trip) (p r : DeliveryLog)
    → r.webhook_id ≡ p.webhook_id
    → Follows p (replay_row t (p.replay_number + 1) r)
replay_row-Follows t p r w = ground arith

module _ (t : Trip) (db : Db) (h : Chained db) where
  retried :
      (id : ℕ) (http : Option ℕ) (details : Text) (at : ℕ) (p : DeliveryLog)
      → query_row (pending_by_id id) db.logs ≡ some p
      → Chained
          (insert_copy id (successor t at) (record db {
            logs = update_where (pending_by_id id) (fail_attempt t http details) db.logs;
          })).1
  retried id http details at p found =
      let (sound, hit) = All-query Sound (pending_by_id id) db.logs p h.sound found in
      let same : p.id ≡ id = ground arith in
      let quiet =
        update-Quiet (pending_by_id id) (fail_attempt t http details) p
          (fail_attempt-Ages t id http details) hit (ground arith) db.logs
          (query-Alone (pending_by_id id) db.logs p h.pairwise found (ground arith)) in
      let failed : Db = record db {
        logs = update_where (pending_by_id id) (fail_attempt t http details) db.logs;
      } in
      subst (λ i. Chained (insert_copy i (successor t at) failed).1) same
        (insert_copy-IsChained (successor t at) p failed
          (update_where-IsChained _ _ (fail_attempt-Ages t id http details) db.logs h) quiet
          (successor-Follows t at p))

  retry-Chained :
      (id : ℕ) (http : Option ℕ) (details : Text) (at : ℕ)
      → Chained (fail_and_schedule_retry t id http details at db).1
  unfolding fail_and_schedule_retry
  retry-Chained id http details at =
      finish-keeps Chained t.outcome db _ h
        (elim (Bool-cases (affected (pending_by_id id) db.logs == 0)) [
          | inl missed ↦ rw missed h
          | inr hit ↦
              let (p, found) = affected→found (pending_by_id id) db.logs hit in
              rw hit (inserted-Chained (λ i. ok (some i)) _ (retried id http details at p found))
        ])

  replayed :
      (sub webhook : ℕ) (p : DeliveryLog)
      → query_row (dead_letter sub webhook) db.logs ≡ some p
      → Chained
          (insert_copy p.id
            (replay_row t (p.replay_number + 1))
            (record db { logs = update_where (dead_letter sub webhook) (clear_dlq t) db.logs })).1
  replayed sub webhook p found =
      let (sound, hit) = All-query Sound (dead_letter sub webhook) db.logs p h.sound found in
      let cleared : Db = record db {
        logs = update_where (dead_letter sub webhook) (clear_dlq t) db.logs;
      } in
      insert_copy-IsChained (replay_row t (p.replay_number + 1)) p cleared
        (update_where-IsChained _ _ (λ r q. clear_dlq-Ages t r) db.logs h)
        (update-Quiet (dead_letter sub webhook) (clear_dlq t) p (λ r q. clear_dlq-Ages t r) hit
          (ground (arith, sound)) db.logs
          (query-Alone (dead_letter sub webhook) db.logs p h.pairwise found (ground arith)))
        (λ r w n a. replay_row-Follows t p r w)

  replay-Chained : (sub webhook : ℕ) → Chained (replay_dlq t sub webhook db).1
  unfolding replay_dlq
  replay-Chained sub webhook = elim (Option-cases (query_row (dead_letter sub webhook) db.logs)) [
    | inl absent ↦ finish-keeps Chained t.outcome db _ h (rw (absent, replay_tx) h)
    | inr (p, found) ↦ finish-keeps Chained t.outcome db _ h (
        rw (found, replay_tx)
          (inserted-Chained (λ i. ok (some (p.id, i))) _ (replayed sub webhook p found)))
  ]

first-Chained :
    (t : Trip) (p : IngestParams) (db : Db)
    → Chained db
    → All (λ r. r.webhook_id ≢ p.webhook_id) db.logs
    → Chained (insert_pending t p db).1
first-Chained t p db h w =
    unfold insert_pending in
    inserted-Chained _ _ (
      insert_first-IsChained not_found
        (new_row t p.webhook_id p.subscription_id p.target_url (t.jsonb p.payload) p.event_type 1 0
          (some t.now))
        db h w (λ e. cc))

claim_key-Chained :
    (t : Trip) (p : IngestParams) (db : Db)
    → Chained db
    → All (λ r. r.webhook_id ≢ p.webhook_id) db.logs
    → Chained (claim_key t p db).1
claim_key-Chained t p db h w =
    elim (Option-cases (query_row (idem_by_key p.subscription_id p.idempotency_key) db.idem)) [
      | inr (i, taken) ↦ unfold claim_key in rw (taken, claim_key) h
      | inl free ↦ elim (Option-cases (query_row (sub_by_id p.subscription_id) db.subs)) [
        | inl absent ↦ unfold claim_key in rw (free, claim_key) (rw (absent, claim_key) h)
        | inr (s, found) ↦
            unfold claim_key in
            rw (free, claim_key) (rw (found, claim_key) (first-Chained t p _ h w))
      ]
    ]

ingest-Chained :
    (v : Validators) (t : Trip) (p : IngestParams) (db : Db)
    → Chained db
    → All (λ r. r.webhook_id ≢ p.webhook_id) db.logs
    → Chained (ingest_pending v t p db).1
unfolding ingest_pending
ingest-Chained v t p db h w =
    let written : Chained (ingest_tx t p db).1 = elim (Bool-cases (text_eq p.idempotency_key [])) [
      | inl none_given ↦ unfold ingest_tx in rw none_given (first-Chained t p db h w)
      | inr given ↦ unfold ingest_tx in rw given (claim_key-Chained t p db h w)
    ] in
    elim (Bool-cases (v.json_valid p.payload)) [
      | inr bad ↦ rw bad h
      | inl json ↦ rw json (elim (Bool-cases (ltb max_target_url_length (length p.target_url))) [
        | inl long ↦ rw long h
        | inr short ↦ rw short (elim (Bool-cases (validate_event_type v p.event_type)) [
          | inr bad ↦ rw (bad, validate_event_type) h
          | inl typed ↦
              rw (typed, validate_event_type)
                (finish-keeps Chained t.outcome db (ingest_tx t p db) h written)
        ])
      ])
    ]

apply-Chained :
    (t : Trip) (op : Op) (db : Db) → IsMinted op db → Chained db → Chained (apply t op db)
unfolding apply
apply-Chained t (Op.ingests v p) db m h = ingest-Chained v t p db h m
apply-Chained t (Op.succeeds id sub http) db m h = Lineage.mark_success-Chained t db h id sub http
apply-Chained t (Op.finalizes id sub http details threshold) db m h =
    Lineage.finalize_failure-Chained t db h id sub http details threshold
apply-Chained t (Op.drops id details) db m h = Lineage.mark_dropped-Chained t db h id details
apply-Chained t (Op.reschedules id at) db m h = Lineage.reschedule-Chained t db h id at
apply-Chained t (Op.claims id lease) db m h = Lineage.claim_pending-Chained t db h id lease
apply-Chained t (Op.retries id http details at) db m h = retry-Chained t db h id http details at
apply-Chained t (Op.rearms locked limit threshold) db m h =
    Lineage.rearm-Chained t db h locked limit threshold
apply-Chained t (Op.acks sub webhook) db m h = Lineage.ack-Chained t db h sub webhook
apply-Chained t (Op.replays sub webhook) db m h = replay-Chained t db h sub webhook
apply-Chained t (Op.expires retention) db m h = Lineage.delete_expired-Chained t db h retention
apply-Chained t (Op.prunes ttl) db m h = Lineage.prune-Chained t db h ttl
apply-Chained t (Op.force_acks max_age) db m h = Lineage.force_ack-Chained t db h max_age
apply-Chained t (Op.creates s) db m h = Lineage.create_sub-Chained t db h s
apply-Chained t (Op.updates s) db m h = Lineage.update_sub-Chained t db h s
apply-Chained t (Op.rotates id secret) db m h = Lineage.rotate-Chained t db h id secret
apply-Chained t (Op.deletes id) db m h = Lineage.delete_sub-Chained t db h id

run-Chained :
    (ops : List (Trip × Op)) (db : Db) → AllMinted ops db → Chained db → Chained (run ops db)
unfolding run
run-Chained [] db m h = h
run-Chained ((t, op) ∷ ops) db m h =
    run-Chained ops (apply t op db) m.1 (apply-Chained t op db m.0 h)

pub run-IsChained :
    (ops : List (Trip × Op)) → AllMinted ops empty_db → IsChained (run ops empty_db).logs
run-IsChained ops m = run-Chained ops empty_db m (record { pairwise = tt; sound = tt })

affected_mono :
    (p q : DeliveryLog → Bool)
    → ((r : DeliveryLog) → p r ≡ true → q r ≡ true)
    → (rs : List DeliveryLog) → affected p rs ≤ affected q rs
affected_mono p q f [] = omega arith
affected_mono p q f (r ∷ rs) = ground (arith, f r, affected_mono p q f rs)

-- The live rows of a webhook.
abbrev pub live_of : ℕ → DeliveryLog → Bool
live_of webhook r = r.webhook_id == webhook && is_live r

none_live :
    (webhook : ℕ) (r : DeliveryLog) (rs : List DeliveryLog)
    → live_of webhook r ≡ true
    → All (Apart r) rs
    → affected (live_of webhook) rs ≡ 0
none_live webhook r [] l h = refl
none_live webhook r (s ∷ rs) l h =
    ground (arith, none_live webhook r rs l h.1, h.0.left_live, h.0.right_live)

one_live : (webhook : ℕ) (rs : List DeliveryLog) → Pairwise rs → affected (live_of webhook) rs ≤ 1
one_live webhook [] h = omega arith
one_live webhook (r ∷ rs) h = elim (Bool-cases (live_of webhook r)) [
  | inl hit ↦ rw hit (omega (arith, none_live webhook r rs hit h.0))
  | inr miss ↦ rw miss (one_live webhook rs h.1)
]

-- After any history of operations on empty tables in which each ingest brings a webhook id that no
-- stored row has, each webhook has at most one row that is pending or in the dead letter queue, so a
-- claim of its dead letter, by an acknowledgement or a replay, affects at most one row.
pub run-one_live :
    (ops : List (Trip × Op)) (webhook sub : ℕ)
    → AllMinted ops empty_db
    → (affected (live_of webhook) (run ops empty_db).logs ≤ 1)
      × (affected (dead_letter sub webhook) (run ops empty_db).logs ≤ 1)
run-one_live ops webhook sub m =
    let logs = (run ops empty_db).logs in
    let live = one_live webhook logs (run-IsChained ops m).pairwise in
    (
      live,
      le_trans
          (affected_mono (dead_letter sub webhook) (live_of webhook) (λ r h. ground arith) logs)
          live,
    )
