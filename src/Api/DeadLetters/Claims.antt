-- ===== src/Api/DeadLetters/Claims.antt =====
-- A dead letter is claimed once: internal/api/handler_dlq.go over internal/store/dlq.go.
use webhook_delivery_system.Prelude.{
  ℕ, ◌+◌, ◌≡◌, ◌≤◌, ◌⊎◌, Bool, true, false, ==_iff, ◌==◌, if◌then◌else◌, refl, ap, sym, subst, ◌∙◌,
  Option, none, some, List, [], ◌∷◌, arith, inl, inr, Option-cases,
}
use webhook_delivery_system.Domain.{DeliveryLog, pending, Result, ok, err}
use webhook_delivery_system.Store.Sql.{
  Db, Trip, Outcome, done, in_tx, finish, finish_ok, finish_done, update_where, query_row, affected,
  log_by_id, insert_log,
}
use webhook_delivery_system.Store.Lifecycle.{insert_copy}
use webhook_delivery_system.Store.Dlq.{
  dead_letter, clear_dlq, cleared, replay_row, replay_tx, replay_dlq, ack_tx, ack_dlq,
}
use webhook_delivery_system.Delivery.{World, with_db}
use webhook_delivery_system.Http.{write_json}
use webhook_delivery_system.Api.Dto.{Answer, replaying}
use webhook_delivery_system.Api.Ingest.Admission.{write_domain_error-ge}
use webhook_delivery_system.Api.DeadLetters.{no_entry, after_replay, handle_replay, handle_ack_dlq}

cleared_none :
    (t : Trip) (s k : ℕ) (rows : List DeliveryLog)
    → query_row (dead_letter s k) (update_where (dead_letter s k) (clear_dlq t) rows) ≡ none
cleared_none t s k [] = refl
cleared_none t s k (r ∷ rows) = ground (arith, cleared_none t s k rows)

cleared_gone :
    (t : Trip) (s k replay : ℕ) (source : DeliveryLog) (db : Db)
    → query_row (dead_letter s k) (replay_row t replay source ∷ (cleared t s k db).logs) ≡ none
unfolding cleared
cleared_gone t s k replay source db = ground (arith, cleared_none t s k db.logs)

-- The first row of a query is the head, or is found behind it.
found_cases :
    (b : Bool) (r c : DeliveryLog) (later : Option DeliveryLog)
    → (if b then some r else later) ≡ some c
    → ((b ≡ true) × (r ≡ c)) ⊎ ((b ≡ false) × (later ≡ some c))
found_cases true r c later h = inl (refl, cc)
found_cases false r c later h = inr (refl, h)

row_counted :
    (p q : DeliveryLog → Bool) (c : DeliveryLog) (rows : List DeliveryLog)
    → query_row p rows ≡ some c
    → q c ≡ true
    → 1 ≤ affected q rows
row_counted p q c [] h k = absurd (cc)
row_counted p q c (r ∷ rows) h k = elim (found_cases (p r) r c (query_row p rows) h) [
  | inl (hit, same) ↦
      let here : q r ≡ true = subst (λ x. q x ≡ true) (sym same) k in rw here (omega arith)
  | inr (miss, later) ↦ ground (arith, row_counted p q c rows later k)
]

affected_tail :
    (q : DeliveryLog → Bool) (r : DeliveryLog) (rows : List DeliveryLog)
    → affected q (r ∷ rows) ≤ 1
    → affected q rows ≤ 1
affected_tail q r rows h = ground arith

-- Where ids are distinct, the dead letter is the row that its id finds after it was cleared.
claimed_found :
    (t : Trip) (s k : ℕ) (c : DeliveryLog) (rows : List DeliveryLog)
    → ((i : ℕ) → affected (log_by_id i) rows ≤ 1)
    → query_row (dead_letter s k) rows ≡ some c
    → query_row (log_by_id c.id) (update_where (dead_letter s k) (clear_dlq t) rows)
      ≡ some (clear_dlq t c)
claimed_found t s k c [] u h = absurd (cc)
claimed_found t s k c (r ∷ rows) u h =
    let id_is : (c.id == c.id) ≡ true = (==_iff c.id c.id).1 refl in
    elim (found_cases (dead_letter s k r) r c (query_row (dead_letter s k) rows) h) [
      | inl (hit, same) ↦ rw hit (rw same (rw id_is refl))
      | inr (miss, later) ↦
          let counted = row_counted (dead_letter s k) (log_by_id c.id) c rows later id_is in
          let alone = u c.id in
          rw miss (
            ground (
              arith,
              counted,
              alone,
              claimed_found t s k c rows (λ i. affected_tail (log_by_id i) r rows (u i)) later,
            ))
    ]

-- The new chain of a replay, and the dead letter gone.
pub record IsReplayed (t : Trip) (s k : ℕ) (before after : Db) (new_id : ℕ) : Type 0 where
  pub claimed : DeliveryLog
  pub was_dead : query_row (dead_letter s k) before.logs ≡ some claimed
  pub row : DeliveryLog
  pub stored : query_row (log_by_id new_id) after.logs ≡ some row
  pub waiting : row.status ≡ pending
  pub due : row.next_retry_at ≡ some t.now
  pub first : row.attempt_number ≡ 1
  pub next_chain : row.replay_number ≡ claimed.replay_number + 1
  pub same_webhook : row.webhook_id ≡ claimed.webhook_id
  pub same_subscription : row.subscription_id ≡ claimed.subscription_id
  pub same_target : row.target_url ≡ claimed.target_url
  pub same_payload : row.payload ≡ claimed.payload
  pub same_event : row.event_type ≡ claimed.event_type
  pub gone : query_row (dead_letter s k) after.logs ≡ none

source_claimed :
    (t : Trip) (s k : ℕ) (c source : DeliveryLog) (db : Db)
    → ((i : ℕ) → affected (log_by_id i) db.logs ≤ 1)
    → query_row (dead_letter s k) db.logs ≡ some c
    → query_row (log_by_id c.id) (cleared t s k db).logs ≡ some source
    → source ≡ clear_dlq t c
unfolding cleared
source_claimed t s k c source db u dead found =
    let cleared_claim = claimed_found t s k c db.logs u dead in cc

-- The row that an INSERT of a copy stores, in front of the others.
copy_stored :
    (id : ℕ) (copy : DeliveryLog → DeliveryLog) (db : Db) (new_id : ℕ)
    → (insert_copy id copy db).0 ≡ ok new_id
    → (r : DeliveryLog) × (query_row (log_by_id id) db.logs ≡ some r)
      × ((copy r).id ≡ new_id)
      × ((insert_copy id copy db).1.logs ≡ copy r ∷ db.logs)
unfolding insert_copy insert_log
copy_stored id copy db new_id h = elim (Option-cases (query_row (log_by_id id) db.logs)) [
  | inl absent ↦ absurd (ground arith)
  | inr (r, found) ↦ (r, found, ground (arith, found), ground (arith, found))
]

-- A replay as the insert of a copy, and what its result says of that insert.
replay_of : ℕ → Result ℕ × Db → Result (Option (ℕ × ℕ)) × Db
replay_of claimed (err e, db) = (err e, db)
replay_of claimed (ok id, db) = (ok (some (claimed, id)), db)

replay_of_ok :
    (claimed : ℕ) (r : Result ℕ × Db) (old new_id : ℕ)
    → (replay_of claimed r).0 ≡ ok (some (old, new_id))
    → (r.0 ≡ ok new_id) × ((replay_of claimed r).1 ≡ r.1)
unfolding replay_of
replay_of_ok claimed (err e, db) old new_id h = absurd (cc)
replay_of_ok claimed (ok id, db) old new_id h = (cc, refl)

replay_elim :
    (claimed : ℕ) (r : Result ℕ × Db)
    → (elim r.0 [ err e ↦ (err e, r.1) | ok id ↦ (ok (some (claimed, id)), r.1) ])
      ≡ replay_of claimed r
unfolding replay_of
replay_elim claimed (err e, db) = refl
replay_elim claimed (ok id, db) = refl

replay_tx-replay_of :
    (t : Trip) (s k : ℕ) (db : Db) (claimed : DeliveryLog)
    → query_row (dead_letter s k) db.logs ≡ some claimed
    → replay_tx t s k db
      ≡ replay_of claimed.id
          (insert_copy claimed.id (replay_row t (claimed.replay_number + 1)) (cleared t s k db))
unfolding replay_tx replay_of
replay_tx-replay_of t s k db claimed h =
    rw (h, replay_tx)
      (replay_elim claimed.id
        (insert_copy claimed.id (replay_row t (claimed.replay_number + 1)) (cleared t s k db)))

not_replayed :
    (t : Trip) (s k : ℕ) (db : Db) (old new_id : ℕ)
    → query_row (dead_letter s k) db.logs ≡ none
    → (replay_tx t s k db).0 ≡ ok (some (old, new_id))
    → ⊥
unfolding replay_tx
not_replayed t s k db old new_id h = rw (h, replay_tx) (λ e. cc)

replay_tx-IsReplayed :
    (t : Trip) (s k : ℕ) (db : Db) (old new_id : ℕ)
    → ((i : ℕ) → affected (log_by_id i) db.logs ≤ 1)
    → (replay_tx t s k db).0 ≡ ok (some (old, new_id))
    → IsReplayed t s k db (replay_tx t s k db).1 new_id
replay_tx-IsReplayed t s k db old new_id u h =
    elim (Option-cases (query_row (dead_letter s k) db.logs)) [
      | inl none_dead ↦ absurd (not_replayed t s k db old new_id none_dead h)
      | inr (claimed, dead) ↦
          let whole = replay_tx-replay_of t s k db claimed dead in
          let copy = replay_row t (claimed.replay_number + 1) in
          let r = insert_copy claimed.id copy (cleared t s k db) in
          let (inserted, same) =
            replay_of_ok claimed.id r old new_id (ap (λ x. x.0) (sym whole) ∙ h) in
          let (source, found, named, rows) =
            copy_stored claimed.id copy (cleared t s k db) new_id inserted in
          let logs = ap (λ d. d.logs) same ∙ rows in
          let copied = source_claimed t s k claimed source db u dead found in
          rw whole (record {
            claimed = claimed;
            was_dead = dead;
            row = copy source;
            stored = rw logs (ground (arith, named));
            waiting = refl;
            due = refl;
            first = refl;
            next_chain = refl;
            same_webhook = ap (λ r. r.webhook_id) copied;
            same_subscription = ap (λ r. r.subscription_id) copied;
            same_target = ap (λ r. r.target_url) copied;
            same_payload = ap (λ r. r.payload) copied;
            same_event = ap (λ r. r.event_type) copied;
            gone = rw logs (cleared_gone t s k (claimed.replay_number + 1) source db);
          })
    ]

-- What the 202 of the handler says of the transaction.
after_replay_lem :
    (queued removed : Outcome) (k new_id : ℕ) (r : Result (Option (ℕ × ℕ))) (w w' : World)
    → after_replay queued removed k r w ≡ (write_json 202 (replaying k new_id), w')
    → ((old : ℕ) × (r ≡ ok (some (old, new_id)))) × (w'.state ≡ w.state)
after_replay_lem queued removed k new_id (err e) w w' h =
    absurd (omega (arith, write_domain_error-ge e, ap (λ (x : Answer × World). x.0.status) h))
after_replay_lem queued removed k new_id (ok none) w w' h = absurd (cc)
after_replay_lem queued removed k new_id (ok (some (old, id))) w w' h =
    ((old, ap (λ (i : ℕ). ok (some (old, i))) (cc)), cc)

replay_tx-none :
    (u : Trip) (s k : ℕ) (db : Db)
    → query_row (dead_letter s k) db.logs ≡ none
    → replay_tx u s k db ≡ (ok none, db)
unfolding replay_tx
replay_tx-none u s k db gone = rw (gone, replay_tx) refl

ack_tx-none :
    (u : Trip) (s k : ℕ) (db : Db)
    → query_row (dead_letter s k) db.logs ≡ none
    → ack_tx u s k db ≡ (ok none, db)
unfolding ack_tx
ack_tx-none u s k db gone = rw (gone, ack_tx) refl

-- No dead letter of the webhook is left: a later replay or acknowledgement finds none.
no_dead_letter :
    (u : Trip) (queued removed : Outcome) (s k : ℕ) (w : World)
    → u.outcome ≡ done
    → query_row (dead_letter s k) w.state.db.logs ≡ none
    → (handle_replay u queued removed s k w ≡ (no_entry, w))
      × (handle_ack_dlq u removed s k w ≡ (no_entry, w))
unfolding handle_replay handle_ack_dlq replay_dlq ack_dlq replay_tx ack_tx in_tx
no_dead_letter u queued removed s k w d gone = (
  rw (replay_tx-none u s k w.state.db gone)
      (rw (finish_done {A = Option (ℕ × ℕ)} u.outcome w.state.db w.state.db none d) refl),
  rw (ack_tx-none u s k w.state.db gone)
      (rw (finish_done {A = Option ℕ} u.outcome w.state.db w.state.db none d) refl),
)

-- When no two attempt rows have the same id and a replay is answered 202, the webhook had a dead
-- letter, and the tables hold under the new id the first attempt of the next chain, pending and due at
-- once, with the dead letter's webhook, subscription, target, payload and event type; after it, and
-- whatever the queue and the list did, a second replay or an acknowledgement whose round trip is done
-- is answered 404 and changes nothing.
pub handle_replay-IsReplayed :
    (t u : Trip) (queued removed queued' removed' : Outcome) (s k new_id : ℕ) (w w' : World)
    → ((i : ℕ) → affected (log_by_id i) w.state.db.logs ≤ 1)
    → handle_replay t queued removed s k w ≡ (write_json 202 (replaying k new_id), w')
    → u.outcome ≡ done
    → IsReplayed t s k w.state.db w'.state.db new_id
      × ((handle_replay u queued' removed' s k w' ≡ (no_entry, w'))
          × (handle_ack_dlq u removed' s k w' ≡ (no_entry, w')))
unfolding handle_replay replay_dlq in_tx
handle_replay-IsReplayed t u queued removed queued' removed' s k new_id w w' distinct h d =
    let db = w.state.db in
    let tx = replay_tx t s k db in
    let r = finish t.outcome db tx in
    let ((old, committed), kept) =
      after_replay_lem queued removed k new_id r.0 (with_db r.1 w) w' h in
    let applied = finish_ok t.outcome db tx (some (old, new_id)) committed in
    let after : w'.state.db ≡ tx.1 = ap (λ x. x.db) kept ∙ ap (λ x. x.1) applied in
    let replayed =
      replay_tx-IsReplayed t s k db old new_id distinct (ap (λ x. x.0) (sym applied) ∙ committed) in
    (
      subst (λ x. IsReplayed t s k db x new_id) (sym after) replayed,
      no_dead_letter u queued' removed' s k w' d
          (ap (λ (x : Db). query_row (dead_letter s k) x.logs) after ∙ replayed.gone),
    )
