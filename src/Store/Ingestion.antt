-- ===== src/Store/Ingestion.antt =====
-- Idempotent ingest: `IngestPending` of internal/store/delivery_lifecycle.go.
use webhook_delivery_system.Prelude.{
  ℕ, ◌≡◌, refl, true, false, none, some, [], ◌∷◌, Text, arith, inl, inr, Bool-cases, Option-cases,
  subst, sym, ap, ◌∙◌, text_eq, text_eq_refl, ltb, length,
}
use webhook_delivery_system.Domain.{
  DeliveryLog, Error, not_found, IngestParams, IngestResult, Result, ok, err, max_target_url_length,
}
use webhook_delivery_system.Store.Sql.{
  Db, Trip, done, finish, finish_ok, finish_done, in_tx, query_row, sub_by_id, Idempotency,
  insert_log, inserted, log_by_id,
}
use webhook_delivery_system.Store.Lifecycle.{
  Validators, validate_event_type, idem_by_key, insert_pending, claim_key, ingest_tx,
  ingest_pending, new_row,
}

-- The key is taken, by this webhook.
abbrev pub Taken : ℕ → Text → ℕ → Db → Type 0
Taken sub key webhook db =
    (i : Idempotency) × ((query_row (idem_by_key sub key) db.idem ≡ some i)
      × (i.webhook_id ≡ webhook))

abbrev claim_row : Trip → IngestParams → Idempotency
claim_row t p = record {
  subscription_id = p.subscription_id;
  idempotency_key = p.idempotency_key;
  webhook_id = p.webhook_id;
  created_at = t.now;
}

-- What an insert leaves of the keys, and the webhook that it reports.
record IsInserted (webhook : ℕ) (db : Db) (r : Result IngestResult × Db) : Type 0 where
  same_idem : r.1.idem ≡ db.idem
  reports : (res : IngestResult) → r.0 ≡ ok res → res.webhook_id ≡ webhook

insert_log_idem : (e : Error) (row : DeliveryLog) (db : Db) → (insert_log e row db).1.idem ≡ db.idem
unfolding insert_log
insert_log_idem e row db = elim (Option-cases (query_row (sub_by_id row.subscription_id) db.subs)) [
  | inl absent ↦ rw (absent, insert_log) refl
  | inr (s, found) ↦ elim (Option-cases (query_row (log_by_id row.id) db.logs)) [
    | inl free ↦ rw (found, insert_log) (rw (free, insert_log) refl)
    | inr (l, taken) ↦ rw (found, insert_log) (rw (taken, insert_log) refl)
  ]
]

inserted-IsInserted :
    (webhook : ℕ) (db : Db) (f : ℕ → Result IngestResult) (r : Result ℕ × Db)
    → ((id : ℕ) (res : IngestResult) → f id ≡ ok res → res.webhook_id ≡ webhook)
    → r.1.idem ≡ db.idem
    → IsInserted webhook db (inserted f r)
inserted-IsInserted webhook db f (ok id, d) g e = record { same_idem = e; reports = g id }
inserted-IsInserted webhook db f (err x, d) g e = record {
  same_idem = e;
  reports = λ res h. absurd (cc);
}

insert_pending-IsInserted :
    (t : Trip) (p : IngestParams) (db : Db) → IsInserted p.webhook_id db (insert_pending t p db)
unfolding insert_pending
insert_pending-IsInserted t p db =
    let row =
      new_row t p.webhook_id p.subscription_id p.target_url (t.jsonb p.payload) p.event_type 1 0
        (some t.now) in
    inserted-IsInserted p.webhook_id db
      (λ id.
        ok (record { webhook_id = p.webhook_id; delivery_log_id = some id; duplicate = false }))
      (insert_log not_found row db) (λ id res h. grind arith) (insert_log_idem not_found row db)

inserted-Taken :
    (t : Trip) (p : IngestParams) (db : Db) (res : IngestResult)
    → let keyed = record db { idem = claim_row t p ∷ db.idem } in
      (insert_pending t p keyed).0 ≡ ok res
      → Taken p.subscription_id p.idempotency_key res.webhook_id (insert_pending t p keyed).1
inserted-Taken t p db res h =
    let keyed : Db = record db { idem = claim_row t p ∷ db.idem } in
    let k = insert_pending-IsInserted t p keyed in
    (
      claim_row t p,
      (rw k.same_idem (ground (arith, text_eq_refl p.idempotency_key)), sym (k.reports res h)),
    )

-- After an ingest with a key that returned a result, its key belongs to the webhook of the result.
claim_key-Taken :
    (t : Trip) (p : IngestParams) (db : Db) (res : IngestResult)
    → (claim_key t p db).0 ≡ ok res
    → Taken p.subscription_id p.idempotency_key res.webhook_id (claim_key t p db).1
claim_key-Taken t p db res =
    elim (Option-cases (query_row (idem_by_key p.subscription_id p.idempotency_key) db.idem)) [
      | inr (i, taken) ↦ unfold claim_key in rw (taken, claim_key) (λ h. (i, (taken, grind arith)))
      | inl free ↦ elim (Option-cases (query_row (sub_by_id p.subscription_id) db.subs)) [
        | inl absent ↦
            unfold claim_key in rw (free, claim_key) (rw (absent, claim_key) (λ h. absurd (cc)))
        | inr (s, found) ↦
            unfold claim_key in
            rw (free, claim_key) (rw (found, claim_key) (inserted-Taken t p db res))
      ]
    ]

again-Taken :
    (u : Trip) (q : IngestParams) (webhook : ℕ) (db : Db)
    → Taken q.subscription_id q.idempotency_key webhook db
    → claim_key u q db
      ≡ (ok (record { webhook_id = webhook; delivery_log_id = none; duplicate = true }), db)
again-Taken u q webhook db (i, (taken, same)) =
    unfold claim_key in rw (taken, claim_key) (rw same refl)

-- The validations before the transaction.
abbrev IsValid : Validators → IngestParams → Type 0
IsValid v p =
    (v.json_valid p.payload ≡ true)
    × ((ltb max_target_url_length (length p.target_url) ≡ false)
        × (validate_event_type v p.event_type ≡ true))

accepted :
    (v : Validators) (t : Trip) (p : IngestParams) (db : Db) (res : IngestResult)
    → (ingest_pending v t p db).0 ≡ ok res
    → IsValid v p
unfolding ingest_pending
accepted v t p db res = elim (Bool-cases (v.json_valid p.payload)) [
  | inr bad ↦ rw bad (λ h. absurd (cc))
  | inl json ↦ rw json (elim (Bool-cases (ltb max_target_url_length (length p.target_url))) [
    | inl long ↦ rw long (λ h. absurd (cc))
    | inr short ↦ rw short (elim (Bool-cases (validate_event_type v p.event_type)) [
      | inr bad ↦ rw (bad, validate_event_type) (λ h. absurd (cc))
      | inl typed ↦ λ h. (refl, (refl, typed))
    ])
  ])
]

valid_ingest :
    (v : Validators) (t : Trip) (p : IngestParams) (db : Db)
    → IsValid v p
    → ingest_pending v t p db ≡ in_tx t (ingest_tx t p) db
unfolding ingest_pending
valid_ingest v t p db (json, (short, typed)) =
    rw json (rw short (rw (typed, validate_event_type) refl))

keyed_ingest :
    (t : Trip) (p : IngestParams) (db : Db)
    → text_eq p.idempotency_key [] ≡ false
    → ingest_tx t p db ≡ claim_key t p db
unfolding ingest_tx
keyed_ingest t p db given = rw given refl

-- When an ingest with an idempotency key returned a result, the same request again under a new
-- webhook id, with a round trip that is done, is reported as a duplicate of the first one's webhook
-- and changes nothing.
pub retry_is_duplicate :
    (v : Validators) (t u : Trip) (p : IngestParams) (other : ℕ) (db : Db) (res : IngestResult)
    → text_eq p.idempotency_key [] ≡ false
    → (ingest_pending v t p db).0 ≡ ok res
    → u.outcome ≡ done
    → let db' = (ingest_pending v t p db).1 in
      ingest_pending v u (record p { webhook_id = other }) db'
      ≡ (ok (record { webhook_id = res.webhook_id; delivery_log_id = none; duplicate = true }), db')
unfolding in_tx
retry_is_duplicate v t u p other db res given h d =
    let q : IngestParams = record p { webhook_id = other } in
    let valid = accepted v t p db res h in
    let first = valid_ingest v t p db valid in
    let applied =
      finish_ok t.outcome db (ingest_tx t p db) res (subst (λ r. r.0 ≡ ok res) first h) in
    let whole : ingest_pending v t p db ≡ claim_key t p db =
      first ∙ applied ∙ keyed_ingest t p db given in
    let taken = claim_key-Taken t p db res (subst (λ r. r.0 ≡ ok res) whole h) in
    let db' = (claim_key t p db).1 in
    rw whole (
      valid_ingest v u q db' valid
      ∙ ap (finish u.outcome db')
          (keyed_ingest u q db' given ∙ again-Taken u q res.webhook_id db' taken)
      ∙ finish_done u.outcome db' db' _ d)
