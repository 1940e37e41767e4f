-- ===== src/Api/Ingest/Durability.antt =====
-- What a 202 of `handleIngest`, internal/api/handler_ingest.go, promises.
use webhook_delivery_system.Prelude.{
  ℕ, ◌≡◌, inl, inr, refl, subst, sym, Bool, true, false, ◌||◌, not, Option, none, some, List, [],
  ◌∷◌, Text, arith, text_eq, if◌then◌else◌, ap, ◌∙◌, Bool-cases, ltb,
}
use webhook_delivery_system.Domain.{
  Subscription, infrastructure, invalid_input, Error, IngestResult, Result, ok, err, accepts_event,
}
use webhook_delivery_system.Store.Sql.{Db, done, query_row, log_by_id}
use webhook_delivery_system.Store.Lifecycle.{validate_event_type, ingest_pending}
use webhook_delivery_system.Store.Inserted.{Stored, first_attempt, ingest_pending-Stored}
use webhook_delivery_system.Signature.{valid_idempotency_key}
use webhook_delivery_system.Cache.{get_by_id}
use webhook_delivery_system.Cache
use webhook_delivery_system.Delivery.{World, with_db}
use webhook_delivery_system.Delivery.Process.{process}
use webhook_delivery_system.Http.{Read, content, too_large, broken, read_all, write_domain_error}
use webhook_delivery_system.Api.{Libraries, Options, IngestRequest, IngestCalls}
use webhook_delivery_system.Api.Dto.{Answer, accepted}
use webhook_delivery_system.Api.Verification.{verify_ingest}
use webhook_delivery_system.Api.Ingest.Admission.{
  Refused, write_domain_error-ge, unverified-Refused,
}
use webhook_delivery_system.Api.Ingest.{
  ingest_max_bytes, answer, params, after_process, deliver_or_enqueue, after_insert, insert,
  admitted, authenticated, with_body, with_subscription, handle_ingest,
}

abbrev pub accepting : ℕ → ℕ → Answer
accepting webhook_id id = answer 202 (some webhook_id) (some id) accepted false

-- The row of an accepted request is stored, and its id is queued unless the queue refused it.
pub record IsDurable (c : IngestCalls) (q : IngestRequest) (sub : Subscription) (body : Text)
    (webhook_id id : ℕ) (w : World) : Type 0 where
  pub minted : c.minted ≡ some webhook_id
  pub stored :
      query_row (log_by_id id) w.state.db.logs
      ≡ some (first_attempt c.inserted (params q sub body webhook_id))
  pub queued : c.enqueued ≡ done → (rest : List ℕ) × (w.redis.queue ≡ id ∷ rest)

-- What holds of a response that accepts.
abbrev pub IfAccepting : (ℕ → ℕ → World → Type 0) → Option (Answer × World) → Type 0
IfAccepting P r =
    (webhook_id id : ℕ) (w : World) → r ≡ some (accepting webhook_id id, w) → P webhook_id id w

never :
    (P : ℕ → ℕ → World → Type 0) (a : Answer) (w : World)
    → ((webhook_id id : ℕ) → a ≡ accepting webhook_id id → ⊥)
    → IfAccepting P (some (a, w))
never P a w other webhook_id id w' e = absurd (other webhook_id id (cc))

-- A guard whose response does not accept.
passes_if :
    (P : ℕ → ℕ → World → Type 0) (a : Answer) (w : World) (r : Option (Answer × World)) (b : Bool)
    → ((webhook_id id : ℕ) → a ≡ accepting webhook_id id → ⊥)
    → IfAccepting P r
    → IfAccepting P (if b then some (a, w) else r)
passes_if P a w r true other h = never P a w other
passes_if P a w r false other h = h

other_status :
    (a : Answer)
    → (ltb a.status 202 || ltb 202 a.status) ≡ true
    → (webhook_id id : ℕ) → a ≡ accepting webhook_id id
    → ⊥
other_status a h webhook_id id e = ground (arith, ap (λ (b : Answer). b.status) e)

Refused-never :
    (P : ℕ → ℕ → World → Type 0) (w : World) (r : Option (Answer × World))
    → Refused w r
    → IfAccepting P r
Refused-never P w r (a, e, h) webhook_id id w' k =
    let same : a ≡ accepting webhook_id id = cc in
    absurd (omega (arith, h, ap (λ (b : Answer). b.status) same))

process_never :
    (P : ℕ → ℕ → World → Type 0) (c : IngestCalls) (webhook_id id : ℕ)
    (r : Option (Result (Unit {0}) × World))
    → IfAccepting P (after_process c webhook_id id r)
process_never P c webhook_id id none = λ _ _ _ e. absurd (cc)
process_never P c webhook_id id (some (err e, w)) = never P _ w (other_status _ refl)
process_never P c webhook_id id (some (ok _, w)) = never P _ w (other_status _ refl)

error_never : (e : Error) (webhook_id id : ℕ) → write_domain_error e ≡ accepting webhook_id id → ⊥
error_never e webhook_id id h =
    absurd (omega (arith, write_domain_error-ge e, ap (λ (a : Answer). a.status) h))

exactly :
    (P : ℕ → ℕ → World → Type 0) (webhook_id id : ℕ) (w : World)
    → P webhook_id id w
    → IfAccepting P (some (accepting webhook_id id, w))
exactly P webhook_id id w h x y w' e =
    let ex : webhook_id ≡ x = cc in
    let ey : id ≡ y = cc in
    let ew : w ≡ w' = cc in
    subst (λ v. P x y v) ew (subst (λ j. P x j w) ey (subst (λ k. P k id w) ex h))

module _ (l : Libraries) (o : Options) (c : IngestCalls) (q : IngestRequest) (sub : Subscription)
    (body : Text) where
  enqueued-IsDurable :
      (webhook_id id : ℕ) (w : World)
      → c.minted ≡ some webhook_id
      → (query_row (log_by_id id) w.state.db.logs
          ≡ some (first_attempt c.inserted (params q sub body webhook_id)))
      → IfAccepting (IsDurable c q sub body) (deliver_or_enqueue o c webhook_id id w)
  unfolding deliver_or_enqueue
  enqueued-IsDurable webhook_id id w minted stored = elim (Bool-cases o.sync_delivery) [
    | inl sync ↦ rw sync (
        process_never (IsDurable c q sub body) c webhook_id id
          (process o.deliverer c.delivered id w))
    | inr async ↦ rw async (
        exactly (IsDurable c q sub body) webhook_id id _
          (record { minted = minted; stored = stored; queued = λ d. (w.redis.queue, rw d refl) }))
  ]

  result-IsDurable :
      (minted_id webhook_id : ℕ) (id : Option ℕ) (duplicate : Bool) (db : Db) (w : World)
      → c.minted ≡ some minted_id
      → Stored c.inserted
          (params q sub body minted_id)
          (ok (record { webhook_id = webhook_id; delivery_log_id = id; duplicate = duplicate }), db)
      → IfAccepting (IsDurable c q sub body) (
          after_insert o c
            (ok (record { webhook_id = webhook_id; delivery_log_id = id; duplicate = duplicate }))
            (with_db db w))
  result-IsDurable minted_id webhook_id id true db w minted stored =
      never (IsDurable c q sub body) _ (with_db db w) (other_status _ refl)
  result-IsDurable minted_id webhook_id none false db w minted stored =
      never (IsDurable c q sub body) _ (with_db db w) (other_status _ refl)
  result-IsDurable minted_id webhook_id (some id) false db w minted stored =
      let (same, row) = stored webhook_id id refl in
      enqueued-IsDurable webhook_id id (with_db db w) (minted ∙ ap some (sym same))
        (row ∙ ap (λ k. some (first_attempt c.inserted (params q sub body k))) (sym same))

  inserted-IsDurable :
      (webhook_id : ℕ) (w : World) (r : Result IngestResult × Db)
      → c.minted ≡ some webhook_id
      → Stored c.inserted (params q sub body webhook_id) r
      → IfAccepting (IsDurable c q sub body) (after_insert o c r.0 (with_db r.1 w))
  inserted-IsDurable webhook_id w (err e, db) minted stored =
      never (IsDurable c q sub body) _ (with_db db w) (error_never e)
  inserted-IsDurable webhook_id w (ok res, db) minted stored =
      result-IsDurable webhook_id res.webhook_id res.delivery_log_id res.duplicate db w minted
        stored

  insert-IsDurable :
      (minted : Option ℕ) (w : World)
      → c.minted ≡ minted
      → IfAccepting (IsDurable c q sub body) (insert l o c q sub body minted w)
  unfolding insert
  insert-IsDurable none w e = never (IsDurable c q sub body) _ w (error_never infrastructure)
  insert-IsDurable (some webhook_id) w e =
      let p = params q sub body webhook_id in
      inserted-IsDurable webhook_id w (ingest_pending l.validators c.inserted p w.state.db) e
        (ingest_pending-Stored l.validators c.inserted p w.state.db)

  admitted-IsDurable :
      (w : World) → IfAccepting (IsDurable c q sub body) (admitted l o c q sub body w)
  unfolding admitted
  admitted-IsDurable w =
      let P = IsDurable c q sub body in
      passes_if P _ w _ (not (l.validators.json_valid body)) (other_status _ refl) (
        passes_if P _ w _ (not (validate_event_type l.validators q.event_type))
          (error_never invalid_input)
          (passes_if P _ w _ (not (accepts_event sub q.event_type)) (λ _ _ e. cc)
            (insert-IsDurable c.minted w refl)))

  authenticated-IsDurable :
      (v : Result (Unit {0})) (w : World)
      → IfAccepting (IsDurable c q sub body) (authenticated l o c q sub body v w)
  unfolding authenticated
  authenticated-IsDurable (err e) w =
      Refused-never (IsDurable c q sub body) w _ (unverified-Refused l o c q sub body e w)
  authenticated-IsDurable (ok _) w =
      elim (Bool-cases (Cache.allow l.product c.admitted_at sub.id w.state).1) [
        | inl within ↦ rw within (
            admitted-IsDurable
              (record w { state = (Cache.allow l.product c.admitted_at sub.id w.state).0 }))
        | inr over ↦ rw over (never (IsDurable c q sub body) _ _ (other_status _ refl))
      ]

-- The accepted request: its subscription, and the body that was read.
abbrev pub Accepted : IngestCalls → IngestRequest → Result Subscription → ℕ → ℕ → World → Type 0
Accepted c q found webhook_id id w =
    (sub : Subscription) × (body : Text) × (found ≡ ok sub)
    × (read_all ingest_max_bytes q.body ≡ content body)
    × IsDurable c q sub body webhook_id id w

module _ (l : Libraries) (o : Options) (c : IngestCalls) (q : IngestRequest) where
  body-Accepted :
      (sub : Subscription) (r : Read) (w : World)
      → read_all ingest_max_bytes q.body ≡ r
      → IfAccepting (Accepted c q (ok sub)) (with_body l o c q sub r w)
  unfolding with_body
  body-Accepted sub too_large w e = never (Accepted c q (ok sub)) _ w (other_status _ refl)
  body-Accepted sub broken w e = never (Accepted c q (ok sub)) _ w (other_status _ refl)
  body-Accepted sub (content body) w e =
      let v =
        verify_ingest l.mac o c.checked_at c.graced_at sub body q.timestamp q.idempotency_key
          q.signature in
      λ webhook_id id w' k.
        (sub, body, refl, e, authenticated-IsDurable l o c q sub body v w webhook_id id w' k)

  subscription-Accepted :
      (r : Result Subscription) (w : World)
      → IfAccepting (Accepted c q r) (with_subscription l o c q r w)
  unfolding with_subscription
  subscription-Accepted (err e) w = never (Accepted c q (err e)) _ w (error_never e)
  subscription-Accepted (ok sub) w =
      let P = Accepted c q (ok sub) in
      passes_if P _ w _ (not sub.is_active) (other_status _ refl) (
        passes_if P _ w _ (text_eq q.signature [] || text_eq q.timestamp []) (other_status _ refl) (
          passes_if P _ w _ (not (valid_idempotency_key q.idempotency_key)) (other_status _ refl)
            (body-Accepted sub (read_all ingest_max_bytes q.body) w refl)))

-- When an ingest is answered 202 accepted with a webhook id and a delivery id, the tables hold under the
-- delivery id the first attempt of the webhook, with the minted webhook id, the subscription's id and
-- target, the event type of the request, and what the JSONB column keeps of its body, pending and due at
-- once; this holds whether or not the queue took the id, and where the queue did, the id is its newest.
pub handle_ingest-Accepted :
    (l : Libraries) (o : Options) (c : IngestCalls) (q : IngestRequest) (w : World)
    (webhook_id id : ℕ) (w' : World)
    → handle_ingest l o c q w ≡ some (accepting webhook_id id, w')
    → Accepted c q (get_by_id c.fetched q.subscription_id w.state).0 webhook_id id w'
unfolding handle_ingest
handle_ingest-Accepted l o c q w webhook_id id w' h =
    let (r, s) = get_by_id c.fetched q.subscription_id w.state in
    subscription-Accepted l o c q r (record w { state = s }) webhook_id id w' h
