-- ===== src/Api/Ingest/Admission.antt =====
-- Which requests get past the gates of `handleIngest`, internal/api/handler_ingest.go.
use webhook_delivery_system.Prelude.{
  ◌≤◌, ◌≡◌, ◌⊎◌, inl, inr, refl, Bool, true, false, ◌||◌, not, Option, some, [], Text, arith,
  text_eq, if◌then◌else◌,
}
use webhook_delivery_system.Domain.{
  Subscription, not_found, conflict, invalid_input, inactive_subscription, signature_invalid,
  timestamp_out_of_window, queue_empty, infrastructure, Error, Result, ok, err,
}
use webhook_delivery_system.Signature.{valid_idempotency_key}
use webhook_delivery_system.Cache.{get_by_id}
use webhook_delivery_system.Delivery.{World}
use webhook_delivery_system.Http.{Read, content, too_large, broken, read_all, write_domain_error}
use webhook_delivery_system.Api.{Libraries, Options, IngestRequest, IngestCalls}
use webhook_delivery_system.Api.Dto.{Answer, Reply}
use webhook_delivery_system.Api.Verification.{verify_ingest, IsAuthentic, verify_ingest-IsAuthentic}
use webhook_delivery_system.Api.Ingest.{
  ingest_max_bytes, authenticated, with_body, with_subscription, handle_ingest,
}

-- A request to an active subscription, whose body within the limit is signed by one of its secrets.
pub record IsAdmissible (l : Libraries) (o : Options) (c : IngestCalls) (q : IngestRequest)
    (found : Result Subscription) : Type 0 where
  pub sub : Subscription
  pub exists : found ≡ ok sub
  pub active : sub.is_active ≡ true
  pub keyed : valid_idempotency_key q.idempotency_key ≡ true
  pub body : Text
  pub received : read_all ingest_max_bytes q.body ≡ content body
  pub authentic :
      IsAuthentic l.mac o c.checked_at c.graced_at sub body q.timestamp q.idempotency_key
        q.signature

-- An error response, and nothing changed.
abbrev pub Refused : World → Option (Answer × World) → Type 0
Refused w r = (a : Answer) × (r ≡ some (a, w)) × (400 ≤ a.status)

pub write_domain_error-ge : (e : Error) → 400 ≤ (write_domain_error {B = Reply} e).status
unfolding write_domain_error
write_domain_error-ge not_found = omega arith
write_domain_error-ge conflict = omega arith
write_domain_error-ge invalid_input = omega arith
write_domain_error-ge inactive_subscription = omega arith
write_domain_error-ge signature_invalid = omega arith
write_domain_error-ge timestamp_out_of_window = omega arith
write_domain_error-ge queue_empty = omega arith
write_domain_error-ge infrastructure = omega arith

-- A guard with an early error response.
pub refuse_if :
    {P : Type 0} (w : World) (a : Answer) (r : Option (Answer × World)) (b : Bool)
    → 400 ≤ a.status
    → (b ≡ false → P ⊎ Refused w r)
    → P ⊎ Refused w (if b then some (a, w) else r)
refuse_if w a r true h k = inr (a, refl, h)
refuse_if w a r false h k = k refl

module _ (l : Libraries) (o : Options) (c : IngestCalls) (q : IngestRequest) where
  pub unverified-Refused :
      (sub : Subscription) (body : Text) (e : Error) (w : World)
      → Refused w (authenticated l o c q sub body (err e) w)
  unfolding authenticated
  unverified-Refused sub body timestamp_out_of_window w = (_, refl, omega arith)
  unverified-Refused sub body not_found w = (_, refl, omega arith)
  unverified-Refused sub body conflict w = (_, refl, omega arith)
  unverified-Refused sub body invalid_input w = (_, refl, omega arith)
  unverified-Refused sub body inactive_subscription w = (_, refl, omega arith)
  unverified-Refused sub body signature_invalid w = (_, refl, omega arith)
  unverified-Refused sub body queue_empty w = (_, refl, omega arith)
  unverified-Refused sub body infrastructure w = (_, refl, omega arith)

  verified_or_Refused :
      (sub : Subscription) (body : Text) (v : Result (Unit {0})) (w : World)
      → (v ≡ ok tt) ⊎ Refused w (authenticated l o c q sub body v w)
  verified_or_Refused sub body (ok tt) w = inl refl
  verified_or_Refused sub body (err e) w = inr (unverified-Refused sub body e w)

  body_or_Refused :
      (sub : Subscription) (r : Read) (w : World)
      → ((body : Text) × (r ≡ content body)
          × IsAuthentic l.mac o c.checked_at c.graced_at sub body q.timestamp q.idempotency_key
              q.signature)
        ⊎ Refused w (with_body l o c q sub r w)
  unfolding with_body
  body_or_Refused sub too_large w = inr (_, refl, omega arith)
  body_or_Refused sub broken w = inr (_, refl, omega arith)
  body_or_Refused sub (content body) w =
      let v =
        verify_ingest l.mac o c.checked_at c.graced_at sub body q.timestamp q.idempotency_key
          q.signature in
      elim (verified_or_Refused sub body v w) [
        | inl verified ↦ inl (body, refl, verify_ingest-IsAuthentic _ _ _ _ _ _ _ _ _ verified)
        | inr refused ↦ inr refused
      ]

  subscription_or_Refused :
      (r : Result Subscription) (w : World)
      → IsAdmissible l o c q r ⊎ Refused w (with_subscription l o c q r w)
  unfolding with_subscription
  subscription_or_Refused (err e) w = inr (_, refl, write_domain_error-ge e)
  subscription_or_Refused (ok sub) w = refuse_if w _ _ (not sub.is_active) (omega arith) (λ active.
      refuse_if w _ _ (text_eq q.signature [] || text_eq q.timestamp []) (omega arith) (λ given.
        refuse_if w _ _ (not (valid_idempotency_key q.idempotency_key)) (omega arith) (λ keyed.
          elim (body_or_Refused sub (read_all ingest_max_bytes q.body) w) [
            | inr refused ↦ inr refused
            | inl (body, received, authentic) ↦ inl (record {
              sub = sub;
              exists = refl;
              active = ground arith;
              keyed = ground arith;
              body = body;
              received = received;
              authentic = authentic;
            })
          ])))

-- An ingest either names an active subscription and carries a body of at most 64 KiB that is signed,
-- with its timestamp and its idempotency key, by a secret of the subscription that is current or within
-- the grace window, at a timestamp within the drift window; or it is answered with an error status, and
-- no table, no queue, no rate limit and no breaker is changed: what changed is only what reading the
-- subscription does to its cache.
pub handle_ingest-IsAdmissible :
    (l : Libraries) (o : Options) (c : IngestCalls) (q : IngestRequest) (w : World)
    → IsAdmissible l o c q (get_by_id c.fetched q.subscription_id w.state).0
      ⊎ Refused
          (record w { state = (get_by_id c.fetched q.subscription_id w.state).1 })
          (handle_ingest l o c q w)
unfolding handle_ingest
handle_ingest-IsAdmissible l o c q w =
    let (r, s) = get_by_id c.fetched q.subscription_id w.state in
    subscription_or_Refused l o c q r (record w { state = s })
