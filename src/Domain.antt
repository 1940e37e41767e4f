-- ===== src/Domain.antt =====
-- internal/domain: the entities, their statuses, and the errors. Identifiers are UUID texts that the
-- code only compares and orders, so they are numbers here; texts and payloads are lists of bytes (the
-- payload of a row is what the JSONB column kept), and times are nanoseconds. A nullable text column
-- holds NULL exactly where the entity holds "".
use webhook_delivery_system.Prelude.{
  ℕ, Bool, true, false, Option, List, [], ◌∷◌, Text, text_eq, ◌||◌,
}

pub data DeliveryStatus : Type 0 where
  pending success failed_attempt final_failure : DeliveryStatus

pub record DeliveryLog : Type 0 where
  pub id : ℕ
  pub webhook_id : ℕ
  pub subscription_id : ℕ
  pub target_url : Text
  pub payload : Text
  pub event_type : Text
  pub attempt_number : ℕ
  pub replay_number : ℕ
  pub status : DeliveryStatus
  pub http_status : Option ℕ
  pub error_details : Text
  pub next_retry_at : Option ℕ
  pub in_dlq : Bool
  pub created_at : ℕ
  pub updated_at : ℕ

pub record Subscription : Type 0 where
  pub id : ℕ
  pub target_url : Text
  pub secret_key : Text
  pub previous_secret_key : Text
  pub secret_rotated_at : Option ℕ
  pub event_types : List Text
  pub is_active : Bool
  pub consecutive_failures : ℕ
  pub created_at : ℕ
  pub updated_at : ℕ

pub record IngestParams : Type 0 where
  pub subscription_id : ℕ
  pub idempotency_key : Text
  pub webhook_id : ℕ
  pub target_url : Text
  pub payload : Text
  pub event_type : Text

-- `delivery_log_id` is `none` where the code has "".
pub record IngestResult : Type 0 where
  pub webhook_id : ℕ
  pub delivery_log_id : Option ℕ
  pub duplicate : Bool

pub record RecoveryCursor : Type 0 where
  pub due_at : ℕ
  pub id : ℕ

-- The sentinel errors, and every other failure of a database or a Redis server.
pub data Error : Type 0 where
  not_found conflict invalid_input inactive_subscription signature_invalid : Error
  timestamp_out_of_window queue_empty infrastructure : Error

pub data Result {ℓ} (A : Type ℓ) : Type ℓ where
  ok : A → Result A
  err : Error → Result A

abbrev pub max_target_url_length : ℕ
max_target_url_length = 2048

abbrev pub max_event_type_length : ℕ
max_event_type_length = 100

abbrev pub is_pending : DeliveryStatus → Bool
is_pending pending = true
is_pending _ = false

listed : Text → List Text → Bool
listed event_type [] = false
listed event_type (t ∷ ts) = text_eq t event_type || listed event_type ts

-- `AcceptsEvent`: an empty filter accepts every event.
accepts_any : List Text → Text → Bool
unfolding listed
accepts_any [] event_type = true
accepts_any (t ∷ ts) event_type = listed event_type (t ∷ ts)

unfoldable pub accepts_event : Subscription → Text → Bool
unfolding accepts_any
accepts_event s event_type = accepts_any s.event_types event_type
