-- ===== src/Api/Dto.antt =====
-- internal/api/dto.go and the response types of internal/api/handler_ingest.go and handler_status.go.
use webhook_delivery_system.Prelude.{ℕ, Bool, Option, List, Text}
use webhook_delivery_system.Domain.{DeliveryStatus, DeliveryLog, Subscription}
use webhook_delivery_system.Http.{Response}

-- The secrets of a subscription have no field.
pub record SubscriptionResponse : Type 0 where
  pub id : ℕ
  pub target_url : Text
  pub event_types : List Text
  pub is_active : Bool
  pub consecutive_failures : ℕ
  pub secret_rotated_at : Option ℕ
  pub created_at : ℕ
  pub updated_at : ℕ

pub record CreateSubscriptionResponse : Type 0 where
  pub view : SubscriptionResponse
  pub secret_key : Text

pub record ListSubscriptionsResponse : Type 0 where
  pub items : List SubscriptionResponse
  pub next_cursor : Option Text

pub record CreateSubscriptionRequest : Type 0 where
  pub target_url : Text
  pub event_types : List Text
  pub is_active : Option Bool

pub record UpdateSubscriptionRequest : Type 0 where
  pub target_url : Option Text
  pub event_types : Option (List Text)
  pub is_active : Option Bool

pub record AttemptResponse : Type 0 where
  pub id : ℕ
  pub webhook_id : ℕ
  pub event_type : Text
  pub attempt_number : ℕ
  pub replay_number : ℕ
  pub status : DeliveryStatus
  pub http_status : Option ℕ
  pub error_details : Text
  pub next_retry_at : Option ℕ
  pub in_dlq : Bool
  pub payload : Text
  pub created_at : ℕ
  pub updated_at : ℕ

pub record AttemptView : Type 0 where
  pub attempt_number : ℕ
  pub replay_number : ℕ
  pub status : DeliveryStatus
  pub http_status : Option ℕ
  pub error_details : Text
  pub next_retry_at : Option ℕ
  pub timestamp : ℕ

pub record Statistics : Type 0 where
  pub total_attempts : ℕ
  pub successful : ℕ
  pub failed : ℕ
  pub pending : ℕ
  pub final_failure : ℕ

pub record StatusResponse : Type 0 where
  pub webhook_id : ℕ
  pub subscription_id : ℕ
  pub event_type : Text
  pub status : DeliveryStatus
  pub target_url : Text
  pub payload : Text
  pub created_at : ℕ
  pub updated_at : ℕ
  pub last_attempt_at : ℕ
  pub next_retry_at : Option ℕ
  pub attempts : List AttemptView
  pub statistics : Statistics

-- The success rate is a fraction.
pub record MetricsSummaryResponse : Type 0 where
  pub window_hours : ℕ
  pub total_attempts : ℕ
  pub successful : ℕ
  pub failed : ℕ
  pub pending : ℕ
  pub final_failure : ℕ
  pub success_rate : ℕ × ℕ

pub data IngestStatus : Type 0 where
  ignored repeated accepted : IngestStatus
  persisted : DeliveryStatus → IngestStatus
  delivered : IngestStatus

-- `none` is an id that the JSON leaves empty.
pub record IngestResponse : Type 0 where
  pub webhook_id : Option ℕ
  pub delivery_id : Option ℕ
  pub status : IngestStatus
  pub duplicate : Bool

-- The values that the handlers write.
pub data Reply : Type 0 where
  ingested : IngestResponse → Reply
  subscription : SubscriptionResponse → Reply
  created : CreateSubscriptionResponse → Reply
  subscriptions : ListSubscriptionsResponse → Reply
  attempts : List AttemptResponse → Reply
  status_of : StatusResponse → Reply
  summary : MetricsSummaryResponse → Reply
  replaying : ℕ → ℕ → Reply
  acknowledged : ℕ → Reply

abbrev pub Answer : Type 0
Answer = Response Reply

-- The conversions. The event types of a subscription are a list, never nil.
abbrev pub to_subscription_response : Subscription → SubscriptionResponse
to_subscription_response s = record {
  id = s.id;
  target_url = s.target_url;
  event_types = s.event_types;
  is_active = s.is_active;
  consecutive_failures = s.consecutive_failures;
  secret_rotated_at = s.secret_rotated_at;
  created_at = s.created_at;
  updated_at = s.updated_at;
}

abbrev pub to_attempt_response : DeliveryLog → AttemptResponse
to_attempt_response d = record {
  id = d.id;
  webhook_id = d.webhook_id;
  event_type = d.event_type;
  attempt_number = d.attempt_number;
  replay_number = d.replay_number;
  status = d.status;
  http_status = d.http_status;
  error_details = d.error_details;
  next_retry_at = d.next_retry_at;
  in_dlq = d.in_dlq;
  payload = d.payload;
  created_at = d.created_at;
  updated_at = d.updated_at;
}

abbrev pub to_attempt_view : DeliveryLog → AttemptView
to_attempt_view d = record {
  attempt_number = d.attempt_number;
  replay_number = d.replay_number;
  status = d.status;
  http_status = d.http_status;
  error_details = d.error_details;
  next_retry_at = d.next_retry_at;
  timestamp = d.updated_at;
}
