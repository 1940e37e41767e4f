-- ===== src/Api.antt =====
-- internal/api: the handlers, over the tables, the cache, the rate limits, the breakers and Redis. The
-- collaborators of `Options` are the modelled components; a request is what a handler reads of it.
pub mod Dto
pub mod Verification
pub mod Ingest
pub mod Admin
pub mod Probes
pub mod Status
pub mod Cursor
pub mod Subscriptions
pub mod DeadLetters
mod Tests
use webhook_delivery_system.Prelude.{ℕ, Bool, Option, List, Text}
use webhook_delivery_system.Domain.{RecoveryCursor}
use webhook_delivery_system.Store.Sql.{Trip, Outcome}
use webhook_delivery_system.Store.Lifecycle.{Validators}
use webhook_delivery_system.Signature.{Mac}
use webhook_delivery_system.RateLimit.{Product}
use webhook_delivery_system.Targets.{UrlLibrary}
use webhook_delivery_system.Cache.{Net}
use webhook_delivery_system.Delivery.{DelivererConfig, Calls}
use webhook_delivery_system.Http.{Incoming}

-- What the handlers take from the standard library and from floating point arithmetic.
pub record Libraries : Type 0 where
  pub validators : Validators
  pub urls : UrlLibrary
  pub mac : Mac
  pub product : Product

-- The policy of `Options`.
pub record Options : Type 0 where
  pub sync_delivery : Bool
  pub deliverer : DelivererConfig
  pub allow_http_urls : Bool
  pub signature_drift_window : ℕ
  pub secret_grace_window : ℕ

-- `POST /ingest/{id}`: the headers are empty where they are absent.
pub record IngestRequest : Type 0 where
  pub subscription_id : ℕ
  pub signature : Text
  pub timestamp : Text
  pub idempotency_key : Text
  pub body : Incoming
  pub event_type : Text

-- The round trips and times of one ingest; `minted` is the new webhook id, if randomness is at hand.
pub record IngestCalls : Type 0 where
  pub fetched : Net
  pub checked_at : ℕ
  pub graced_at : ℕ
  pub admitted_at : ℕ
  pub minted : Option ℕ
  pub inserted : Trip
  pub delivered : Calls
  pub reloaded : Trip
  pub enqueued : Outcome
