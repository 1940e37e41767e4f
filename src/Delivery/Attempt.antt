-- ===== src/Delivery/Attempt.antt =====
-- `attempt` and `truncate` of internal/worker/delivery.go: the request of an attempt, and what is kept of
-- its response. Canonical JSON, the UTF-8 functions, the formats of numbers and times, and the HTTP client
-- are parameters; the latency and the two constant headers are
-- not modelled.
pub mod Details
mod Tests
use webhook_delivery_system.Prelude.{
  ℕ, zero, suc, Bool, true, false, ◌&&◌, Option, none, some, [], ◌∷◌, ◌++◌, Text, leb, ltb, length,
  take, if◌then◌else◌, ◌⊎◌, inl, inr,
}
use webhook_delivery_system.Domain.{DeliveryLog, Subscription}
use webhook_delivery_system.Signature.{Mac, sign, build_message}

abbrev pub max_error_detail_len : ℕ
max_error_detail_len = 512

-- `ToValidUTF8` and `ValidString`.
pub record Utf8 : Type 0 where
  pub to_valid : Text → Text
  pub valid : Text → Bool

-- The first `n` bytes, without the last one until the rest is valid.
unfoldable pub cut_back : Utf8 → Text → ℕ → Text
cut_back u s zero = []
cut_back u s (suc n) =
    let rest = cut_back u s n in if u.valid (take (suc n) s) then take (suc n) s else rest

unfoldable pub truncate_valid : Utf8 → Text → ℕ → Text
unfolding cut_back
truncate_valid u s n = if leb (length s) n then s else cut_back u s n

unfoldable pub truncate : Utf8 → Text → ℕ → Text
unfolding truncate_valid
truncate u s n = truncate_valid u (u.to_valid s) n

pub record Outbound : Type 0 where
  pub url : Text
  pub webhook_id : ℕ
  pub delivery_id : ℕ
  pub delivery_attempt : ℕ
  pub timestamp : Text
  pub signature : Text
  pub body : Text

-- The client's error, or a status and the body.
pub data Response : Type 0 where
  failed : Text → Response
  responded : ℕ → Text → Response

-- The libraries; an error is its text. `http_detail` is the format "HTTP %d: %s".
pub record Wire : Type 0 where
  pub utf8 : Utf8
  pub mac : Mac
  pub canonical_json : Text → Text ⊎ Text
  pub format_int : ℕ → Text
  pub request_error : Text → Option Text
  pub invalid_payload : Text → Text
  pub build_error : Text → Text
  pub http_detail : ℕ → Text → Text
  pub client : Outbound → Response

abbrev pub outbound : Wire → ℕ → DeliveryLog → Subscription → Text → Outbound
outbound x now log sub canonical = record {
  url = log.target_url;
  webhook_id = log.webhook_id;
  delivery_id = log.id;
  delivery_attempt = log.attempt_number;
  timestamp = x.format_int now;
  signature = sign x.mac (build_message (x.format_int now) [] canonical) sub.secret_key;
  body = canonical;
}

unfoldable pub response_kept : Wire → Response → Option ℕ × Text
unfolding truncate
response_kept x (failed e) = (none, truncate x.utf8 e max_error_detail_len)
response_kept x (responded status body) =
    if leb 200 status && ltb status 300 then (some status, []) else (
      some status,
      truncate x.utf8 (x.http_detail status (take max_error_detail_len body)) max_error_detail_len,
    )

unfoldable pub attempt_built : Wire → Outbound → Option Text → Option ℕ × Text
unfolding response_kept
attempt_built x r (some e) = (none, truncate x.utf8 (x.build_error e) max_error_detail_len)
attempt_built x r none = response_kept x (x.client r)

unfoldable pub attempt_canonical :
    Wire → ℕ → DeliveryLog → Subscription → Text ⊎ Text → Option ℕ × Text
unfolding attempt_built
attempt_canonical x now log sub (inl e) =
    (none, truncate x.utf8 (x.invalid_payload e) max_error_detail_len)
attempt_canonical x now log sub (inr canonical) =
    attempt_built x (outbound x now log sub canonical) (x.request_error log.target_url)

-- The status, absent where there was no response, and the detail, empty for a success. The time is in
-- whole seconds.
unfoldable pub attempt : Wire → ℕ → DeliveryLog → Subscription → Option ℕ × Text
unfolding attempt_canonical
attempt x now log sub = attempt_canonical x now log sub (x.canonical_json log.payload)
