-- ===== src/Delivery/Attempt/Tests.antt =====
-- Runs of attempts of internal/worker/delivery.go. Here valid texts are ASCII, and other bytes become a
-- question mark.
use webhook_delivery_system.Prelude.{
  ◌+◌, ◌≡◌, refl, Bool, true, false, none, some, [], ◌∷◌, Text, ltb, inr, arith, if◌then◌else◌,
}
use webhook_delivery_system.Domain.{DeliveryLog, pending}
use webhook_delivery_system.Delivery.Fixtures.{subscriber}
use webhook_delivery_system.Delivery.Attempt.{Utf8, Wire, responded, truncate, attempt}
use webhook_delivery_system.Delivery.Attempt.Details.{
  IsUtf8, IsLongest, IsAnswered, truncate-IsLongest, attempt-IsAnswered,
}

abbrev all_ascii : Text → Bool
all_ascii [] = true
all_ascii (c ∷ s) = let rest = all_ascii s in if ltb c 128 then rest else false

abbrev to_ascii : Text → Text
to_ascii [] = []
to_ascii (c ∷ s) = (if ltb c 128 then c else 63) ∷ to_ascii s

abbrev ascii : Utf8
ascii = record { to_valid = to_ascii; valid = all_ascii }

to_ascii_valid : (s : Text) → all_ascii (to_ascii s) ≡ true
to_ascii_valid [] = refl
to_ascii_valid (c ∷ s) = ground (arith, to_ascii_valid s)

ascii-IsUtf8 : IsUtf8 ascii
ascii-IsUtf8 = record { made_valid = to_ascii_valid; empty_valid = refl }

truncate-IsLongest_example :
    IsLongest ascii 2 (97 ∷ 63 ∷ 98 ∷ []) (truncate ascii (97 ∷ 200 ∷ 98 ∷ []) 2)
truncate-IsLongest_example = truncate-IsLongest ascii (97 ∷ 200 ∷ 98 ∷ []) 2 ascii-IsUtf8

-- A target that answers 503 with the body "no".
abbrev wire : Wire
wire = record {
  utf8 = ascii;
  mac = record { hex_mac = λ message secret. secret };
  canonical_json = λ t. inr t;
  format_int = λ n. (48 + n) ∷ [];
  request_error = λ url. none;
  invalid_payload = λ e. e;
  build_error = λ e. e;
  http_detail = λ status body. 72 ∷ body;
  client = λ sent. responded 503 (110 ∷ 111 ∷ []);
}

abbrev row : DeliveryLog
row = record {
  id = 7;
  webhook_id = 3;
  subscription_id = 1;
  target_url = 104 ∷ [];
  payload = 123 ∷ 125 ∷ [];
  event_type = [];
  attempt_number = 1;
  replay_number = 0;
  status = pending;
  http_status = none;
  error_details = [];
  next_retry_at = none;
  in_dlq = false;
  created_at = 0;
  updated_at = 0;
}

unavailable : attempt wire 5 row subscriber ≡ (some 503, 72 ∷ 110 ∷ 111 ∷ [])
unfolding attempt
unavailable = refl

attempt-IsAnswered_example : IsAnswered wire row subscriber 503 (72 ∷ 110 ∷ 111 ∷ [])
attempt-IsAnswered_example =
    attempt-IsAnswered wire 5 row subscriber 503 (72 ∷ 110 ∷ 111 ∷ []) ascii-IsUtf8 unavailable
