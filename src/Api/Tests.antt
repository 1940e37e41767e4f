-- ===== src/Api/Tests.antt =====
-- Runs of the handlers of internal/api.
use webhook_delivery_system.Prelude.{
  ℕ, ◌&&◌, List, map, ltb, if◌then◌else◌, Option, ap, ◌+◌, ◌-◌, ◌*◌, ◌≤◌, ◌≡◌, ◌⊎◌, refl, true,
  false, none, some, [], ◌∷◌, ◌++◌, Text, length, arith, ◌==◌, leb,
}
use webhook_delivery_system.Domain.{
  DeliveryStatus, pending, success, failed_attempt, final_failure, RecoveryCursor, DeliveryLog, ok,
  accepts_event,
}
use webhook_delivery_system.Store.Sql.{done, refused, affected, second, log_by_id}
use webhook_delivery_system.Store.Recovery.{has_status, since_with}
use webhook_delivery_system.Store.Lifecycle.{new_row, finalize, ingest_pending, validate_event_type}
use webhook_delivery_system.RateLimit.{Product}
use webhook_delivery_system.Cache.{Net, get_by_id}
use webhook_delivery_system.Cache
use webhook_delivery_system.Store.Subscriptions.{get_sub, list_by_webhook_id}
use webhook_delivery_system.Signature.{valid_idempotency_key, verify}
use webhook_delivery_system.Http.Numbers.{parse_int}
use webhook_delivery_system.RateLimit
use webhook_delivery_system.Registry
use webhook_delivery_system.Registry.{get}
use webhook_delivery_system.Delivery.{World}
use webhook_delivery_system.Delivery.Fixtures.{trip, net, calls, config, world}
use webhook_delivery_system.Http.{whole, write_json}
use webhook_delivery_system.Http.Clamping.{parse_hours, parse_clamped_int}
use webhook_delivery_system.Targets.{https}
use webhook_delivery_system.Api.{Libraries, Options, IngestRequest, IngestCalls}
use webhook_delivery_system.Api.Dto.{
  to_attempt_view, replaying, Answer, StatusResponse, MetricsSummaryResponse, status_of, summary,
}
use webhook_delivery_system.Api.Verification.{verify_ingest}
use webhook_delivery_system.Api.Ingest.{handle_ingest}
use webhook_delivery_system.Api.Ingest.Admission.{IsAdmissible, Refused, handle_ingest-IsAdmissible}
use webhook_delivery_system.Api.Ingest.Durability.{Accepted, accepting, handle_ingest-Accepted}
use webhook_delivery_system.Api.DeadLetters.{handle_replay, handle_ack_dlq, no_entry}
use webhook_delivery_system.Api.DeadLetters.Claims.{IsReplayed, handle_replay-IsReplayed}
use webhook_delivery_system.Uuid.{valid_uuid}
use webhook_delivery_system.Api.Cursor.{CursorLibrary, encode_cursor, decode_cursor}
use webhook_delivery_system.Api.Cursor.Codec.{IsCodec, decode_cursor-encode_cursor}
use webhook_delivery_system.Api.Status.{
  status_response, handle_webhook_status, handle_metrics_summary,
}
use webhook_delivery_system.Api.Status.Totals.{
  AreRowsOf, Tallies, handle_webhook_status_totals, handle_metrics_summary_totals,
}

-- The "MAC" of a message is the secret.
abbrev libraries : Libraries
libraries = record {
  validators = record { json_valid = λ t. true; utf8_valid = λ t. true; rune_count = length };
  urls = record { trim_space = λ t. t; parse = λ t. some (record { scheme = https; host = t }) };
  mac = record { hex_mac = λ m s. s };
  product = record { tokens_for = λ d r. 0; slack = 0; near = λ d r. omega arith };
}

abbrev options : Options
options = record {
  sync_delivery = false;
  deliverer = config;
  allow_http_urls = false;
  signature_drift_window = 300000000000;
  secret_grace_window = 0;
}

-- The request of the subscriber 1, stamped at the second 0 and signed with its secret "s".
abbrev request : Text → IngestRequest
request secret = record {
  subscription_id = 1;
  signature = 115 ∷ 104 ∷ 97 ∷ 50 ∷ 53 ∷ 54 ∷ 61 ∷ secret;
  timestamp = 48 ∷ [];
  idempotency_key = 107 ∷ [];
  body = whole (123 ∷ 125 ∷ []);
  event_type = [];
}

abbrev ingest_calls : IngestCalls
ingest_calls = record {
  fetched = net;
  checked_at = 1010;
  graced_at = 1010;
  admitted_at = 1010;
  minted = some 60;
  inserted = trip;
  delivered = calls none;
  reloaded = trip;
  enqueued = done;
}

abbrev world_of : Option (Answer × World) → World
world_of none = world
world_of (some (a, w)) = w

abbrev ingested_world : World
unfolding handle_ingest get_sub valid_idempotency_key verify_ingest parse_int verify Cache.allow
    RateLimit.allow get Registry.new RateLimit.new validate_event_type accepts_event ingest_pending
ingested_world = world_of (handle_ingest libraries options ingest_calls (request (115 ∷ [])) world)

accepts :
    handle_ingest libraries options ingest_calls (request (115 ∷ [])) world
    ≡ some (accepting 60 3, ingested_world)
unfolding handle_ingest get_sub valid_idempotency_key verify_ingest parse_int verify Cache.allow
    RateLimit.allow get Registry.new RateLimit.new validate_event_type accepts_event ingest_pending
accepts = refl

handle_ingest-Accepted_example :
    Accepted ingest_calls (request (115 ∷ [])) (get_by_id net 1 world.state).0 60 3 ingested_world
handle_ingest-Accepted_example =
    handle_ingest-Accepted libraries options ingest_calls (request (115 ∷ [])) world 60 3
      ingested_world accepts

handle_ingest-IsAdmissible_example :
    IsAdmissible libraries options ingest_calls (request (116 ∷ [])) (get_by_id net 1 world.state).0
    ⊎ Refused
        (record world { state = (get_by_id net 1 world.state).1 })
        (handle_ingest libraries options ingest_calls (request (116 ∷ [])) world)
handle_ingest-IsAdmissible_example =
    handle_ingest-IsAdmissible libraries options ingest_calls (request (116 ∷ [])) world

-- The row 2 of the webhook 50 has failed for good.
abbrev dead_world : World
dead_world = record world {
  state = record world.state {
    db = record world.state.db {
      logs =
          finalize trip (some 500) []
            (new_row (record trip { uuid = 2; now = 5 }) 50 1 (104 ∷ []) [] [] 1 0 (some 5))
          ∷ [];
    };
  };
}

abbrev replayed_world : World
unfolding handle_replay
replayed_world = (handle_replay trip refused done 1 50 dead_world).1

replays :
    handle_replay trip refused done 1 50 dead_world
    ≡ (write_json 202 (replaying 50 3), replayed_world)
unfolding handle_replay
replays = refl

dead_world_distinct : (i : ℕ) → affected (log_by_id i) dead_world.state.db.logs ≤ 1
dead_world_distinct i = ground arith

handle_replay-IsReplayed_example :
    IsReplayed trip 1 50 dead_world.state.db replayed_world.state.db 3
    × ((handle_replay trip done done 1 50 replayed_world ≡ (no_entry, replayed_world))
        × (handle_ack_dlq trip done 1 50 replayed_world ≡ (no_entry, replayed_world)))
handle_replay-IsReplayed_example =
    handle_replay-IsReplayed trip trip refused done done done 1 50 3 dead_world replayed_world
      dead_world_distinct replays refl

-- Texts that are their own encoding, a time as one byte, and the nil UUID.
abbrev codec : CursorLibrary
codec = record {
  trim_space = λ t. t;
  encode64 = λ t. t;
  decode64 = λ t. some t;
  format_time = λ n. (n + 45) ∷ [];
  parse_time = λ t. elim t [ [] ↦ none | c ∷ s ↦ some (c - 45) ];
  id_text = λ i.
      48 ∷ 48 ∷ 48 ∷ 48 ∷ 48 ∷ 48 ∷ 48 ∷ 48 ∷ 45 ∷ 48 ∷ 48 ∷ 48 ∷ 48 ∷ 45 ∷ 48 ∷ 48 ∷ 48 ∷ 48 ∷ 45
      ∷ 48 ∷ 48 ∷ 48 ∷ 48 ∷ 45 ∷ 48 ∷ 48 ∷ 48 ∷ 48 ∷ 48 ∷ 48 ∷ 48 ∷ 48 ∷ 48 ∷ 48 ∷ 48 ∷ 48 ∷ [];
  id_of = λ t. 0;
}

codec-IsCodec : IsCodec codec
codec-IsCodec = record {
  decodes = λ t. refl;
  unspaced = λ t. refl;
  given = λ c t. refl;
  no_comma = λ t. ground arith;
  reads_time = λ t. ap some (omega arith);
}

abbrev cursor : RecoveryCursor
cursor = record { due_at = 1000; id = 0 }

abbrev token : Text
token = codec.encode64 (codec.format_time 1000 ++ (44 ∷ codec.id_text 0))

nil_valid : valid_uuid (codec.id_text 0) ≡ true
unfolding valid_uuid
nil_valid = refl

encoded : encode_cursor codec (some cursor) ≡ some token
unfolding encode_cursor
encoded = refl

decode_cursor-encode_cursor_example : decode_cursor codec token ≡ ok (some cursor)
decode_cursor-encode_cursor_example =
    decode_cursor-encode_cursor codec cursor token codec-IsCodec nil_valid refl encoded

-- The answer for the webhook 50, whose one row is the given one.
abbrev row : DeliveryLog
row = new_row (record trip { uuid = 2; now = 5 }) 50 1 (104 ∷ []) [] [] 1 0 (some 5)

abbrev answered : StatusResponse
answered = status_response row (row ∷ [])

status_answered : handle_webhook_status trip 50 world.state.db ≡ write_json 200 (status_of answered)
unfolding handle_webhook_status list_by_webhook_id
status_answered = refl

handle_webhook_status_totals_example :
    (logs : List DeliveryLog) × AreRowsOf 50 world.state.db logs
    × (answered.attempts ≡ map to_attempt_view logs)
    × (answered.statistics.total_attempts ≡ affected (λ d. d.webhook_id == 50) world.state.db.logs)
    × Tallies
        (λ w. affected (λ d. d.webhook_id == 50 && has_status w d.status) world.state.db.logs)
        answered.statistics
handle_webhook_status_totals_example =
    handle_webhook_status_totals trip 50 world.state.db answered status_answered

abbrev summarised_row : MetricsSummaryResponse
summarised_row = record {
  window_hours = 24;
  total_attempts = 1;
  successful = 0;
  failed = 0;
  pending = 1;
  final_failure = 0;
  success_rate = (0, 1);
}

summary_answered :
    handle_metrics_summary trip [] 1000 world.state.db ≡ write_json 200 (summary summarised_row)
unfolding handle_metrics_summary parse_clamped_int
summary_answered = refl

handle_metrics_summary_totals_example :
    let since = 1000 - parse_hours [] 24 * (3600 * second) in
    let total = affected (λ d. leb since d.created_at) world.state.db.logs in
    let with_status = λ (w : DeliveryStatus). affected (since_with since w) world.state.db.logs in
    (summarised_row.pending ≡ with_status pending)
    × (summarised_row.successful ≡ with_status success)
    × (summarised_row.failed ≡ with_status failed_attempt)
    × (summarised_row.final_failure ≡ with_status final_failure)
    × (summarised_row.total_attempts ≡ total)
    × (summarised_row.success_rate ≡ (if ltb 0 total then (with_status success, total) else (0, 1)))
handle_metrics_summary_totals_example =
    handle_metrics_summary_totals trip [] 1000 world.state.db summarised_row summary_answered
