-- ===== src/Api/Status.antt =====
-- internal/api/handler_status.go.
pub mod Totals
use webhook_delivery_system.Prelude.{
  ℕ, ◌+◌, ◌-◌, ◌*◌, Bool, true, false, ◌&&◌, Option, none, some, List, [], ◌∷◌, Text, length, ltb,
  leb, map, if◌then◌else◌,
}
use webhook_delivery_system.Domain.{
  DeliveryStatus, pending, success, failed_attempt, final_failure, DeliveryLog, Result, ok, err,
}
use webhook_delivery_system.Store.Sql.{Db, Trip, in_tx, affected, second}
use webhook_delivery_system.Store.Recovery.{StatusCounts, count_by_status_since}
use webhook_delivery_system.Store.Subscriptions.{list_by_webhook_id}
use webhook_delivery_system.Http.{write_json, write_error, write_domain_error}
use webhook_delivery_system.Http.Clamping.{parse_hours}
use webhook_delivery_system.Api.Dto.{
  Answer, AttemptView, Statistics, StatusResponse, status_of, summary, to_attempt_view,
}

-- The loop over the rows: one more of the status.
abbrev pub count : DeliveryStatus → Statistics → Statistics
count success s = record s { successful = s.successful + 1 }
count failed_attempt s = record s { failed = s.failed + 1 }
count pending s = record s { pending = s.pending + 1 }
count final_failure s = record s { final_failure = s.final_failure + 1 }

abbrev pub tally : List DeliveryLog → Statistics → Statistics
tally [] s = s
tally (l ∷ logs) s = tally logs (count l.status s)

abbrev pub statistics_of : List DeliveryLog → Statistics
statistics_of logs = tally logs (record {
  total_attempts = length logs;
  successful = 0;
  failed = 0;
  pending = 0;
  final_failure = 0;
})

-- The last row, from a first one.
abbrev pub last_from : DeliveryLog → List DeliveryLog → DeliveryLog
last_from l [] = l
last_from l (m ∷ logs) = last_from m logs

abbrev pub status_response : DeliveryLog → List DeliveryLog → StatusResponse
status_response current logs = record {
  webhook_id = current.webhook_id;
  subscription_id = current.subscription_id;
  event_type = current.event_type;
  status = current.status;
  target_url = current.target_url;
  payload = current.payload;
  created_at = current.created_at;
  updated_at = current.updated_at;
  last_attempt_at = current.updated_at;
  next_retry_at = current.next_retry_at;
  attempts = map to_attempt_view logs;
  statistics = statistics_of logs;
}

abbrev pub with_logs : Result (List DeliveryLog) → Answer
with_logs (err e) = write_domain_error e
with_logs (ok []) = write_error 404 "webhook not found"
with_logs (ok (l ∷ logs)) =
    write_json 200 (status_of (status_response (last_from l logs) (l ∷ logs)))

-- `handleWebhookStatus`
unfoldable pub handle_webhook_status : Trip → ℕ → Db → Answer
unfolding list_by_webhook_id
handle_webhook_status t webhook_id db = with_logs (list_by_webhook_id t webhook_id db).0

abbrev pub total_of : StatusCounts → ℕ
total_of n = n.pending + n.success + n.failed_attempt + n.final_failure

-- `successful` of `total`, or 0 of 1.
abbrev pub rate : ℕ → ℕ → ℕ × ℕ
rate successful total = if ltb 0 total then (successful, total) else (0, 1)

abbrev pub summarised : ℕ → Result StatusCounts → Answer
summarised hours (err e) = write_domain_error e
summarised hours (ok n) = write_json 200 (
    summary (record {
      window_hours = hours;
      total_attempts = total_of n;
      successful = n.success;
      failed = n.failed_attempt;
      pending = n.pending;
      final_failure = n.final_failure;
      success_rate = rate n.success (total_of n);
    }))

-- `handleMetricsSummary`
unfoldable pub handle_metrics_summary : Trip → Text → ℕ → Db → Answer
unfolding count_by_status_since
handle_metrics_summary t hours now db =
    let n = parse_hours hours 24 in
    summarised n (count_by_status_since t (now - n * (3600 * second)) db).0
