-- ===== src/Api/Status/Totals.antt =====
-- The counts of the status endpoints, internal/api/handler_status.go.
use webhook_delivery_system.Prelude.{
  ℕ, suc, ◌+◌, ◌-◌, ◌*◌, ◌≡◌, refl, Bool, true, ◌&&◌, List, [], ◌∷◌, Text, arith, ap, subst, sym,
  ◌∙◌, length, map, select, leb, ltb, if◌then◌else◌, ◌==◌,
}
use webhook_delivery_system.Domain.{
  DeliveryStatus, pending, success, failed_attempt, final_failure, DeliveryLog, Result, ok, err,
}
use webhook_delivery_system.Store.Sql.{Db, Trip, in_tx, finish, finish_ok, affected, second}
use webhook_delivery_system.Store.Subscriptions.{list_by_webhook_id}
use webhook_delivery_system.Store.Recovery.{order_by, insert_sorted, lex_before}
use webhook_delivery_system.Api.Ingest.Admission.{write_domain_error-ge}
use webhook_delivery_system.Http.{write_json}
use webhook_delivery_system.Http.Clamping.{parse_hours}
use webhook_delivery_system.Api.Dto.{
  Statistics, StatusResponse, MetricsSummaryResponse, Answer, status_of, summary, to_attempt_view,
}
use webhook_delivery_system.Store.Recovery.{
  StatusCounts, has_status, since_with, count_by_status_since,
}
use webhook_delivery_system.Api.Status.{
  count, tally, statistics_of, with_logs, status_response, last_from, handle_webhook_status,
  summarised, handle_metrics_summary,
}

-- The four counters are the given numbers.
abbrev pub Tallies : (DeliveryStatus → ℕ) → Statistics → Type 0
Tallies n s =
    (s.pending ≡ n pending)
    × (s.successful ≡ n success)
    × (s.failed ≡ n failed_attempt)
    × (s.final_failure ≡ n final_failure)

abbrev one_if : DeliveryStatus → DeliveryStatus → ℕ
one_if w st = if has_status w st then 1 else 0

count-Tallies :
    (st : DeliveryStatus) (n : DeliveryStatus → ℕ) (s : Statistics)
    → Tallies n s
    → Tallies (λ w. n w + one_if w st) (count st s)
count-Tallies pending n s (p, q, f, e) =
    (omega (arith, p), omega (arith, q), omega (arith, f), omega (arith, e))
count-Tallies success n s (p, q, f, e) =
    (omega (arith, p), omega (arith, q), omega (arith, f), omega (arith, e))
count-Tallies failed_attempt n s (p, q, f, e) =
    (omega (arith, p), omega (arith, q), omega (arith, f), omega (arith, e))
count-Tallies final_failure n s (p, q, f, e) =
    (omega (arith, p), omega (arith, q), omega (arith, f), omega (arith, e))

affected_cons :
    {A : Type 0} (p : A → Bool) (x : A) (xs : List A) (m n : ℕ)
    → m ≡ n + (if p x then 1 else 0) + affected p xs
    → m ≡ n + affected p (x ∷ xs)
affected_cons p x xs m n h = ground arith

tally-Tallies :
    (logs : List DeliveryLog) (n : DeliveryStatus → ℕ) (s : Statistics)
    → Tallies n s
    → Tallies (λ w. n w + affected (λ d. has_status w d.status) logs) (tally logs s)
tally-Tallies [] n s (p, q, f, e) =
    (omega (arith, p), omega (arith, q), omega (arith, f), omega (arith, e))
tally-Tallies (l ∷ logs) n s h =
    let (p, q, f, e) =
      tally-Tallies logs (λ w. n w + one_if w l.status) (count l.status s)
        (count-Tallies l.status n s h) in
    let cons = λ (w : DeliveryStatus) (m : ℕ).
      affected_cons (λ (d : DeliveryLog). has_status w d.status) l logs m (n w) in
    (cons pending _ p, cons success _ q, cons failed_attempt _ f, cons final_failure _ e)

statistics_of-Tallies :
    (logs : List DeliveryLog)
    → Tallies (λ w. affected (λ d. has_status w d.status) logs) (statistics_of logs)
statistics_of-Tallies logs =
    let start : Statistics = record {
      total_attempts = length logs;
      successful = 0;
      failed = 0;
      pending = 0;
      final_failure = 0;
    } in
    let (p, q, f, e) = tally-Tallies logs (λ w. 0) start (refl, refl, refl, refl) in
    (omega (arith, p), omega (arith, q), omega (arith, f), omega (arith, e))

count_total :
    (st : DeliveryStatus) (s : Statistics) → (count st s).total_attempts ≡ s.total_attempts
count_total pending s = refl
count_total success s = refl
count_total failed_attempt s = refl
count_total final_failure s = refl

tally_total :
    (logs : List DeliveryLog) (s : Statistics) → (tally logs s).total_attempts ≡ s.total_attempts
tally_total [] s = refl
tally_total (l ∷ logs) s = tally_total logs (count l.status s) ∙ count_total l.status s

-- A row counts under its status alone.
since_cons :
    (recent : Bool) (st : DeliveryStatus) (p s f e : ℕ)
    → (if recent && has_status pending st then suc p else p)
        + (if recent && has_status success st then suc s else s)
        + (if recent && has_status failed_attempt st then suc f else f)
        + (if recent && has_status final_failure st then suc e else e)
      ≡ p + s + f + e + (if recent then 1 else 0)
since_cons recent pending p s f e = ground arith
since_cons recent success p s f e = ground arith
since_cons recent failed_attempt p s f e = ground arith
since_cons recent final_failure p s f e = ground arith

one_more : (recent : Bool) (n : ℕ) → (if recent then suc n else n) ≡ n + (if recent then 1 else 0)
one_more recent n = ground arith

since_total :
    (since : ℕ) (rows : List DeliveryLog)
    → affected (since_with since pending) rows
        + affected (since_with since success) rows
        + affected (since_with since failed_attempt) rows
        + affected (since_with since final_failure) rows
      ≡ affected (λ r. leb since r.created_at) rows
since_total since [] = refl
since_total since (r ∷ rows) = omega (
  arith,
  since_total since rows,
  since_cons (leb since r.created_at) r.status (affected (since_with since pending) rows)
      (affected (since_with since success) rows) (affected (since_with since failed_attempt) rows)
      (affected (since_with since final_failure) rows),
  one_more (leb since r.created_at) (affected (λ d. leb since d.created_at) rows),
)

length-select : {A : Type 0} (p : A → Bool) (xs : List A) → length (select p xs) ≡ affected p xs
length-select p [] = refl
length-select p (x ∷ xs) = ground (arith, length-select p xs)

affected-select :
    {A : Type 0} (p q : A → Bool) (xs : List A)
    → affected q (select p xs) ≡ affected (λ x. p x && q x) xs
affected-select p q [] = refl
affected-select p q (x ∷ xs) = ground (arith, affected-select p q xs)

affected-insert_sorted :
    {A : Type 0} (before : A → A → Bool) (q : A → Bool) (x : A) (xs : List A)
    → affected q (insert_sorted before x xs) ≡ affected q (x ∷ xs)
unfolding insert_sorted
affected-insert_sorted before q x [] = refl
affected-insert_sorted before q x (y ∷ ys) = ground (arith, affected-insert_sorted before q x ys)

affected-order_by :
    {A : Type 0} (before : A → A → Bool) (q : A → Bool) (xs : List A)
    → affected q (order_by before xs) ≡ affected q xs
unfolding order_by
affected-order_by before q [] = refl
affected-order_by before q (x ∷ xs) =
    affected-insert_sorted before q x (order_by before xs)
    ∙ ground (arith, affected-order_by before q xs)

affected_all : {A : Type 0} (xs : List A) → affected (λ x. true) xs ≡ length xs
affected_all [] = refl
affected_all (x ∷ xs) = ap suc (affected_all xs)

-- The rows of `logs` are those of the webhook, each as often as the tables hold it.
abbrev pub AreRowsOf : ℕ → Db → List DeliveryLog → Type 0
AreRowsOf k db logs =
    (q : DeliveryLog → Bool) → affected q logs ≡ affected (λ d. d.webhook_id == k && q d) db.logs

-- The views and the statistics of an answer are those of the rows that were listed.
abbrev pub Reports : StatusResponse → List DeliveryLog → Type 0
Reports s logs =
    (s.attempts ≡ map to_attempt_view logs)
    × (s.statistics.total_attempts ≡ length logs)
    × Tallies (λ w. affected (λ d. has_status w d.status) logs) s.statistics

with_logs-Reports :
    (r : Result (List DeliveryLog)) (s : StatusResponse)
    → with_logs r ≡ write_json 200 (status_of s)
    → (logs : List DeliveryLog) × (r ≡ ok logs) × Reports s logs
with_logs-Reports (err e) s h =
    absurd (omega (arith, write_domain_error-ge e, ap (λ (a : Answer). a.status) h))
with_logs-Reports (ok []) s h = absurd (cc)
with_logs-Reports (ok (l ∷ logs)) s h =
    let e : status_response (last_from l logs) (l ∷ logs) ≡ s = cc in
    subst (λ x. (rows : List DeliveryLog) × (ok (l ∷ logs) ≡ ok rows) × Reports x rows) e
      ((l ∷ logs), refl, (refl, tally_total (l ∷ logs) _, statistics_of-Tallies (l ∷ logs)))

-- The numbers of a summary are those of the counts.
abbrev pub Summarises : MetricsSummaryResponse → StatusCounts → Type 0
Summarises s n =
    (s.pending ≡ n.pending)
    × (s.successful ≡ n.success)
    × (s.failed ≡ n.failed_attempt)
    × (s.final_failure ≡ n.final_failure)
    × (s.total_attempts ≡ n.pending + n.success + n.failed_attempt + n.final_failure)
    × (s.success_rate ≡ (
        if ltb 0 (n.pending + n.success + n.failed_attempt + n.final_failure)
        then (n.success, n.pending + n.success + n.failed_attempt + n.final_failure)
        else (0, 1)))

summarised-Summarises :
    (hours : ℕ) (r : Result StatusCounts) (s : MetricsSummaryResponse)
    → summarised hours r ≡ write_json 200 (summary s)
    → (n : StatusCounts) × (r ≡ ok n) × Summarises s n
summarised-Summarises hours (err e) s h =
    absurd (omega (arith, write_domain_error-ge e, ap (λ (a : Answer). a.status) h))
summarised-Summarises hours (ok n) s h = (n, refl, (cc, cc, cc, cc, cc, cc))

ok_injective : {A : Type 0} {a b : A} → ◌≡◌ {A = Result A} (ok a) (ok b) → a ≡ b
ok_injective h = cc

-- When the status of a webhook is answered, its attempts are the views of a list of rows in which each
-- attempt row of the webhook stands as often as in the tables, and no other; the total is the number
-- of these rows; and the four counters are the numbers of them that are pending, successful, failed,
-- and failed for good.
pub handle_webhook_status_totals :
    (t : Trip) (k : ℕ) (db : Db) (s : StatusResponse)
    → handle_webhook_status t k db ≡ write_json 200 (status_of s)
    → (logs : List DeliveryLog) × AreRowsOf k db logs
      × (s.attempts ≡ map to_attempt_view logs)
      × (s.statistics.total_attempts ≡ affected (λ d. d.webhook_id == k) db.logs)
      × Tallies
          (λ w. affected (λ d. d.webhook_id == k && has_status w d.status) db.logs)
          s.statistics
unfolding handle_webhook_status list_by_webhook_id in_tx
handle_webhook_status_totals t k db s h =
    let before = λ (r : DeliveryLog) (x : DeliveryLog).
      lex_before r.replay_number r.attempt_number x.replay_number x.attempt_number in
    let rows = select (λ d. d.webhook_id == k) db.logs in
    let read : Result (List DeliveryLog) × Db = (ok (order_by before rows), db) in
    let (logs, committed, (viewed, total, tallied)) =
      with_logs-Reports (finish t.outcome db read).0 s h in
    let applied = finish_ok t.outcome db read logs committed in
    let same : order_by before rows ≡ logs =
      ok_injective (ap (λ x. x.0) (sym applied) ∙ committed) in
    let these : AreRowsOf k db logs = λ q.
      ap (affected q) (sym same)
      ∙ affected-order_by before q rows
      ∙ affected-select (λ d. d.webhook_id == k) q db.logs in
    let (p, g, f, e) = tallied in
    let of = λ (w : DeliveryStatus). these (λ d. has_status w d.status) in
    (
      logs,
      these,
      viewed,
      total
          ∙ ap length (sym same)
          ∙ sym (affected_all (order_by before rows))
          ∙ affected-order_by before (λ d. true) rows
          ∙ affected_all rows
          ∙ length-select (λ d. d.webhook_id == k) db.logs,
      (p ∙ of pending, g ∙ of success, f ∙ of failed_attempt, e ∙ of final_failure),
    )

-- When the metrics summary is answered, its four counters are the numbers of attempt rows that were
-- created within the window and are pending, successful, failed, and failed for good; its total is the
-- number of all rows that were created within the window; and the success rate is the successful ones
-- of the total, or 0 when there are none.
pub handle_metrics_summary_totals :
    (t : Trip) (hours : Text) (now : ℕ) (db : Db) (s : MetricsSummaryResponse)
    → handle_metrics_summary t hours now db ≡ write_json 200 (summary s)
    → let since = now - parse_hours hours 24 * (3600 * second) in
      let total = affected (λ d. leb since d.created_at) db.logs in
      let with_status = λ (w : DeliveryStatus). affected (since_with since w) db.logs in
      (s.pending ≡ with_status pending)
      × (s.successful ≡ with_status success)
      × (s.failed ≡ with_status failed_attempt)
      × (s.final_failure ≡ with_status final_failure)
      × (s.total_attempts ≡ total)
      × (s.success_rate ≡ (if ltb 0 total then (with_status success, total) else (0, 1)))
unfolding handle_metrics_summary count_by_status_since in_tx
handle_metrics_summary_totals t hours now db s h =
    let since = now - parse_hours hours 24 * (3600 * second) in
    let counts : StatusCounts = record {
      pending = affected (since_with since pending) db.logs;
      success = affected (since_with since success) db.logs;
      failed_attempt = affected (since_with since failed_attempt) db.logs;
      final_failure = affected (since_with since final_failure) db.logs;
    } in
    let read : Result StatusCounts × Db = (ok counts, db) in
    let (n, committed, found) =
      summarised-Summarises (parse_hours hours 24) (finish t.outcome db read).0 s h in
    let applied = finish_ok t.outcome db read n committed in
    let same : counts ≡ n = ok_injective (ap (λ x. x.0) (sym applied) ∙ committed) in
    let (p, g, f, e, total, fraction) = subst (Summarises s) (sym same) found in
    let all = since_total since db.logs in
    (
      p,
      g,
      f,
      e,
      total ∙ all,
      fraction
          ∙ ap (λ n. if ltb 0 n then (affected (since_with since success) db.logs, n) else (0, 1))
              all,
    )
