-- ===== src/Scan/Coverage.antt =====
-- The recovery pass of internal/worker/retry.go finds every row that is due.
use webhook_delivery_system.Prelude.{
  ℕ, zero, suc, ◌≤◌, ◌<◌, ◌≡◌, ◌⊎◌, inl, inr, refl, true, false, ◌&&◌, Option, some, List, [], ◌∷◌,
  arith, ltb, ◌==◌, length, select, if◌then◌else◌, Bool-cases,
}
use webhook_delivery_system.Domain.{DeliveryLog, RecoveryCursor, ok}
use webhook_delivery_system.Store.Sql.{Db, Trip, Outcome, done, refused, lost, in_tx, finish_done}
use webhook_delivery_system.Store.Recovery.{
  due_before, past_cursor, due_pending, order_by, has_id, find_due_pending,
}
use webhook_delivery_system.Redis.{Redis, enqueue}
use webhook_delivery_system.Scan.{Calls, enqueue_all, ids_of, cursor_after, scan_due}
use webhook_delivery_system.Scan.Pages.{
  In, page, page_covers, In-order_by, In-select, order_by-Sorted,
}
use webhook_delivery_system.Scan.Progress.{remaining, page_advances, page_rows}

enqueue_keeps :
    (o : Outcome) (id i : ℕ) (r : Redis)
    → has_id r.queue i ≡ true
    → has_id (enqueue o id r).1.queue i ≡ true
enqueue_keeps done id i r h = ground arith
enqueue_keeps refused id i r h = h
enqueue_keeps lost id i r h = ground arith

pub enqueue_all_keeps :
    (c : Calls) (ids : List ℕ) (i : ℕ) (r : Redis)
    → has_id r.queue i ≡ true
    → has_id (enqueue_all c ids r).queue i ≡ true
unfolding enqueue_all
enqueue_all_keeps c [] i r h = h
enqueue_all_keeps c (id ∷ ids) i r h =
    enqueue_all_keeps c ids i (enqueue (c.push id) id r).1 (enqueue_keeps (c.push id) id i r h)

enqueue_all_adds :
    (c : Calls) (ids : List ℕ) (i : ℕ) (r : Redis)
    → ((id : ℕ) → c.push id ≡ done)
    → has_id ids i ≡ true
    → has_id (enqueue_all c ids r).queue i ≡ true
unfolding enqueue_all
enqueue_all_adds c [] i r d h = absurd (cc)
enqueue_all_adds c (id ∷ ids) i r d h = elim (Bool-cases (id == i)) [
  | inl same ↦ enqueue_all_keeps c ids i (enqueue (c.push id) id r).1 (rw (d id) (rw same refl))
  | inr other ↦ enqueue_all_adds c ids i (enqueue (c.push id) id r).1 d (ground (arith, other))
]

-- A page that is not full lists every row.
short_page :
    (n : ℕ) (rows : List DeliveryLog) (r : DeliveryLog)
    → ltb (length (page n rows)) n ≡ true
    → In r rows
    → has_id (ids_of (page n rows)) r.id ≡ true
unfolding ids_of
short_page n [] r h k = absurd k
short_page zero (x ∷ xs) r h k = absurd (ground arith)
short_page (suc n) (x ∷ xs) r h (inl same) = rw same (ground arith)
short_page (suc n) (x ∷ xs) r h (inr later) =
    let rest = short_page n xs r (ground arith) later in ground (arith, rest)

-- The rows of a table that a page is taken from.
abbrev pub candidates : ℕ → Option RecoveryCursor → List DeliveryLog → List DeliveryLog
candidates now after logs =
    order_by due_before (select (λ r. due_pending now r && past_cursor after r) logs)

pub found_page :
    (t : Trip) (limit : ℕ) (after : Option RecoveryCursor) (db : Db)
    → t.outcome ≡ done
    → (find_due_pending t limit after db).0 ≡ ok (page limit (candidates t.now after db.logs))
unfolding find_due_pending in_tx
found_page t limit after db d = rw (finish_done t.outcome db db _ d) refl

due_later :
    (now later : ℕ) (r : DeliveryLog)
    → now ≤ later
    → due_pending now r ≡ true
    → due_pending later r ≡ true
due_later now later r h k = ground arith

-- Every row that is due is past the cursor or queued.
abbrev pub Covered : ℕ → Option RecoveryCursor → List DeliveryLog → Redis → Type 0
Covered now after logs r =
    (row : DeliveryLog)
    → In row logs
    → due_pending now row ≡ true
    → (past_cursor after row ≡ true) ⊎ (has_id r.queue row.id ≡ true)

abbrev pub Queued : ℕ → List DeliveryLog → Redis → Type 0
Queued now logs r =
    (row : DeliveryLog) → In row logs → due_pending now row ≡ true → has_id r.queue row.id ≡ true

-- A full page leaves fewer rows past the cursor.
pub fewer :
    (k now : ℕ) (after : Option RecoveryCursor) (logs : List DeliveryLog) (fuel : ℕ)
    → remaining after logs < suc fuel
    → ltb (length (page (suc k) (candidates now after logs))) (suc k) ≡ false
    → remaining (cursor_after (page (suc k) (candidates now after logs)) after) logs < fuel
fewer k now after logs fuel m full =
    let less =
      page_advances k (candidates now after logs) logs after
        (page_rows (due_pending now) after logs) (ground (arith, full)) in
    omega (arith, m, less)

module _ (c : Calls) (k now : ℕ) (db : Db) (connected : (n : ℕ) → (c.page n).outcome ≡ done)
    (since : (n : ℕ) → now ≤ (c.page n).now) (pushed : (id : ℕ) → c.push id ≡ done) where
  on_page :
      (t : Trip) (after : Option RecoveryCursor) (row : DeliveryLog)
      → now ≤ t.now
      → In row db.logs
      → due_pending now row ≡ true
      → past_cursor after row ≡ true
      → In row (candidates t.now after db.logs)
  on_page t after row l found due past =
      In-order_by row (select (λ r. due_pending t.now r && past_cursor after r) db.logs) (
        In-select (λ r. due_pending t.now r && past_cursor after r) row db.logs
          (rw (due_later now t.now row l due) past) found)

  -- After a page that is full, and after one that is not.
  full_covers :
      (t : Trip) (after : Option RecoveryCursor) (r : Redis)
      → now ≤ t.now
      → Covered now after db.logs r
      → let items = page (suc k) (candidates t.now after db.logs) in
        Covered now (cursor_after items after) db.logs (enqueue_all c (ids_of items) r)
  full_covers t after r l covered row found due = elim (covered row found due) [
    | inr queued ↦ inr (
        enqueue_all_keeps c (ids_of (page (suc k) (candidates t.now after db.logs))) row.id r
          queued)
    | inl past ↦
        elim (page_covers k (candidates t.now after db.logs) after row
          (order_by-Sorted (select (λ s. due_pending t.now s && past_cursor after s) db.logs))
          (on_page t after row l found due past)) [
            | inl listed ↦ inr (enqueue_all_adds c _ row.id r pushed listed)
            | inr later ↦ inl later
          ]
  ]

  short_covers :
      (t : Trip) (after : Option RecoveryCursor) (r : Redis)
      → now ≤ t.now
      → Covered now after db.logs r
      → let items = page (suc k) (candidates t.now after db.logs) in
        ltb (length items) (suc k) ≡ true → Queued now db.logs (enqueue_all c (ids_of items) r)
  short_covers t after r l covered short row found due = elim (covered row found due) [
    | inr queued ↦
        enqueue_all_keeps c (ids_of (page (suc k) (candidates t.now after db.logs))) row.id r queued
    | inl past ↦ enqueue_all_adds c _ row.id r pushed (
        short_page (suc k) (candidates t.now after db.logs) row short
          (on_page t after row l found due past))
  ]

  one_page :
      (fuel : ℕ) (after : Option RecoveryCursor) (r : Redis)
      → let items = page (suc k) (candidates (c.page fuel).now after db.logs) in
        let r' = enqueue_all c (ids_of items) r in
        scan_due (suc fuel) c (suc k) after db r ≡ (
          if ltb (length items) (suc k)
          then some (true, r')
          else scan_due fuel c (suc k) (cursor_after items after) db r')
  unfolding scan_due
  one_page fuel after r =
      rw (found_page (c.page fuel) (suc k) after db (connected fuel), scan_due) refl

  pub scan_due-Queued :
      (fuel : ℕ) (after : Option RecoveryCursor) (r : Redis)
      → remaining after db.logs < fuel
      → Covered now after db.logs r
      → (r' : Redis) × (scan_due fuel c (suc k) after db r ≡ some (true, r'))
        × Queued now db.logs r'
  scan_due-Queued zero after r m covered = absurd (omega (arith, m))
  scan_due-Queued (suc fuel) after r m covered =
      let t = c.page fuel in
      let rows = candidates t.now after db.logs in
      let items = page (suc k) rows in
      rw (one_page fuel after r) (elim (Bool-cases (ltb (length items) (suc k))) [
        | inl short ↦ (
          enqueue_all c (ids_of items) r,
          rw short refl,
          short_covers t after r (since fuel) covered short,
        )
        | inr full ↦ rw full (
            scan_due-Queued fuel (cursor_after items after) (enqueue_all c (ids_of items) r)
              (fewer k t.now after db.logs fuel m full)
              (full_covers t after r (since fuel) covered))
      ])
