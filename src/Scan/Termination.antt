-- ===== src/Scan/Termination.antt =====
-- The recovery pass of internal/worker/retry.go ends, over tables that the pass alone changes.
use webhook_delivery_system.Prelude.{
  ℕ, zero, suc, ◌≤◌, ◌<◌, ◌≡◌, inl, inr, refl, sym, subst, ap, ◌∙◌, Bool, true, false, ◌&&◌, not,
  Option, some, List, [], ◌∷◌, arith, ltb, length, take, select, map, if◌then◌else◌, Bool-cases,
}
use webhook_delivery_system.Domain.{DeliveryLog, Result, ok, err}
use webhook_delivery_system.Store.Sql.{
  Db, Trip, in_tx, finish_ok, affected, update_where, seconds_arg,
}
use webhook_delivery_system.Store.Recovery.{
  created_before, is_null, lease_less, order_by, has_id, rearm_candidates, rearm_lease_less_pending,
}
use webhook_delivery_system.Redis.{Redis}
use webhook_delivery_system.Scan.{Calls, enqueue_all, scan_rearm}
use webhook_delivery_system.Scan.Pages.{In}
use webhook_delivery_system.Scan.Progress.{of_order_by, of_select}
use webhook_delivery_system.Scan.Coverage.{enqueue_all_keeps}

-- The rows without a lease.
abbrev pub unleased : DeliveryLog → Bool
unleased r = is_null r.next_retry_at

abbrev rearmed : Trip → List ℕ → List DeliveryLog → List DeliveryLog
rearmed t ids logs =
    update_where (λ r. has_id ids r.id)
      (λ r. record r { next_retry_at = some t.now; updated_at = t.now }) logs

rearm_le :
    (t : Trip) (ids : List ℕ) (logs : List DeliveryLog)
    → affected unleased (rearmed t ids logs) ≤ affected unleased logs
rearm_le t ids [] = omega arith
rearm_le t ids (x ∷ xs) = ground (arith, rearm_le t ids xs)

rearm_lt :
    (t : Trip) (ids : List ℕ) (s : DeliveryLog) (logs : List DeliveryLog)
    → In s logs
    → has_id ids s.id ≡ true
    → unleased s ≡ true
    → affected unleased (rearmed t ids logs) < affected unleased logs
rearm_lt t ids s [] found h n = absurd found
rearm_lt t ids s (x ∷ xs) (inl same) h n =
    let hx = subst (λ y. has_id ids y.id ≡ true) same h in
    let nx = subst (λ y. unleased y ≡ true) same n in rw hx (ground (arith, nx, rearm_le t ids xs))
rearm_lt t ids s (x ∷ xs) (inr later) h n = ground (arith, rearm_lt t ids s xs later h n)

abbrev first_ids : ℕ → List DeliveryLog → List ℕ
first_ids n rows = map (λ r. r.id) (take n rows)

batch_lt :
    (t : Trip) (k : ℕ) (rows logs : List DeliveryLog)
    → ((s : DeliveryLog) → In s rows → In s logs × (unleased s ≡ true))
    → ltb (length (first_ids (suc k) rows)) (suc k) ≡ false
    → affected unleased (rearmed t (first_ids (suc k) rows) logs) < affected unleased logs
batch_lt t k [] logs h full = absurd (ground arith)
batch_lt t k (x ∷ xs) logs h full =
    let (stored, null) = h x (inl refl) in
    rearm_lt t (first_ids (suc k) (x ∷ xs)) x logs stored (ground arith) null

abbrev free : (ℕ → Bool) → ℕ → ℕ → DeliveryLog → Bool
free locked now threshold r = lease_less now (seconds_arg threshold) r && not (locked r.id)

-- A full batch, done, leaves fewer rows without a lease.
rearm_fewer :
    (locked : ℕ → Bool) (t : Trip) (k threshold : ℕ) (db db' : Db) (ids : List ℕ)
    → rearm_lease_less_pending locked t (suc k) threshold db ≡ (ok ids, db')
    → ltb (length ids) (suc k) ≡ false
    → affected unleased db'.logs < affected unleased db.logs
unfolding rearm_lease_less_pending rearm_candidates in_tx
rearm_fewer locked t k threshold db db' ids e full =
    let rows = order_by created_before (select (free locked t.now threshold) db.logs) in
    let chosen = first_ids (suc k) rows in
    let r : Result (List ℕ) × Db = (ok chosen, record db { logs = rearmed t chosen db.logs }) in
    let applied : r ≡ (ok ids, db') = sym (finish_ok t.outcome db r ids (ap (λ x. x.0) e)) ∙ e in
    let same : chosen ≡ ids = cc in
    let after : rearmed t chosen db.logs ≡ db'.logs = ap (λ x. x.1.logs) applied in
    let less =
      batch_lt t k rows db.logs
        (λ s h.
          let (found, passes) =
            of_select (free locked t.now threshold) s db.logs
              (of_order_by created_before s (select (free locked t.now threshold) db.logs) h) in
          (found, ground (arith, passes)))
        (rw same full) in
    subst (λ l. affected unleased l < affected unleased db.logs) after less

-- The second loop, on what its batch comes to.
abbrev after_batch : ℕ → Calls → ℕ → ℕ → Redis → Result (List ℕ) × Db → Option (Db × Redis)
after_batch fuel c batch threshold r (err e, db) = some (db, r)
after_batch fuel c batch threshold r (ok ids, db) =
    if ltb (length ids) batch
    then some (db, enqueue_all c ids r)
    else scan_rearm fuel c batch threshold db (enqueue_all c ids r)

batch_elim :
    (fuel : ℕ) (c : Calls) (batch threshold : ℕ) (r : Redis) (x : Result (List ℕ) × Db)
    → (elim x.0 [
      | err e ↦ some (x.1, r)
      | ok ids ↦
          let r' = enqueue_all c ids r in
          let rest = scan_rearm fuel c batch threshold x.1 r' in
          if ltb (length ids) batch then some (x.1, r') else rest
    ])
      ≡ after_batch fuel c batch threshold r x
batch_elim fuel c batch threshold r (err e, db) = refl
batch_elim fuel c batch threshold r (ok ids, db) = refl

one_batch :
    (fuel : ℕ) (c : Calls) (batch threshold : ℕ) (db : Db) (r : Redis)
    → scan_rearm (suc fuel) c batch threshold db r
      ≡ after_batch fuel c batch threshold r
          (rearm_lease_less_pending (c.locked fuel) (c.rearm fuel) batch threshold db)
unfolding scan_rearm
one_batch fuel c batch threshold db r =
    batch_elim fuel c batch threshold r
      (rearm_lease_less_pending (c.locked fuel) (c.rearm fuel) batch threshold db)

-- The pass returns, and what was queued before is queued still.
abbrev pub Returns : Redis → Option (Db × Redis) → Type 0
Returns r o =
    (db' : Db) × (r' : Redis) × (o ≡ some (db', r'))
    × ((i : ℕ) → has_id r.queue i ≡ true → has_id r'.queue i ≡ true)

module _ (c : Calls) (k threshold : ℕ) where
  batch_returns :
      (fuel : ℕ) (db : Db) (r : Redis) (x : Result (List ℕ) × Db)
      → ((ids : List ℕ) (db' : Db)
          → x ≡ (ok ids, db')
          → ltb (length ids) (suc k) ≡ false
          → Returns
              (enqueue_all c ids r)
              (scan_rearm fuel c (suc k) threshold db' (enqueue_all c ids r)))
      → Returns r (after_batch fuel c (suc k) threshold r x)
  batch_returns fuel db r (err e, db') h = (db', r, refl, λ i q. q)
  batch_returns fuel db r (ok ids, db') h = elim (Bool-cases (ltb (length ids) (suc k))) [
    | inl short ↦ (db', enqueue_all c ids r, rw short refl, λ i q. enqueue_all_keeps c ids i r q)
    | inr full ↦
        let (db'', r', e, keeps) = h ids db' refl full in
        (db'', r', rw full e, λ i q. keeps i (enqueue_all_keeps c ids i r q))
  ]

  pub scan_rearm_returns :
      (fuel : ℕ) (db : Db) (r : Redis)
      → affected unleased db.logs < fuel
      → Returns r (scan_rearm fuel c (suc k) threshold db r)
  scan_rearm_returns zero db r m = absurd (omega (arith, m))
  scan_rearm_returns (suc fuel) db r m = rw (one_batch fuel c (suc k) threshold db r) (
      batch_returns fuel db r
        (rearm_lease_less_pending (c.locked fuel) (c.rearm fuel) (suc k) threshold db)
        (λ ids db' e full. scan_rearm_returns fuel db' (enqueue_all c ids r) (
          let less = rearm_fewer (c.locked fuel) (c.rearm fuel) k threshold db db' ids e full in
          omega (arith, m, less))))
