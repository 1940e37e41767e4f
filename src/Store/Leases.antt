-- ===== src/Store/Leases.antt =====
-- The visibility lease of `ClaimPending`, in internal/store/delivery_lifecycle.go.
use webhook_delivery_system.Prelude.{
  ℕ, ◌+◌, ◌≤◌, ◌<◌, ◌≡◌, refl, Bool, true, false, some, List, [], ◌∷◌, arith, ◌==◌, ==_iff, subst,
  ap,
}
use webhook_delivery_system.Domain.{DeliveryLog, Result, ok}
use webhook_delivery_system.Store.Sql.{
  finish_ok, finish_done, update_missed, Db, Trip, done, in_tx, update_where, affected, log_by_id,
  seconds_arg,
}
use webhook_delivery_system.Store.Lifecycle.{claim_pending, claimable}

abbrev pub leased : ℕ → ℕ → DeliveryLog → DeliveryLog
leased due now r = record r { next_retry_at = some due; updated_at = now }

module _ (id n m due : ℕ) where
  elsewhere_unclaimable :
      (rs : List DeliveryLog)
      → affected (log_by_id id) rs ≡ 0
      → affected (claimable m id) (update_where (claimable n id) (leased due n) rs) ≡ 0
  elsewhere_unclaimable [] h = refl
  elsewhere_unclaimable (r ∷ rs) h = ground (arith, elsewhere_unclaimable rs)

  claimable_mono :
      (rs : List DeliveryLog) → affected (claimable n id) rs ≤ affected (log_by_id id) rs
  claimable_mono [] = omega arith
  claimable_mono (r ∷ rs) = ground (arith, claimable_mono rs)

  pub leased_unclaimable :
      (rs : List DeliveryLog)
      → affected (log_by_id id) rs ≤ 1
      → affected (claimable n id) rs ≡ 1
      → m < due
      → affected (claimable m id) (update_where (claimable n id) (leased due n) rs) ≡ 0
  leased_unclaimable [] u h l = refl
  leased_unclaimable (r ∷ rs) u h l =
      ground (arith, leased_unclaimable rs, elsewhere_unclaimable rs, claimable_mono rs)

pub claimed :
    (t : Trip) (id lease : ℕ) (db : Db)
    → (claim_pending t id lease db).0 ≡ ok true
    → (affected (claimable t.now id) db.logs ≡ 1)
      × ((claim_pending t id lease db).1.logs
          ≡ update_where (claimable t.now id) (leased (t.now + seconds_arg lease) t.now) db.logs)
unfolding claim_pending in_tx
claimed t id lease db h =
    let r : Result Bool × Db = (
      ok (affected (claimable t.now id) db.logs == 1),
      record db {
        logs = update_where (claimable t.now id) (leased (t.now + seconds_arg lease) t.now) db.logs;
      },
    ) in
    let same = finish_ok t.outcome db r true h in
    let won : ok (affected (claimable t.now id) db.logs == 1) ≡ ok true =
      subst (λ q. q.0 ≡ ok true) same h in
    ((==_iff (affected (claimable t.now id) db.logs) 1).0 (grind arith), ap (λ q. q.1.logs) same)

pub refused_claim :
    (u : Trip) (id next : ℕ) (db : Db)
    → u.outcome ≡ done
    → affected (claimable u.now id) db.logs ≡ 0
    → ((claim_pending u id next db).0 ≡ ok false) × ((claim_pending u id next db).1.logs ≡ db.logs)
unfolding claim_pending in_tx
refused_claim u id next db d h =
    rw (finish_done u.outcome db _ _ d) (rw h refl, update_missed (claimable u.now id) _ db.logs h)

-- When no two attempt rows have the id, and a claim of it succeeds, every later claim of it whose
-- round trip is done before the lease is over reports that it did not win, and changes no row.
pub claim_excludes :
    (t u : Trip) (id lease next : ℕ) (db : Db)
    → affected (log_by_id id) db.logs ≤ 1
    → (claim_pending t id lease db).0 ≡ ok true
    → u.outcome ≡ done
    → u.now < t.now + seconds_arg lease
    → let db' = (claim_pending t id lease db).1 in
      ((claim_pending u id next db').0 ≡ ok false)
      × ((claim_pending u id next db').1.logs ≡ db'.logs)
claim_excludes t u id lease next db k h d l =
    let due = t.now + seconds_arg lease in
    let w = claimed t id lease db h in
    let db' = (claim_pending t id lease db).1 in
    refused_claim u id next db' d (rw w.1 (leased_unclaimable id t.now u.now due db.logs k w.0 l))
