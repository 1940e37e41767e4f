-- ===== src/Worker/Reconciled.antt =====
-- A reconciliation repairs the dead letter list.
use webhook_delivery_system.Prelude.{
  ℕ, ◌≤◌, ◌≡◌, refl, Bool, false, ◌&&◌, ◌||◌, not, List, [], ◌∷◌, arith, if◌then◌else◌, ◌==◌, ap,
  inl, inr, Bool-cases, select, map,
}
use webhook_delivery_system.Domain.{DeliveryLog, ok}
use webhook_delivery_system.Store.Sql.{
  Db, Trip, done, affected, query_row, log_by_id, in_tx, seconds_arg, delete_where, update_where,
  finish_done,
}
use webhook_delivery_system.Store.Recovery.{has_id}
use webhook_delivery_system.Store.Dlq.{
  list_in_dlq, is_in_dlq, force_ack_old_dlq, flag_of, aged, clear_dlq,
}
use webhook_delivery_system.Redis.{Redis}
use webhook_delivery_system.Worker.{
  Calls, remove_all, repush, repush_checked, unlist, unlist_checked, repair, forced_then, reconcile,
}

has_id-delete :
    (j id : ℕ) (xs : List ℕ)
    → has_id (delete_where (λ k. k == j) xs) id ≡ (has_id xs id && not (id == j))
has_id-delete j id [] = refl
has_id-delete j id (x ∷ xs) = ground (arith, has_id-delete j id xs)

-- Every call is done, and the check of an id tells its flag.
record IsDone (c : Calls) (db : Db) (flag : ℕ → Bool) : Type 0 where
  written : (id : ℕ) → c.write id ≡ done
  told : (id : ℕ) → (is_in_dlq (c.check id) id db).0 ≡ ok (flag id)

module _ (c : Calls) (db : Db) (flag : ℕ → Bool) (d : IsDone c db flag) (id : ℕ) where
  repush_one :
      (listed : List ℕ) (j : ℕ) (r : Redis)
      → has_id
          (if has_id listed j then r else repush_checked c j (is_in_dlq (c.check j) j db).0 r).dlq
          id
        ≡ (has_id r.dlq id || (j == id && (not (has_id listed id) && flag id)))
  unfolding repush_checked
  repush_one listed j r = elim (Bool-cases (has_id listed j)) [
    | inl there ↦ rw there (ground arith)
    | inr absent ↦
        rw (absent, d.told j)
          (elim (Bool-cases (flag j)) [
            | inl set ↦ rw set (rw (d.written j, repush_checked) (ground arith))
            | inr clear ↦ rw clear (ground arith)
          ])
  ]

  repush-has_id :
      (listed ids : List ℕ) (r : Redis)
      → has_id (repush c db listed ids r).dlq id
        ≡ (has_id r.dlq id || (has_id ids id && (not (has_id listed id) && flag id)))
  unfolding repush
  repush-has_id listed [] r = ground arith
  repush-has_id listed (j ∷ ids) r =
      let r' : Redis =
        if has_id listed j then r else repush_checked c j (is_in_dlq (c.check j) j db).0 r in
      let rest = repush-has_id listed ids r' in
      let one = repush_one listed j r in ground (arith, rest, one)

  unlist_one :
      (flagged : List ℕ) (j : ℕ) (r : Redis)
      → has_id
          (if has_id flagged j then r else unlist_checked c j (is_in_dlq (c.check j) j db).0 r).dlq
          id
        ≡ (has_id r.dlq id && not (j == id && (not (has_id flagged id) && not (flag id))))
  unfolding unlist_checked
  unlist_one flagged j r = elim (Bool-cases (has_id flagged j)) [
    | inl there ↦ rw there (ground arith)
    | inr absent ↦
        rw (absent, d.told j)
          (elim (Bool-cases (flag j)) [
            | inl set ↦ rw set (ground arith)
            | inr clear ↦
                rw clear
                  (rw (d.written j, unlist_checked) (ground (arith, has_id-delete j id r.dlq)))
          ])
  ]

  unlist-has_id :
      (flagged ids : List ℕ) (r : Redis)
      → has_id (unlist c db flagged ids r).dlq id
        ≡ (has_id r.dlq id && not (has_id ids id && (not (has_id flagged id) && not (flag id))))
  unfolding unlist
  unlist-has_id flagged [] r = ground arith
  unlist-has_id flagged (j ∷ ids) r =
      let r' : Redis =
        if has_id flagged j then r else unlist_checked c j (is_in_dlq (c.check j) j db).0 r in
      let rest = unlist-has_id flagged ids r' in
      let one = unlist_one flagged j r in ground (arith, rest, one)

  -- Both directions together.
  repair-has_id :
      (flagged : List ℕ) (r : Redis)
      → has_id flagged id ≡ flag id
      → has_id (repair c db (ok flagged) (ok r.dlq) r).dlq id ≡ flag id
  unfolding repair
  repair-has_id flagged r e =
      let pushed = repush-has_id r.dlq flagged r in
      let removed = unlist-has_id flagged r.dlq (repush c db r.dlq flagged r) in
      rw removed (rw pushed (ground (arith, e)))

-- The durable signal of an id.
abbrev pub flagged : ℕ → Db → Bool
flagged id db = flag_of (query_row (log_by_id id) db.logs)

module _ (id : ℕ) where
  unlisted :
      (rs : List DeliveryLog)
      → affected (log_by_id id) rs ≡ 0
      → has_id (map (λ r. r.id) (select (λ r. r.in_dlq) rs)) id ≡ false
  unlisted [] h = refl
  unlisted (r ∷ rs) h = ground (arith, unlisted rs)

  listed_flag :
      (rs : List DeliveryLog)
      → affected (log_by_id id) rs ≤ 1
      → has_id (map (λ r. r.id) (select (λ r. r.in_dlq) rs)) id
        ≡ flag_of (query_row (log_by_id id) rs)
  unfolding flag_of
  listed_flag [] h = refl
  listed_flag (r ∷ rs) h = ground (arith, listed_flag rs, unlisted rs)

  still_keyed :
      (p : DeliveryLog → Bool) (f : DeliveryLog → DeliveryLog) (rs : List DeliveryLog)
      → ((r : DeliveryLog) → (f r).id ≡ r.id)
      → affected (log_by_id id) (update_where p f rs) ≡ affected (log_by_id id) rs
  still_keyed p f [] keeps = refl
  still_keyed p f (r ∷ rs) keeps = ground (arith, keeps r, still_keyed p f rs keeps)

-- Every call of the reconciliation is done.
pub record AllDone (c : Calls) : Type 0 where
  pub force : c.force.outcome ≡ done
  pub list : c.list.outcome ≡ done
  pub read : c.read ≡ done
  pub check : (id : ℕ) → (c.check id).outcome ≡ done
  pub write : (id : ℕ) → c.write id ≡ done

told_flag :
    (t : Trip) (id : ℕ) (db : Db) → t.outcome ≡ done → (is_in_dlq t id db).0 ≡ ok (flagged id db)
unfolding is_in_dlq in_tx
told_flag t id db d = ap (λ r. r.0) (finish_done t.outcome db db (flagged id db) d)

forced_then-has_id :
    (c : Calls) (db : Db) (forced : List ℕ) (r : Redis) (id : ℕ)
    → AllDone c
    → affected (log_by_id id) db.logs ≤ 1
    → has_id (forced_then c (ok forced, db) r).1.dlq id ≡ flagged id db
unfolding forced_then list_in_dlq in_tx
forced_then-has_id c db forced r id a u =
    let r' = remove_all c forced r in
    let ids = map (λ l. l.id) (select (λ l. l.in_dlq) db.logs) in
    rw (finish_done c.list.outcome db db ids a.list, a.read)
      (repair-has_id c db (λ j. flagged j db)
        (record { written = a.write; told = λ j. told_flag (c.check j) j db (a.check j) }) id ids r'
        (listed_flag id db.logs u))

-- When no two attempt rows have the same id, every call of a reconciliation is done, and nothing
-- else runs meanwhile: afterwards the dead letter list holds an id exactly when its row is in the
-- table and flagged, whatever the list held before.
pub reconcile_repairs :
    (c : Calls) (max_age : ℕ) (db : Db) (r : Redis)
    → AllDone c
    → ((id : ℕ) → affected (log_by_id id) db.logs ≤ 1)
    → (id : ℕ)
    → has_id (reconcile c max_age (db, r)).1.dlq id ≡ flagged id (reconcile c max_age (db, r)).0
unfolding reconcile force_ack_old_dlq in_tx
reconcile_repairs c max_age db r a u id =
    let old = aged c.force.now (seconds_arg max_age) in
    let acked : Db = record db { logs = update_where old (clear_dlq c.force) db.logs } in
    let forced = map (λ l. l.id) (select old db.logs) in
    let same = still_keyed id old (clear_dlq c.force) db.logs (λ l. refl) in
    rw (finish_done c.force.outcome db acked forced a.force)
      (unfold forced_then in forced_then-has_id c acked forced r id a (rw same (u id)))
