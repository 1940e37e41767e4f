-- ===== src/Cache/Mutations.antt =====
-- internal/subscription/state.go: a mutation leaves the tables keyed and the cache coherent.
use webhook_delivery_system.Prelude.{
  ℕ, ◌≤◌, ◌≡◌, ◌≢◌, inl, inr, refl, Bool, true, false, Option, Text, if◌then◌else◌, Option-cases,
  subst, sym,
}
use webhook_delivery_system.Domain.{Subscription, Error, Result, ok, err}
use webhook_delivery_system.Store.Sql.{
  Db, Trip, Outcome, lost, finish-keeps, finish_err, finish_ok, finish-result, in_tx, query_row,
  sub_by_id,
}
use webhook_delivery_system.Store.Lifecycle.{
  mark_success, finalize_failure, mark_success_tx, finalize_failure_tx,
}
use webhook_delivery_system.Store.Subscriptions
use webhook_delivery_system.Store.Subscriptions.{
  create_sub, update_sub, rotate_secret, delete_sub, create_tx, change_sub, delete_tx, rewrite,
}
use webhook_delivery_system.Cache.{
  State, Net, create, update, rotate, delete, evict_locked, evict_if_ok, reset_if_ok, reset_runtime,
  success_result, failure_result, created_id, record_delivery_success, record_final_failure,
}
use webhook_delivery_system.Cache.Coherence.{
  IsCoherent, unchanged-IsCoherent, evict_locked-IsCoherent,
}
use webhook_delivery_system.Cache.Effects.{
  IsKeyed, IsLocal, create-IsLocal, change-IsLocal, delete-IsLocal, success-IsLocal,
  failure-IsLocal, success_unchanged, failure_unchanged, here-IsLocal,
}

-- The state is good at a time: its tables are keyed and its entries coherent.
pub record IsGood (now : ℕ) (s : State) : Type 0 where
  pub keyed : IsKeyed s.db
  pub coherent : IsCoherent now s

-- A transaction that was not lost: local, and without effect when it failed.
pub record IsSettled {A : Type 0} (id : ℕ) (db : Db) (r : Result A × Db) : Type 0 where
  pub local : IsLocal id db r.1
  pub failed : (e : Error) → r.0 ≡ err e → r.1 ≡ db

in_tx-IsSettled :
    {A : Type 0} (t : Trip) (fn : Db → Result A × Db) (id : ℕ) (db : Db)
    → t.outcome ≢ lost
    → IsKeyed db
    → IsLocal id db (fn db).1
    → IsSettled id db (in_tx t fn db)
unfolding in_tx
in_tx-IsSettled t fn id db n k h = record {
  local = finish-keeps (IsLocal id db) t.outcome db (fn db) (here-IsLocal id db k) h;
  failed = λ e. finish_err t.outcome db (fn db) e n;
}

evict_db : (w : Outcome) (now id : ℕ) (s : State) → (evict_locked w now id s).db ≡ s.db
unfolding evict_locked
evict_db Outcome.done now id s = refl
evict_db Outcome.refused now id s = refl
evict_db Outcome.lost now id s = refl

in_tx_unchanged :
    {A : Type 0} (t : Trip) (fn : Db → Result A × Db) (db : Db) (a : A)
    → ((fn db).0 ≡ ok a → (fn db).1.subs ≡ db.subs)
    → (in_tx t fn db).0 ≡ ok a
    → (in_tx t fn db).1.subs ≡ db.subs
unfolding in_tx
in_tx_unchanged t fn db a f h =
    let same = finish_ok t.outcome db (fn db) a h in
    subst (λ r. r.1.subs ≡ db.subs) (sym same) (f (subst (λ r. r.0 ≡ ok a) same h))

module _ (now : ℕ) (n : Net) (s : State) (l : now ≤ n.marked) (g : IsGood now s) where
  evicted-IsGood :
      (id : ℕ) (db : Db)
      → IsLocal id s.db db
      → IsGood n.marked (evict_locked n.write n.marked id (record s { db = db }))
  evicted-IsGood id db h = record {
    keyed = rw (evict_db n.write n.marked id (record s { db = db })) h.keyed;
    coherent = evict_locked-IsCoherent now n.marked s l g.coherent n.write id db h.elsewhere;
  }

  unchanged-IsGood : (db : Db) → db.subs ≡ s.db.subs → IsGood n.marked (record s { db = db })
  unchanged-IsGood db e = record {
    keyed = λ j. rw e (g.keyed j);
    coherent = unchanged-IsCoherent now n.marked s l g.coherent db (λ j. rw e refl);
  }

  failed-IsGood : (db : Db) → db ≡ s.db → IsGood n.marked (record s { db = db })
  failed-IsGood db e = unchanged-IsGood db (rw e refl)

  evict_if_ok-IsGood :
      {A : Type 0} (id : ℕ) (r : Result A × Db)
      → IsSettled id s.db r
      → IsGood n.marked (evict_if_ok n id s r).1
  unfolding evict_if_ok
  evict_if_ok-IsGood id (ok a, db) h = evicted-IsGood id db h.local
  evict_if_ok-IsGood id (err e, db) h = failed-IsGood db (h.failed e refl)

  success_result-IsGood :
      (id : ℕ) (r : Result (Bool × Bool) × Db)
      → IsSettled id s.db r
      → ((won : Bool) → r.0 ≡ ok (won, false) → r.1.subs ≡ s.db.subs)
      → IsGood n.marked (success_result n id s r).1
  unfolding success_result
  success_result-IsGood id (err e, db) h f = failed-IsGood db (h.failed e refl)
  success_result-IsGood id (ok (won, true), db) h f = evicted-IsGood id db h.local
  success_result-IsGood id (ok (won, false), db) h f = unchanged-IsGood db (f won refl)

  reset_if-IsGood :
      (b : Bool) (id now' : ℕ) (s' : State)
      → IsGood now' s'
      → IsGood now' (if b then reset_runtime id s' else s')
  unfolding reset_runtime
  reset_if-IsGood true id now' s' h = record { keyed = h.keyed; coherent = h.coherent }
  reset_if-IsGood false id now' s' h = h

  failure_result-IsGood :
      (id : ℕ) (r : Result (Bool × Bool) × Db)
      → IsSettled id s.db r
      → ((disabled : Bool) → r.0 ≡ ok (false, disabled) → r.1.subs ≡ s.db.subs)
      → IsGood n.marked (failure_result n id s r).1
  unfolding failure_result
  failure_result-IsGood id (err e, db) h f = failed-IsGood db (h.failed e refl)
  failure_result-IsGood id (ok (true, disabled), db) h f =
      reset_if-IsGood disabled id _ _ (evicted-IsGood id db h.local)
  failure_result-IsGood id (ok (false, disabled), db) h f =
      reset_if-IsGood disabled id _ _ (unchanged-IsGood db (f disabled refl))

  reset_if_ok-IsGood :
      {A : Type 0} (id : ℕ) (r : Result A × State)
      → IsGood n.marked r.1
      → IsGood n.marked (reset_if_ok id r).1
  unfolding reset_if_ok
  reset_if_ok-IsGood id (ok a, s') h = reset_if-IsGood true id n.marked s' h
  reset_if_ok-IsGood id (err e, s') h = h

created_id_lem :
    (t : Trip) (sub : Subscription) (db : Db) → created_id t.uuid (create_sub t sub db).0 ≡ t.uuid
unfolding created_id create_sub in_tx create_tx
created_id_lem t sub db =
    finish-result (λ r. created_id t.uuid r ≡ t.uuid) t.outcome db _
      (elim (Option-cases (query_row (sub_by_id t.uuid) db.subs)) [
        | inl absent ↦ rw (absent, create_tx) refl
        | inr (s, found) ↦ rw (found, create_tx) refl
      ])
      refl

module _ (now : ℕ) (n : Net) (s : State) (l : now ≤ n.marked) (g : IsGood now s)
    (c : n.trip.outcome ≢ lost) where
  pub create-IsGood : (sub : Subscription) → IsGood n.marked (create n sub s).1
  unfolding create create_sub
  create-IsGood sub = evict_if_ok-IsGood now n s l g _ _ (
      subst (λ i. IsSettled i s.db (create_sub n.trip sub s.db))
        (sym (created_id_lem n.trip sub s.db))
        (in_tx-IsSettled n.trip (create_tx n.trip sub) n.trip.uuid s.db c g.keyed
          (create-IsLocal n.trip s.db g.keyed sub)))

  pub update-IsGood : (sub : Subscription) → IsGood n.marked (update n sub s).1
  unfolding update update_sub
  update-IsGood sub = evict_if_ok-IsGood now n s l g sub.id _ (
      in_tx-IsSettled n.trip (change_sub sub.id (rewrite n.trip sub)) sub.id s.db c g.keyed
        (change-IsLocal n.trip s.db g.keyed sub.id (rewrite n.trip sub) (λ r. refl)))

  pub rotate-IsGood : (id : ℕ) (secret : Text) → IsGood n.marked (rotate n id secret s).1
  unfolding rotate rotate_secret
  rotate-IsGood id secret = evict_if_ok-IsGood now n s l g id _ (
      in_tx-IsSettled n.trip (change_sub id (Subscriptions.rotate n.trip secret)) id s.db c g.keyed
        (change-IsLocal n.trip s.db g.keyed id (Subscriptions.rotate n.trip secret) (λ r. refl)))

  pub delete-IsGood : (id : ℕ) → IsGood n.marked (delete n id s).1
  unfolding delete delete_sub
  delete-IsGood id = reset_if_ok-IsGood now n s l g id _ (
      evict_if_ok-IsGood now n s l g id _ (
        in_tx-IsSettled n.trip (delete_tx id) id s.db c g.keyed
          (delete-IsLocal n.trip s.db g.keyed id)))

  pub success-IsGood :
      (id sub http : ℕ) → IsGood n.marked (record_delivery_success n id sub http s).1
  unfolding record_delivery_success mark_success
  success-IsGood id sub http =
      success_result-IsGood now n s l g sub _
        (in_tx-IsSettled n.trip (mark_success_tx n.trip id sub http) sub s.db c g.keyed
          (success-IsLocal n.trip s.db g.keyed id sub http))
        (λ won.
          in_tx_unchanged n.trip (mark_success_tx n.trip id sub http) s.db (won, false)
            (success_unchanged n.trip s.db g.keyed id sub http won))

  pub failure-IsGood :
      (id sub : ℕ) (http : Option ℕ) (details : Text) (threshold : ℕ)
      → IsGood n.marked (record_final_failure n id sub http details threshold s).1
  unfolding record_final_failure finalize_failure
  failure-IsGood id sub http details threshold =
      failure_result-IsGood now n s l g sub _
        (in_tx-IsSettled n.trip (finalize_failure_tx n.trip id sub http details threshold) sub s.db
          c g.keyed (failure-IsLocal n.trip s.db g.keyed id sub http details threshold))
        (λ disabled.
          in_tx_unchanged n.trip (finalize_failure_tx n.trip id sub http details threshold) s.db
            (false, disabled)
            (failure_unchanged n.trip s.db g.keyed id sub http details threshold disabled))
