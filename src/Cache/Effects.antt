-- ===== src/Cache/Effects.antt =====
-- What the transactions that internal/subscription/state.go calls do to the stored subscriptions.
use webhook_delivery_system.Prelude.{
  ℕ, ◌≤◌, ◌≡◌, ◌≢◌, inl, inr, refl, Bool, true, false, Option, none, List, [], ◌∷◌, Text, arith,
  ◌==◌, Bool-cases, Option-cases,
}
use webhook_delivery_system.Domain.{Subscription, ok}
use webhook_delivery_system.Store.Sql.{
  update_missed, Db, Trip, update_where, delete_where, affected, query_row, sub_by_id,
}
use webhook_delivery_system.Store.Lifecycle.{
  mark_success_tx, finalize_failure_tx, pending_by_id, has_failures, bump,
}
use webhook_delivery_system.Store.Subscriptions.{create_tx, change_sub, delete_tx}
use webhook_delivery_system.Cache.Coherence.{Elsewhere}

-- The primary key of the subscriptions.
abbrev pub IsKeyed : Db → Type 0
IsKeyed db = (j : ℕ) → affected (sub_by_id j) db.subs ≤ 1

-- What every transaction below leaves: keyed rows, and other subscriptions as they were.
pub record IsLocal (id : ℕ) (db db' : Db) : Type 0 where
  pub keyed : IsKeyed db'
  pub elsewhere : Elsewhere id db db'

abbrev pub KeepsId : (Subscription → Subscription) → Type 0
KeepsId f = (s : Subscription) → (f s).id ≡ s.id

module _ (p : Subscription → Bool) (f : Subscription → Subscription) (keeps : KeepsId f) where
  update_keyed :
      (j : ℕ) (xs : List Subscription)
      → affected (sub_by_id j) (update_where p f xs) ≡ affected (sub_by_id j) xs
  update_keyed j [] = refl
  update_keyed j (x ∷ xs) = ground (arith, keeps x, update_keyed j xs)

  update_elsewhere :
      (id j : ℕ) (xs : List Subscription)
      → ((s : Subscription) → p s ≡ true → s.id ≡ id)
      → j ≢ id
      → query_row (sub_by_id j) (update_where p f xs) ≡ query_row (sub_by_id j) xs
  update_elsewhere id j [] only n = refl
  update_elsewhere id j (x ∷ xs) only n =
      let rest = update_elsewhere id j xs only n in ground (arith, keeps x, only x, rest)

delete_keyed :
    (id j : ℕ) (xs : List Subscription)
    → affected (sub_by_id j) (delete_where (sub_by_id id) xs) ≤ affected (sub_by_id j) xs
delete_keyed id j [] = omega arith
delete_keyed id j (x ∷ xs) = ground (arith, delete_keyed id j xs)

delete_elsewhere :
    (id j : ℕ) (xs : List Subscription)
    → j ≢ id
    → query_row (sub_by_id j) (delete_where (sub_by_id id) xs) ≡ query_row (sub_by_id j) xs
delete_elsewhere id j [] n = refl
delete_elsewhere id j (x ∷ xs) n = let rest = delete_elsewhere id j xs n in ground (arith, rest)

affected_absent :
    (j : ℕ) (xs : List Subscription)
    → query_row (sub_by_id j) xs ≡ none
    → affected (sub_by_id j) xs ≡ 0
affected_absent j [] h = refl
affected_absent j (x ∷ xs) h = ground (arith, affected_absent j xs)

failures_mono :
    (id : ℕ) (xs : List Subscription) → affected (has_failures id) xs ≤ affected (sub_by_id id) xs
failures_mono id [] = omega arith
failures_mono id (x ∷ xs) = ground (arith, failures_mono id xs)

pub here-IsLocal : (id : ℕ) (db : Db) → IsKeyed db → IsLocal id db db
here-IsLocal id db k = record { keyed = k; elsewhere = λ j n. refl }

-- An UPDATE of the subscriptions, whatever happens to the other tables.
updated-IsLocal :
    (id : ℕ) (p : Subscription → Bool) (f : Subscription → Subscription) (db db' : Db)
    → KeepsId f
    → ((s : Subscription) → p s ≡ true → s.id ≡ id)
    → db'.subs ≡ update_where p f db.subs
    → IsKeyed db
    → IsLocal id db db'
updated-IsLocal id p f db db' keeps only e k = record {
  keyed = λ j. let same = update_keyed p f keeps j db.subs in rw e (omega (arith, k j, same));
  elsewhere = λ j n. rw e (update_elsewhere p f keeps id j db.subs only n);
}

module _ (t : Trip) (db : Db) (k : IsKeyed db) where
  pub create-IsLocal : (sub : Subscription) → IsLocal t.uuid db (create_tx t sub db).1
  unfolding create_tx
  create-IsLocal sub = elim (Option-cases (query_row (sub_by_id t.uuid) db.subs)) [
    | inl absent ↦
        let free = affected_absent t.uuid db.subs absent in
        rw (absent, create_tx)
          (record { keyed = λ j. ground (arith, k j, free); elsewhere = λ j n. ground arith })
    | inr (s, found) ↦ rw (found, create_tx) (here-IsLocal t.uuid db k)
  ]

  pub change-IsLocal :
      (id : ℕ) (f : Subscription → Subscription) → KeepsId f → IsLocal id db (change_sub id f db).1
  unfolding change_sub
  change-IsLocal id f keeps = elim (Option-cases (query_row (sub_by_id id) db.subs)) [
    | inl absent ↦ rw (absent, change_sub) (here-IsLocal id db k)
    | inr (s, found) ↦
        rw (found, change_sub)
          (updated-IsLocal id (sub_by_id id) f db _ keeps (λ r h. ground arith) refl k)
  ]

  pub delete-IsLocal : (id : ℕ) → IsLocal id db (delete_tx id db).1
  unfolding delete_tx
  delete-IsLocal id = elim (Bool-cases (affected (sub_by_id id) db.subs == 0)) [
    | inl none_there ↦ rw none_there (here-IsLocal id db k)
    | inr there ↦ rw there (record {
      keyed = λ j. let fewer = delete_keyed id j db.subs in omega (arith, k j, fewer);
      elsewhere = λ j n. delete_elsewhere id j db.subs n;
    })
  ]

  pub success-IsLocal : (id sub http : ℕ) → IsLocal sub db (mark_success_tx t id sub http db).1
  unfolding mark_success_tx
  success-IsLocal id sub http = elim (Bool-cases (affected (pending_by_id id) db.logs == 0)) [
    | inl missed ↦ rw missed (here-IsLocal sub db k)
    | inr hit ↦
        rw hit
          (updated-IsLocal sub (has_failures sub) _ db _ (λ s. refl) (λ r h. ground arith) refl k)
  ]

  pub failure-IsLocal :
      (id sub : ℕ) (http : Option ℕ) (details : Text) (threshold : ℕ)
      → IsLocal sub db (finalize_failure_tx t id sub http details threshold db).1
  unfolding finalize_failure_tx
  failure-IsLocal id sub http details threshold =
      elim (Bool-cases (affected (pending_by_id id) db.logs == 0)) [
        | inl missed ↦ rw missed (here-IsLocal sub db k)
        | inr hit ↦ rw hit (
            updated-IsLocal sub (sub_by_id sub) (bump t threshold) db _ (λ s. refl)
              (λ r h. ground arith) refl k)
      ]

  -- A success that reports no change of the subscription made none.
  pub success_unchanged :
      (id sub http : ℕ) (won : Bool)
      → (mark_success_tx t id sub http db).0 ≡ ok (won, false)
      → (mark_success_tx t id sub http db).1.subs ≡ db.subs
  unfolding mark_success_tx
  success_unchanged id sub http won = elim (Bool-cases (affected (pending_by_id id) db.logs == 0)) [
    | inl missed ↦ rw missed (λ h. refl)
    | inr hit ↦ rw hit (λ h.
        let few = failures_mono sub db.subs in
        let one = k sub in update_missed (has_failures sub) _ db.subs (ground (arith, few, one)))
  ]

  pub failure_unchanged :
      (id sub : ℕ) (http : Option ℕ) (details : Text) (threshold : ℕ) (disabled : Bool)
      → (finalize_failure_tx t id sub http details threshold db).0 ≡ ok (false, disabled)
      → (finalize_failure_tx t id sub http details threshold db).1.subs ≡ db.subs
  unfolding finalize_failure_tx
  failure_unchanged id sub http details threshold disabled =
      elim (Bool-cases (affected (pending_by_id id) db.logs == 0)) [
        | inl missed ↦ rw missed (λ h. refl)
        | inr hit ↦ rw hit (λ h. absurd (cc))
      ]
