-- ===== src/Store/Extend.antt =====
-- A new row after the live row of a webhook: the successor of a retry, or the first row of a replay.
use webhook_delivery_system.Prelude.{
  ℕ, ◌≡◌, ◌≢◌, ◌⊎◌, inl, inr, Bool, true, false, none, some, List, [], ◌∷◌, arith, All, All-mono,
  if◌then◌else◌, ==_iff, Bool-cases, Option-cases, subst,
}
use webhook_delivery_system.Domain.{DeliveryLog, Error, infrastructure}
use webhook_delivery_system.Store.Sql.{
  Db, update_where, query_row, log_by_id, sub_by_id, insert_log,
}
use webhook_delivery_system.Store.Lifecycle.{insert_copy}
use webhook_delivery_system.Store.Chains.{
  is_live, earlier, Apart, Pairwise, Sound, IsChained, Ages, All-query,
}

-- `p` itself, or a row with another id that, in the same webhook, is not live and is earlier.
abbrev pub Alone : DeliveryLog → DeliveryLog → Type 0
Alone p r =
    (r ≡ p)
    ⊎ ((r.id ≢ p.id) × (r.webhook_id ≡ p.webhook_id → (is_live r ≡ false) × (earlier r p ≡ true)))

right_Alone : (p r : DeliveryLog) → is_live p ≡ true → Apart p r → Alone p r
right_Alone p r l a =
    inr ((λ e. a.ids (ground arith)), (λ e. ground (arith, a.left_live, a.right_live)))

left_Alone : (p r : DeliveryLog) → is_live p ≡ true → Apart r p → Alone p r
left_Alone p r l a =
    inr ((λ e. a.ids (ground arith)), (λ e. ground (arith, a.left_live, a.right_live)))

All-right_Alone :
    (p : DeliveryLog) (rs : List DeliveryLog)
    → is_live p ≡ true
    → All (Apart p) rs
    → All (Alone p) rs
All-right_Alone p [] l h = tt
All-right_Alone p (r ∷ rs) l h = (right_Alone p r l h.0, All-right_Alone p rs l h.1)

-- The live row that a query finds is alone.
pub query-Alone :
    (q : DeliveryLog → Bool) (rs : List DeliveryLog) (p : DeliveryLog)
    → Pairwise rs
    → query_row q rs ≡ some p
    → is_live p ≡ true
    → All (Alone p) rs
query-Alone q [] p h e l = cc
query-Alone q (r ∷ rs) p h e l = elim (Bool-cases (q r)) [
  | inl hit ↦
      let same : r ≡ p = ground arith in
      (inl same, All-right_Alone p rs l (subst (λ x. All (Apart x) rs) same h.0))
  | inr miss ↦
      let found : query_row q rs ≡ some p = ground arith in
      (left_Alone p r l (All-query (Apart r) q rs p h.0 found).0, query-Alone q rs p h.1 found l)
]

-- After the update the webhook of `p` has no live row and nothing later than `p`.
pub record Quiet (p r : DeliveryLog) : Type 0 where
  pub same_chain :
      r.id ≡ p.id
      → (r.webhook_id ≡ p.webhook_id)
        × (r.replay_number ≡ p.replay_number)
        × (r.attempt_number ≡ p.attempt_number)
  pub none_live : r.webhook_id ≡ p.webhook_id → is_live r ≡ false
  pub none_later : r.webhook_id ≡ p.webhook_id → earlier p r ≡ false

module _ (q : DeliveryLog → Bool) (f : DeliveryLog → DeliveryLog) (p : DeliveryLog) where
  module _ (ages : (r : DeliveryLog) → q r ≡ true → Ages r (f r)) (hit : q p ≡ true)
      (dead : is_live (f p) ≡ false) where
    self-Quiet : Quiet p (f p)
    self-Quiet = let a = ages p hit in ground arith

    other-Quiet :
        (r : DeliveryLog)
        → r.id ≢ p.id
        → (r.webhook_id ≡ p.webhook_id → (is_live r ≡ false) × (earlier r p ≡ true))
        → Quiet p (if q r then f r else r)
    other-Quiet r n o = elim (Bool-cases (q r)) [
      | inl here ↦ let a = ages r here in rw here (ground arith)
      | inr miss ↦ rw miss (ground arith)
    ]

    pub update-Quiet :
        (rs : List DeliveryLog) → All (Alone p) rs → All (Quiet p) (update_where q f rs)
    update-Quiet [] h = tt
    update-Quiet (r ∷ rs) (inl e, h) = (rw e (rw hit self-Quiet), update-Quiet rs h)
    update-Quiet (r ∷ rs) (inr (n, o), h) = (other-Quiet r n o, update-Quiet rs h)

-- The place of a row that starts after `p`.
pub record Follows (p n : DeliveryLog) : Type 0 where
  pub webhook : n.webhook_id ≡ p.webhook_id
  pub later : earlier p n ≡ true
  pub sound : Sound n

All-fresh :
    (id : ℕ) (rs : List DeliveryLog) → query_row (log_by_id id) rs ≡ none → All (λ r. r.id ≢ id) rs
All-fresh id [] e = tt
All-fresh id (r ∷ rs) e = (ground arith, All-fresh id rs (ground arith))

-- A row of another id leaves room for `n`.
abbrev Room : DeliveryLog → DeliveryLog → Type 0
Room n r = r.id ≢ n.id → Apart n r

All-Room :
    (n : DeliveryLog) (rs : List DeliveryLog)
    → All (Room n) rs
    → All (λ r. r.id ≢ n.id) rs
    → All (Apart n) rs
All-Room n [] m h = tt
All-Room n (r ∷ rs) m h = (m.0 h.0, All-Room n rs m.1 h.1)

insert_log-IsChained :
    (missing : Error) (n : DeliveryLog) (db : Db)
    → IsChained db.logs
    → All (Room n) db.logs
    → Sound n
    → IsChained (insert_log missing n db).1.logs
insert_log-IsChained missing n db h room sound =
    elim (Option-cases (query_row (sub_by_id n.subscription_id) db.subs)) [
      | inl absent ↦ unfold insert_log in rw (absent, insert_log) h
      | inr (s, found) ↦ elim (Option-cases (query_row (log_by_id n.id) db.logs)) [
        | inr (r, taken) ↦ unfold insert_log in rw (found, insert_log) (rw (taken, insert_log) h)
        | inl free ↦
            unfold insert_log in
            rw (found, insert_log)
              (rw (free, insert_log)
                (record {
                  pairwise = (All-Room n db.logs room (All-fresh n.id db.logs free), h.pairwise);
                  sound = (sound, h.sound);
                }))
      ]
    ]

Follows-Room : (p n r : DeliveryLog) → Follows p n → Quiet p r → Room n r
Follows-Room p n r f q fresh = ground (arith, q.none_live, q.none_later)

first_Room : (n r : DeliveryLog) → r.webhook_id ≢ n.webhook_id → Room n r
first_Room n r m fresh = ground arith

-- INSERT … SELECT of the row with the id of `p`, into a place after `p`.
pub insert_copy-IsChained :
    (copy : DeliveryLog → DeliveryLog) (p : DeliveryLog) (db : Db)
    → IsChained db.logs
    → All (Quiet p) db.logs
    → ((r : DeliveryLog)
        → r.webhook_id ≡ p.webhook_id
        → r.replay_number ≡ p.replay_number
        → r.attempt_number ≡ p.attempt_number
        → Follows p (copy r))
    → IsChained (insert_copy p.id copy db).1.logs
insert_copy-IsChained copy p db h q next =
    elim (Option-cases (query_row (log_by_id p.id) db.logs)) [
      | inl absent ↦ unfold insert_copy in rw (absent, insert_copy) h
      | inr (r, found) ↦
          let (quiet, same) = All-query (Quiet p) (log_by_id p.id) db.logs r q found in
          let chain = quiet.same_chain ((==_iff r.id p.id).0 same) in
          let f = next r chain.0 chain.1 chain.2 in
          unfold insert_copy in
          rw (found, insert_copy)
            (insert_log-IsChained infrastructure (copy r) db h
              (All-mono (Quiet p) (Room (copy r)) (λ s. Follows-Room p (copy r) s f) db.logs q)
              f.sound)
    ]

-- The first row of a webhook that no row belongs to yet.
pub insert_first-IsChained :
    (missing : Error) (n : DeliveryLog) (db : Db)
    → IsChained db.logs
    → All (λ r. r.webhook_id ≢ n.webhook_id) db.logs
    → Sound n
    → IsChained (insert_log missing n db).1.logs
insert_first-IsChained missing n db h w sound =
    insert_log-IsChained missing n db h
      (All-mono (λ r. r.webhook_id ≢ n.webhook_id) (Room n) (λ r m. first_Room n r m) db.logs w)
      sound
