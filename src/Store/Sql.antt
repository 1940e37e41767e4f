-- ===== src/Store/Sql.antt =====
-- The tables, the SQL statements that the repositories use, and `inTx`.
use webhook_delivery_system.Prelude.{
  arith, ℕ, suc, ◌≡◌, ◌≢◌, ◌⊎◌, inl, inr, refl, ◌*◌, ◌/◌, Bool, Option, none, some, List, [], ◌∷◌,
  Text, if◌then◌else◌, ◌==◌, ltb,
}
use webhook_delivery_system.Domain.{
  DeliveryLog, Subscription, Error, infrastructure, Result, ok, err,
}

-- A row of `ingest_idempotency`.
pub record Idempotency : Type 0 where
  pub subscription_id : ℕ
  pub idempotency_key : Text
  pub webhook_id : ℕ
  pub created_at : ℕ

pub record Db : Type 0 where
  pub logs : List DeliveryLog
  pub subs : List Subscription
  pub idem : List Idempotency

-- What a round trip to the database comes to: it is done; it fails and nothing is applied; or it
-- is applied and the reply is lost, so that the caller sees a failure.
pub data Outcome : Type 0 where
  done refused lost : Outcome

-- A round trip: its outcome, the database clock, the UUID that an INSERT would generate, and what a JSONB
-- column keeps of a JSON text; a text that it refuses is a refused round trip.
pub record Trip : Type 0 where
  pub outcome : Outcome
  pub now : ℕ
  pub uuid : ℕ
  pub jsonb : Text → Text

pub finish : {A : Type 0} → Outcome → Db → Result A × Db → Result A × Db
finish refused before r = (err infrastructure, before)
finish done before (ok a, after) = (ok a, after)
finish done before (err e, after) = (err e, before)
finish lost before (ok a, after) = (err infrastructure, after)
finish lost before (err e, after) = (err e, before)

-- `inTx`: an error of `fn` rolls back and is passed on; a failure to begin or of a statement rolls
-- back; a failure to commit leaves open whether the transaction was applied.
unfoldable pub in_tx : {A : Type 0} → Trip → (Db → Result A × Db) → Db → Result A × Db
unfolding finish
in_tx t fn db = finish t.outcome db (fn db)

-- UPDATE … WHERE: the rows, and the number of rows affected.
abbrev pub update_where : {A : Type 0} → (A → Bool) → (A → A) → List A → List A
update_where p f [] = []
update_where p f (x ∷ xs) = (if p x then f x else x) ∷ update_where p f xs

abbrev pub affected : {A : Type 0} → (A → Bool) → List A → ℕ
affected p [] = 0
affected p (x ∷ xs) = if p x then suc (affected p xs) else affected p xs

-- DELETE … WHERE.
abbrev pub delete_where : {A : Type 0} → (A → Bool) → List A → List A
delete_where p [] = []
delete_where p (x ∷ xs) = if p x then delete_where p xs else x ∷ delete_where p xs

-- The first row of a SELECT, as `QueryRow` scans it.
abbrev pub query_row : {A : Type 0} → (A → Bool) → List A → Option A
query_row p [] = none
query_row p (x ∷ xs) = if p x then some x else query_row p xs

-- WHERE id = $1.
abbrev pub log_by_id : ℕ → DeliveryLog → Bool
log_by_id id r = r.id == id

abbrev pub sub_by_id : ℕ → Subscription → Bool
sub_by_id id s = s.id == id

abbrev pub second : ℕ
second = 1000000000

-- `secondsArg`, as the interval that PostgreSQL reads from it.
unfoldable pub seconds_arg : ℕ → ℕ
seconds_arg d = if ltb (d / second) 1 then second else d / second * second

-- INSERT INTO delivery_logs: a primary key that exists, or a subscription that does not, is a
-- violation.
unfoldable pub insert_log : Error → DeliveryLog → Db → Result ℕ × Db
insert_log missing row db = elim (query_row (sub_by_id row.subscription_id) db.subs) [
  | none ↦ (err missing, db)
  | some s ↦ elim (query_row (log_by_id row.id) db.logs) [
    | some r ↦ (err infrastructure, db)
    | none ↦ (ok row.id, record db { logs = row ∷ db.logs })
  ]
]

-- What holds before a transaction and after its statements holds after it, however it ends.
pub finish-keeps :
    {A : Type 0} (P : Db → Type 0) (o : Outcome) (db : Db) (r : Result A × Db)
    → P db
    → P r.1
    → P (finish o db r).1
unfolding finish
finish-keeps P refused db r h k = h
finish-keeps P done db (ok a, d) h k = k
finish-keeps P done db (err e, d) h k = h
finish-keeps P lost db (ok a, d) h k = k
finish-keeps P lost db (err e, d) h k = h

-- A transaction that reports an error changed nothing, unless its commit was lost.
pub finish_err :
    {A : Type 0} (o : Outcome) (db : Db) (r : Result A × Db) (e : Error)
    → o ≢ lost
    → (finish o db r).0 ≡ err e
    → (finish o db r).1 ≡ db
unfolding finish
finish_err refused db r e n h = refl
finish_err done db (ok a, d) e n h = cc
finish_err done db (err f, d) e n h = refl
finish_err lost db r e n h = absurd (n refl)

-- The result of a statement that inserts a row, from the id that it returns.
abbrev pub inserted : {A : Type 0} → (ℕ → Result A) → Result ℕ × Db → Result A × Db
inserted f (r, db) = elim r [ err e ↦ (err e, db) | ok id ↦ (f id, db) ]

-- What holds of a transaction's own result and of a failure holds of what the caller sees.
pub finish-result :
    {A : Type 0} (P : Result A → Type 0) (o : Outcome) (db : Db) (r : Result A × Db)
    → P r.0
    → P (err infrastructure)
    → P (finish o db r).0
unfolding finish
finish-result P refused db r h k = k
finish-result P done db (ok a, d) h k = h
finish-result P done db (err e, d) h k = h
finish-result P lost db (ok a, d) h k = k
finish-result P lost db (err e, d) h k = h

-- A transaction that reports success was applied.
pub finish_ok :
    {A : Type 0} (o : Outcome) (db : Db) (r : Result A × Db) (a : A)
    → (finish o db r).0 ≡ ok a
    → finish o db r ≡ r
unfolding finish
finish_ok refused db r a h = absurd (cc)
finish_ok done db (ok b, d) a h = refl
finish_ok done db (err f, d) a h = absurd (cc)
finish_ok lost db (ok b, d) a h = absurd (cc)
finish_ok lost db (err f, d) a h = absurd (cc)

pub finish_done :
    {A : Type 0} (o : Outcome) (db d : Db) (a : A) → o ≡ done → finish o db (ok a, d) ≡ (ok a, d)
unfolding finish
finish_done done db d a h = refl
finish_done refused db d a h = absurd (cc)
finish_done lost db d a h = absurd (cc)

-- An UPDATE that affects no row changes none.
pub update_missed :
    {A : Type 0} (p : A → Bool) (f : A → A) (xs : List A)
    → affected p xs ≡ 0
    → update_where p f xs ≡ xs
update_missed p f [] h = refl
update_missed p f (x ∷ xs) h = ground (arith, update_missed p f xs)

-- A read that is done returns what is there; another reports a failure.
pub finish_read :
    {A : Type 0} (o : Outcome) (db : Db) (a : A)
    → ((finish o db (ok a, db)).0 ≡ ok a) ⊎ ((finish o db (ok a, db)).0 ≡ err infrastructure)
unfolding finish
finish_read done db a = inl refl
finish_read refused db a = inr refl
finish_read lost db a = inr refl
