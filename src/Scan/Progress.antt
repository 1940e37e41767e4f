-- ===== src/Scan/Progress.antt =====
-- The progress of the recovery pass of internal/worker/retry.go: a page that is not empty leaves fewer rows
-- past the cursor.
use webhook_delivery_system.Prelude.{
  ℕ, zero, suc, ◌≤◌, ◌<◌, ◌≡◌, ◌⊎◌, inl, inr, refl, sym, subst, Bool, true, false, ◌&&◌, Option,
  none, some, List, [], ◌∷◌, arith, length, select, Bool-cases,
}
use webhook_delivery_system.Domain.{DeliveryLog, RecoveryCursor}
use webhook_delivery_system.Store.Sql.{affected}
use webhook_delivery_system.Store.Recovery.{
  due_before, past_cursor, due_item, insert_sorted, order_by,
}
use webhook_delivery_system.Scan.{last_cursor, cursor_after}
use webhook_delivery_system.Scan.Pages.{In, page}

module _ (before : DeliveryLog → DeliveryLog → Bool) where
  of_insert_sorted :
      (s x : DeliveryLog) (ys : List DeliveryLog)
      → In s (insert_sorted before x ys)
      → (s ≡ x) ⊎ In s ys
  unfolding insert_sorted
  of_insert_sorted s x [] = λ h. h
  of_insert_sorted s x (y ∷ ys) = elim (Bool-cases (before x y)) [
    | inl first ↦ rw first (λ h. h)
    | inr after ↦ rw after (λ h. elim h [
      | inl first ↦ inr (inl first)
      | inr later ↦ elim (of_insert_sorted s x ys later) [
        | inl same ↦ inl same
        | inr rest ↦ inr (inr rest)
      ]
    ])
  ]

  pub of_order_by : (s : DeliveryLog) (xs : List DeliveryLog) → In s (order_by before xs) → In s xs
  unfolding order_by
  of_order_by s [] h = h
  of_order_by s (x ∷ xs) h = elim (of_insert_sorted s x (order_by before xs) h) [
    | inl same ↦ inl same
    | inr later ↦ inr (of_order_by s xs later)
  ]

pub of_select :
    (p : DeliveryLog → Bool) (s : DeliveryLog) (xs : List DeliveryLog)
    → In s (select p xs)
    → In s xs × (p s ≡ true)
of_select p s [] = λ h. absurd h
of_select p s (x ∷ xs) = elim (Bool-cases (p x)) [
  | inl kept ↦ rw kept (λ h. elim h [
    | inl same ↦ (inl same, subst (λ y. p y ≡ true) (sym same) kept)
    | inr later ↦ let (found, passes) = of_select p s xs later in (inr found, passes)
  ])
  | inr skipped ↦ rw skipped (λ h. let (found, passes) = of_select p s xs h in (inr found, passes))
]

last_row :
    (k : ℕ) (x : DeliveryLog) (xs : List DeliveryLog)
    → (s : DeliveryLog) × In s (x ∷ xs) × (last_cursor (due_item x) (page k xs) ≡ due_item s)
unfolding last_cursor
last_row zero x xs = (x, inl refl, refl)
last_row (suc k) x [] = (x, inl refl, refl)
last_row (suc k) x (y ∷ ys) = let (s, found, e) = last_row k y ys in (s, inr found, e)

affected_le :
    (p q : DeliveryLog → Bool) (xs : List DeliveryLog)
    → ((r : DeliveryLog) → q r ≡ true → p r ≡ true)
    → affected q xs ≤ affected p xs
affected_le p q [] h = omega arith
affected_le p q (x ∷ xs) h = ground (arith, affected_le p q xs h, h x)

affected_lt :
    (p q : DeliveryLog → Bool) (s : DeliveryLog) (xs : List DeliveryLog)
    → In s xs
    → p s ≡ true
    → q s ≡ false
    → ((r : DeliveryLog) → q r ≡ true → p r ≡ true)
    → affected q xs < affected p xs
affected_lt p q s [] found hp hq h = absurd found
affected_lt p q s (x ∷ xs) (inl same) hp hq h =
    let px = subst (λ y. p y ≡ true) same hp in
    let qx = subst (λ y. q y ≡ false) same hq in rw px (rw qx (omega (arith, affected_le p q xs h)))
affected_lt p q s (x ∷ xs) (inr later) hp hq h =
    ground (arith, affected_lt p q s xs later hp hq h, h x)

past_mono :
    (after : Option RecoveryCursor) (s r : DeliveryLog)
    → past_cursor after s ≡ true
    → past_cursor (some (due_item s)) r ≡ true
    → past_cursor after r ≡ true
past_mono none s r h k = refl
past_mono (some c) s r h k = ground arith

-- The rows past a cursor.
abbrev pub remaining : Option RecoveryCursor → List DeliveryLog → ℕ
remaining after logs = affected (past_cursor after) logs

-- A page of rows past the cursor, if it has any, leaves fewer rows past the next cursor.
pub page_advances :
    (k : ℕ) (rows logs : List DeliveryLog) (after : Option RecoveryCursor)
    → ((s : DeliveryLog) → In s rows → In s logs × (past_cursor after s ≡ true))
    → 1 ≤ length (page (suc k) rows)
    → remaining (cursor_after (page (suc k) rows) after) logs < remaining after logs
unfolding cursor_after
page_advances k [] logs after h n = absurd (omega arith)
page_advances k (x ∷ xs) logs after h n =
    let (s, found, e) = last_row k x xs in
    let (stored, past) = h s found in
    rw e (
      affected_lt (past_cursor after) (past_cursor (some (due_item s))) s logs stored past
        (ground arith) (λ r. past_mono after s r past))

-- The rows of a page are rows of the table, past the cursor.
pub page_rows :
    (due : DeliveryLog → Bool) (after : Option RecoveryCursor) (logs : List DeliveryLog)
    (s : DeliveryLog)
    → In s (order_by due_before (select (λ r. due r && past_cursor after r) logs))
    → In s logs × (past_cursor after s ≡ true)
page_rows due after logs s h =
    let (found, passes) =
      of_select (λ r. due r && past_cursor after r) s logs
        (of_order_by due_before s (select (λ r. due r && past_cursor after r) logs) h) in
    (found, ground (arith, passes))
