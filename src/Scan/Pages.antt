-- ===== src/Scan/Pages.antt =====
-- The pages of `FindDuePending`, internal/store/delivery_lifecycle.go: their order, and what the cursor
-- leaves for the next.
use webhook_delivery_system.Prelude.{
  ℕ, zero, suc, ◌≡◌, ◌⊎◌, inl, inr, sym, subst, Bool, true, false, Option, some, List, [], ◌∷◌,
  arith, take, select, map, Bool-cases, All,
}
use webhook_delivery_system.Domain.{DeliveryLog, RecoveryCursor}
use webhook_delivery_system.Store.Recovery.{
  due_at, lex_before, due_before, past_cursor, due_item, insert_sorted, order_by, has_id,
}
use webhook_delivery_system.Scan.{ids_of, last_cursor, cursor_after}

abbrev pub In : DeliveryLog → List DeliveryLog → Type 0
In r [] = ⊥
In r (x ∷ xs) = (r ≡ x) ⊎ In r xs

-- No row of the list stands before the row.
abbrev pub AtMost : DeliveryLog → List DeliveryLog → Type 0
AtMost x ys = All (λ y. due_before y x ≡ false) ys

abbrev pub Sorted : List DeliveryLog → Type 0
Sorted [] = Unit {0}
Sorted (x ∷ xs) = AtMost x xs × Sorted xs

at_most_trans :
    (x y z : DeliveryLog) → due_before y x ≡ false → due_before z y ≡ false → due_before z x ≡ false
at_most_trans x y z h k = ground arith

at_most_asym : (x y : DeliveryLog) → due_before x y ≡ true → due_before y x ≡ false
at_most_asym x y h = ground arith

AtMost-trans :
    (x y : DeliveryLog) (zs : List DeliveryLog) → due_before y x ≡ false → AtMost y zs → AtMost x zs
AtMost-trans x y [] h k = tt
AtMost-trans x y (z ∷ zs) h (k, ks) = (at_most_trans x y z h k, AtMost-trans x y zs h ks)

AtMost-insert_sorted :
    (x y : DeliveryLog) (ys : List DeliveryLog)
    → due_before x y ≡ false
    → AtMost y ys
    → AtMost y (insert_sorted due_before x ys)
unfolding insert_sorted
AtMost-insert_sorted x y [] h k = (h, tt)
AtMost-insert_sorted x y (z ∷ zs) h (k, ks) = elim (Bool-cases (due_before x z)) [
  | inl before ↦ rw before (h, (k, ks))
  | inr after ↦ rw after (k, AtMost-insert_sorted x y zs h ks)
]

insert_sorted-Sorted :
    (x : DeliveryLog) (ys : List DeliveryLog) → Sorted ys → Sorted (insert_sorted due_before x ys)
unfolding insert_sorted
insert_sorted-Sorted x [] s = (tt, tt)
insert_sorted-Sorted x (y ∷ ys) (k, s) = elim (Bool-cases (due_before x y)) [
  | inl before ↦ let h = at_most_asym x y before in rw before ((h, AtMost-trans x y ys h k), (k, s))
  | inr after ↦ rw after (AtMost-insert_sorted x y ys after k, insert_sorted-Sorted x ys s)
]

pub order_by-Sorted : (rows : List DeliveryLog) → Sorted (order_by due_before rows)
unfolding order_by
order_by-Sorted [] = tt
order_by-Sorted (x ∷ xs) = insert_sorted-Sorted x (order_by due_before xs) (order_by-Sorted xs)

In-insert_sorted :
    (r x : DeliveryLog) (ys : List DeliveryLog)
    → (r ≡ x) ⊎ In r ys
    → In r (insert_sorted due_before x ys)
unfolding insert_sorted
In-insert_sorted r x [] h = h
In-insert_sorted r x (y ∷ ys) h = elim (Bool-cases (due_before x y)) [
  | inl before ↦ rw before h
  | inr after ↦ rw after (elim h [
    | inl same ↦ inr (In-insert_sorted r x ys (inl same))
    | inr (inl first) ↦ inl first
    | inr (inr later) ↦ inr (In-insert_sorted r x ys (inr later))
  ])
]

pub In-order_by :
    (r : DeliveryLog) (xs : List DeliveryLog) → In r xs → In r (order_by due_before xs)
unfolding order_by
In-order_by r [] h = h
In-order_by r (x ∷ xs) (inl same) = In-insert_sorted r x (order_by due_before xs) (inl same)
In-order_by r (x ∷ xs) (inr later) =
    In-insert_sorted r x (order_by due_before xs) (inr (In-order_by r xs later))

pub In-select :
    (p : DeliveryLog → Bool) (r : DeliveryLog) (xs : List DeliveryLog)
    → p r ≡ true
    → In r xs
    → In r (select p xs)
In-select p r [] h k = k
In-select p r (x ∷ xs) h (inl same) = rw (subst (λ y. p y ≡ true) same h) (inl same)
In-select p r (x ∷ xs) h (inr later) = elim (Bool-cases (p x)) [
  | inl kept ↦ rw kept (inr (In-select p r xs h later))
  | inr skipped ↦ rw skipped (In-select p r xs h later)
]

abbrev pub page : ℕ → List DeliveryLog → List RecoveryCursor
page n rows = map due_item (take n rows)

AtMost-In :
    (x r : DeliveryLog) (ys : List DeliveryLog) → AtMost x ys → In r ys → due_before r x ≡ false
AtMost-In x r [] k h = absurd h
AtMost-In x r (y ∷ ys) (k, ks) (inl same) = subst (λ z. due_before z x ≡ false) (sym same) k
AtMost-In x r (y ∷ ys) (k, ks) (inr later) = AtMost-In x r ys ks later

-- No earlier than the cursor.
abbrev NotBefore : DeliveryLog → RecoveryCursor → Type 0
NotBefore r c = lex_before (due_at r.next_retry_at) r.id c.due_at c.id ≡ false

-- A row of a sorted list is on its first page, or no earlier than the page's last item.
on_page_or_later :
    (k : ℕ) (x : DeliveryLog) (xs : List DeliveryLog) (r : DeliveryLog)
    → Sorted (x ∷ xs)
    → In r (x ∷ xs)
    → (has_id (ids_of (page (suc k) (x ∷ xs))) r.id ≡ true)
      ⊎ NotBefore r (last_cursor (due_item x) (page k xs))
unfolding ids_of last_cursor
on_page_or_later k x xs r s (inl same) = inl (rw same (ground arith))
on_page_or_later zero x xs r (k, s) (inr later) = inr (AtMost-In x r xs k later)
on_page_or_later (suc k) x [] r s (inr later) = absurd later
on_page_or_later (suc k) x (y ∷ ys) r (_, s) (inr later) =
    elim (on_page_or_later k y ys r s later) [
      | inl listed ↦ inl (ground (arith, listed))
      | inr after ↦ inr after
    ]

last_listed :
    (i : RecoveryCursor) (items : List RecoveryCursor)
    → has_id (ids_of (i ∷ items)) (last_cursor i items).id ≡ true
unfolding ids_of last_cursor
last_listed i [] = ground arith
last_listed i (j ∷ items) = ground (arith, last_listed j items)

later_or_same :
    (r : DeliveryLog) (c : RecoveryCursor)
    → NotBefore r c
    → (past_cursor (some c) r ≡ true) ⊎ (r.id ≡ c.id)
later_or_same r c h = elim (Bool-cases (past_cursor (some c) r)) [
  | inl past ↦ inl past
  | inr not_past ↦ inr (ground arith)
]

-- A row of a sorted list is on its first page, or past the cursor that the page leaves.
pub page_covers :
    (k : ℕ) (rows : List DeliveryLog) (after : Option RecoveryCursor) (r : DeliveryLog)
    → Sorted rows
    → In r rows
    → (has_id (ids_of (page (suc k) rows)) r.id ≡ true)
      ⊎ (past_cursor (cursor_after (page (suc k) rows) after) r ≡ true)
unfolding cursor_after
page_covers k [] after r s h = absurd h
page_covers k (x ∷ xs) after r s h = elim (on_page_or_later k x xs r s h) [
  | inl listed ↦ inl listed
  | inr later ↦ elim (later_or_same r (last_cursor (due_item x) (page k xs)) later) [
    | inl past ↦ inr past
    | inr same ↦ inl (rw same (last_listed (due_item x) (page k xs)))
  ]
]
