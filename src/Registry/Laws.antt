-- ===== src/Registry/Laws.antt =====
-- What `Get`, `Remove` and `Sweep` do to each key.
use native.Mathlib.Nat.{le_refl}
use webhook_delivery_system.Prelude.{
  ℕ, ◌+◌, ◌≤◌, ◌≡◌, ◌≢◌, refl, Option, none, some, List, [], ◌∷◌, arith, if◌then◌else◌, length, inl,
  inr, Bool-cases,
}
use webhook_delivery_system.Registry.{
  Key, Slot, Registry, lookup, store, delete, get, remove, is_idle, sweep_items, sweep,
}

-- What a sweep at `now` leaves of an entry.
abbrev pub live : {V : Type 0} → ℕ → ℕ → Option (Slot V) → Option (Slot V)
live now ttl none = none
live now ttl (some s) = if is_idle now ttl s then none else some s

module _ {K V : Type 0} ⦃key : Key K⦄ where
  pub lookup-store :
      (k j : K) (s : Slot V) (m : List (K × Slot V))
      → lookup j (store k s m) ≡ (if key.same k j then some s else lookup j m)
  lookup-store k j s [] = refl
  lookup-store k j s ((i, t) ∷ m) =
      ground (arith, key.same_iff i k, key.same_iff i j, key.same_iff k j, lookup-store k j s m)

  pub lookup-delete :
      (k j : K) (m : List (K × Slot V))
      → lookup j (delete k m) ≡ (if key.same k j then none else lookup j m)
  lookup-delete k j [] = ground arith
  lookup-delete k j ((i, t) ∷ m) =
      ground (arith, key.same_iff i k, key.same_iff i j, key.same_iff k j, lookup-delete k j m)

  -- No key is listed twice.
  abbrev pub Distinct : List (K × Slot V) → Type 0
  Distinct [] = Unit {0}
  Distinct ((k, s) ∷ m) = (lookup k m ≡ none) × Distinct m

  lookup-sweep_items :
      (now ttl : ℕ) (k : K) (m : List (K × Slot V))
      → Distinct m
      → lookup k (sweep_items now ttl m).0 ≡ live now ttl (lookup k m)
  unfolding sweep_items
  lookup-sweep_items now ttl k [] d = refl
  lookup-sweep_items now ttl k ((i, t) ∷ m) d =
      ground (arith, key.same_iff i k, lookup-sweep_items now ttl k m d.1)

  sweep_items-length :
      (now ttl : ℕ) (m : List (K × Slot V))
      → length (sweep_items now ttl m).0 + (sweep_items now ttl m).1 ≡ length m
  unfolding sweep_items
  sweep_items-length now ttl [] = omega arith
  sweep_items-length now ttl ((i, t) ∷ m) = ground (arith, sweep_items-length now ttl m)

  store-Distinct :
      (k : K) (s : Slot V) (m : List (K × Slot V)) → Distinct m → Distinct (store k s m)
  store-Distinct k s [] d = (refl, tt)
  store-Distinct k s ((i, t) ∷ m) d =
      ground
        (arith, key.same_iff k i, key.same_iff i k, store-Distinct k s m d.1, lookup-store k i s m)

  sweep_items-Distinct :
      (now ttl : ℕ) (m : List (K × Slot V)) → Distinct m → Distinct (sweep_items now ttl m).0
  unfolding sweep_items
  sweep_items-Distinct now ttl [] d = tt
  sweep_items-Distinct now ttl ((i, t) ∷ m) d =
      ground (arith, sweep_items-Distinct now ttl m d.1, lookup-sweep_items now ttl i m d.1)

  delete-Distinct : (k : K) (m : List (K × Slot V)) → Distinct m → Distinct (delete k m)
  delete-Distinct k [] d = tt
  delete-Distinct k ((i, t) ∷ m) d = ground (arith, delete-Distinct k m d.1, lookup-delete k i m)

  -- In a registry that lists no key twice, a sweep removes the entry of every key that has been
  -- idle for longer than the TTL and of no other, the number it returns is the number of entries
  -- removed, and again no key is listed twice.
  pub sweep_exact :
      (now : ℕ) (r : Registry K V)
      → Distinct r.items
      → let (r', n) = sweep now r in
        ((k : K) → lookup k r'.items ≡ live now r.idle_ttl (lookup k r.items))
        × (length r'.items + n ≡ length r.items)
        × Distinct r'.items
  unfolding sweep
  sweep_exact now r d = (
    (λ k. lookup-sweep_items now r.idle_ttl k r.items d),
    sweep_items-length now r.idle_ttl r.items,
    sweep_items-Distinct now r.idle_ttl r.items d,
  )

-- The calls that other goroutines make of a registry.
pub data Call (K : Type 0) : Type 0 where
  gets : ℕ → K → Call K
  removes : K → Call K
  sweeps : ℕ → Call K

module _ {K V : Type 0} ⦃key : Key K⦄ where
  pub after : Registry K V → List (Call K) → Registry K V
  after r [] = r
  after r (gets now k ∷ calls) = after (get now k r).0 calls
  after r (removes k ∷ calls) = after (remove k r) calls
  after r (sweeps now ∷ calls) = after (sweep now r).0 calls

-- Calls made no earlier than `since`, that neither remove `k` nor sweep after its TTL.
abbrev pub Harmless : {K : Type 0} → K → ℕ → ℕ → List (Call K) → Type 0
Harmless k since ttl [] = Unit {0}
Harmless k since ttl (gets now j ∷ calls) = (since ≤ now) × Harmless k since ttl calls
Harmless k since ttl (removes j ∷ calls) = (j ≢ k) × Harmless k since ttl calls
Harmless k since ttl (sweeps now ∷ calls) = (now ≤ since + ttl) × Harmless k since ttl calls

module _ {V : Type 0} (v : V) (since : ℕ) where
  -- An entry with the value `v`, used no earlier than `since`.
  abbrev Holding : Option (Slot V) → Type 0
  Holding none = ⊥
  Holding (some s) = (s.val ≡ v) × (since ≤ s.last_used)

  live-Holding :
      (now ttl : ℕ) (o : Option (Slot V)) → now ≤ since + ttl → Holding o → Holding (live now ttl o)
  live-Holding now ttl none h o = o
  live-Holding now ttl (some s) h o = ground arith

module _ {K V : Type 0} ⦃key : Key K⦄ (k : K) (v : V) (since : ℕ) where
  record Keeps (r : Registry K V) : Type 0 where
    distinct : Distinct r.items
    found : Holding v since (lookup k r.items)

  get-Keeps : (now : ℕ) (j : K) (r : Registry K V) → since ≤ now → Keeps r → Keeps (get now j r).0
  unfolding get
  get-Keeps now j r h s = record {
    distinct = store-Distinct j _ r.items s.distinct;
    found = rw (lookup-store j k _ r.items) (elim (Bool-cases (key.same j k)) [
      | inl hit ↦ ground (arith, key.same_iff j k)
      | inr miss ↦ rw miss s.found
    ]);
  }

  remove-Keeps : (j : K) (r : Registry K V) → j ≢ k → Keeps r → Keeps (remove j r)
  unfolding remove
  remove-Keeps j r h s = record {
    distinct = delete-Distinct j r.items s.distinct;
    found = rw (lookup-delete j k r.items) (elim (Bool-cases (key.same j k)) [
      | inl hit ↦ absurd (h ((key.same_iff j k).0 hit))
      | inr miss ↦ rw miss s.found
    ]);
  }

  sweep-Keeps :
      (now : ℕ) (r : Registry K V) → now ≤ since + r.idle_ttl → Keeps r → Keeps (sweep now r).0
  unfolding sweep
  sweep-Keeps now r h s = record {
    distinct = sweep_items-Distinct now r.idle_ttl r.items s.distinct;
    found =
        rw (lookup-sweep_items now r.idle_ttl k r.items s.distinct)
          (live-Holding v since now r.idle_ttl (lookup k r.items) h s.found);
  }

  after-Keeps :
      (r : Registry K V) (calls : List (Call K))
      → Harmless k since r.idle_ttl calls
      → Keeps r
      → Keeps (after r calls)
  unfolding after
  after-Keeps r [] h s = s
  after-Keeps r (gets now j ∷ calls) h s =
      after-Keeps (get now j r).0 calls (unfold get in h.1) (get-Keeps now j r h.0 s)
  after-Keeps r (removes j ∷ calls) h s =
      after-Keeps (remove j r) calls (unfold remove in h.1) (remove-Keeps j r h.0 s)
  after-Keeps r (sweeps now ∷ calls) h s =
      after-Keeps (sweep now r).0 calls (unfold sweep in h.1) (sweep-Keeps now r h.0 s)

module _ {K V : Type 0} ⦃key : Key K⦄ where
  got :
      (now : ℕ) (k : K) (r : Registry K V)
      → Distinct r.items
      → Keeps k (get now k r).1 now (get now k r).0
  unfolding get
  got now k r d = record {
    distinct = store-Distinct k _ r.items d;
    found = rw (lookup-store k k _ r.items, (key.same_iff k k).1 refl) (refl, le_refl now);
  }

  kept :
      (k : K) (v : V) (since later : ℕ) (r : Registry K V)
      → Holding v since (lookup k r.items)
      → (get later k r).1 ≡ v
  unfolding get
  kept k v since later r h = ground arith

  -- A caller that gets a key from a registry that lists no key twice, and gets it again after any
  -- calls by others that get any keys no earlier, remove other keys, and sweep no later than the
  -- TTL after the first call, receives the same value both times.
  pub get_stable :
      (now later : ℕ) (k : K) (r : Registry K V) (calls : List (Call K))
      → Distinct r.items
      → Harmless k now r.idle_ttl calls
      → (get later k (after (get now k r).0 calls)).1 ≡ (get now k r).1
  get_stable now later k r calls d h =
      kept k (get now k r).1 now later (after (get now k r).0 calls)
        (after-Keeps k (get now k r).1 now (get now k r).0 calls (unfold get in h)
          (got now k r d)).found
