-- ===== src/Registry.antt =====
-- internal/infra/registry/registry.go: a map of per-key resources with idle eviction. Each method
-- runs under the mutex, so it is one step; `r.now()` is the argument `now`.
pub mod Laws
mod Tests
use webhook_delivery_system.Prelude.{
  ℕ, suc, ◌+◌, Bool, true, false, Option, none, some, List, [], ◌∷◌, ◌≡◌, ◌↔◌, ltb, if◌then◌else◌,
}

-- Go's `==` on the type of the keys.
pub record Key (K : Type 0) : Type 0 where
  pub same : K → K → Bool
  pub same_iff : (a b : K) → (same a b ≡ true) ↔ (a ≡ b)

pub record Slot (V : Type 0) : Type 0 where
  pub val : V
  pub last_used : ℕ

pub record Registry (K V : Type 0) : Type 0 where
  pub items : List (K × Slot V)
  pub create : K → V
  pub idle_ttl : ℕ

module _ {K V : Type 0} ⦃key : Key K⦄ where
  abbrev pub lookup : K → List (K × Slot V) → Option (Slot V)
  lookup k [] = none
  lookup k ((j, s) ∷ m) = if key.same j k then some s else lookup k m

  abbrev pub store : K → Slot V → List (K × Slot V) → List (K × Slot V)
  store k s [] = (k, s) ∷ []
  store k s ((j, t) ∷ m) = if key.same j k then (j, s) ∷ m else (j, t) ∷ store k s m

  -- Go's `delete(m, k)`.
  abbrev pub delete : K → List (K × Slot V) → List (K × Slot V)
  delete k [] = []
  delete k ((j, s) ∷ m) = if key.same j k then delete k m else (j, s) ∷ delete k m

unfoldable pub new : {K V : Type 0} → (K → V) → ℕ → Registry K V
new create idle_ttl = record { items = []; create = create; idle_ttl = idle_ttl }

module _ {K V : Type 0} ⦃key : Key K⦄ where
  slot_for : Registry K V → K → Option (Slot V) → V
  slot_for r k none = r.create k
  slot_for r k (some s) = s.val

  unfoldable pub get : ℕ → K → Registry K V → Registry K V × V
  unfolding slot_for
  get now k r =
      let v = slot_for r k (lookup k r.items) in
      (record r { items = store k (record { val = v; last_used = now }) r.items }, v)

  unfoldable pub remove : K → Registry K V → Registry K V
  remove k r = record r { items = delete k r.items }

-- `s.lastUsed.Before(r.now().Add(-r.idleTTL))`
abbrev pub is_idle : {V : Type 0} → ℕ → ℕ → Slot V → Bool
is_idle now ttl s = ltb (s.last_used + ttl) now

module _ {K V : Type 0} where
  -- The entries that stay, and how many were deleted.
  sweep_items : ℕ → ℕ → List (K × Slot V) → List (K × Slot V) × ℕ
  sweep_items now ttl [] = ([], 0)
  sweep_items now ttl ((k, s) ∷ m) =
      let (kept, n) = sweep_items now ttl m in
      if is_idle now ttl s then (kept, suc n) else ((k, s) ∷ kept, n)

  unfoldable pub sweep : ℕ → Registry K V → Registry K V × ℕ
  unfolding sweep_items
  sweep now r = let (kept, n) = sweep_items now r.idle_ttl r.items in (record r { items = kept }, n)

  snapshot_items : List (K × Slot V) → List (K × V)
  snapshot_items [] = []
  snapshot_items ((k, s) ∷ m) = (k, s.val) ∷ snapshot_items m

  pub snapshot : Registry K V → List (K × V)
  unfolding snapshot_items
  snapshot r = snapshot_items r.items
