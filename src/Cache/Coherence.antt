-- ===== src/Cache/Coherence.antt =====
-- internal/subscription/state.go: when a cache entry may differ from the stored subscription.
use webhook_delivery_system.Prelude.{
  ℕ, ◌+◌, ◌≤◌, ◌≡◌, ◌≢◌, ◌⊎◌, inl, inr, Option, none, some, arith, ◌==◌, Bool-cases,
}
use webhook_delivery_system.Domain.{Subscription}
use webhook_delivery_system.Store.Sql.{Db, Outcome, done, refused, lost, query_row, sub_by_id}
use webhook_delivery_system.Cache.{Entry, State, evict_locked}

abbrev pub stored : ℕ → Db → Option Subscription
stored id db = query_row (sub_by_id id) db.subs

-- An entry is unreadable, or what is stored, or gone by now, or gone when its dirty mark is.
abbrev pub Allowed : ℕ → Option Subscription → Entry → Option ℕ → Type 0
Allowed now truth e none = (e.value ≡ none) ⊎ ((e.value ≡ truth) ⊎ (e.expires ≤ now))
Allowed now truth e (some until) =
    (e.value ≡ none) ⊎ ((e.value ≡ truth) ⊎ ((e.expires ≤ now) ⊎ (e.expires ≤ until)))

abbrev pub Fresh : ℕ → ℕ → Option Subscription → Option Entry → Option ℕ → Type 0
Fresh now ttl truth none mark = Unit
Fresh now ttl truth (some e) mark = (e.expires ≤ now + ttl) × Allowed now truth e mark

-- Every entry is fresh at the time `now`.
abbrev pub IsCoherent : ℕ → State → Type 0
IsCoherent now s = (id : ℕ) → Fresh now s.ttl (stored id s.db) (s.cache id) (s.dirty id)

pub Fresh_mono :
    (now later ttl : ℕ) (truth : Option Subscription) (e : Option Entry) (mark : Option ℕ)
    → now ≤ later
    → Fresh now ttl truth e mark
    → Fresh later ttl truth e mark
Fresh_mono now later ttl truth none mark l h = tt
Fresh_mono now later ttl truth (some e) none l h = ground arith
Fresh_mono now later ttl truth (some e) (some u) l h = ground arith

-- A mark set now covers an entry that was fresh.
pub Fresh_marked :
    (now later ttl : ℕ) (truth other : Option Subscription) (e : Option Entry) (mark : Option ℕ)
    → now ≤ later
    → Fresh now ttl truth e mark
    → Fresh later ttl other e (some (later + ttl))
Fresh_marked now later ttl truth other none mark l h = tt
Fresh_marked now later ttl truth other (some e) mark l h = let short = h.0 in ground arith

-- Two databases that store the same subscriptions but for one.
abbrev pub Elsewhere : ℕ → Db → Db → Type 0
Elsewhere id db db' = (j : ℕ) → j ≢ id → stored j db' ≡ stored j db

module _ (now later : ℕ) (s : State) (l : now ≤ later) (h : IsCoherent now s) where
  pub unchanged-IsCoherent :
      (db : Db) → ((j : ℕ) → stored j db ≡ stored j s.db) → IsCoherent later (record s { db = db })
  unchanged-IsCoherent db same j =
      rw (same j) (Fresh_mono now later s.ttl (stored j s.db) (s.cache j) (s.dirty j) l (h j))

  pub evict_locked-IsCoherent :
      (w : Outcome) (id : ℕ) (db : Db)
      → Elsewhere id s.db db
      → IsCoherent later (evict_locked w later id (record s { db = db }))
  unfolding evict_locked
  evict_locked-IsCoherent done id db e j = elim (Bool-cases (j == id)) [
    | inl hit ↦ rw hit tt
    | inr miss ↦
        rw (miss, e j (λ q. ground arith))
          (Fresh_mono now later s.ttl (stored j s.db) (s.cache j) (s.dirty j) l (h j))
  ]
  evict_locked-IsCoherent refused id db e j = elim (Bool-cases (j == id)) [
    | inl hit ↦
        rw hit (
          Fresh_marked now later s.ttl (stored j s.db) (stored j db) (s.cache j) (s.dirty j) l
            (h j))
    | inr miss ↦
        rw (miss, e j (λ q. ground arith))
          (Fresh_mono now later s.ttl (stored j s.db) (s.cache j) (s.dirty j) l (h j))
  ]
  evict_locked-IsCoherent lost id db e j = elim (Bool-cases (j == id)) [
    | inl hit ↦ rw hit tt
    | inr miss ↦
        rw (miss, e j (λ q. ground arith))
          (Fresh_mono now later s.ttl (stored j s.db) (s.cache j) (s.dirty j) l (h j))
  ]
