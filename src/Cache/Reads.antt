-- ===== src/Cache/Reads.antt =====
-- internal/subscription/state.go: histories of operations, and what a read returns after them.
use webhook_delivery_system.Prelude.{
  ℕ, ◌+◌, ◌≤◌, ◌≡◌, inl, inr, refl, Bool, true, false, Option, none, some, arith, ◌==◌, ltb, ==_iff,
  Bool-cases, Option-cases, subst,
}
use webhook_delivery_system.Domain.{Subscription, not_found, Result, ok, err}
use webhook_delivery_system.Store.Sql.{
  Db, Trip, Outcome, done, refused, lost, finish-result, in_tx, query_row, sub_by_id,
}
use webhook_delivery_system.Store.Subscriptions.{get_sub}
use webhook_delivery_system.Cache.{
  Entry, State, Net, assign, evict_missing, is_dirty, dirty_at, on_error, cached, after_read,
  refill, hit_or, read_cache, read_clean, visible, get_by_id,
}
use webhook_delivery_system.Cache.Coherence.{stored, Fresh, IsCoherent, Fresh_mono, Fresh_marked}

-- The times of one operation are in order.
abbrev pub IsTimely : ℕ → Net → Type 0
IsTimely now n =
    (now ≤ n.checked)
    × ((n.checked ≤ n.read_at) × ((n.read_at ≤ n.write_at) × (n.write_at ≤ n.marked)))

-- What a read may return, of what is stored.
abbrev pub Returns : Result Subscription → Option Subscription → Type 0
Returns (ok sub) truth = truth ≡ some sub
Returns (err not_found) truth = truth ≡ none
Returns (err _) truth = Unit

get_sub-Returns : (t : Trip) (id : ℕ) (db : Db) → Returns (get_sub t id db).0 (stored id db)
unfolding get_sub in_tx
get_sub-Returns t id db =
    finish-result (λ r. Returns r (stored id db)) t.outcome db _
      (elim (Option-cases (query_row (sub_by_id id) db.subs)) [
        | inl absent ↦ rw absent refl
        | inr (s, found) ↦ rw found refl
      ])
      tt

-- An entry without a mark that a read finds is what is stored.
visible-Fresh :
    (now at ttl : ℕ) (truth : Option Subscription) (e : Option Entry) (sub : Subscription)
    → now ≤ at
    → Fresh now ttl truth e none
    → visible at e ≡ some sub
    → truth ≡ some sub
visible-Fresh now at ttl truth none sub l h v = absurd (cc)
visible-Fresh now at ttl truth (some e) sub l h v = let allowed = h.1 in ground arith

written-Fresh :
    (now at ttl : ℕ) (truth : Option Subscription) (sub : Subscription) (mark : Option ℕ)
    → at ≤ now
    → truth ≡ some sub
    → Fresh now ttl truth (some (record { value = some sub; expires = at + ttl })) mark
written-Fresh now at ttl truth sub none l e = (omega arith, inr (inl (rw e refl)))
written-Fresh now at ttl truth sub (some u) l e = (omega arith, inr (inl (rw e refl)))

-- What a read gives, and what it leaves.
pub record IsRead (n : Net) (id : ℕ) (s : State) (r : Result Subscription × State) : Type 0 where
  pub returns : Returns r.0 (stored id s.db)
  pub same_db : r.1.db ≡ s.db
  pub coherent : IsCoherent n.marked r.1

module _ (n : Net) (id : ℕ) (s : State) (h : IsCoherent n.checked s)
    (l : IsTimely n.checked n) where
  later : (j : ℕ) → Fresh n.marked s.ttl (stored j s.db) (s.cache j) (s.dirty j)
  later j =
      Fresh_mono n.checked n.marked s.ttl (stored j s.db) (s.cache j) (s.dirty j) (omega (arith, l))
        (h j)

  put :
      (e : Option Entry) (m : Option ℕ)
      → Fresh n.marked s.ttl (stored id s.db) e m
      → (j : ℕ)
      → Fresh n.marked s.ttl (stored j s.db) (assign s.cache id e j) (assign s.dirty id m j)
  put e m f j = elim (Bool-cases (j == id)) [
    | inl hit ↦ rw (hit, (==_iff j id).0 hit) f
    | inr miss ↦ rw miss (later j)
  ]

  cached-IsCoherent :
      (w : Outcome) (sub : Subscription)
      → stored id s.db ≡ some sub
      → IsCoherent n.marked (cached w n.write_at n.marked id sub s)
  unfolding cached
  cached-IsCoherent done sub e j =
      put _ none (written-Fresh n.marked n.write_at s.ttl _ sub none (omega (arith, l)) e) j
  cached-IsCoherent refused sub e j = elim (Bool-cases (j == id)) [
    | inl hit ↦ rw hit (
        Fresh_marked n.checked n.marked s.ttl (stored j s.db) (stored j s.db) (s.cache j)
          (s.dirty j) (omega (arith, l)) (h j))
    | inr miss ↦ rw miss (later j)
  ]
  cached-IsCoherent lost sub e j =
      put _ _
        (written-Fresh n.marked n.write_at s.ttl _ sub (some (n.marked + s.ttl)) (omega (arith, l))
          e)
        j

  missing-IsCoherent : (w : Outcome) → IsCoherent n.marked (evict_missing w id s)
  unfolding evict_missing
  missing-IsCoherent done j = put none none tt j
  missing-IsCoherent refused j = later j
  missing-IsCoherent lost j = elim (Bool-cases (j == id)) [
    | inl hit ↦ rw hit tt
    | inr miss ↦ rw miss (later j)
  ]

  cached-db : (w : Outcome) (sub : Subscription) → (cached w n.write_at n.marked id sub s).db ≡ s.db
  unfolding cached
  cached-db done sub = refl
  cached-db refused sub = refl
  cached-db lost sub = refl

  missing-db : (w : Outcome) → (evict_missing w id s).db ≡ s.db
  unfolding evict_missing
  missing-db done = refl
  missing-db refused = refl
  missing-db lost = refl

  unread-IsRead : (r : Result Subscription) → Returns r (stored id s.db) → IsRead n id s (r, s)
  unread-IsRead r k = record { returns = k; same_db = refl; coherent = later }

  after_read-IsRead :
      (r : Result Subscription) → Returns r (stored id s.db) → IsRead n id s (after_read n id s r)
  unfolding after_read on_error
  after_read-IsRead (ok sub) k = record {
    returns = k;
    same_db = cached-db n.write sub;
    coherent = cached-IsCoherent n.write sub k;
  }
  after_read-IsRead (err not_found) k = record {
    returns = k;
    same_db = missing-db n.write;
    coherent = missing-IsCoherent n.write;
  }
  after_read-IsRead (err e) k = unread-IsRead (err e) k

  refill-IsRead : IsRead n id s (refill n id s)
  unfolding refill
  refill-IsRead = after_read-IsRead _ (get_sub-Returns n.trip id s.db)

  hit-IsRead :
      (v : Option Subscription)
      → ((sub : Subscription) → v ≡ some sub → stored id s.db ≡ some sub)
      → IsRead n id s (hit_or n id s v)
  unfolding hit_or
  hit-IsRead none f = refill-IsRead
  hit-IsRead (some sub) f = unread-IsRead (ok sub) (f sub refl)

  read_cache-IsRead : (o : Outcome) → s.dirty id ≡ none → IsRead n id s (read_cache o n id s)
  unfolding read_cache
  read_cache-IsRead done clean = hit-IsRead (visible n.read_at (s.cache id)) (λ sub.
      visible-Fresh n.checked n.read_at s.ttl (stored id s.db) (s.cache id) sub l.1.0
        (subst (Fresh n.checked s.ttl (stored id s.db) (s.cache id)) clean (h id)))
  read_cache-IsRead refused clean = unread-IsRead _ (get_sub-Returns n.trip id s.db)
  read_cache-IsRead lost clean = unread-IsRead _ (get_sub-Returns n.trip id s.db)

-- The dirty check: an entry whose mark has passed has expired.
record IsChecked (id now : ℕ) (s : State) (r : State × Bool) : Type 0 where
  clean : r.1 ≡ false → r.0.dirty id ≡ none
  kept_db : r.0.db ≡ s.db
  checked : IsCoherent now r.0

unmarked-Fresh :
    (now at ttl u : ℕ) (truth : Option Subscription) (e : Option Entry)
    → now ≤ at
    → ltb u at ≡ true
    → Fresh now ttl truth e (some u)
    → Fresh at ttl truth e none
unmarked-Fresh now at ttl u truth none l p h = tt
unmarked-Fresh now at ttl u truth (some e) l p h = ground arith

is_dirty-IsChecked :
    (id now at : ℕ) (s : State) → now ≤ at → IsCoherent now s → IsChecked id at s (is_dirty at id s)
unfolding is_dirty dirty_at
is_dirty-IsChecked id now at s l h =
    let kept : IsCoherent at s =
      λ j. Fresh_mono now at s.ttl (stored j s.db) (s.cache j) (s.dirty j) l (h j) in
    elim (Option-cases (s.dirty id)) [
      | inl absent ↦
          rw (absent, dirty_at) (record { clean = λ q. absent; kept_db = refl; checked = kept })
      | inr (u, marked) ↦ elim (Bool-cases (ltb u at)) [
        | inr covers ↦
            rw (marked, dirty_at)
              (rw covers (record { clean = λ q. absurd (cc); kept_db = refl; checked = kept }))
        | inl passed ↦
            rw (marked, dirty_at)
              (rw passed (record {
                clean = λ q. ground arith;
                kept_db = refl;
                checked = λ j. elim (Bool-cases (j == id)) [
                  | inl hit ↦
                      rw (hit, (==_iff j id).0 hit)
                        (unmarked-Fresh now at s.ttl u (stored id s.db) (s.cache id) l passed
                          (subst (Fresh now s.ttl (stored id s.db) (s.cache id)) marked (h id)))
                  | inr miss ↦ rw miss (kept j)
                ];
              }))
      ]
    ]

module _ (n : Net) (id : ℕ) where
  read_clean-IsRead :
      (r : State × Bool)
      → (r.1 ≡ false → r.0.dirty id ≡ none)
      → IsCoherent n.checked r.0
      → IsTimely n.checked n
      → IsRead n id r.0 (read_clean n id r)
  unfolding read_clean
  read_clean-IsRead (s, true) clean h l = refill-IsRead n id s h l
  read_clean-IsRead (s, false) clean h l = read_cache-IsRead n id s h l n.read (clean refl)

  pub get_by_id-IsRead :
      (now : ℕ) (s : State) → IsTimely now n → IsCoherent now s → IsRead n id s (get_by_id n id s)
  unfolding get_by_id
  get_by_id-IsRead now s l h =
      let c = is_dirty-IsChecked id now n.checked s l.0 h in
      let r = read_clean-IsRead (is_dirty n.checked id s) c.clean c.checked (omega arith, l.1) in
      record {
        returns = subst (λ d. Returns (get_by_id n id s).0 (stored id d)) c.kept_db r.returns;
        same_db = subst (λ d. (get_by_id n id s).1.db ≡ d) c.kept_db r.same_db;
        coherent = r.coherent;
      }
