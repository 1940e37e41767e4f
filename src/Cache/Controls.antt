-- ===== src/Cache/Controls.antt =====
-- `GetByID` of internal/subscription/state.go leaves the semaphores as they are.
use webhook_delivery_system.Prelude.{
  ℕ, ◌≡◌, ◌∙◌, refl, Bool, true, false, Option, none, some, ltb, inl, inr, Bool-cases,
}
use webhook_delivery_system.Domain.{Subscription, not_found, Result, ok, err}
use webhook_delivery_system.Store.Sql.{Outcome, done, refused, lost}
use webhook_delivery_system.Cache.{
  State, Net, evict_missing, cached, on_error, after_read, refill, hit_or, read_cache, read_clean,
  dirty_at, is_dirty, get_by_id,
}

evict_missing_semaphores :
    (o : Outcome) (id : ℕ) (s : State) → (evict_missing o id s).semaphores ≡ s.semaphores
unfolding evict_missing
evict_missing_semaphores done id s = refl
evict_missing_semaphores refused id s = refl
evict_missing_semaphores lost id s = refl

after_read_semaphores :
    (n : Net) (id : ℕ) (s : State) (r : Result Subscription)
    → (after_read n id s r).1.semaphores ≡ s.semaphores
unfolding after_read on_error
after_read_semaphores n id s (ok sub) = cached_semaphores n.write
  where
    cached_semaphores :
        (o : Outcome) → (cached o n.write_at n.marked id sub s).semaphores ≡ s.semaphores
    cached_semaphores done = refl
    cached_semaphores refused = refl
    cached_semaphores lost = refl
after_read_semaphores n id s (err not_found) = evict_missing_semaphores n.write id s
after_read_semaphores n id s (err e) = refl

hit_semaphores :
    (n : Net) (id : ℕ) (s : State) (v : Option Subscription)
    → (hit_or n id s v).1.semaphores ≡ s.semaphores
unfolding hit_or refill
hit_semaphores n id s none = after_read_semaphores n id s _
hit_semaphores n id s (some sub) = refl

read_semaphores :
    (o : Outcome) (n : Net) (id : ℕ) (s : State) → (read_cache o n id s).1.semaphores ≡ s.semaphores
unfolding read_cache
read_semaphores done n id s = hit_semaphores n id s _
read_semaphores refused n id s = refl
read_semaphores lost n id s = refl

clean_semaphores :
    (n : Net) (id : ℕ) (p : State × Bool) → (read_clean n id p).1.semaphores ≡ p.0.semaphores
unfolding read_clean refill
clean_semaphores n id (s, true) = after_read_semaphores n id s _
clean_semaphores n id (s, false) = read_semaphores n.read n id s

dirty_semaphores :
    (now id : ℕ) (s : State) (m : Option ℕ) → (dirty_at now id s m).0.semaphores ≡ s.semaphores
unfolding dirty_at
dirty_semaphores now id s none = refl
dirty_semaphores now id s (some until) = elim (Bool-cases (ltb until now)) [
  | inl past ↦ rw past refl
  | inr ahead ↦ rw ahead refl
]

pub get_by_id_semaphores :
    (n : Net) (id : ℕ) (s : State) → (get_by_id n id s).1.semaphores ≡ s.semaphores
unfolding get_by_id is_dirty
get_by_id_semaphores n id s =
    clean_semaphores n id (is_dirty n.checked id s) ∙ dirty_semaphores n.checked id s (s.dirty id)
