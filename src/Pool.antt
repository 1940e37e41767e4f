-- ===== src/Pool.antt =====
-- internal/worker/pool.go: the dequeue loop of `Pool.Start` and the deliveries that it starts, as
-- steps that interleave in any order. What `Process` does is in Delivery; its result is only logged
-- here.
pub mod Drain
mod Tests
use webhook_delivery_system.Prelude.{
  ℕ, zero, suc, ◌+◌, ◌<◌, ◌≡◌, Bool, true, false, Option, none, some, List, [], ◌∷◌, length,
  if◌then◌else◌,
}

-- Where the loop stands: at its test, in `Dequeue`, in `g.Go` with an id until a slot is free, in
-- `g.Wait`, or returned.
pub data Phase : Type 0 where
  checking popping draining stopped : Phase
  holding : ℕ → Phase

pub record Pool : Type 0 where
  pub concurrency : ℕ
  pub phase : Phase
  pub cancelled : Bool  -- ctx.Err() != nil
  pub running : Bool
  pub in_flight : List ℕ
  pub taken : List ℕ  -- every id that `Dequeue` returned
  pub processed : List ℕ  -- every id whose `Process` returned
  pub late : ℕ  -- the ids that were returned after the cancellation

-- `NewPool`, and the first statement of `Start`.
abbrev pub start : ℕ → Pool
start concurrency = record {
  concurrency = concurrency;
  phase = checking;
  cancelled = false;
  running = true;
  in_flight = [];
  taken = [];
  processed = [];
  late = 0;
}

-- The i-th id in flight, and the others.
abbrev pub take_at : ℕ → List ℕ → Option (ℕ × List ℕ)
take_at i [] = none
take_at zero (x ∷ xs) = some (x, xs)
take_at (suc i) (x ∷ xs) = elim (take_at i xs) [ none ↦ none | some (y, rest) ↦ some (y, x ∷ rest) ]

pub data Step : Pool → Pool → Type 0 where
  cancels : (p : Pool) → Step p (record p { cancelled = true })
  enters :
      (p : Pool) → p.phase ≡ checking → p.cancelled ≡ false → Step p (record p { phase = popping })
  leaves :
      (p : Pool) → p.phase ≡ checking → p.cancelled ≡ true → Step p (record p { phase = draining })
  -- An empty queue, a failure or a cancelled context.
  misses : (p : Pool) → p.phase ≡ popping → Step p (record p { phase = checking })
  pops :
      (p : Pool) (id : ℕ)
      → p.phase ≡ popping
      → Step p (record p {
        phase = holding id;
        taken = id ∷ p.taken;
        late = if p.cancelled then p.late + 1 else p.late;
      })
  starts :
      (p : Pool) (id : ℕ)
      → p.phase ≡ holding id
      → length p.in_flight < p.concurrency
      → Step p (record p { phase = checking; in_flight = id ∷ p.in_flight })
  finishes :
      (p : Pool) (i id : ℕ) (rest : List ℕ)
      → take_at i p.in_flight ≡ some (id, rest)
      → Step p (record p { in_flight = rest; processed = id ∷ p.processed })
  stops :
      (p : Pool)
      → p.phase ≡ draining
      → p.in_flight ≡ []
      → Step p (record p { phase = stopped; running = false })

pub data Reaches : Pool → Pool → Type 0 where
  here : (p : Pool) → Reaches p p
  then_step : (p q r : Pool) → Reaches p q → Step q r → Reaches p r
