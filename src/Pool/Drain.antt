-- ===== src/Pool/Drain.antt =====
-- Nothing that the pool of internal/worker/pool.go dequeues is lost when it shuts down.
use webhook_delivery_system.Prelude.{
  ℕ, zero, suc, ◌+◌, ◌≤◌, ◌≡◌, refl, subst, inl, inr, Bool-cases, Option-cases, true, false, some,
  List, [], ◌∷◌, arith, length, count, if◌then◌else◌, ◌==◌,
}
use webhook_delivery_system.Pool.{
  Phase, checking, popping, draining, stopped, holding, Pool, start, take_at, Step, cancels, enters,
  leaves, misses, pops, starts, finishes, stops, Reaches, here, then_step,
}

-- How often the loop holds an id.
abbrev pub held : ℕ → Phase → ℕ
held id (holding j) = if id == j then 1 else 0
held id _ = 0

abbrev pub popping_one : Phase → ℕ
popping_one popping = 1
popping_one _ = 0

abbrev pub Idle : Phase → List ℕ → Type 0
Idle stopped xs = xs ≡ []
Idle _ xs = Unit {0}

-- The deliveries in flight stay within the limit; each id that was taken is held, in flight or processed;
-- once the pool is cancelled at most one more id is taken.
pub record IsDrained (n : ℕ) (p : Pool) : Type 0 where
  pub limit : p.concurrency ≡ n
  pub bounded : length p.in_flight ≤ n
  pub kept :
      (id : ℕ) → count id p.taken ≡ held id p.phase + count id p.in_flight + count id p.processed
  pub idle : Idle p.phase p.in_flight
  pub late_once : p.cancelled ≡ true → p.late + popping_one p.phase ≤ 1
  pub early : p.cancelled ≡ false → p.late ≡ 0

take_at-count :
    (i id : ℕ) (xs : List ℕ) (x : ℕ) (rest : List ℕ)
    → take_at i xs ≡ some (x, rest)
    → count id xs ≡ count id (x ∷ rest)
take_at-count i id [] x rest = λ h. absurd (cc)
take_at-count zero id (y ∷ ys) x rest = λ h. ground arith
take_at-count (suc i) id (y ∷ ys) x rest = elim (Option-cases (take_at i ys)) [
  | inl none_there ↦ rw none_there (λ h. absurd (cc))
  | inr ((z, zs), found) ↦
      let rest_count = take_at-count i id ys z zs found in
      rw found (λ h.
        let first : z ≡ x = cc in
        let others : y ∷ zs ≡ rest = cc in
        rw (← first) (rw (← others) (ground (arith, rest_count))))
]

popping_at_most : (ph : Phase) → popping_one ph ≤ 1
popping_at_most checking = omega arith
popping_at_most popping = omega arith
popping_at_most draining = omega arith
popping_at_most stopped = omega arith
popping_at_most (holding id) = omega arith

Idle-take_at :
    (ph : Phase) (i x : ℕ) (xs rest : List ℕ)
    → Idle ph xs
    → take_at i xs ≡ some (x, rest)
    → Idle ph rest
Idle-take_at checking i x xs rest h e = tt
Idle-take_at popping i x xs rest h e = tt
Idle-take_at draining i x xs rest h e = tt
Idle-take_at (holding id) i x xs rest h e = tt
Idle-take_at stopped i x xs rest h e = absurd (cc (subst (λ ys. take_at i ys ≡ some (x, rest)) h e))

late_after :
    (p : Pool) → p.cancelled ≡ true → (if p.cancelled then p.late + 1 else p.late) ≡ p.late + 1
late_after p h = rw h refl

length-take_at :
    (i x : ℕ) (xs rest : List ℕ) → take_at i xs ≡ some (x, rest) → length rest ≤ length xs
length-take_at i x [] rest = λ h. absurd (cc)
length-take_at zero x (y ∷ ys) rest = λ h. ground arith
length-take_at (suc i) x (y ∷ ys) rest = elim (Option-cases (take_at i ys)) [
  | inl none_there ↦ rw none_there (λ h. absurd (cc))
  | inr ((z, zs), found) ↦
      let shorter = length-take_at i z ys zs found in
      rw found (λ h. let others : y ∷ zs ≡ rest = cc in rw (← others) (omega (arith, shorter)))
]

Step-IsDrained : (n : ℕ) (p q : Pool) → Step p q → IsDrained n p → IsDrained n q
Step-IsDrained n p _ (cancels _) v = record {
  limit = v.limit;
  bounded = v.bounded;
  kept = v.kept;
  idle = v.idle;
  late_once = λ _. elim (Bool-cases p.cancelled) [
    | inl was ↦ v.late_once was
    | inr alive ↦ omega (arith, v.early alive, popping_at_most p.phase)
  ];
  early = λ e. absurd (cc);
}
Step-IsDrained n p _ (enters _ at alive) v = record {
  limit = v.limit;
  bounded = v.bounded;
  kept = λ k. ground (arith, v.kept k);
  idle = tt;
  late_once = λ dead. absurd (cc);
  early = v.early;
}
Step-IsDrained n p _ (leaves _ at dead) v = record {
  limit = v.limit;
  bounded = v.bounded;
  kept = λ k. ground (arith, v.kept k);
  idle = tt;
  late_once = λ d. omega (arith, v.late_once d);
  early = v.early;
}
Step-IsDrained n p _ (misses _ at) v = record {
  limit = v.limit;
  bounded = v.bounded;
  kept = λ k. ground (arith, v.kept k);
  idle = tt;
  late_once = λ d. omega (arith, v.late_once d);
  early = v.early;
}
Step-IsDrained n p _ (pops _ id at) v = record {
  limit = v.limit;
  bounded = v.bounded;
  kept = λ k. ground (arith, v.kept k);
  idle = tt;
  late_once = λ d. ground (arith, v.late_once d);
  early = λ e. ground (arith, v.early e);
}
Step-IsDrained n p _ (starts _ id at room) v = record {
  limit = v.limit;
  bounded = omega (arith, room, v.limit);
  kept = λ k. ground (arith, v.kept k);
  idle = tt;
  late_once = λ d. omega (arith, v.late_once d);
  early = v.early;
}
Step-IsDrained n p _ (finishes _ i id rest taken) v = record {
  limit = v.limit;
  bounded = omega (arith, v.bounded, length-take_at i id p.in_flight rest taken);
  kept = λ k. ground (arith, v.kept k, take_at-count i k p.in_flight id rest taken);
  idle = Idle-take_at p.phase i id p.in_flight rest v.idle taken;
  late_once = v.late_once;
  early = v.early;
}
Step-IsDrained n p _ (stops _ at none_left) v = record {
  limit = v.limit;
  bounded = v.bounded;
  kept = λ k. ground (arith, v.kept k);
  idle = none_left;
  late_once = λ d. omega (arith, v.late_once d);
  early = v.early;
}

start-IsDrained : (n : ℕ) → IsDrained n (start n)
start-IsDrained n = record {
  limit = refl;
  bounded = omega arith;
  kept = λ k. refl;
  idle = tt;
  late_once = λ d. absurd (cc);
  early = λ e. refl;
}

-- In every state that a pool with a concurrency limit reaches, whatever the order of dequeues,
-- deliveries and the cancellation: no more deliveries are in flight than the limit; every id that was
-- dequeued is held by the loop, in flight, or processed, as often as it was dequeued; after the
-- cancellation at most one more id is dequeued; and when the pool has stopped nothing is in flight.
pub reached-IsDrained : (n : ℕ) (p : Pool) → Reaches (start n) p → IsDrained n p
reached-IsDrained n p path = from (start n) p path (start-IsDrained n)
  where
    from : (s q : Pool) → Reaches s q → IsDrained n s → IsDrained n q
    from s _ (here _) v = v
    from s _ (then_step _ r q before step) v = Step-IsDrained n r q step (from s r before v)

-- When the pool has stopped, every id that it dequeued was processed, as often as it was dequeued.
pub stopped_processed :
    (n : ℕ) (p : Pool)
    → Reaches (start n) p
    → p.phase ≡ stopped
    → (id : ℕ) → count id p.taken ≡ count id p.processed
stopped_processed n p path at id =
    let v = reached-IsDrained n p path in
    let empty = subst (λ ph. Idle ph p.in_flight) at v.idle in ground (arith, v.kept id, empty)
