-- ===== src/Cache/Histories.antt =====
-- internal/subscription/state.go: histories of operations, and what a read returns after them.
use webhook_delivery_system.Prelude.{ℕ, ◌≤◌, ◌≢◌, Option, List, [], ◌∷◌, Text, arith}
use webhook_delivery_system.Domain.{Subscription}
use webhook_delivery_system.Store.Sql.{lost}
use webhook_delivery_system.RateLimit.{Product}
use webhook_delivery_system.Cache.{
  State, Net, get_by_id, create, update, rotate, delete, record_delivery_success,
  record_final_failure, allow, sweep_all,
}
use webhook_delivery_system.Cache.Coherence.{stored, Fresh_mono}
use webhook_delivery_system.Cache.Reads.{IsTimely, Returns, get_by_id-IsRead}
use webhook_delivery_system.Cache.Mutations.{
  IsGood, create-IsGood, update-IsGood, rotate-IsGood, delete-IsGood, success-IsGood,
  failure-IsGood,
}

-- The operations of `State` that touch the tables, the cache or the derived controls.
pub data Op : Type 0 where
  reads : ℕ → Op
  creates : Subscription → Op
  updates : Subscription → Op
  rotates : ℕ → Text → Op
  deletes : ℕ → Op
  succeeds : ℕ → ℕ → ℕ → Op
  fails : ℕ → ℕ → Option ℕ → Text → ℕ → Op
  admits : Product → ℕ → Op
  sweeps : Op

unfoldable pub perform : Net → Op → State → State
perform n (Op.reads id) s = (get_by_id n id s).1
perform n (Op.creates sub) s = (create n sub s).1
perform n (Op.updates sub) s = (update n sub s).1
perform n (Op.rotates id secret) s = (rotate n id secret s).1
perform n (Op.deletes id) s = (delete n id s).1
perform n (Op.succeeds id sub http) s = (record_delivery_success n id sub http s).1
perform n (Op.fails id sub http details threshold) s =
    (record_final_failure n id sub http details threshold s).1
perform n (Op.admits p id) s = (allow p n.marked id s).0
perform n Op.sweeps s = (sweep_all n.marked s).0

unfoldable pub run : List (Net × Op) → State → State
unfolding perform
run [] s = s
run ((n, op) ∷ ops) s = run ops (perform n op s)

-- The clock of an operation does not run backwards, and no commit loses its reply.
abbrev pub IsSound : ℕ → Net → Type 0
IsSound now n = IsTimely now n × (n.trip.outcome ≢ lost)

abbrev pub AllSound : ℕ → List (Net × Op) → Type 0
AllSound now [] = Unit
AllSound now ((n, op) ∷ ops) = IsSound now n × AllSound n.marked ops

abbrev pub end : ℕ → List (Net × Op) → ℕ
end now [] = now
end now ((n, op) ∷ ops) = end n.marked ops

ordered : (now : ℕ) (n : Net) → IsTimely now n → now ≤ n.marked
ordered now n l = omega (arith, l)

-- What is good stays good for other controls and at a later time.
waited : (now : ℕ) (n : Net) (s : State) → now ≤ n.marked → IsGood now s → IsGood n.marked s
waited now n s l g = record {
  keyed = g.keyed;
  coherent =
      λ j. Fresh_mono now n.marked s.ttl (stored j s.db) (s.cache j) (s.dirty j) l (g.coherent j);
}

perform-IsGood :
    (now : ℕ) (n : Net) (op : Op) (s : State)
    → IsSound now n
    → IsGood now s
    → IsGood n.marked (perform n op s)
unfolding perform allow sweep_all
perform-IsGood now n (Op.reads id) s h g =
    let r = get_by_id-IsRead n id now s h.0 g.coherent in
    record { keyed = rw r.same_db g.keyed; coherent = r.coherent }
perform-IsGood now n (Op.creates sub) s h g = create-IsGood now n s (ordered now n h.0) g h.1 sub
perform-IsGood now n (Op.updates sub) s h g = update-IsGood now n s (ordered now n h.0) g h.1 sub
perform-IsGood now n (Op.rotates id secret) s h g =
    rotate-IsGood now n s (ordered now n h.0) g h.1 id secret
perform-IsGood now n (Op.deletes id) s h g = delete-IsGood now n s (ordered now n h.0) g h.1 id
perform-IsGood now n (Op.succeeds id sub http) s h g =
    success-IsGood now n s (ordered now n h.0) g h.1 id sub http
perform-IsGood now n (Op.fails id sub http details threshold) s h g =
    failure-IsGood now n s (ordered now n h.0) g h.1 id sub http details threshold
perform-IsGood now n (Op.admits p id) s h g =
    let w = waited now n s (ordered now n h.0) g in
    record { keyed = w.keyed; coherent = w.coherent }
perform-IsGood now n Op.sweeps s h g =
    let w = waited now n s (ordered now n h.0) g in
    record { keyed = w.keyed; coherent = w.coherent }

run-IsGood :
    (now : ℕ) (ops : List (Net × Op)) (s : State)
    → AllSound now ops
    → IsGood now s
    → IsGood (end now ops) (run ops s)
unfolding run
run-IsGood now [] s h g = g
run-IsGood now ((n, op) ∷ ops) s h g =
    run-IsGood n.marked ops (perform n op s) h.1 (perform-IsGood now n op s h.0 g)

-- After any history of reads, mutations, delivery outcomes, admissions and sweeps on a state whose
-- tables are keyed and whose cache holds no stale entry, with any failures of Redis and any
-- failure of the database but a commit whose reply is lost, and with clocks that do not run
-- backwards, a read that returns a subscription returns the one that is stored, and a read that
-- reports it missing is right.
pub run-Returns :
    (now : ℕ) (ops : List (Net × Op)) (s : State) (n : Net) (id : ℕ)
    → AllSound now ops
    → IsGood now s
    → IsTimely (end now ops) n
    → Returns (get_by_id n id (run ops s)).0 (stored id (run ops s).db)
run-Returns now ops s n id h g l =
    (get_by_id-IsRead n id (end now ops) (run ops s) l (run-IsGood now ops s h g).coherent).returns
