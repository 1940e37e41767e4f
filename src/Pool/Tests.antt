-- ===== src/Pool/Tests.antt =====
-- A run of the pool of internal/worker/pool.go: one id is dequeued, the pool is cancelled during its
-- delivery, and drains.
use webhook_delivery_system.Prelude.{ℕ, ◌≡◌, refl, true, false, [], ◌∷◌, arith, count}
use webhook_delivery_system.Pool.{
  Pool, stopped, start, cancels, enters, leaves, pops, starts, finishes, stops, Reaches, here,
  then_step,
}
use webhook_delivery_system.Pool.Drain.{IsDrained, reached-IsDrained, stopped_processed}

abbrev ended : Pool
ended = record {
  concurrency = 2;
  phase = stopped;
  cancelled = true;
  running = false;
  in_flight = [];
  taken = 7 ∷ [];
  processed = 7 ∷ [];
  late = 0;
}

drained : Reaches (start 2) ended
drained =
    then_step _ _ _
      (then_step _ _ _
        (then_step _ _ _
          (then_step _ _ _
            (then_step _ _ _
              (then_step _ _ _ (then_step _ _ _ (here (start 2)) (enters (start 2) refl refl))
                (pops _ 7 refl))
              (starts _ 7 refl (omega arith)))
            (cancels _))
          (leaves _ refl refl))
        (finishes _ 0 7 [] refl))
      (stops _ refl refl)

reached-IsDrained_example : IsDrained 2 ended
reached-IsDrained_example = reached-IsDrained 2 ended drained

stopped_processed_example : (id : ℕ) → count id ended.taken ≡ count id ended.processed
stopped_processed_example = stopped_processed 2 ended drained refl
