-- ===== src/Redis/Tests.antt =====
-- A run of the claim script of internal/infra/scheduler/redis_scheduler.go.
use webhook_delivery_system.Prelude.{ℕ, ◌+◌, ◌≤◌, ◌<◌, ◌≡◌, refl, [], ◌∷◌}
use webhook_delivery_system.Domain.{ok}
use webhook_delivery_system.Store.Sql.{done}
use webhook_delivery_system.Redis.{Redis, schedule_at, claim_due, unix_score}
use webhook_delivery_system.Redis.Moves.{Kept, due_count, claim_due_moves}

-- Two ids are scheduled, and the first is rescheduled.
abbrev planned : Redis
planned =
    let r0 : Redis = record { queue = 9 ∷ []; schedule = []; dlq = [] } in
    let r1 = (schedule_at done 7 5000000 r0).1 in
    let r2 = (schedule_at done 8 90000000 r1).1 in (schedule_at done 7 6000000 r2).1

one_moved : (claim_due done 7000000 planned).1.queue ≡ 7 ∷ 9 ∷ []
unfolding claim_due
one_moved = refl

claim_due_moves_example :
    let r' = (claim_due done 7000000 planned).1 in
    Kept planned r'
    × ((n : ℕ)
        → (claim_due done 7000000 planned).0 ≡ ok n
        → (due_count (unix_score 7000000) planned.schedule
            ≡ due_count (unix_score 7000000) r'.schedule + n)
          × ((n ≤ 100) × (n < 100 → due_count (unix_score 7000000) r'.schedule ≡ 0)))
claim_due_moves_example = claim_due_moves done 7000000 planned refl
