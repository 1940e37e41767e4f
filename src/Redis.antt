-- ===== src/Redis.antt =====
-- internal/infra/queue and internal/infra/scheduler: the work list, the retry schedule and the dead
-- letter list of Redis. A list is kept newest first; a score is a number of milliseconds.
pub mod Moves
mod Tests
use webhook_delivery_system.Prelude.{
  ℕ, zero, suc, ◌+◌, ◌/◌, Bool, true, false, ◌&&◌, Option, none, some, List, [], ◌∷◌, leb, ltb,
  length, if◌then◌else◌, ◌==◌, not,
}
use webhook_delivery_system.Domain.{Error, queue_empty, infrastructure, Result, ok, err}
use webhook_delivery_system.Store.Sql.{Outcome, done, refused, lost, delete_where}
use webhook_delivery_system.Store.Recovery.{lex_before}

pub record Scored : Type 0 where
  pub member : ℕ
  pub score : ℕ

pub record Redis : Type 0 where
  pub queue : List ℕ
  pub schedule : List Scored  -- by score, then by member, without a member twice
  pub dlq : List ℕ

-- A command: what the caller gets, and what Redis keeps.
abbrev pub command : {A : Type 0} → Outcome → Redis → A → Redis → Result A × Redis
command done before a after = (ok a, after)
command refused before a after = (err infrastructure, before)
command lost before a after = (err infrastructure, after)

-- `Queue.Enqueue`
abbrev pub enqueue : Outcome → ℕ → Redis → Result (Unit {0}) × Redis
enqueue o id r = command o r tt (record r { queue = id ∷ r.queue })

-- BRPOP takes the oldest item.
abbrev pub pop_oldest : List ℕ → Option (ℕ × List ℕ)
pop_oldest [] = none
pop_oldest (x ∷ xs) = elim (pop_oldest xs) [ none ↦ some (x, []) | some (y, ys) ↦ some (y, x ∷ ys) ]

-- `Queue.Dequeue`: a timeout on an empty list is `ErrQueueEmpty`.
popped : Outcome → Redis → Option (ℕ × List ℕ) → Result ℕ × Redis
popped refused r _ = (err infrastructure, r)
popped done r none = (err queue_empty, r)
popped lost r none = (err infrastructure, r)
popped done r (some (id, rest)) = (ok id, record r { queue = rest })
popped lost r (some (id, rest)) = (err infrastructure, record r { queue = rest })

unfoldable pub dequeue : Outcome → Redis → Result ℕ × Redis
unfolding popped
dequeue o r = popped o r (pop_oldest r.queue)

-- `Queue.Depth` and `DLQ.Depth`
abbrev pub queue_depth : Outcome → Redis → Result ℕ × Redis
queue_depth o r = command o r (length r.queue) r

abbrev pub dlq_depth : Outcome → Redis → Result ℕ × Redis
dlq_depth o r = command o r (length r.dlq) r

-- `DLQ.Push`, `DLQ.Remove` (LREM of all occurrences) and `DLQ.List`
abbrev pub push : Outcome → ℕ → Redis → Result (Unit {0}) × Redis
push o id r = command o r tt (record r { dlq = id ∷ r.dlq })

abbrev pub lrem : Outcome → ℕ → Redis → Result (Unit {0}) × Redis
lrem o id r = command o r tt (record r { dlq = delete_where (λ j. j == id) r.dlq })

abbrev pub list_dlq : Outcome → Redis → Result (List ℕ) × Redis
list_dlq o r = command o r r.dlq r

-- ZADD moves a member to its new score.
abbrev pub add_scored : ℕ → ℕ → List Scored → List Scored
add_scored id at [] = record { member = id; score = at } ∷ []
add_scored id at (e ∷ z) =
    if lex_before at id e.score e.member
    then record { member = id; score = at } ∷ e ∷ z
    else e ∷ add_scored id at z

-- `unixScore`, in milliseconds.
abbrev pub unix_score : ℕ → ℕ
unix_score t = t / 1000000

-- `Scheduler.Schedule`
abbrev pub schedule_at : Outcome → ℕ → ℕ → Redis → Result (Unit {0}) × Redis
schedule_at o id at r = command o r tt (record r {
  schedule = add_scored id (unix_score at) (delete_where (λ e. e.member == id) r.schedule);
})

-- The claim script, with at most `limit` entries left to move: their number, the schedule without
-- them, and the list with them.
abbrev pub move_due : ℕ → ℕ → List Scored → List ℕ → ℕ × (List Scored × List ℕ)
move_due zero now z q = (0, (z, q))
move_due (suc limit) now [] q = (0, ([], q))
move_due (suc limit) now (e ∷ z) q =
    if leb e.score now
    then (let (n, rest) = move_due limit now z (e.member ∷ q) in (n + 1, rest))
    else (0, (e ∷ z, q))

-- `Scheduler.ClaimDue`
unfoldable pub claim_due : Outcome → ℕ → Redis → Result ℕ × Redis
claim_due o now r =
    let (n, (z, q)) = move_due 100 (unix_score now) r.schedule r.queue in
    command o r n (record r { schedule = z; queue = q })
