-- ===== src/Redis/Moves.antt =====
-- What the claim script of internal/infra/scheduler/redis_scheduler.go moves.
use webhook_delivery_system.Prelude.{
  ℕ, zero, suc, ◌+◌, ◌≤◌, ◌<◌, ◌≡◌, refl, Bool, true, ◌&&◌, List, [], ◌∷◌, arith, leb, count,
  if◌then◌else◌, ◌==◌, subst,
}
use webhook_delivery_system.Domain.{ok}
use webhook_delivery_system.Store.Sql.{Outcome, done, refused, lost}
use webhook_delivery_system.Redis.{Scored, Redis, move_due, claim_due, command, unix_score}

-- How often an id is scheduled, and how many entries are due.
abbrev pub scheduled : ℕ → List Scored → ℕ
scheduled id [] = 0
scheduled id (e ∷ z) = if e.member == id then suc (scheduled id z) else scheduled id z

abbrev pub due_count : ℕ → List Scored → ℕ
due_count now [] = 0
due_count now (e ∷ z) = if leb e.score now then suc (due_count now z) else due_count now z

-- The scores rise, from `lo` on.
abbrev pub rises : ℕ → List Scored → Bool
rises lo [] = true
rises lo (e ∷ z) = leb lo e.score && rises e.score z

rises_due : (now lo : ℕ) (z : List Scored) → rises lo z ≡ true → now < lo → due_count now z ≡ 0
rises_due now lo [] h l = refl
rises_due now lo (e ∷ z) h l = ground (arith, rises_due now e.score z)

move_due_keeps :
    (limit now id : ℕ) (z : List Scored) (q : List ℕ)
    → let (n, (z', q')) = move_due limit now z q in
      count id q' + scheduled id z' ≡ count id q + scheduled id z
move_due_keeps zero now id z q = refl
move_due_keeps (suc limit) now id [] q = refl
move_due_keeps (suc limit) now id (e ∷ z) q =
    ground (arith, move_due_keeps limit now id z (e.member ∷ q))

move_due_counts :
    (limit now lo : ℕ) (z : List Scored) (q : List ℕ)
    → rises lo z ≡ true
    → let (n, (z', q')) = move_due limit now z q in
      (due_count now z ≡ due_count now z' + n) × ((n ≤ limit) × (n < limit → due_count now z' ≡ 0))
move_due_counts zero now lo z q h = (omega arith, (omega arith, λ l. omega (arith, l)))
move_due_counts (suc limit) now lo [] q h = (refl, (omega arith, λ l. refl))
move_due_counts (suc limit) now lo (e ∷ z) q h =
    ground (arith, move_due_counts limit now e.score z (e.member ∷ q), rises_due now e.score z)

-- Every id that was in the work list or scheduled is there as often as before, counted together.
abbrev pub Kept : Redis → Redis → Type 0
Kept r r' =
    (id : ℕ)
    → count id r'.queue + scheduled id r'.schedule ≡ count id r.queue + scheduled id r.schedule

command_keeps : (o : Outcome) (r r' : Redis) (n : ℕ) → Kept r r' → Kept r (command o r n r').1
command_keeps done r r' n h id = h id
command_keeps refused r r' n h id = refl
command_keeps lost r r' n h id = h id

command_ok :
    (o : Outcome) (r r' : Redis) (n m : ℕ)
    → (command o r n r').0 ≡ ok m
    → (n ≡ m) × ((command o r n r').1 ≡ r')
command_ok done r r' n m h = (grind arith, refl)
command_ok refused r r' n m h = absurd (cc)
command_ok lost r r' n m h = absurd (cc)

-- For a schedule whose scores rise: however the command ends, no id is lost or duplicated between
-- the schedule and the work list; and when it returns a number, that number of due entries left the
-- schedule, it is at most 100, and no due entry is left if it is below 100.
pub claim_due_moves :
    (o : Outcome) (now : ℕ) (r : Redis)
    → rises 0 r.schedule ≡ true
    → let r' = (claim_due o now r).1 in
      Kept r r'
      × ((n : ℕ)
          → (claim_due o now r).0 ≡ ok n
          → (due_count (unix_score now) r.schedule ≡ due_count (unix_score now) r'.schedule + n)
            × ((n ≤ 100) × (n < 100 → due_count (unix_score now) r'.schedule ≡ 0)))
unfolding claim_due
claim_due_moves o now r h =
    let m = move_due 100 (unix_score now) r.schedule r.queue in
    let r' : Redis = record r { schedule = m.1.0; queue = m.1.1 } in
    let counts = move_due_counts 100 (unix_score now) 0 r.schedule r.queue h in
    (
      command_keeps o r r' m.0 (λ id. move_due_keeps 100 (unix_score now) id r.schedule r.queue),
      λ n e.
          let (same, after) = command_ok o r r' m.0 n e in
          rw (after) (
            subst
              (λ k.
                (due_count (unix_score now) r.schedule ≡ due_count (unix_score now) m.1.0 + k)
                × ((k ≤ 100) × (k < 100 → due_count (unix_score now) m.1.0 ≡ 0)))
              same counts),
    )
