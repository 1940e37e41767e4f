-- ===== src/RateLimit/Semaphore.antt =====
-- internal/infra/semaphore/semaphore.go: a buffered channel of capacity n whose items are the
-- permits taken. A receive from the empty channel blocks, which is `none`.
use webhook_delivery_system.Prelude.{
  ℕ, zero, suc, ◌+◌, Bool, true, false, Option, none, some, ltb, if◌then◌else◌,
}

pub record Semaphore : Type 0 where
  pub tokens : ℕ  -- items in the channel
  pub capacity : ℕ

pub new : ℕ → Semaphore
new n = record { tokens = 0; capacity = n }

unfoldable pub try_acquire : Semaphore → Semaphore × Bool
try_acquire s =
    if ltb s.tokens s.capacity then (record s { tokens = s.tokens + 1 }, true) else (s, false)

unfoldable pub receive : ℕ → Semaphore → Option Semaphore
receive zero s = none
receive (suc n) s = some (record s { tokens = n })

unfoldable pub release : Semaphore → Option Semaphore
unfolding receive
release s = receive s.tokens s
