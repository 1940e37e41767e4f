-- ===== src/Breaker/Spec.antt =====
-- What internal/infra/breaker/circuit_breaker.go promises, without generations and without atomics: three
-- phases, and for each request in flight whether its report still counts.
use webhook_delivery_system.Prelude.{
  ℕ, zero, suc, ◌+◌, Bool, true, false, Option, none, some, List, [], ◌∷◌, ltb, leb, if◌then◌else◌,
}
use webhook_delivery_system.Breaker.Sessions.{Action, asks, succeeds, fails}

pub data Phase : Type 0 where
  closed : ℕ → Phase  -- with so many consecutive failures
  opened : ℕ → Phase  -- since this time
  half_open : Phase

pub record Abstract : Type 0 where
  pub phase : Phase
  pub current : List Bool

-- The reports of all requests in flight stop to count.
abbrev pub stale : List Bool → List Bool
stale [] = []
stale (b ∷ flags) = false ∷ stale flags

module _ (threshold reset_timeout : ℕ) where
  -- Whether a request is admitted.
  abbrev pub admits : ℕ → Phase → Bool
  admits now (closed n) = true
  admits now (opened at) = ltb (at + reset_timeout) now
  admits now half_open = false

  abbrev pub after_admission : ℕ → Phase → List Bool → Abstract
  after_admission now (closed n) flags = record { phase = closed n; current = true ∷ flags }
  after_admission now (opened at) flags =
      if ltb (at + reset_timeout) now
      then record { phase = half_open; current = true ∷ stale flags }
      else record { phase = opened at; current = flags }
  after_admission now half_open flags = record { phase = half_open; current = flags }

  -- Reports that count.
  abbrev pub after_success : Phase → List Bool → Abstract
  after_success (closed n) flags = record { phase = closed 0; current = flags }
  after_success (opened at) flags = record { phase = opened at; current = flags }
  after_success half_open flags = record { phase = closed 0; current = flags }

  abbrev pub after_failure : ℕ → Phase → List Bool → Abstract
  after_failure now (closed n) flags =
      if leb threshold (n + 1)
      then record { phase = opened now; current = stale flags }
      else record { phase = closed (n + 1); current = flags }
  after_failure now (opened at) flags = record { phase = opened at; current = flags }
  after_failure now half_open flags = record { phase = opened now; current = stale flags }

-- The i-th flag, and the others.
abbrev pub take_flag : ℕ → List Bool → Option (Bool × List Bool)
take_flag i [] = none
take_flag zero (b ∷ flags) = some (b, flags)
take_flag (suc i) (b ∷ flags) = elim (take_flag i flags) [
  | none ↦ none
  | some (c, rest) ↦ some (c, b ∷ rest)
]

abbrev pub when_current :
    (Phase → List Bool → Abstract) → Abstract → Option (Bool × List Bool) → Abstract
when_current f a none = a
when_current f a (some (true, rest)) = f a.phase rest
when_current f a (some (false, rest)) = record a { current = rest }

abbrev pub spec_step : ℕ → ℕ → Abstract → Action → Abstract
spec_step threshold reset_timeout a (asks now) =
    after_admission threshold reset_timeout now a.phase a.current
spec_step threshold reset_timeout a (succeeds i) =
    when_current (after_success threshold reset_timeout) a (take_flag i a.current)
spec_step threshold reset_timeout a (fails i now) =
    when_current (after_failure threshold reset_timeout now) a (take_flag i a.current)

abbrev pub spec_run : ℕ → ℕ → Abstract → List Action → Abstract
spec_run threshold reset_timeout a [] = a
spec_run threshold reset_timeout a (x ∷ actions) =
    spec_run threshold reset_timeout (spec_step threshold reset_timeout a x) actions
