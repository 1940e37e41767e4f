-- ===== src/Breaker/Refinement.antt =====
-- The circuit breaker of internal/infra/breaker/circuit_breaker.go implements its specification.
use webhook_delivery_system.Prelude.{
  ℕ, zero, suc, ◌+◌, ◌≤◌, ◌<◌, ◌≡◌, refl, sym, ap, ◌∙◌, Bool, Option, none, some, List, [], ◌∷◌,
  arith, length, ◌==◌, subst,
}
use webhook_delivery_system.Breaker.{
  State, state_closed, state_open, state_half_open, CircuitBreaker, new, allow, record_success,
  record_failure,
}
use webhook_delivery_system.Breaker.Sessions.{
  Session, Action, asks, succeeds, fails, take_out, step, run, Inv, highest, fresh, TakenOut,
  take_out-TakenOut, reported, step-Inv, new-Inv,
}
use webhook_delivery_system.Breaker.Spec.{
  Phase, closed, opened, half_open, Abstract, stale, after_success, after_failure, admits,
  take_flag, when_current, spec_step, spec_run,
}

abbrev pub phase_of : State → CircuitBreaker → Phase
phase_of state_closed cb = closed cb.failures
phase_of state_open cb = opened cb.last_opened_at
phase_of state_half_open cb = half_open

-- A report counts where its token is the generation of the breaker.
abbrev pub flags_of : ℕ → List ℕ → List Bool
flags_of g [] = []
flags_of g (t ∷ ts) = (g == t) ∷ flags_of g ts

abbrev pub abstract : Session → Abstract
abstract s = record {
  phase = phase_of s.breaker.state s.breaker;
  current = flags_of s.breaker.generation s.tokens;
}

flags_stale : (g : ℕ) (ts : List ℕ) → highest ts ≤ g → flags_of (suc g) ts ≡ stale (flags_of g ts)
flags_stale g [] h = refl
flags_stale g (t ∷ ts) h = ground (arith, flags_stale g ts)

module _ (n : ℕ) (young : n < 18446744073709551615) where
  asks_refines :
      (now : ℕ) (s : Session)
      → Inv n s
      → abstract (step s (asks now))
        ≡ spec_step s.breaker.threshold s.breaker.reset_timeout (abstract s) (asks now)
  unfolding step allow
  asks_refines now s v = ground (arith, flags_stale s.breaker.generation s.tokens)

abbrev flag_of : ℕ → Option (ℕ × List ℕ) → Option (Bool × List Bool)
flag_of g none = none
flag_of g (some (t, rest)) = some (g == t, flags_of g rest)

take_flag-flags_of :
    (g i : ℕ) (ts : List ℕ) → take_flag i (flags_of g ts) ≡ flag_of g (take_out i ts)
unfolding take_out
take_flag-flags_of g i [] = refl
take_flag-flags_of g zero (t ∷ ts) = refl
take_flag-flags_of g (suc i) (t ∷ ts) = ground (arith, take_flag-flags_of g i ts)

module _ (n : ℕ) (young : n < 18446744073709551615) (s : Session) (v : Inv n s) where
  success_refines :
      (t : ℕ) (rest : List ℕ)
      → TakenOut s.breaker.generation s.tokens (some (t, rest))
      → abstract (record { breaker = record_success t s.breaker; tokens = rest })
        ≡ when_current
            (after_success s.breaker.threshold s.breaker.reset_timeout)
            (abstract s)
            (flag_of s.breaker.generation (some (t, rest)))
  unfolding record_success
  success_refines t rest h = ground arith

  failure_refines :
      (t now : ℕ) (rest : List ℕ)
      → TakenOut s.breaker.generation s.tokens (some (t, rest))
      → abstract (record { breaker = record_failure now t s.breaker; tokens = rest })
        ≡ when_current
            (after_failure s.breaker.threshold s.breaker.reset_timeout now)
            (abstract s)
            (flag_of s.breaker.generation (some (t, rest)))
  unfolding record_failure
  failure_refines t now rest h = ground (arith, flags_stale s.breaker.generation rest)

  reported_refines :
      (report : ℕ → CircuitBreaker → CircuitBreaker) (f : Phase → List Bool → Abstract)
      (r : Option (ℕ × List ℕ))
      → ((t : ℕ) (rest : List ℕ)
          → TakenOut s.breaker.generation s.tokens (some (t, rest))
          → abstract (record { breaker = report t s.breaker; tokens = rest })
            ≡ when_current f (abstract s) (flag_of s.breaker.generation (some (t, rest))))
      → TakenOut s.breaker.generation s.tokens r
      → abstract (reported report s r)
        ≡ when_current f (abstract s) (flag_of s.breaker.generation r)
  unfolding reported
  reported_refines report f none refines h = refl
  reported_refines report f (some (t, rest)) refines h = refines t rest h

  step_refines :
      (a : Action)
      → abstract (step s a) ≡ spec_step s.breaker.threshold s.breaker.reset_timeout (abstract s) a
  unfolding step
  step_refines (asks now) = asks_refines n young now s v
  step_refines (succeeds i) =
      reported_refines record_success (after_success s.breaker.threshold s.breaker.reset_timeout)
        (take_out i s.tokens) success_refines (take_out-TakenOut s.breaker.generation i s.tokens)
      ∙ ap (when_current (after_success s.breaker.threshold s.breaker.reset_timeout) (abstract s))
          (sym (take_flag-flags_of s.breaker.generation i s.tokens))
  step_refines (fails i now) =
      reported_refines (record_failure now)
        (after_failure s.breaker.threshold s.breaker.reset_timeout now) (take_out i s.tokens)
        (λ t rest. failure_refines t now rest) (take_out-TakenOut s.breaker.generation i s.tokens)
      ∙ ap
          (when_current (after_failure s.breaker.threshold s.breaker.reset_timeout now)
            (abstract s))
          (sym (take_flag-flags_of s.breaker.generation i s.tokens))

  -- The answer to a request.
  admits_refines :
      (now : ℕ)
      → (allow now s.breaker).1
        ≡ admits s.breaker.threshold s.breaker.reset_timeout now (abstract s).phase
  unfolding allow
  admits_refines now = ground arith

-- The thresholds never change.
abbrev SameLimits : CircuitBreaker → CircuitBreaker → Type 0
SameLimits a b = (a.threshold ≡ b.threshold) × (a.reset_timeout ≡ b.reset_timeout)

reported_limits :
    (report : ℕ → CircuitBreaker → CircuitBreaker) (s : Session) (r : Option (ℕ × List ℕ))
    → ((t : ℕ) → SameLimits (report t s.breaker) s.breaker)
    → SameLimits (reported report s r).breaker s.breaker
unfolding reported
reported_limits report s none h = (refl, refl)
reported_limits report s (some (t, rest)) h = h t

step_limits : (s : Session) (a : Action) → SameLimits (step s a).breaker s.breaker
unfolding step allow record_success record_failure
step_limits s (asks now) = (ground arith, ground arith)
step_limits s (succeeds i) =
    reported_limits record_success s (take_out i s.tokens) (λ t. (ground arith, ground arith))
step_limits s (fails i now) =
    reported_limits (record_failure now) s (take_out i s.tokens) (λ t. (ground arith, ground arith))

-- A session within its invariant, and the specification from its abstraction.
pub record Refines (threshold reset_timeout : ℕ) (s : Session) (a : Abstract) : Type 0 where
  pub same : abstract s ≡ a
  pub answers : (now : ℕ) → (allow now s.breaker).1 ≡ admits threshold reset_timeout now a.phase

run-Refines' :
    (n : ℕ) (s : Session) (actions : List Action)
    → n + length actions < 18446744073709551615
    → Inv n s
    → Refines s.breaker.threshold s.breaker.reset_timeout
        (run s actions)
        (spec_run s.breaker.threshold s.breaker.reset_timeout (abstract s) actions)
unfolding run
run-Refines' n s [] h v = record { same = refl; answers = admits_refines n (omega arith) s v }
run-Refines' n s (a ∷ actions) h v =
    let young : n < 18446744073709551615 = omega arith in
    let (t, d) = step_limits s a in
    let rest = run-Refines' (suc n) (step s a) actions (omega arith) (step-Inv n young s a v) in
    let final = run (step s a) actions in
    let th = s.breaker.threshold in
    let rt = s.breaker.reset_timeout in
    subst (λ x. Refines th rt final (spec_run th rt x actions)) (step_refines n young s v a)
      (subst (λ x. Refines th x final (spec_run th x (abstract (step s a)) actions)) d
        (subst
          (λ x.
            Refines x (step s a).breaker.reset_timeout final
              (spec_run x (step s a).breaker.reset_timeout (abstract (step s a)) actions))
          t rest))

-- A new breaker with a positive int32 threshold, run through any sequence of admissions and reports that is
-- shorter than 2^64 - 1, is at every point in the phase of a specification that knows no generation, counts
-- exactly the reports that the specification counts, and gives the next request the answer that the
-- specification gives it.
pub run-Refines :
    (threshold timeout : ℕ) (actions : List Action)
    → 0 < threshold
    → threshold < 2147483648
    → length actions < 18446744073709551615
    → Refines threshold timeout
        (run (fresh threshold timeout) actions)
        (spec_run threshold timeout (record { phase = closed 0; current = [] }) actions)
unfolding new
run-Refines threshold timeout actions h k l =
    let s = fresh threshold timeout in
    let same : s.breaker.threshold ≡ threshold = ground arith in
    subst
      (λ x.
        Refines x timeout (run s actions)
          (spec_run x timeout (record { phase = closed 0; current = [] }) actions))
      same (run-Refines' 0 s actions (omega arith) (new-Inv threshold timeout h k))
