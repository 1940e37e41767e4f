-- ===== src/Breaker/Sessions.antt =====
-- A breaker together with the requests that it admitted and that have not reported back yet.
-- A request reports once, with the token that `Allow` gave it.
use webhook_delivery_system.Prelude.{
  ℕ, zero, suc, max, ◌+◌, ◌≤◌, ◌<◌, ◌≡◌, refl, Bool, true, false, Option, none, some, List, [], ◌∷◌,
  arith, count, length, subst, if◌then◌else◌,
}
use webhook_delivery_system.Breaker.{
  State, state_closed, state_open, state_half_open, CircuitBreaker, new, allow, record_success,
  record_failure,
}

pub record Session : Type 0 where
  pub breaker : CircuitBreaker
  pub tokens : List ℕ

-- A request asks for admission; the i-th request in flight reports a success or a failure.
pub data Action : Type 0 where
  asks : ℕ → Action
  succeeds : ℕ → Action
  fails : ℕ → ℕ → Action

-- The i-th token, and the others.
unfoldable pub take_out : ℕ → List ℕ → Option (ℕ × List ℕ)
take_out i [] = none
take_out zero (t ∷ ts) = some (t, ts)
take_out (suc i) (t ∷ ts) = elim (take_out i ts) [
  | none ↦ none
  | some (u, rest) ↦ some (u, t ∷ rest)
]

admitted : Session → CircuitBreaker × Bool × ℕ → Session
admitted s (cb, ok, token) = record {
  breaker = cb;
  tokens = if ok then token ∷ s.tokens else s.tokens;
}

unfoldable pub reported :
    (ℕ → CircuitBreaker → CircuitBreaker) → Session → Option (ℕ × List ℕ) → Session
reported report s none = s
reported report s (some (token, rest)) = record { breaker = report token s.breaker; tokens = rest }

unfoldable pub step : Session → Action → Session
unfolding admitted reported
step s (asks now) = admitted s (allow now s.breaker)
step s (succeeds i) = reported record_success s (take_out i s.tokens)
step s (fails i now) = reported (record_failure now) s (take_out i s.tokens)

unfoldable pub run : Session → List Action → Session
run s [] = s
run s (a ∷ actions) = run (step s a) actions

-- What each state says of the counter, of the probe flag, and of the requests in flight whose
-- token is current.
abbrev pub Agrees : State → CircuitBreaker → List ℕ → Type 0
Agrees state_closed cb tokens = (cb.probing ≡ false) × (cb.failures < cb.threshold)
Agrees state_open cb tokens = (cb.probing ≡ false) × (count cb.generation tokens ≡ 0)
Agrees state_half_open cb tokens = (cb.probing ≡ true) × (count cb.generation tokens ≡ 1)

-- The largest token in flight.
abbrev pub highest : List ℕ → ℕ
highest [] = 0
highest (t ∷ ts) = max t (highest ts)

-- After at most `n` steps.
pub record Inv (n : ℕ) (s : Session) : Type 0 where
  pub issued : highest s.tokens ≤ s.breaker.generation
  pub young : s.breaker.generation ≤ n
  pub counted : s.breaker.failures ≤ s.breaker.threshold
  pub positive : 0 < s.breaker.threshold
  pub signed : s.breaker.threshold < 2147483648
  pub agrees : Agrees s.breaker.state s.breaker s.tokens

pub new-Inv :
    (threshold timeout : ℕ)
    → 0 < threshold
    → threshold < 2147483648
    → Inv 0 (record { breaker = new threshold timeout; tokens = [] })
unfolding new
new-Inv threshold timeout h k = ground arith

count_above : (g : ℕ) (ts : List ℕ) → highest ts ≤ g → count (suc g) ts ≡ 0
count_above g [] h = refl
count_above g (t ∷ ts) h = ground (arith, count_above g ts)

-- Taking a token out of the list.
abbrev pub TakenOut : ℕ → List ℕ → Option (ℕ × List ℕ) → Type 0
TakenOut g ts none = Unit {0}
TakenOut g ts (some (t, rest)) =
    (t ≤ highest ts) × (highest rest ≤ highest ts) × (count g ts ≡ count g (t ∷ rest))

pub take_out-TakenOut : (g i : ℕ) (ts : List ℕ) → TakenOut g ts (take_out i ts)
unfolding take_out
take_out-TakenOut g i [] = tt
take_out-TakenOut g zero (t ∷ ts) = (omega arith, omega arith, refl)
take_out-TakenOut g (suc i) (t ∷ ts) = ground (arith, take_out-TakenOut g i ts)

module _ (n : ℕ) (young : n < 18446744073709551615) where
  asks-Inv : (now : ℕ) (s : Session) → Inv n s → Inv (suc n) (step s (asks now))
  unfolding step allow
  asks-Inv now s v = ground (arith, count_above s.breaker.generation s.tokens)

  success-Inv :
      (t : ℕ) (rest : List ℕ) (s : Session)
      → Inv n s
      → TakenOut s.breaker.generation s.tokens (some (t, rest))
      → Inv (suc n) (record { breaker = record_success t s.breaker; tokens = rest })
  unfolding record_success
  success-Inv t rest s v h = ground arith

  failure-Inv :
      (t now : ℕ) (rest : List ℕ) (s : Session)
      → Inv n s
      → TakenOut s.breaker.generation s.tokens (some (t, rest))
      → Inv (suc n) (record { breaker = record_failure now t s.breaker; tokens = rest })
  unfolding record_failure
  failure-Inv t now rest s v h = ground (arith, count_above s.breaker.generation rest)

  reported-Inv :
      (report : ℕ → CircuitBreaker → CircuitBreaker) (s : Session) (r : Option (ℕ × List ℕ))
      → Inv n s
      → ((t : ℕ) (rest : List ℕ)
          → TakenOut s.breaker.generation s.tokens (some (t, rest))
          → Inv (suc n) (record { breaker = report t s.breaker; tokens = rest }))
      → TakenOut s.breaker.generation s.tokens r
      → Inv (suc n) (reported report s r)
  unfolding reported
  reported-Inv report s none v keep h = ground arith
  reported-Inv report s (some (t, rest)) v keep h = keep t rest h

  pub step-Inv : (s : Session) (a : Action) → Inv n s → Inv (suc n) (step s a)
  unfolding step
  step-Inv s (asks now) v = asks-Inv now s v
  step-Inv s (succeeds i) v =
      reported-Inv record_success s (take_out i s.tokens) v (λ t rest. success-Inv t rest s v)
        (take_out-TakenOut s.breaker.generation i s.tokens)
  step-Inv s (fails i now) v =
      reported-Inv (record_failure now) s (take_out i s.tokens) v
        (λ t rest. failure-Inv t now rest s v) (take_out-TakenOut s.breaker.generation i s.tokens)

run-Inv :
    (n : ℕ) (s : Session) (actions : List Action)
    → n + length actions < 18446744073709551615
    → Inv n s
    → Inv (n + length actions) (run s actions)
unfolding run
run-Inv n s [] h v = subst (λ k. Inv k s) (omega arith) v
run-Inv n s (a ∷ actions) h v =
    subst (λ k. Inv k (run (step s a) actions)) (omega arith)
      (run-Inv (suc n) (step s a) actions (omega arith) (step-Inv n (omega arith) s a v))

abbrev pub fresh : ℕ → ℕ → Session
fresh threshold timeout = record { breaker = new threshold timeout; tokens = [] }

-- From a new breaker with a positive int32 threshold, after any sequence of admissions and
-- reports in any order that is shorter than 2^64 - 1: the breaker is probing exactly in the
-- half-open state, a half-open breaker has exactly one request in flight whose token is current
-- (the probe), an open breaker has none, a closed breaker is below its failure threshold, and no
-- state has counted past it.
pub run-new-Agrees :
    (threshold timeout : ℕ) (actions : List Action)
    → 0 < threshold
    → threshold < 2147483648
    → length actions < 18446744073709551615
    → let s = run (fresh threshold timeout) actions in
      Agrees s.breaker.state s.breaker s.tokens × (s.breaker.failures ≤ s.breaker.threshold)
run-new-Agrees threshold timeout actions h k l =
    let v =
      run-Inv 0 (fresh threshold timeout) actions (omega arith) (new-Inv threshold timeout h k) in
    (v.agrees, v.counted)
