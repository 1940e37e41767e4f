-- ===== src/Supervisor/Shutdown.antt =====
-- The shutdown of internal/lifecycle/supervisor.go.
use webhook_delivery_system.Prelude.{
  ℕ, ◌≡◌, ◌⊎◌, inl, inr, refl, ap, sym, ◌∙◌, Bool-cases, true, false, Option, none, some, List, [],
  ◌∷◌, length, ◌+◌, if◌then◌else◌,
}
use webhook_delivery_system.Supervisor.{
  Failure, http_serve, http_shutdown, process, Supervisor, begin, first, as_failure, Event,
  parent_cancels, serve_returns, shutdown_returns, process_returns, Step, on_parent, on_serve,
  on_shutdown, on_process, Runs, here, after,
}

-- The error that an event brings.
abbrev pub error_of : Event → Option Failure
error_of parent_cancels = none
error_of (serve_returns failed) = as_failure failed http_serve
error_of (shutdown_returns failed) = as_failure failed http_shutdown
error_of (process_returns i p failed) = as_failure failed (process p)

-- The first error of a history, whose newest event stands first.
abbrev pub first_error : List Event → Option Failure
first_error [] = none
first_error (e ∷ es) = first (first_error es) (error_of e)

-- A component that has ended has cancelled the others, nothing is shut down before the cancellation, and
-- the failure is the first.
pub record IsSupervised (processes : List ℕ) (es : List Event) (s : Supervisor) : Type 0 where
  pub failure_first : s.failure ≡ first_error es
  pub peers_cancelled :
      s.cancelled ≡ false → (s.serving ≡ true) × (s.shutting ≡ true) × (s.live ≡ processes)

first-none : (f : Option Failure) → first f none ≡ f
first-none none = refl
first-none (some e) = refl

Step-IsSupervised :
    (processes : List ℕ) (es : List Event) (s r : Supervisor) (e : Event)
    → Step s e r
    → IsSupervised processes es s
    → IsSupervised processes (e ∷ es) r
Step-IsSupervised processes es s _ _ (on_parent _) v = record {
  failure_first = v.failure_first ∙ sym (first-none (first_error es));
  peers_cancelled = λ h. absurd (cc);
}
Step-IsSupervised processes es s _ _ (on_serve _ failed up) v = record {
  failure_first = ap (λ f. first f (as_failure failed http_serve)) v.failure_first;
  peers_cancelled = λ h. absurd (cc);
}
Step-IsSupervised processes es s _ _ (on_shutdown _ failed down up) v = record {
  failure_first = ap (λ f. first f (as_failure failed http_shutdown)) v.failure_first;
  peers_cancelled = λ h. absurd (cc);
}
Step-IsSupervised processes es s _ _ (on_process _ i p failed found) v = record {
  failure_first = ap (λ f. first f (as_failure failed (process p))) v.failure_first;
  peers_cancelled = λ h. absurd (cc);
}

runs-IsSupervised :
    (processes : List ℕ) (s q : Supervisor) (es : List Event)
    → s ≡ begin processes
    → Runs s es q
    → IsSupervised processes es q
runs-IsSupervised processes s _ _ e (here _) = record {
  failure_first = ap (λ x. x.failure) e;
  peers_cancelled = λ h. (ap (λ x. x.serving) e, ap (λ x. x.shutting) e, ap (λ x. x.live) e);
}
runs-IsSupervised processes s _ _ e (after _ q r x es before step) =
    Step-IsSupervised processes es q r x step (runs-IsSupervised processes s q es e before)

-- In every history of the supervisor: either the group is cancelled, so that the server is told to
-- shut down and the processes to end, or nothing has returned yet, neither the server nor its shutdown
-- nor a process; and the failure to be reported is the first error of the history.
pub begin_supervised :
    (processes : List ℕ) (s : Supervisor) (es : List Event)
    → Runs (begin processes) es s
    → ((s.cancelled ≡ true) ⊎ ((s.serving ≡ true) × (s.shutting ≡ true) × (s.live ≡ processes)))
      × (s.failure ≡ first_error es)
begin_supervised processes s es runs =
    let v = runs-IsSupervised processes (begin processes) s es refl runs in
    (
      elim (Bool-cases s.cancelled) [
        | inl done ↦ inl done
        | inr alive ↦ inr (v.peers_cancelled alive)
      ],
      v.failure_first,
    )

-- How many functions of the group have not returned.
abbrev pub pending : Supervisor → ℕ
pending s = (if s.serving then 1 else 0) + (if s.shutting then 1 else 0) + length s.live

abbrev pub returns : Event → ℕ
returns parent_cancels = 0
returns _ = 1

-- The returns of a history.
abbrev pub return_count : List Event → ℕ
return_count [] = 0
return_count (e ∷ es) = returns e + return_count es

-- Nothing returns any more: no step from the state is a return.
abbrev pub Stuck : Supervisor → Type 0
Stuck s = (e : Event) (r : Supervisor) → Step s e r → returns e ≡ 0
