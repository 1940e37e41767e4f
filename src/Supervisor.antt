-- ===== src/Supervisor.antt =====
-- internal/lifecycle/supervisor.go: the server, its shutdown and the processes, which end in any order. The
-- group context of `errgroup` is cancelled by the first error, and by every `defer cancel()`.
pub mod Shutdown
mod Tests
use webhook_delivery_system.Prelude.{
  ℕ, zero, suc, ◌≡◌, Bool, true, false, Option, none, some, List, [], ◌∷◌,
}

pub data Failure : Type 0 where
  http_serve http_shutdown : Failure
  process : ℕ → Failure

pub record Supervisor : Type 0 where
  pub cancelled : Bool  -- groupCtx is done
  pub serving : Bool  -- ListenAndServe has not returned
  pub shutting : Bool  -- Shutdown has not returned
  pub live : List ℕ  -- the processes that have not returned
  pub failure : Option Failure  -- the first error of the group

abbrev pub begin : List ℕ → Supervisor
begin processes = record {
  cancelled = false;
  serving = true;
  shutting = true;
  live = processes;
  failure = none;
}

-- The first error is kept.
abbrev pub first : Option Failure → Option Failure → Option Failure
first none f = f
first (some e) f = some e

-- A function of the group returns: with an error, or not.
abbrev pub as_failure : Bool → Failure → Option Failure
as_failure true f = some f
as_failure false f = none

abbrev pub at_place : ℕ → List ℕ → Option ℕ
at_place i [] = none
at_place zero (p ∷ ps) = some p
at_place (suc i) (p ∷ ps) = at_place i ps

abbrev pub without : ℕ → List ℕ → List ℕ
without i [] = []
without zero (p ∷ ps) = ps
without (suc i) (p ∷ ps) = p ∷ without i ps

pub data Event : Type 0 where
  parent_cancels : Event
  -- An error other than ErrServerClosed, or none.
  serve_returns : Bool → Event
  shutdown_returns : Bool → Event
  -- The i-th live process returns.
  process_returns : ℕ → ℕ → Bool → Event

-- What can happen, and what it does. The shutdown starts when the group context is done.
pub data Step : Supervisor → Event → Supervisor → Type 0 where
  on_parent : (s : Supervisor) → Step s parent_cancels (record s { cancelled = true })
  on_serve :
      (s : Supervisor) (failed : Bool)
      → s.serving ≡ true
      → Step s (serve_returns failed) (record s {
        serving = false;
        cancelled = true;
        failure = first s.failure (as_failure failed http_serve);
      })
  on_shutdown :
      (s : Supervisor) (failed : Bool)
      → s.cancelled ≡ true
      → s.shutting ≡ true
      → Step s (shutdown_returns failed) (record s {
        shutting = false;
        failure = first s.failure (as_failure failed http_shutdown);
      })
  on_process :
      (s : Supervisor) (i p : ℕ) (failed : Bool)
      → at_place i s.live ≡ some p
      → Step s (process_returns i p failed) (record s {
        live = without i s.live;
        cancelled = true;
        failure = first s.failure (as_failure failed (process p));
      })

-- `g.Wait` returns when every function has.
pub record Returned (s : Supervisor) : Type 0 where
  pub served : s.serving ≡ false
  pub shut : s.shutting ≡ false
  pub ended : s.live ≡ []

pub data Runs : Supervisor → List Event → Supervisor → Type 0 where
  here : (s : Supervisor) → Runs s [] s
  after :
      (s q r : Supervisor) (e : Event) (es : List Event)
      → Runs s es q
      → Step q e r
      → Runs s (e ∷ es) r
