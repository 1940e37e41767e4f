-- ===== src/Supervisor/Tests.antt =====
-- A run of internal/lifecycle/supervisor.go: a process fails, the server is shut down, and the supervisor
-- reports the process.
use webhook_delivery_system.Prelude.{◌≡◌, ◌⊎◌, refl, true, false, some, List, [], ◌∷◌}
use webhook_delivery_system.Supervisor.{
  process, Supervisor, begin, Event, serve_returns, shutdown_returns, process_returns, on_serve,
  on_shutdown, on_process, Runs, here, after,
}
use webhook_delivery_system.Supervisor.Shutdown.{first_error, begin_supervised}

abbrev ended : Supervisor
ended = record {
  cancelled = true;
  serving = false;
  shutting = false;
  live = [];
  failure = some (process 4);
}

abbrev events : List Event
events = serve_returns false ∷ shutdown_returns true ∷ process_returns 0 4 true ∷ []

failed : Runs (begin (4 ∷ [])) events ended
failed =
    after _ _ _ _ _
      (after _ _ _ _ _ (after _ _ _ _ _ (here (begin (4 ∷ []))) (on_process _ 0 4 true refl))
        (on_shutdown _ true refl refl))
      (on_serve _ false refl)

begin_supervised_example :
    ((ended.cancelled ≡ true)
      ⊎ ((ended.serving ≡ true) × (ended.shutting ≡ true) × (ended.live ≡ 4 ∷ [])))
    × (ended.failure ≡ first_error events)
begin_supervised_example = begin_supervised (4 ∷ []) ended events failed
