-- ===== src/Delivery/Tests.antt =====
-- A run of the deliverer of internal/worker/delivery.go.
use webhook_delivery_system.Prelude.{some}
use webhook_delivery_system.Delivery.Fixtures.{config, calls, world}
use webhook_delivery_system.Delivery.Process.{process}
use webhook_delivery_system.Delivery.Permits.{Settles, process-returns}

process-returns_example : Settles world.state.semaphores (process config (calls (some 500)) 2 world)
process-returns_example = process-returns config (calls (some 500)) 2 world
