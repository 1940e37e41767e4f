-- ===== src/Lib.antt =====
-- Verification of the webhook delivery system: a service that stores inbound webhooks, delivers them
-- with retries, and keeps undeliverable ones in a dead letter queue.
--
-- The parts and how they meet. `internal/store` keeps the authoritative tables: attempt rows
-- (delivery_logs), subscriptions and idempotency keys. `internal/subscription` puts a Redis cache in
-- front of the subscriptions and owns the per-subscription rate limiters and semaphores, which are
-- kept in `internal/infra/registry`. `internal/worker` delivers the attempts, and schedules a retry
-- after a delay that grows exponentially. `internal/infra/breaker` guards each target URL. `internal/api` is the
-- HTTP side: a signed ingest stores a row and queues it, and the routes of the operators, behind a
-- bearer key, manage subscriptions and dead letters.
--
-- Which file models which part:
--   Domain       internal/domain: entities, statuses, errors, the event filter
--   Store        internal/store. Sql holds the tables, the SQL statements and `inTx`; Lifecycle,
--                Recovery, Dlq and Subscriptions hold one function per repository method (snake case
--                of the Go name); History the histories of these operations; Chains, Extend, Lineage,
--                Invariant, Leases, Exclusion, Ingestion and Inserted the proofs
--   Cache        internal/subscription/state.go: one function per method of `State`; Coherence,
--                Effects, Reads, Mutations and Histories hold the proofs
--   Breaker      internal/infra/breaker/circuit_breaker.go; Sessions, Tripping; Spec the
--                specification that Refinement shows it to implement
--   RateLimit    internal/infra/ratelimit/token_bucket.go, and internal/infra/semaphore/semaphore.go
--                in RateLimit/Semaphore; Bounds
--   Registry     internal/infra/registry/registry.go; Laws
--   Backoff      `retryDelay` of internal/worker/retry.go; Curve
--   Redis        internal/infra/queue and internal/infra/scheduler; Moves
--   Worker       internal/worker/cleanup.go; Reconciled
--   Delivery     internal/worker/delivery.go: the deliverer's world, rescheduling and failures;
--                Process from its last step to its first; Permits; Attempt the request of
--                an attempt and what is kept of its response, with Details
--   Scan         the recovery pass of internal/worker/retry.go, whose two loops have fuel; Pages,
--                Progress, Coverage, Termination and Recovery the proofs
--   Http         internal/api/request.go and response.go: responses, statuses of errors, and numbers
--                and bodies from a request; Numbers, Clamping
--   Targets      `ValidateTargetURL` and the redirect policy of internal/infra/safedial; Schemes
--   Dialer       the address checks and the dialing of internal/infra/safedial; Vetting
--   Api          internal/api: Dto the representations, Verification `verifyIngest`, Ingest the
--                ingest handler with Admission and Durability, DeadLetters the replay and the
--                acknowledgement with Claims, Subscriptions, Cursor with Codec, Status with Totals,
--                Probes the health checks and the monitor, Admin the middleware and the routes
--                with Gate
--   Config       internal/config/config.go; Load, and Timeouts
--   Pool         internal/worker/pool.go as a step relation; Drain
--   Supervisor   internal/lifecycle/supervisor.go as a step relation; Shutdown
--   Uuid         internal/domain/uuid.go; Generation internal/infra/idgen/idgen.go
--   Signature    internal/infra/signature/hmac.go; Binding
-- The Tests modules run the models on concrete inputs.
--
-- How state and failures are modelled. A method that runs under a lock, or as one transaction, is one
-- step on an explicit state. A round trip to the database or to Redis has an outcome: done, refused
-- (nothing is applied), or lost (it is applied and the caller sees a failure). Times are nanoseconds,
-- given as arguments. Identifiers are numbers, since the code only compares and orders them; a text
-- is a list of bytes. Machine integers are natural numbers with their wrap-around written out.
-- A retry count or a loop is structural recursion on what is left; only the two loops of the recovery
-- pass have fuel: one round more than there are attempt rows is enough, since each page leaves fewer
-- rows past its cursor, and each batch fewer rows without a lease. The pages and batches of one pass
-- read the same tables, changed by the pass alone: transactions of others between its rounds, which
-- could make the pass of the source longer, are left out.
--
-- What is not in the repository is a parameter: the UUIDs and the clock of the database, what a
-- JSONB column keeps of a text, the random source, HMAC, SHA-256, base64, the text of times, the
-- parsing of URLs, the tests of an IP address and the resolver, JSON and UTF-8
-- validation, and the floating point product of the token bucket.
--
-- What is not modelled: the HTTP transport, internal/infra/metrics, the tickers of the periodic
-- workers, the wiring and the connection set-up of cmd/server and internal/store/db.go, and the
-- documentation pages. They are input and output, or rest on libraries that are not in the repository.
-- Interleavings inside one method of the circuit breaker, whose atomic accesses are separate, are not
-- modelled either, and a call of the deliverer runs without others meanwhile, so that the permit it
-- gives back is looked up in the registry. `Create` of the subscription state, whose insert precedes
-- the lock, is one step.
pub mod Prelude
pub mod Breaker
pub mod RateLimit
pub mod Registry
pub mod Backoff
pub mod Domain
pub mod Uuid
pub mod Store
pub mod Cache
pub mod Signature
pub mod Redis
pub mod Worker
pub mod Delivery
pub mod Scan
pub mod Http
pub mod Targets
pub mod Dialer
pub mod Api
pub mod Config
pub mod Pool
pub mod Supervisor
