-- ===== src/Store.antt =====
-- internal/store: the PostgreSQL tables and the transactions on them.
pub mod Sql
pub mod Lifecycle
pub mod Recovery
pub mod Dlq
pub mod Subscriptions
pub mod Chains
pub mod Extend
pub mod History
pub mod Lineage
pub mod Invariant
pub mod Leases
pub mod Exclusion
pub mod Ingestion
pub mod Inserted
mod Tests
