-- ===== src/Kv.antt =====
-- src/kv.rs: the versioned secret store behind the data plane, with its audit trail.
-- `Types` is the state, `Catalog` the methods of `KvCatalog`, `Service` those of `KvService` on one
-- path, `Mutations` the version and metadata updates, `Purge` and `Cutover` the guarded ceremonies,
-- `Value` the bounds on a secret's JSON. The other children prove.
pub mod Types
pub mod Catalog
pub mod Value
pub mod Access
pub mod Service
pub mod Mutations
pub mod Cutover
pub mod Listing
pub mod Purge
pub mod Retention
pub mod Invariant
pub mod Preserves
pub mod History
pub mod Examples
pub mod Granted
pub mod Disclosure
pub mod Writes
pub mod Audit
pub mod Batch
pub mod Destruction
pub mod Purging
