-- ===== src/Lib.antt =====
-- Verification of ops-light-secrets-server, a single-node secrets server: identities with grants read
-- and write versioned secrets on the data plane; every access is authorised and audited; rotation and
-- purge are guarded ceremonies; a clock monitor keeps effective time from going back; a limiter
-- bounds the requests.
--
-- Parts, and the files that model them (paths of the code from the repository's root):
--   src/raw_target.rs  -> RawTarget.antt: the request types `Resource`, `EndpointKind`,
--     `EndpointRequest`; `Segment` is `decode_segment`; `Spelling`, `Canonical`
--     and `RoundTrip` prove.
--   src/identity.rs    -> Identity: `Capability` (the codes), `Records` (identities and grants with
--     their validation), `Request` (what a request asks for), `Authorize` (the decision of
--     `authorize`), `Token` (token records and the decision on a bearer). `Grants` and
--     `Token/Decision` prove.
--   src/kv.rs          -> Kv: `Types` (the state `KvCatalog` and its parts), `Catalog` (methods of
--     `KvCatalog`, `prune`), `Value` (bounds on a secret's JSON), `Access` (authorisation with its
--     audit), `Service` (`write`, `read`), `Listing` (`list`, `metadata`), `Mutations` (soft deletion,
--     undeletion, destruction, metadata), `Cutover` (the primitives of a rotation), `Purge`.
--     `Invariant`, `Preserves` and `History` prove the catalog's invariant over all calls, `Audit`
--     that the trail only grows, `Granted`, `Disclosure`, `Writes`, `Batch`, `Destruction`, `Purging` and
--     `Retention` what each operation does.
--   src/clock.rs       -> Clock: the monitor; `Effective` and `Watermark` prove.
--   src/rate_limit.rs  -> RateLimit: buckets and the table of drops, `Checks` the checks; `Buckets`,
--     `Aggregates`, `Limiter` and `Admissions` prove.
--   src/store/codec.rs -> Codec: `Encoder`, `Decoder` and, for a whole record, `Fields`; `Reads` and
--     `RoundTrip` prove.
--   src/store/mod.rs   -> Store: `Summary` is `VersionSetSummary`, `Sealed` the sealing and the
--     verification of clear records; `Keys` and `Validity` prove. `Classes` is `RecordClass` of
--     src/store/integrity.rs.
--   src/control/management.rs -> Control: `Commands` (the registry of commands and what each needs),
--     `Catalog` (the state `ManagementCatalog` and the steps its methods share), `Views` (what it
--     shows, and its pages), `Service` (the commands on identities and grants), `Explain`. `Steps` is a
--     step relation, `Effects` proves that each command makes one step; `Validity`, `Authorization`,
--     `Finality` and `Replay` prove, over the histories of `History`.
--   src/rotation.rs    -> Rotation: `Lifecycle` (records and their encoding), `Catalog` (the state and
--     the steps the methods share), `Service` (begin, refresh, cutover, cancel, rollback,
--     supersede), `Reads` and `Adoption` (`classify_adoption`), `Closeout` (complete), `Overview`
--     (show, status, list), `Interval`. `Moves` is the lifecycle as a step relation, `Guards` and
--     `Effects` prove that each method makes one move; `Lives`, `Progress`, `Closing`, `Repeats`,
--     `Uptake`, `Rollup`, `Current` and `Settled` prove, over the histories of `History`. A rotation
--     works on the secrets by `Kv.Cutover`, is authorised and audited by `Control.Catalog`, and is
--     stored as a `Store.Sealed` record.
-- Prelude and BTreeMap hold what the parts share: results, actions that change a state and may fail,
-- invariants (`Keeps`), inversions (`Ends`) and outcomes (`Leads`) of actions, ordered maps.
--
-- Correspondence. A method on `&mut self` is an action: the state goes in, a result and the state come
-- out, also when it fails, so what was written before an error stays written. A method of `KvService`
-- holds the lock of its catalog and is one step; the two writes of a rotation lock twice, and their
-- second half is a step of its own too. A `u64` is a natural number with `checked_add` and
-- `saturating_add` at 2^64, and a count that wraps is taken modulo 2^64; a `String` is the list of its
-- UTF-8 bytes; an id of 16 bytes is a number; a number of
-- JSON is one of the three kinds of serde_json; a `Duration` is its nanoseconds; a `BTreeMap` is a list in
-- the order of its keys. A `World` is a catalog of rotations beside the control plane and the secrets
-- that its methods are given; between two of its methods, though not within one, anything may happen
-- to those two (`elsewhere`). The pruning loop runs on fuel, the number of versions, which is enough since
-- each round removes one.
--
-- Parameters, with what is assumed of them: `Json` (serde_json's `to_vec` and `from_slice`: no
-- assumption, a condition on the one value where it is needed), BLAKE3 (no assumption, also
-- where `Mac` keeps a key for it), the audit of a boot override (no assumption).
--
-- Not modelled: poisoned locks, HTTP and TLS, files and processes, the rest of the record store,
-- `String` fields of the codec, cryptography, backups and migration, the socket of the control
-- plane and the check of its stored catalog, the decoding of stored rotations, the routes and
-- queries of raw targets and the digest in their errors, the parsing of JSON request bodies.
pub mod Prelude
pub mod BTreeMap
pub mod RawTarget
pub mod Identity
pub mod Kv
pub mod Clock
pub mod Codec
pub mod Store
pub mod Control
pub mod Rotation
pub mod RateLimit
