-- ===== src/Rotation.antt =====
-- src/rotation.rs: rotations of a secret, from their preparation to their end.
pub mod Lifecycle
pub mod Catalog
pub mod Service
pub mod Reads
pub mod Adoption
pub mod Closeout
pub mod Overview
pub mod Moves
pub mod Guards
pub mod Effects
pub mod History
pub mod Lives
pub mod Progress
pub mod Closing
pub mod Repeats
pub mod Uptake
pub mod Rollup
pub mod Current
pub mod Settled
pub mod Interval
pub mod Examples
