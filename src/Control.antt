-- ===== src/Control.antt =====
-- src/control/management.rs: the control plane.
pub mod Commands
pub mod Catalog
pub mod Views
pub mod Service
pub mod Explain
pub mod Steps
pub mod Effects
pub mod History
pub mod Rows
pub mod Authorization
pub mod Validity
pub mod Finality
pub mod Replay
pub mod Examples
