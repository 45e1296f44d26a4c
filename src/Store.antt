-- ===== src/Store.antt =====
-- src/store: the parts of the record store that are modelled.
pub mod Summary
pub mod Keys
pub mod Validity
pub mod Classes
pub mod Sealed
pub mod Examples
