-- ===== src/Identity.antt =====
-- src/identity.rs: capabilities, identities, grants, and the authorisation of a request.
-- An id `[u8; 16]` is the number that its bytes spell, most significant first, so `[0; 16]` is 0
-- and the derived order is that of the numbers; a `BTreeSet<Capability>` is a list of capabilities.
pub mod Examples
pub mod Capability
pub mod Records
pub mod Request
pub mod Authorize
pub mod Token
pub mod Grants
