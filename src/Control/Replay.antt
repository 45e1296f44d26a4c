-- ===== src/Control/Replay.antt =====
-- src/control/management.rs: calls under a request id that was used before.
use ops_light_secrets_server.Prelude.{◌≡◌}
use ops_light_secrets_server.Prelude.Order.{nat_ord}
use ops_light_secrets_server.Prelude.Result.{Result}
use ops_light_secrets_server.Control.Catalog.{ManagementCatalog}
use ops_light_secrets_server.Control.Service

-- The same identities and grants.
abbrev pub SameRows : ManagementCatalog → ManagementCatalog → Type 0
SameRows c d = (d.identities ≡ c.identities) × (d.grants ≡ c.grants)
