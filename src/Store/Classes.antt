-- ===== src/Store/Classes.antt =====
-- src/store/integrity.rs: the classes of clear records, and the codes that go into a record's tag.
use ops_light_secrets_server.Prelude.{ℕ}
use ops_light_secrets_server.Prelude.Text.{Text, text}

pub data RecordClass : Type 0 where
  provisional_meta schema_metadata clock_high_water keyring_metadata : RecordClass
  pending_anchor secret_metadata identity grant credential_metadata rotation_state : RecordClass
  consumer_declaration maintenance_marker rewrite_job recovery_reserve_metadata : RecordClass
  checkpoint_trust_metadata : RecordClass

unfoldable pub code : RecordClass → ℕ
code provisional_meta = 1
code schema_metadata = 2
code clock_high_water = 3
code keyring_metadata = 4
code pending_anchor = 5
code secret_metadata = 6
code identity = 7
code grant = 8
code credential_metadata = 9
code rotation_state = 10
code consumer_declaration = 11
code maintenance_marker = 12
code rewrite_job = 13
code recovery_reserve_metadata = 14
code checkpoint_trust_metadata = 15

unfoldable pub table_code : RecordClass → ℕ
table_code provisional_meta = 1
table_code schema_metadata = 1
table_code clock_high_water = 1
table_code keyring_metadata = 1
table_code pending_anchor = 1
table_code secret_metadata = 2
table_code identity = 3
table_code grant = 4
table_code credential_metadata = 5
table_code rotation_state = 6
table_code consumer_declaration = 7
table_code maintenance_marker = 8
table_code rewrite_job = 9
table_code recovery_reserve_metadata = 10
table_code checkpoint_trust_metadata = 11

unfoldable pub domain : RecordClass → Text
domain provisional_meta = text "provisional-meta.v1"
domain schema_metadata = text "schema-metadata.v1"
domain clock_high_water = text "clock-high-water.v1"
domain keyring_metadata = text "keyring-metadata.v1"
domain pending_anchor = text "pending-anchor.v1"
domain secret_metadata = text "secret-metadata.v1"
domain identity = text "identity.v1"
domain grant = text "grant.v1"
domain credential_metadata = text "credential-metadata.v1"
domain rotation_state = text "rotation-state.v1"
domain consumer_declaration = text "consumer-declaration.v1"
domain maintenance_marker = text "maintenance-marker.v1"
domain rewrite_job = text "rewrite-job.v1"
domain recovery_reserve_metadata = text "recovery-reserve-metadata.v1"
domain checkpoint_trust_metadata = text "checkpoint-trust-metadata.v1"
