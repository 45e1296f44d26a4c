-- ===== src/RawTarget.antt =====
-- src/raw_target.rs: the request types that every data-plane component takes.
pub mod Segment
pub mod Spelling
pub mod Canonical
pub mod RoundTrip
pub mod Examples
use ops_light_secrets_server.Prelude.{ℕ, Bool, Option, List, ◌==◌, ◌&&◌}
use ops_light_secrets_server.Prelude.Text.{Text, text_eq, texts_eq}

pub record Resource : Type 0 where
  pub mount : Text
  pub canonical_segments : List Text

-- The derived `PartialEq` of `Resource`.
abbrev pub resource_eq : Resource → Resource → Bool
resource_eq a b = text_eq a.mount b.mount && texts_eq a.canonical_segments b.canonical_segments

pub data EndpointKind : Type 0 where
  data_kind metadata list delete undelete destroy : EndpointKind

abbrev pub kind_code : EndpointKind → ℕ
kind_code data_kind = 0
kind_code metadata = 1
kind_code list = 2
kind_code delete = 3
kind_code undelete = 4
kind_code destroy = 5

-- The derived `PartialEq` of `EndpointKind`.
abbrev pub kind_eq : EndpointKind → EndpointKind → Bool
kind_eq a b = kind_code a == kind_code b

pub record EndpointRequest : Type 0 where
  pub kind : EndpointKind
  pub resource : Resource
  pub version : Option ℕ
