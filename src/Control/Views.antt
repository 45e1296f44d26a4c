-- ===== src/Control/Views.antt =====
-- src/control/management.rs: what the control plane shows, and the pages of its lists.
use ops_light_secrets_server.Prelude.{
  ℕ, suc, zero, ◌+◌, ◌-◌, ◌/◌, ◌%◌, Bool, true, ◌&&◌, Option, none, some, List, [], ◌∷◌, ltb, leb,
  map, select, if◌then◌else◌,
}
use ops_light_secrets_server.Prelude.Text.{Text, text}
use ops_light_secrets_server.Prelude.Words.{be_bytes_of}
use ops_light_secrets_server.Prelude.Result.{Result, ok, err}
use ops_light_secrets_server.BTreeMap.{BTreeMap}
use ops_light_secrets_server.Identity.Capability.{as_u16}
use ops_light_secrets_server.Identity.Records.{
  IdentityRecord, IdentityKind, IdentityStatus, GrantRecord, GrantStatus, GrantScope, human,
  workload, retired, removed, exact, subtree,
}
use ops_light_secrets_server.Control.Catalog.{ManagementError, limit}

abbrev pub management_output_schema : ℕ
management_output_schema = 1

abbrev pub max_page_size : ℕ
max_page_size = 100

abbrev pub hex_digit : ℕ → ℕ
hex_digit n = if ltb n 10 then b'0' + n else b'a' + (n - 10)

-- `format!("{byte:02x}")`, joined.
abbrev pub hex : List ℕ → Text
hex [] = []
hex (byte ∷ rest) = hex_digit (byte / 16) ∷ hex_digit (byte % 16) ∷ hex rest

abbrev pub encode_id : ℕ → Text
encode_id value = hex (be_bytes_of 16 value)

pub record IdentityView : Type 0 where
  pub id : Text
  pub name : Text
  pub kind : Text
  pub status : Text
  pub generation : ℕ

abbrev pub kind_label : IdentityKind → Text
kind_label human = text "human"
kind_label workload = text "workload"

abbrev pub status_label : IdentityStatus → Text
status_label IdentityStatus.active = text "active"
status_label retired = text "disabled"

-- `From<&IdentityRecord>`
unfoldable pub identity_view : IdentityRecord → IdentityView
identity_view value = record {
  id = encode_id value.id;
  name = value.name;
  kind = kind_label value.kind;
  status = status_label value.status;
  generation = value.generation;
}

pub record GrantView : Type 0 where
  pub id : Text
  pub owner_identity_id : Text
  pub generation : ℕ
  pub status : Text
  pub mount : Text
  pub scope : Text
  pub prefix_segments : List Text
  pub capabilities : List ℕ

abbrev pub grant_status_label : GrantStatus → Text
grant_status_label GrantStatus.active = text "active"
grant_status_label removed = text "removed"

abbrev pub scope_label : GrantScope → Text
scope_label exact = text "exact"
scope_label subtree = text "subtree"

-- `From<&GrantRecord>`
unfoldable pub grant_view : GrantRecord → GrantView
grant_view value = record {
  id = encode_id value.id;
  owner_identity_id = encode_id value.owner_identity_id;
  generation = value.generation;
  status = grant_status_label value.status;
  mount = value.mount;
  scope = scope_label value.scope;
  prefix_segments = value.prefix_segments;
  capabilities = map as_u16 value.capabilities;
}

pub record Page (V : Type 0) : Type 0 where
  pub schema : ℕ
  pub items : List V
  pub next_cursor : Option Text

-- `cursor.is_none_or(|cursor| **id > cursor)`
abbrev pub after_cursor : Option ℕ → ℕ → Bool
after_cursor none id = true
after_cursor (some cursor) id = ltb cursor id

abbrev pub eligible : {R : Type 0} → BTreeMap ℕ R → Option ℕ → BTreeMap ℕ R
eligible values cursor = select (λ row. after_cursor cursor row.0) values

abbrev pub cursor_of : {R : Type 0} → BTreeMap ℕ R → Option ℕ → Option Text
cursor_of [] last = none
cursor_of (row ∷ rows) none = none
cursor_of (row ∷ rows) (some id) = some (encode_id id)

-- A page of what was taken and left.
abbrev pub page_of : {R V : Type 0} → List V × Option ℕ × BTreeMap ℕ R → Page V
page_of taken = record {
  schema = management_output_schema;
  items = taken.0;
  next_cursor = cursor_of taken.2 taken.1;
}

module _ {R V : Type 0} where
  -- `by_ref().take(limit)`: what is taken, the last id of it, and what is left.
  unfoldable pub take_page :
      (R → V) → ℕ → Option ℕ → BTreeMap ℕ R → List V × Option ℕ × BTreeMap ℕ R
  take_page render zero last rows = ([], last, rows)
  take_page render (suc n) last [] = ([], last, [])
  take_page render (suc n) last ((id, value) ∷ rows) =
      let rest = take_page render n (some id) rows in (render value ∷ rest.0, rest.1, rest.2)

  unfoldable pub page : BTreeMap ℕ R → Option ℕ → ℕ → (R → V) → Result ManagementError (Page V)
  page values cursor count render =
      if leb 1 count && leb count max_page_size
      then ok (page_of (take_page render count none (eligible values cursor)))
      else err limit
