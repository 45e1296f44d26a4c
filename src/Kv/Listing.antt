-- ===== src/Kv/Listing.antt =====
-- src/kv.rs: `list`, the names one level below a prefix, and `metadata`, the view of an entry. The
-- JSON object that `metadata` builds is a record with a field for each of its keys.
use ops_light_secrets_server.Prelude.{
  ℕ, Bool, Option, none, some, List, [], ◌∷◌, ◌++◌, ltb, ◌==◌, if◌then◌else◌, is_empty, length,
  unwrap_or, map,
}
use ops_light_secrets_server.Prelude.Order.{nat_ord, list_ord}
use ops_light_secrets_server.Prelude.Text.{Text, text}
use ops_light_secrets_server.Prelude.Action.{◌>>=◌, ◌>>◌, pure, fail, lift, gets, modify}
use ops_light_secrets_server.BTreeMap
use ops_light_secrets_server.BTreeMap.{BTreeMap}
use ops_light_secrets_server.RawTarget.{EndpointRequest}
use ops_light_secrets_server.RawTarget
use ops_light_secrets_server.Identity.Request.{metadata_action, list_action}
use ops_light_secrets_server.Kv.Types.{
  KvCatalog, KvError, Entry, VersionValue, VersionState, state_destroyed, succeeded, failed,
  max_list_results, bound_exceeded,
}
use ops_light_secrets_server.Kv.Types
use ops_light_secrets_server.Kv.Catalog.{Kv, push_audit, entry_at}
use ops_light_secrets_server.Kv.Access.{
  validate_endpoint, logical_path, audit_event, authorize_operation,
}

-- A set of names, as the keys of a map.
abbrev pub BTreeSet : Type 0
BTreeSet = BTreeMap Text (Unit {0})

-- `strip_prefix`
unfoldable pub strip_prefix : Text → Text → Option Text
strip_prefix path [] = some path
strip_prefix [] (p ∷ prefix) = none
strip_prefix (c ∷ path) (p ∷ prefix) =
    let rest = strip_prefix path prefix in if c == p then rest else none

-- `split_once('/')`: what comes before the first slash, if there is one.
unfoldable pub before_slash : Text → Option Text
before_slash [] = none
before_slash (c ∷ rest) =
    let found = before_slash rest in
    if c == b'/' then some [] else elim found [ none ↦ none | some d ↦ some (c ∷ d) ]

-- The name a path below the prefix is listed under: a directory keeps its slash.
unfoldable pub listed_name : Text → Option Text
listed_name rest = if is_empty rest then none else elim (before_slash rest) [
  | some directory ↦ some (directory ++ (b'/' ∷ []))
  | none ↦ some rest
]

unfoldable pub name_under : Text → Text → Option Text
name_under prefix path = elim (strip_prefix path prefix) [
  | none ↦ none
  | some rest ↦ listed_name rest
]

unfoldable pub add_name : Option Text → BTreeSet → BTreeSet
add_name none found = found
add_name (some name) found = BTreeMap.insert name tt found

-- The loop over the paths; `none` when the names pass the limit.
unfoldable pub list_loop : Text → List Text → BTreeSet → Option BTreeSet
list_loop prefix [] found = some found
list_loop prefix (path ∷ rest) found =
    let now = add_name (name_under prefix path) found in
    let later = list_loop prefix rest now in
    if ltb max_list_results (length now) then none else later

unfoldable pub prefix_with_slash : Text → Text
prefix_with_slash prefix = if is_empty prefix then [] else prefix ++ (b'/' ∷ [])

unfoldable pub list_answer : ℕ → Text → Option BTreeSet → Kv (List Text)
list_answer identity_id prefix none = do
  modify (
      push_audit
        (audit_event identity_id prefix Types.list failed none (some (text "list-result-limit"))))
  fail (bound_exceeded (text "list_results"))
list_answer identity_id prefix (some found) = do
  modify (push_audit (audit_event identity_id prefix Types.list succeeded none none))
  pure (BTreeMap.keys found)

unfoldable pub list : ℕ → EndpointRequest → Kv (List Text)
list identity_id endpoint = do
  lift (validate_endpoint endpoint RawTarget.list)
  authorize_operation identity_id endpoint list_action
  paths ← gets (λ c. BTreeMap.keys c.entries)
  list_answer identity_id (logical_path endpoint)
      (list_loop (prefix_with_slash (logical_path endpoint)) paths [])

pub record VersionMetadata : Type 0 where
  pub created_time : ℕ
  pub deletion_time : Option ℕ
  pub destroyed : Bool

pub record Metadata : Type 0 where
  pub cas_required : Bool
  pub current_version : ℕ
  pub custom_metadata : BTreeMap Text Text
  pub delete_version_after : Text
  pub max_versions : ℕ
  pub oldest_version : ℕ
  pub versions : List (ℕ × VersionMetadata)

unfoldable pub version_metadata : ℕ × VersionValue → ℕ × VersionMetadata
version_metadata (version, value) = (
  version,
  record {
    created_time = value.created_unix_milliseconds;
    deletion_time = value.deletion_unix_milliseconds;
    destroyed = state_destroyed value.state;
  },
)

unfoldable pub metadata_view : Bool → Entry → Metadata
metadata_view mount_cas_required e = record {
  cas_required = unwrap_or e.cas_required mount_cas_required;
  current_version = e.current_version;
  custom_metadata = e.custom_metadata;
  delete_version_after = text "0s";
  max_versions = unwrap_or e.max_versions 0;
  oldest_version = unwrap_or (BTreeMap.first_key e.versions) 0;
  versions = map version_metadata e.versions;
}

unfoldable pub metadata : ℕ → EndpointRequest → Kv Metadata
metadata identity_id endpoint = do
  lift (validate_endpoint endpoint RawTarget.metadata)
  authorize_operation identity_id endpoint metadata_action
  e ← entry_at (logical_path endpoint)
  cas ← gets (λ c. c.mount_cas_required)
  modify (
      push_audit
        (audit_event identity_id (logical_path endpoint) Types.metadata_read succeeded none none))
  pure (metadata_view cas e)
