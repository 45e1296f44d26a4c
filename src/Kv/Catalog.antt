-- ===== src/Kv/Catalog.antt =====
-- src/kv.rs: the methods of `KvCatalog`, and the pruning loop.
use ops_light_secrets_server.Prelude.{
  ℕ, zero, suc, Bool, true, false, not, ◌&&◌, Option, none, some, List, [], ◌∷◌, ◌++◌, leb, ◌==◌,
  length, find, checked_add, unwrap_or, option_eq,
}
use ops_light_secrets_server.Prelude.Order.{nat_ord, list_ord}
use ops_light_secrets_server.Prelude.Text.{Text}
use ops_light_secrets_server.Prelude.Result.{ok}
use ops_light_secrets_server.Prelude.Action.{Action, ◌>>=◌, ◌>>◌, gets, modify, some_or, refuse}
use ops_light_secrets_server.BTreeMap
use ops_light_secrets_server.BTreeMap.{BTreeMap}
use ops_light_secrets_server.Identity.Records.{GrantRecord}
use ops_light_secrets_server.Kv.Types.{
  VersionState, VersionValue, Entry, KvCatalog, KvError, KvAuditEvent, new_entry,
  max_versions_limit, EffectiveCasRequired, EffectiveMaxVersions, CasSource, MaxVersionsSource,
  invalid, not_found, internal,
}

abbrev pub Kv : Type 0 → Type 0
Kv A = Action KvCatalog KvError A

abbrev pub set_entry : Text → Entry → KvCatalog → KvCatalog
set_entry path e c = record c { entries = BTreeMap.insert path e c.entries }

abbrev pub push_audit : KvAuditEvent → KvCatalog → KvCatalog
push_audit event c = record c { audit = c.audit ++ event ∷ [] }

-- `self.entries.get(path).ok_or(KvError::NotFound)?`
unfoldable pub entry_at : Text → Kv Entry
entry_at path c = some_or (BTreeMap.get path c.entries) not_found c

-- `self.entries.entry(path).or_insert_with(new)`
unfoldable pub entry_or_insert : Text → Entry → Kv Entry
entry_or_insert path new c = elim (BTreeMap.get path c.entries) [
  | none ↦ (ok new, set_entry path new c)
  | some e ↦ (ok e, c)
]

-- `self.entries.get_mut(path)`, written back.
abbrev pub put_entry : Text → Entry → Kv (Unit {0})
put_entry path e = modify (set_entry path e)

-- `checked_add(1).ok_or(KvError::Internal)?`
abbrev pub next_u64 : ℕ → Kv ℕ
next_u64 n = some_or (checked_add n 1) internal

unfoldable pub replace_grants : List GrantRecord → KvCatalog → KvCatalog
replace_grants grants c = record c { grants = grants }

unfoldable pub set_mount_cas_required : Bool → KvCatalog → KvCatalog
set_mount_cas_required value c = record c { mount_cas_required = value }

unfoldable pub set_effective_unix_milliseconds : ℕ → KvCatalog → KvCatalog
set_effective_unix_milliseconds value c = record c { effective_unix_milliseconds = value }

-- `(1..=MAX_VERSIONS).contains(&value)`
abbrev pub max_versions_in_range : ℕ → Bool
max_versions_in_range value = leb 1 value && leb value max_versions_limit

unfoldable pub set_mount_max_versions : ℕ → Kv (Unit {0})
set_mount_max_versions value = do
  refuse (not (max_versions_in_range value)) invalid
  modify (λ c. record c { mount_max_versions = value })

unfoldable pub set_path_cas_required : Text → Option Bool → Kv (Unit {0})
set_path_cas_required path value = do
  e ← entry_or_insert path (new_entry value)
  put_entry path (record e { cas_required = value })

abbrev pub out_of_range : Option ℕ → Bool
out_of_range none = false
out_of_range (some value) = not (max_versions_in_range value)

unfoldable pub set_path_max_versions : Text → Option ℕ → Kv (Unit {0})
set_path_max_versions path value = do
  refuse (out_of_range value) invalid
  e ← entry_or_insert path (new_entry none)
  put_entry path (record e { max_versions = value })

-- A version that may be pruned: neither protected nor current.
abbrev pub evictable : Option ℕ → ℕ → ℕ → Bool
evictable protected current v = not (option_eq (some v) protected) && not (v == current)

-- The oldest version that is neither protected nor current.
unfoldable pub prune_candidate : Option ℕ → ℕ → BTreeMap ℕ VersionValue → Option ℕ
prune_candidate protected current versions =
    find (evictable protected current) (BTreeMap.keys versions)

-- The `while` loop of `prune`: what is left, and whether it had to stop over the limit. Each round
-- removes a version, so the number of versions is fuel enough.
unfoldable pub prune_loop :
    ℕ → ℕ → Option ℕ → ℕ → BTreeMap ℕ VersionValue → BTreeMap ℕ VersionValue × Bool
prune_loop zero max protected current versions = (versions, false)
prune_loop (suc fuel) max protected current versions = elim (leb (length versions) max) [
  | true ↦ (versions, false)
  | false ↦ elim (prune_candidate protected current versions) [
    | none ↦ (versions, true)
    | some oldest ↦ prune_loop fuel max protected current (BTreeMap.remove oldest versions)
  ]
]

unfoldable pub prune_entry : ℕ → Entry → Entry
prune_entry mount_max e =
    let left =
      prune_loop (length e.versions) (unwrap_or e.max_versions mount_max) e.protected_version
        e.current_version e.versions in
    record e { versions = left.0; retention_deferred = left.1 }

unfoldable pub prune : Text → Kv (Unit {0})
prune path = do
  e ← entry_at path
  mount_max ← gets (λ c. c.mount_max_versions)
  put_entry path (prune_entry mount_max e)

abbrev pub missing_version : Option ℕ → BTreeMap ℕ VersionValue → Bool
missing_version none versions = false
missing_version (some v) versions = not (BTreeMap.contains_key v versions)

unfoldable pub set_rotation_protection : Text → Option ℕ → Kv (Unit {0})
set_rotation_protection path version = do
  e ← entry_at path
  refuse (missing_version version e.versions) not_found
  put_entry path (record e { protected_version = version; protection_known = true })
  generation ← next_u64 e.metadata_generation
  put_entry path (record e {
    protected_version = version;
    protection_known = true;
    metadata_generation = generation;
  })
  prune path

unfoldable pub set_unknown_rotation_protection : Text → Kv (Unit {0})
set_unknown_rotation_protection path = do
  e ← entry_at path
  put_entry path (record e { protection_known = false })

unfoldable pub retention_deferred_by_rotation : Text → KvCatalog → Bool
retention_deferred_by_rotation path c = elim (BTreeMap.get path c.entries) [
  | none ↦ false
  | some e ↦ e.retention_deferred
]

abbrev pub path_cas : Option Entry → Option Bool
path_cas none = none
path_cas (some e) = e.cas_required

unfoldable pub effective_cas_required : Text → KvCatalog → EffectiveCasRequired
effective_cas_required path c = elim (path_cas (BTreeMap.get path c.entries)) [
  | some effective ↦ record { effective = effective; source = CasSource.path_override }
  | none ↦ record { effective = c.mount_cas_required; source = CasSource.mount_default }
]

abbrev pub path_max : Option Entry → Option ℕ
path_max none = none
path_max (some e) = e.max_versions

unfoldable pub effective_max_versions : Text → KvCatalog → EffectiveMaxVersions
effective_max_versions path c = elim (path_max (BTreeMap.get path c.entries)) [
  | some effective ↦ record { effective = effective; source = MaxVersionsSource.path_override }
  | none ↦ record { effective = c.mount_max_versions; source = MaxVersionsSource.mount_default }
]

unfoldable pub set_version_state : Text → ℕ → VersionState → Kv (Unit {0})
set_version_state path version state = do
  e ← entry_at path
  value ← some_or (BTreeMap.get version e.versions) not_found
  put_entry path
      (record e { versions = BTreeMap.insert version (record value { state = state }) e.versions })

unfoldable pub current_version : Text → KvCatalog → Option ℕ
current_version path c = elim (BTreeMap.get path c.entries) [
  | none ↦ none
  | some e ↦ some e.current_version
]

unfoldable pub fail_next_read : KvCatalog → KvCatalog
fail_next_read c = record c { fail_next_read_audit_commit = true }

unfoldable pub fail_next_purge : KvCatalog → KvCatalog
fail_next_purge c = record c { fail_next_purge_audit_commit = true }
