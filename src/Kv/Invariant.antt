-- ===== src/Kv/Invariant.antt =====
-- The invariant of the catalog, and that every method keeps it, whether it succeeds or fails.
use ops_light_secrets_server.Prelude.{
  ℕ, ◌≤◌, ◌≡◌, ◌≢◌, refl, subst, ◌⊎◌, inl, inr, Bool, true, false, Option, none, some, arith,
  length, unwrap_or, Bool-cases, checked_add,
}
use ops_light_secrets_server.Prelude.Order.{nat_ord, list_ord}
use ops_light_secrets_server.Prelude.Text.{Text, text_eq}
use ops_light_secrets_server.BTreeMap.{BTreeMap, get, insert, remove}
use ops_light_secrets_server.BTreeMap.Laws.{get-insert, get-remove}
use ops_light_secrets_server.BTreeMap.Order.{IsSorted, insert-IsSorted}
use ops_light_secrets_server.BTreeMap.All.{All, insert-All, All-imp, All-get}
use ops_light_secrets_server.Kv.Types.{KvCatalog, VersionValue, Entry, new_entry}
use ops_light_secrets_server.Kv.Catalog.{evictable, prune_entry, set_entry}
use ops_light_secrets_server.Kv.Retention.{prune_loop-IsSorted, prune_loop-All, get-prune_loop_kept}

-- A protected version is one of the versions.
abbrev pub Guarded : Option ℕ → BTreeMap ℕ VersionValue → Type 0
Guarded none versions = Unit
Guarded (some v) versions = get v versions ≢ none

-- The versions come in order, are numbered from 1 and none is past the current one; the protected
-- version is there.
pub record EntryOk (e : Entry) : Type 0 where
  pub sorted : IsSorted e.versions
  pub numbered : All (λ v _. (1 ≤ v) × (v ≤ e.current_version)) e.versions
  pub guarded : Guarded e.protected_version e.versions

-- Every entry of the catalog is well formed.
pub record CatalogOk (c : KvCatalog) : Type 0 where
  pub at_path : (path : Text) (e : Entry) → get path c.entries ≡ some e → EntryOk e

pub new_entry-EntryOk : (cas : Option Bool) → EntryOk (new_entry cas)
unfolding new_entry
new_entry-EntryOk cas = record { sorted = tt; numbered = tt; guarded = tt }

pub set_entry-CatalogOk :
    (path : Text) (e : Entry) (c : KvCatalog)
    → EntryOk e
    → CatalogOk c
    → CatalogOk (set_entry path e c)
set_entry-CatalogOk path e c valid h = record {
  at_path = λ p x found. put p x found (Bool-cases (text_eq path p));
}
  where
    put :
        (p : Text) (x : Entry)
        → get p (insert path e c.entries) ≡ some x
        → (text_eq path p ≡ true) ⊎ (text_eq path p ≡ false)
        → EntryOk x
    put p x found (inl same) = subst EntryOk (ground (arith, get-insert path p e c.entries)) valid
    put p x found (inr other) = h.at_path p x (ground (arith, get-insert path p e c.entries))

guarded_evictable : (v c : ℕ) → evictable (some v) c v ≡ false
guarded_evictable v c = ground arith

prune_entry-Guarded :
    (p : Option ℕ) (mount_max : ℕ) (e : Entry)
    → e.protected_version ≡ p
    → Guarded p e.versions
    → Guarded p (prune_entry mount_max e).versions
unfolding prune_entry
prune_entry-Guarded none mount_max e eq g = tt
prune_entry-Guarded (some v) mount_max e eq g =
    rw
      (get-prune_loop_kept e.protected_version e.current_version v (length e.versions)
        (unwrap_or e.max_versions mount_max) e.versions
        (rw eq (guarded_evictable v e.current_version)))
      g

pub prune_entry-EntryOk :
    (mount_max : ℕ) (e : Entry) → EntryOk e → EntryOk (prune_entry mount_max e)
prune_entry-EntryOk mount_max e h = record {
  sorted = unfold prune_entry in prune_loop-IsSorted _ _ _ _ _ h.sorted;
  numbered = unfold prune_entry in prune_loop-All _ _ _ _ _ _ h.numbered;
  guarded =
      unfold prune_entry in prune_entry-Guarded e.protected_version mount_max e refl h.guarded;
}

insert-Guarded :
    (p : Option ℕ) (k : ℕ) (v : VersionValue) (vs : BTreeMap ℕ VersionValue)
    → Guarded p vs
    → Guarded p (insert k v vs)
insert-Guarded none k v vs g = tt
insert-Guarded (some j) k v vs g = ground (arith, get-insert k j v vs)

-- A version one past the current one.
pub append-EntryOk :
    (e : Entry) (version generation : ℕ) (value : VersionValue)
    → EntryOk e
    → checked_add e.current_version 1 ≡ some version
    → EntryOk (record e {
      current_version = version;
      metadata_generation = generation;
      versions = insert version value e.versions;
    })
append-EntryOk e version generation value h next = record {
  sorted = insert-IsSorted version value e.versions h.sorted;
  numbered =
      insert-All _ version value e.versions (ground arith)
        (All-imp _ _ e.versions (λ k _ b. (b.0, ground arith)) h.numbered);
  guarded = insert-Guarded e.protected_version version value e.versions h.guarded;
}

pub bump-EntryOk :
    (e : Entry) (version : ℕ)
    → EntryOk e
    → checked_add e.current_version 1 ≡ some version
    → EntryOk (record e { current_version = version })
bump-EntryOk e version h next = record {
  sorted = h.sorted;
  numbered = All-imp _ _ e.versions (λ k _ b. (b.0, ground arith)) h.numbered;
  guarded = h.guarded;
}

-- A change of one version's value in place.
pub replace-EntryOk :
    (e : Entry) (version : ℕ) (old value : VersionValue)
    → EntryOk e
    → get version e.versions ≡ some old
    → EntryOk (record e { versions = insert version value e.versions })
replace-EntryOk e version old value h found = record {
  sorted = insert-IsSorted version value e.versions h.sorted;
  numbered =
      insert-All _ version value e.versions (All-get _ version e.versions h.numbered found)
        h.numbered;
  guarded = insert-Guarded e.protected_version version value e.versions h.guarded;
}

-- The fields that the invariant does not speak of.
pub settings-EntryOk :
    (e : Entry) (generation : ℕ) (cas : Option Bool) (max : Option ℕ) (known deferred : Bool)
    (custom : BTreeMap Text Text)
    → EntryOk e
    → EntryOk (record e {
      metadata_generation = generation;
      cas_required = cas;
      max_versions = max;
      protection_known = known;
      retention_deferred = deferred;
      custom_metadata = custom;
    })
settings-EntryOk e generation cas max known deferred custom h = record {
  sorted = h.sorted;
  numbered = h.numbered;
  guarded = h.guarded;
}

pub protect-EntryOk :
    (e : Entry) (version : Option ℕ) (known : Bool) (generation : ℕ)
    → EntryOk e
    → Guarded version e.versions
    → EntryOk (record e {
      protected_version = version;
      protection_known = known;
      metadata_generation = generation;
    })
protect-EntryOk e version known generation h g = record {
  sorted = h.sorted;
  numbered = h.numbered;
  guarded = g;
}

pub remove-CatalogOk :
    (path : Text) (c : KvCatalog)
    → CatalogOk c
    → CatalogOk (record c { entries = remove path c.entries })
remove-CatalogOk path c h = record {
  at_path = λ p x found. h.at_path p x (ground (arith, get-remove path p c.entries));
}
