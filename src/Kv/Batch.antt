-- ===== src/Kv/Batch.antt =====
-- src/kv.rs: the loop of a mutation over the versions it names, and the events it leaves.
use mathlib.Core.List.{append-nil, append_assoc}
use ops_light_secrets_server.Prelude.{
  ℕ, ◌≡◌, sym, ap, ◌∙◌, subst, inl, inr, Bool, true, false, none, some, List, [], ◌∷◌, ◌++◌, arith,
  any, Bool-cases, ◌==◌,
}
use ops_light_secrets_server.Prelude.Order.{nat_ord, list_ord}
use ops_light_secrets_server.Prelude.Text.{Text}
use ops_light_secrets_server.Prelude.Result.{ok}
use ops_light_secrets_server.Prelude.Action.{Action, ◌>>=◌}
use ops_light_secrets_server.Prelude.Ends.{
  Ends, Ends-bind, Ends-pure, lift_bind-Ends, gets_bind-Ends, some_or_bind-Ends,
}
use ops_light_secrets_server.BTreeMap.{get, insert}
use ops_light_secrets_server.BTreeMap.Laws.{get-insert, get-insert_self}
use ops_light_secrets_server.Identity.Request.{SecretAction}
use ops_light_secrets_server.Kv.Types.{
  KvCatalog, KvError, KvAuditEvent, KvAuditOperation, VersionValue, Entry, succeeded, not_found,
}
use ops_light_secrets_server.Kv.Catalog.{Kv, entry_at}
use ops_light_secrets_server.Kv.Access.{audit_event}
use ops_light_secrets_server.Kv.Value.{has_duplicate}
use ops_light_secrets_server.Prelude.{map, ◌⊎◌}
use ops_light_secrets_server.Kv.Mutations.{
  Versions, mutate_at, mutate_loop, mutate_value, audit_versions,
}
use ops_light_secrets_server.Prelude.Ends.{Ends-modify}

abbrev pub named : ℕ → List ℕ → Bool
named v versions = any (λ w. v == w) versions

-- A named version is there and takes the value that the action makes of it; the others stay.
pub record Mutated (action : SecretAction) (now : ℕ) (versions : List ℕ) (m n : Versions)
    : Type 0 where
  pub changed :
      (v : ℕ)
      → named v versions ≡ true
      → (old : VersionValue) × (new : VersionValue) × (get v m ≡ some old)
        × (mutate_value action now old ≡ ok new)
        × (get v n ≡ some new)
  pub same : (v : ℕ) → named v versions ≡ false → get v n ≡ get v m

mutate_at-Ends :
    (action : SecretAction) (now version : ℕ) (f : Unit {0} → Action Versions KvError (Unit {0}))
    {m n : Versions} {b : Unit {0}}
    → Ends (mutate_at action now version >>= f) m b n
    → (old : VersionValue) × (new : VersionValue) × (get version m ≡ some old)
      × (mutate_value action now old ≡ ok new)
      × Ends (f tt) (insert version new m) b n
mutate_at-Ends action now version f {m} {n} {b} h =
    let (_, u, k, rest) = Ends-bind _ _ h in
    let (old, e, k1) = some_or_bind-Ends _ _ _ (gets_bind-Ends _ _ k) in
    let (new, e1, k2) = lift_bind-Ends _ _ k1 in
    (old, new, e, e1, subst (λ x. Ends (f tt) x b n) (Ends-modify _ k2) rest)

Mutated-cons :
    (action : SecretAction) (now version : ℕ) (rest : List ℕ) (m n : Versions)
    (old new : VersionValue)
    → get version m ≡ some old
    → mutate_value action now old ≡ ok new
    → named version rest ≡ false
    → Mutated action now rest (insert version new m) n
    → Mutated action now (version ∷ rest) m n
Mutated-cons action now version rest m n old new e f fresh h = record {
  changed = λ v hit. at v hit (Bool-cases (v == version));
  same = λ v miss. ground (arith, h.same v, get-insert version v new m);
}
  where
    at :
        (v : ℕ)
        → named v (version ∷ rest) ≡ true
        → (((v == version) ≡ true) ⊎ ((v == version) ≡ false))
        → (o : VersionValue) × (x : VersionValue) × (get v m ≡ some o)
          × (mutate_value action now o ≡ ok x)
          × (get v n ≡ some x)
    at v hit (inl eq) =
        let s : version ≡ v = ground arith in
        (
          old,
          new,
          subst (λ x. get x m ≡ some old) s e,
          f,
          subst (λ x. get x n ≡ some new) s (h.same version fresh ∙ get-insert_self version new m),
        )
    at v hit (inr other) =
        let (o, x, a, b, c) = h.changed v (ground arith) in
        (o, x, ground (arith, get-insert version v new m), b, c)

pub mutate_loop-Ends :
    (action : SecretAction) (now : ℕ) (versions : List ℕ) {m n : Versions} {b : Unit {0}}
    → has_duplicate versions ≡ false
    → Ends (mutate_loop action now versions) m b n
    → Mutated action now versions m n
unfolding mutate_loop has_duplicate
mutate_loop-Ends action now [] {m} {n} u h =
    let (_, s) = Ends-pure tt h in
    record { changed = λ v hit. ground arith; same = λ v miss. ap (get v) s }
mutate_loop-Ends action now (version ∷ rest) {m} {n} u h =
    let (old, new, e, f, k) = mutate_at-Ends action now version _ h in
    Mutated-cons action now version rest m n old new e f (ground arith)
      (mutate_loop-Ends action now rest (ground arith) k)

pub entry_at_bind-Ends :
    {B : Type 0} (path : Text) (f : Entry → Kv B) {c d : KvCatalog} {b : B}
    → Ends (entry_at path >>= f) c b d
    → (e : Entry) × (get path c.entries ≡ some e) × Ends (f e) c b d
unfolding ◌>>=◌ entry_at
entry_at_bind-Ends path f {c} h =
    some_or_bind-Ends (get path c.entries) not_found f
      (record { returned = h.returned; left = h.left })

-- The events of success, one for each version.
abbrev pub events : ℕ → Text → KvAuditOperation → List ℕ → List KvAuditEvent
events identity_id path operation versions =
    map (λ v. audit_event identity_id path operation succeeded (some v) none) versions

pub audit_versions-events :
    (identity_id : ℕ) (path : Text) (operation : KvAuditOperation) (versions : List ℕ)
    (c : KvCatalog)
    → audit_versions identity_id path operation versions c
      ≡ (record c { audit = c.audit ++ events identity_id path operation versions })
unfolding audit_versions
audit_versions-events identity_id path operation [] c =
    ap (λ a. record c { audit = a }) (sym (append-nil c.audit))
audit_versions-events identity_id path operation (v ∷ rest) c =
    audit_versions-events identity_id path operation rest _
    ∙ ap (λ a. record c { audit = a })
        (append_assoc c.audit _ (events identity_id path operation rest))
