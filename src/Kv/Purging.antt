-- ===== src/Kv/Purging.antt =====
-- src/kv.rs: what a purge needs to succeed, and what it leaves.
use mathlib.Core.List.{Memᴰ}
use ops_light_secrets_server.Prelude.{
  ℕ, ◌≡◌, refl, sym, ap, ◌∙◌, subst, inl, inr, Bool, true, false, not, Option, none, some, List, [],
  ◌∷◌, ◌++◌, arith, is_some, ◌==◌, length,
}
use ops_light_secrets_server.Prelude.Order.{nat_ord, list_ord}
use ops_light_secrets_server.Prelude.Text.{Text, text_eq, text_eq_iff}
use ops_light_secrets_server.Prelude.Result.{ok}
use ops_light_secrets_server.Prelude.Action.{◌>>=◌, when}
use ops_light_secrets_server.Prelude.Ends.{
  Ends, Ends-bind, Ends-pure, lift_bind-Ends, gets_bind-Ends, modify_bind-Ends, fails_bind,
  when-Ends, Ends-of,
}
use ops_light_secrets_server.BTreeMap.{get}
use ops_light_secrets_server.BTreeMap.Laws.{get-remove}
use ops_light_secrets_server.RawTarget.{Resource}
use ops_light_secrets_server.Identity.Records.{GrantRecord}
use ops_light_secrets_server.Identity.Request.{AuthorizationRequest, local_destroy_all}
use ops_light_secrets_server.Identity.Grants.{Permits}
use ops_light_secrets_server.Kv.Types.{
  KvCatalog, KvError, KvAuditEvent, KvAuditOperation, VersionValue, VersionState, Entry, new_entry,
  succeeded, failed, denied, live, soft_deleted, destroyed, state_live, state_destroyed,
  max_secret_encoded_bytes, cas_conflict, not_found, internal, permission_denied,
}
use ops_light_secrets_server.Kv.Types
use ops_light_secrets_server.Kv.Catalog.{Kv}
use ops_light_secrets_server.Kv.Access.{authorize_destroy_all, audit_event}
use ops_light_secrets_server.Prelude.{◌||◌, option_eq}
use ops_light_secrets_server.Prelude.Text.{join, eq_of_texts_eq}
use ops_light_secrets_server.Kv.Purge.{
  PurgeRequest, PurgeResult, purge, purge_confirmation, reason_refused, check_failure,
  entry_or_failure,
}
use ops_light_secrets_server.Kv.Granted.{allowed-grant, map_err-ok, pass-Ends}
use ops_light_secrets_server.Kv.Batch.{entry_at_bind-Ends}
use ops_light_secrets_server.RawTarget.{resource_eq}

check_failure_bind-Ends :
    {B : Type 0} (identity_id : ℕ) (path : Text) (failing : Bool) (reason : Text) (error : KvError)
    (f : Unit {0} → Kv B) {c d : KvCatalog} {b : B}
    → Ends (check_failure identity_id path failing reason error >>= f) c b d
    → (failing ≡ false) × Ends (f tt) c b d
unfolding when ◌>>=◌
check_failure_bind-Ends identity_id path true reason error f h = let r = h.returned in ground arith
check_failure_bind-Ends identity_id path false reason error f h =
    (refl, record { returned = h.returned; left = h.left })

entry_or_failure_bind-Ends :
    {B : Type 0} (identity_id : ℕ) (path : Text) (o : Option Entry) (f : Entry → Kv B)
    {c d : KvCatalog} {b : B}
    → Ends (entry_or_failure identity_id path o >>= f) c b d
    → (e : Entry) × (o ≡ some e) × Ends (f e) c b d
unfolding ◌>>=◌
entry_or_failure_bind-Ends identity_id path none f h = let r = h.returned in ground arith
entry_or_failure_bind-Ends identity_id path (some e) f h =
    (e, refl, record { returned = h.returned; left = h.left })

-- A grant that the identity owns permits the destruction of everything at the resource.
abbrev pub MayDestroyAll : ℕ → Resource → KvCatalog → Type 0
MayDestroyAll identity_id resource c =
    (r : AuthorizationRequest) × (local_destroy_all resource ≡ ok r)
    × (g : GrantRecord) × Memᴰ g c.grants
    × (g.owner_identity_id ≡ identity_id)
    × Permits r g

authorize_destroy_all_bind-Ends :
    {B : Type 0} (identity_id : ℕ) (resource : Resource) (f : Unit {0} → Kv B) {c d : KvCatalog}
    {b : B}
    → Ends (authorize_destroy_all identity_id resource >>= f) c b d
    → MayDestroyAll identity_id resource c × Ends (f tt) c b d
unfolding authorize_destroy_all
authorize_destroy_all_bind-Ends identity_id resource f {c} {d} {b} h =
    let (_, u, k, rest) = Ends-bind _ _ h in
    let (r, e, h1) = lift_bind-Ends _ _ k in
    let (a, s) = pass-Ends _ _ permission_denied (gets_bind-Ends _ _ h1) in
    let (g, m, own, p) = allowed-grant identity_id r c a in
    ((r, map_err-ok _ _ r e, g, m, own, p), subst (λ x. Ends (f tt) x b d) s rest)

-- What a purge that succeeds found and left.
pub record Purged (blake3 : List ℕ → ℕ) (identity_id : ℕ) (resource : Resource)
    (request : PurgeRequest) (c d : KvCatalog) (r : PurgeResult) : Type 0 where
  pub entry : Entry
  pub found : get (join resource.canonical_segments) c.entries ≡ some entry
  pub may : MayDestroyAll identity_id request.resource c
  pub same_resource : request.resource ≡ resource
  pub has_reason : reason_refused request.reason ≡ false
  pub known : entry.protection_known ≡ true
  pub unprotected : entry.protected_version ≡ none
  pub generation : entry.metadata_generation ≡ request.expected_metadata_generation
  pub count : length entry.versions ≡ request.expected_version_count
  pub confirmed :
      request.confirmation
      ≡ some (
          purge_confirmation blake3 request.resource entry.metadata_generation
            (length entry.versions)
            request.reason)
  pub gone : get (join resource.canonical_segments) d.entries ≡ none
  pub others :
      (p : Text)
      → text_eq (join resource.canonical_segments) p ≡ false
      → get p d.entries ≡ get p c.entries
  pub audited :
      d.audit
      ≡ c.audit
        ++ audit_event identity_id
            (join resource.canonical_segments)
            Types.purge
            succeeded
            none
            (some request.reason)
          ∷ []
  pub answered : r.version_count ≡ length entry.versions

resource_eq-eq : (a b : Resource) → not (resource_eq a b) ≡ false → a ≡ b
resource_eq-eq a b h =
    let m = (text_eq_iff a.mount b.mount).0 (ground arith) in
    let t = eq_of_texts_eq a.canonical_segments b.canonical_segments (ground arith) in
    ap (λ x. record { mount = x; canonical_segments = a.canonical_segments }) m
    ∙ ap (λ x. record { mount = b.mount; canonical_segments = x }) t

known-true : (b : Bool) → not b ≡ false → b ≡ true
known-true b h = ground arith

none-of : {A : Type 0} (o : Option A) → is_some o ≡ false → o ≡ none
none-of none h = refl
none-of (some a) h = ground arith

both-same : (a b x y : ℕ) → (not (a == x) || not (b == y)) ≡ false → (a ≡ x) × (b ≡ y)
both-same a b x y h = (ground arith, ground arith)

option_eq-some : (o : Option ℕ) (n : ℕ) → not (option_eq o (some n)) ≡ false → o ≡ some n
option_eq-some none n h = ground arith
option_eq-some (some a) n h = ground arith

-- A purge succeeds only for a request that names the resource itself, gives an acceptable reason,
-- comes from an identity with a grant to destroy everything there, and states the exact generation
-- and number of versions of the path's entry with the confirmation that belongs to them; and only
-- when the entry's rotation protection is known and protects no version. It then removes that entry
-- and no other, and one event of success with the reason is added to the audit.
pub purge_sound :
    (blake3 : List ℕ → ℕ) (identity_id : ℕ) (resource : Resource) (request : PurgeRequest)
    (c d : KvCatalog) (r : PurgeResult)
    → purge blake3 identity_id resource request c ≡ (ok r, d)
    → Purged blake3 identity_id resource request c d r
unfolding purge
purge_sound blake3 identity_id resource request c d r h =
    let path = join resource.canonical_segments in
    let (same, h1) = check_failure_bind-Ends _ _ _ _ _ _ (Ends-of _ h) in
    let (reason, h2) = check_failure_bind-Ends _ _ _ _ _ _ h1 in
    let (may, h3) = authorize_destroy_all_bind-Ends identity_id request.resource _ h2 in
    let (e, f, h4) = entry_or_failure_bind-Ends _ _ _ _ (gets_bind-Ends _ _ h3) in
    let (known, h5) = check_failure_bind-Ends _ _ _ _ _ _ h4 in
    let (free, h6) = check_failure_bind-Ends _ _ _ _ _ _ h5 in
    let (exact, h7) = check_failure_bind-Ends _ _ _ _ _ _ h6 in
    let (confirmed, h8) = check_failure_bind-Ends _ _ _ _ _ _ h7 in
    elim (when-Ends _ _ _ (gets_bind-Ends _ _ h8)) [
      | inl (_, k) ↦ fails_bind _ internal k
      | inr (_, k) ↦
          let (x, found, k1) = entry_at_bind-Ends path _ (modify_bind-Ends _ _ k) in
          let (answer, s) = Ends-pure _ (modify_bind-Ends _ _ k1) in
          let (generation, count) = both-same e.metadata_generation (length e.versions) _ _ exact in
          record {
            entry = e;
            found = f;
            may = may;
            same_resource = resource_eq-eq _ _ same;
            has_reason = reason;
            known = known-true _ known;
            unprotected = none-of _ free;
            generation = generation;
            count = count;
            confirmed =
                option_eq-some _ _ confirmed
                ∙ ap
                    (λ n. some (
                      purge_confirmation blake3 request.resource n request.expected_version_count
                        request.reason))
                    (sym generation)
                ∙ ap
                    (λ n. some (
                      purge_confirmation blake3 request.resource e.metadata_generation n
                        request.reason))
                    (sym count);
            gone =
                ap (λ (y : KvCatalog). get path y.entries) s
                ∙ ground (arith, get-remove path path c.entries, text_eq_iff path path);
            others = λ p other.
                ap (λ (y : KvCatalog). get p y.entries) s
                ∙ ground (arith, get-remove path p c.entries);
            audited = ap (λ (y : KvCatalog). y.audit) s;
            answered = ap (λ (y : PurgeResult). y.version_count) answer;
          }
    ]
