-- ===== src/Control/Validity.antt =====
-- src/control/management.rs: the invariant of the catalog, and what stays as it is over any history.
use ops_light_secrets_server.Prelude.{
  ℕ, ◌≡◌, refl, sym, ap, ◌∙◌, subst, inl, inr, true, some, List, arith, is_some,
}
use ops_light_secrets_server.Prelude.Order.{nat_ord}
use ops_light_secrets_server.Prelude.Result.{ok}
use ops_light_secrets_server.BTreeMap.{BTreeMap, get, insert}
use ops_light_secrets_server.Identity.Records.{
  IdentityRecord, GrantRecord, identity_valid, validate_grant,
}
use ops_light_secrets_server.Control.Catalog.{ManagementCatalog}
use ops_light_secrets_server.Control.Steps.{
  Change, no_change, identity_added, identity_retired, grant_added, grant_removed,
}
use ops_light_secrets_server.Control.History.{Sent, run, run_keeps}
use ops_light_secrets_server.Control.Rows.{
  new_identity-fields, retire-fields, retire-identity_valid, remove_grant-fields,
  remove_grant-valid, get-insert_cases, is_some-insert, taken-name,
}

pub record ManagementOk (c : ManagementCatalog) : Type 0 where
  pub identity_at :
      (id : ℕ) (r : IdentityRecord)
      → get id c.identities ≡ some r
      → (r.id ≡ id) × (identity_valid r ≡ true)
  pub one_name :
      (i j : ℕ) (r s : IdentityRecord)
      → get i c.identities ≡ some r
      → get j c.identities ≡ some s
      → r.name ≡ s.name
      → i ≡ j
  pub grant_at :
      (id : ℕ) (g : GrantRecord)
      → get id c.grants ≡ some g
      → (g.id ≡ id)
        × (validate_grant g ≡ ok tt)
        × (is_some (get g.owner_identity_id c.identities) ≡ true)

abbrev Rows : Type 0 → Type 0
Rows V = BTreeMap ℕ V

abbrev IdentitiesOk : Rows IdentityRecord → Type 0
IdentitiesOk m =
    ((id : ℕ) (r : IdentityRecord) → get id m ≡ some r → (r.id ≡ id) × (identity_valid r ≡ true))
    × ((i j : ℕ) (r s : IdentityRecord)
        → get i m ≡ some r
        → get j m ≡ some s
        → r.name ≡ s.name
        → i ≡ j)

-- A new row that is valid, and whose name nobody else has.
insert-IdentitiesOk :
    (id : ℕ) (r : IdentityRecord) (m : Rows IdentityRecord)
    → IdentitiesOk m
    → r.id ≡ id
    → identity_valid r ≡ true
    → ((j : ℕ) (s : IdentityRecord) → get j m ≡ some s → s.name ≡ r.name → id ≡ j)
    → IdentitiesOk (insert id r m)
insert-IdentitiesOk id r m h e v alone = (at, names)
  where
    at :
        (j : ℕ) (s : IdentityRecord)
        → get j (insert id r m) ≡ some s
        → (s.id ≡ j) × (identity_valid s ≡ true)
    at j s k = elim (get-insert_cases id j r s m k) [
      | inl (same, new) ↦ (ap (λ x. x.id) (sym new) ∙ (e ∙ same), ap identity_valid (sym new) ∙ v)
      | inr old ↦ h.0 j s old
    ]

    names :
        (i j : ℕ) (s t : IdentityRecord)
        → get i (insert id r m) ≡ some s
        → get j (insert id r m) ≡ some t
        → s.name ≡ t.name
        → i ≡ j
    names i j s t k l n = elim (get-insert_cases id i r s m k) [
      | inl (a, b) ↦ elim (get-insert_cases id j r t m l) [
        | inl (a', b') ↦ sym a ∙ a'
        | inr old ↦ sym a ∙ alone j t old (sym n ∙ ap (λ x. x.name) (sym b))
      ]
      | inr old ↦ elim (get-insert_cases id j r t m l) [
        | inl (a', b') ↦ sym (alone i s old (n ∙ ap (λ x. x.name) (sym b'))) ∙ a'
        | inr old' ↦ h.1 i j s t old old' n
      ]
    ]

identities : (c : ManagementCatalog) → ManagementOk c → IdentitiesOk c.identities
identities c h = (h.identity_at, h.one_name)

GrantsOk : Rows IdentityRecord → Rows GrantRecord → Type 0
GrantsOk m n =
    (id : ℕ) (g : GrantRecord)
    → get id n ≡ some g
    → (g.id ≡ id) × (validate_grant g ≡ ok tt) × (is_some (get g.owner_identity_id m) ≡ true)

insert-GrantsOk :
    (id : ℕ) (g : GrantRecord) (m : Rows IdentityRecord) (n : Rows GrantRecord)
    → GrantsOk m n
    → g.id ≡ id
    → validate_grant g ≡ ok tt
    → is_some (get g.owner_identity_id m) ≡ true
    → GrantsOk m (insert id g n)
unfolding GrantsOk
insert-GrantsOk id g m n h e v o j s k = elim (get-insert_cases id j g s n k) [
  | inl (same, new) ↦ (
    ap (λ x. x.id) (sym new) ∙ (e ∙ same),
    ap validate_grant (sym new) ∙ v,
    subst (λ x. is_some (get x.owner_identity_id m) ≡ true) new o,
  )
  | inr old ↦ h j s old
]

owner-GrantsOk :
    (id : ℕ) (r : IdentityRecord) (m : Rows IdentityRecord) (n : Rows GrantRecord)
    → GrantsOk m n
    → GrantsOk (insert id r m) n
unfolding GrantsOk
owner-GrantsOk id r m n h j s k =
    let (a, b, o) = h j s k in (a, b, is_some-insert id s.owner_identity_id r m o)

rebuild :
    (c d : ManagementCatalog) (m : Rows IdentityRecord) (n : Rows GrantRecord)
    → d.identities ≡ m
    → d.grants ≡ n
    → IdentitiesOk m
    → GrantsOk m n
    → ManagementOk d
unfolding GrantsOk
rebuild c d m n e f h g =
    let i : IdentitiesOk d.identities = subst IdentitiesOk (sym e) h in
    record {
      identity_at = i.0;
      one_name = i.1;
      grant_at = λ id r k.
          let (a, b, o) = g id r (subst (λ x. get id x ≡ some r) f k) in
          (a, b, subst (λ x. is_some (get r.owner_identity_id x) ≡ true) (sym e) o);
    }

Change-ManagementOk : (c d : ManagementCatalog) → Change c d → ManagementOk c → ManagementOk d
unfolding GrantsOk
Change-ManagementOk c d (no_change e f) h =
    rebuild c d c.identities c.grants e f (identities c h) h.grant_at
Change-ManagementOk c d (identity_added id name kind r free new e f) h =
    let (a, b, v) = new_identity-fields id name kind r new in
    rebuild c d (insert id r c.identities) c.grants e f
      (insert-IdentitiesOk id r c.identities (identities c h) a v
        (λ j s k n. absurd (taken-name id name c.identities j s free k (n ∙ b))))
      (owner-GrantsOk id r c.identities c.grants h.grant_at)
Change-ManagementOk c d (identity_retired id generation old r there change e f) h =
    let (a, b, s, g) = retire-fields old generation r change in
    let (i, v) = h.identity_at id old there in
    rebuild c d (insert id r c.identities) c.grants e f
      (insert-IdentitiesOk id r c.identities (identities c h) (a ∙ i)
        (retire-identity_valid old generation r change v)
        (λ j t k n. h.one_name id j old t there k (sym b ∙ sym n)))
      (owner-GrantsOk id r c.identities c.grants h.grant_at)
Change-ManagementOk c d (grant_added g free valid e f) h =
    rebuild c d c.identities (insert g.id g c.grants) e f (identities c h)
      (insert-GrantsOk g.id g c.identities c.grants h.grant_at refl valid (ground (arith, free)))
Change-ManagementOk c d (grant_removed id generation old g there change e f) h =
    let (i, v, o) = h.grant_at id old there in
    let (a, b, s) = remove_grant-fields old old.owner_identity_id generation g change in
    rebuild c d c.identities (insert id g c.grants) e f (identities c h) (
      insert-GrantsOk id g c.identities c.grants h.grant_at (a ∙ i)
        (remove_grant-valid old old.owner_identity_id generation g change v)
        (subst (λ x. is_some (get x c.identities) ≡ true) (sym b) o))

-- Whatever commands reach a catalog, in whatever order, from whatever principals, and whether they are
-- allowed, refused or fail: if it was well formed then it stays so, which means that each identity and
-- grant is valid and stored under its own id, no two identities share a name, and the owner of each
-- grant is there.
pub run-ManagementOk :
    (history : List Sent) (c : ManagementCatalog) → ManagementOk c → ManagementOk (run history c)
run-ManagementOk = run_keeps ManagementOk (λ c d s h. Change-ManagementOk c d s.change h)
