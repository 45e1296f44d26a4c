-- ===== src/Control/Rows.antt =====
-- src/control/management.rs and src/identity.rs: the rows that a command replaces and adds.
use ops_light_secrets_server.Prelude.{
  ℕ, ◌≡◌, ◌≢◌, sym, subst, inl, inr, ◌⊎◌, ◌+◌, Bool, true, false, some, [], ◌∷◌, arith, any,
  is_some, ◌==◌, Bool-cases,
}
use ops_light_secrets_server.Prelude.Order.{nat_ord, same_key_iff}
use ops_light_secrets_server.Prelude.Text.{Text, text_eq, text_eq_iff}
use ops_light_secrets_server.Prelude.Result.{ok}
use ops_light_secrets_server.BTreeMap.{BTreeMap, get, insert, values}
use ops_light_secrets_server.BTreeMap.Laws.{get-insert}
use ops_light_secrets_server.Control.Service.{identity_taken}
use ops_light_secrets_server.Identity.Records.{
  IdentityRecord, IdentityKind, GrantRecord, retired, removed, identity_valid, new_identity, retire,
  remove_grant, validate_grant,
}

pub new_identity-fields :
    (id : ℕ) (name : Text) (kind : IdentityKind) (r : IdentityRecord)
    → new_identity id name kind ≡ ok r
    → (r.id ≡ id) × (r.name ≡ name) × (identity_valid r ≡ true)
unfolding new_identity
new_identity-fields id name kind r h = ground arith

pub retire-fields :
    (old : IdentityRecord) (generation : ℕ) (r : IdentityRecord)
    → retire old generation ≡ ok r
    → (r.id ≡ old.id)
      × (r.name ≡ old.name)
      × (r.status ≡ retired)
      × (r.generation ≡ old.generation + 1)
unfolding retire
retire-fields old generation r h = ground arith

pub retire-identity_valid :
    (old : IdentityRecord) (generation : ℕ) (r : IdentityRecord)
    → retire old generation ≡ ok r
    → identity_valid old ≡ true
    → identity_valid r ≡ true
unfolding retire identity_valid
retire-identity_valid old generation r h k = ground arith

pub remove_grant-fields :
    (old : GrantRecord) (owner generation : ℕ) (g : GrantRecord)
    → remove_grant old owner generation ≡ ok g
    → (g.id ≡ old.id) × (g.owner_identity_id ≡ old.owner_identity_id) × (g.status ≡ removed)
unfolding remove_grant
remove_grant-fields old owner generation g h = ground arith

pub remove_grant-whole :
    (old : GrantRecord) (owner generation : ℕ) (g : GrantRecord)
    → remove_grant old owner generation ≡ ok g
    → g ≡ record old { status = removed; generation = old.generation + 1 }
unfolding remove_grant
remove_grant-whole old owner generation g h = ground arith

pub valid-generation : (g : GrantRecord) → validate_grant g ≡ ok tt → (g.generation == 0) ≡ false
unfolding validate_grant
valid-generation g h = elim (Bool-cases (g.generation == 0)) [
  | inr nonzero ↦ nonzero
  | inl zero_ ↦ elim (Bool-cases (g.id == 0)) [
    | inl a ↦ ground (arith, rw (a, validate_grant) at h)
    | inr b ↦ elim (Bool-cases (g.owner_identity_id == 0)) [
      | inl a ↦ ground (arith, rw (a, validate_grant) at h)
      | inr c ↦ ground (arith, rw (b, c, zero_, validate_grant) at h)
    ]
  ]
]

pub remove_grant-valid :
    (old : GrantRecord) (owner generation : ℕ) (g : GrantRecord)
    → remove_grant old owner generation ≡ ok g
    → validate_grant old ≡ ok tt
    → validate_grant g ≡ ok tt
unfolding validate_grant
remove_grant-valid old owner generation g h k =
    let whole = remove_grant-whole old owner generation g h in
    let before : (old.generation == 0) ≡ false = valid-generation old k in
    let after : (old.generation + 1 == 0) ≡ false = ground arith in
    subst (λ x. validate_grant x ≡ ok tt) (sym whole)
      (rw (after, validate_grant) (rw (before, validate_grant) at k))

pub any-get :
    {V : Type 0} (p : V → Bool) (m : BTreeMap ℕ V) (k : ℕ) (v : V)
    → any p (values m) ≡ false
    → get k m ≡ some v
    → p v ≡ false
unfolding values get
any-get p [] k v h e = ground arith
any-get p ((j, w) ∷ m) k v h e = ground (arith, any-get p m k v)

-- A row of a map after an insertion is the new one or an old one.
pub get-insert_cases :
    {V : Type 0} (k j : ℕ) (v w : V) (m : BTreeMap ℕ V)
    → get j (insert k v m) ≡ some w
    → ((k ≡ j) × (v ≡ w)) ⊎ (get j m ≡ some w)
get-insert_cases k j v w m h = ground (arith, get-insert k j v m, same_key_iff k j)

pub is_some-insert :
    {V : Type 0} (k j : ℕ) (v : V) (m : BTreeMap ℕ V)
    → is_some (get j m) ≡ true
    → is_some (get j (insert k v m)) ≡ true
is_some-insert k j v m h = ground (arith, get-insert k j v m)

pub taken-name :
    (id : ℕ) (name : Text) (m : BTreeMap ℕ IdentityRecord) (j : ℕ) (s : IdentityRecord)
    → identity_taken id name m ≡ false
    → get j m ≡ some s
    → s.name ≢ name
taken-name id name m j s free k e =
    let none_named : any (λ r. text_eq r.name name) (values m) ≡ false = ground (arith, free) in
    let other = any-get (λ r. text_eq r.name name) m j s none_named k in
    ground (arith, other, text_eq_iff s.name name, e)
