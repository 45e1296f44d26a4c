-- ===== src/Control/Finality.antt =====
-- src/control/management.rs: what no later command undoes: a retired identity, a removed grant, an event.
use ops_light_secrets_server.Prelude.{
  ℕ, ◌≡◌, ◌≢◌, sym, ap, ◌∙◌, subst, false, some, List, [], ◌++◌, arith, is_some,
}
use mathlib.Core.List.{append-nil, append_assoc}
use ops_light_secrets_server.Prelude.Order.{nat_ord, same_key_iff}
use ops_light_secrets_server.Prelude.Result.{ok, err}
use ops_light_secrets_server.BTreeMap.{BTreeMap, get, insert}
use ops_light_secrets_server.BTreeMap.Laws.{get-insert}
use ops_light_secrets_server.Identity.Records.{
  IdentityRecord, GrantRecord, retired, removed, retire, remove_grant, identity_active,
}
use ops_light_secrets_server.Control.Catalog.{
  ManagementCatalog, ManagementAudit, ManagementPrincipal, denied, authorize_command, entry_active,
}
use ops_light_secrets_server.Control.Commands.{ControlCommand}
use ops_light_secrets_server.Control.Steps.{
  Change, no_change, identity_added, identity_retired, grant_added, grant_removed,
}
use ops_light_secrets_server.Control.Authorization.{inactive-denied}
use ops_light_secrets_server.Control.History.{Sent, run, run_keeps}

-- A row that cannot be replaced stays: the key that is inserted is another one.
pub get-insert_other :
    {V : Type 0} (k j : ℕ) (v w : V) (m : BTreeMap ℕ V)
    → get j m ≡ some w
    → k ≢ j
    → get j (insert k v m) ≡ some w
get-insert_other k j v w m h n = ground (arith, get-insert k j v m, same_key_iff k j)

retire-active :
    (r : IdentityRecord) (generation : ℕ) (s : IdentityRecord)
    → retire r generation ≡ ok s
    → r.status ≢ retired
unfolding retire
retire-active r generation s h e = ground arith

remove_grant-active :
    (g : GrantRecord) (owner generation : ℕ) (s : GrantRecord)
    → remove_grant g owner generation ≡ ok s
    → g.status ≢ removed
unfolding remove_grant
remove_grant-active g owner generation s h e = ground arith

free-key :
    {V : Type 0} (k j : ℕ) (w : V) (m : BTreeMap ℕ V)
    → is_some (get k m) ≡ false
    → get j m ≡ some w
    → k ≢ j
free-key k j w m free h e =
    let here : get k m ≡ some w = subst (λ x. get x m ≡ some w) (sym e) h in
    ground (arith, free, here)

other-key :
    {V : Type 0} (k j : ℕ) (v w : V) (m : BTreeMap ℕ V)
    → get k m ≡ some v
    → get j m ≡ some w
    → v ≢ w
    → k ≢ j
other-key k j v w m h g n e =
    let here : get k m ≡ some w = subst (λ x. get x m ≡ some w) (sym e) g in
    n (ground (arith, h, here))

module _ (id : ℕ) (r : IdentityRecord) (gone : r.status ≡ retired) where
  Change-retired :
      (c d : ManagementCatalog)
      → Change c d
      → get id c.identities ≡ some r
      → get id d.identities ≡ some r
  Change-retired c d (no_change e f) h = subst (λ x. get id x ≡ some r) (sym e) h
  Change-retired c d (grant_added g free valid e f) h = subst (λ x. get id x ≡ some r) (sym e) h
  Change-retired c d (grant_removed i generation old g there change e f) h =
      subst (λ x. get id x ≡ some r) (sym e) h
  Change-retired c d (identity_added i name kind s free new e f) h =
      subst (λ x. get id x ≡ some r) (sym e)
        (get-insert_other i id s r c.identities h
          (free-key i id r c.identities (ground (arith, free)) h))
  Change-retired c d (identity_retired i generation old s there change e f) h =
      subst (λ x. get id x ≡ some r) (sym e)
        (get-insert_other i id s r c.identities h (
          other-key i id old r c.identities there h
            (λ same. retire-active old generation s change (ap (λ x. x.status) same ∙ gone))))

  -- An identity that was disabled stays so, as it was, whatever commands come; and every command of
  -- every principal with its id is denied from then on.
  pub retired_final :
      (history : List Sent) (c : ManagementCatalog)
      → get id c.identities ≡ some r
      → (get id (run history c).identities ≡ some r)
        × ((p : ManagementPrincipal) (command : ControlCommand) (request_id : ℕ)
            → p.identity_id ≡ id
            → (authorize_command p command request_id (run history c)).0 ≡ err denied)
  retired_final history c h =
      let kept : get id (run history c).identities ≡ some r =
        run_keeps (λ d. get id d.identities ≡ some r) (λ a b s k. Change-retired a b s.change k)
          history c h in
      (
        kept,
        λ p command request_id e.
            let inactive : entry_active (get p.identity_id (run history c).identities) ≡ false =
              subst (λ x. entry_active (get x (run history c).identities) ≡ false) (sym e)
                (ap entry_active kept ∙ ap identity_active gone) in
            inactive-denied p command request_id (run history c) inactive,
      )

Change-removed :
    (id : ℕ) (g : GrantRecord) (c d : ManagementCatalog)
    → g.status ≡ removed
    → Change c d
    → get id c.grants ≡ some g
    → get id d.grants ≡ some g
Change-removed id g c d gone (no_change e f) h = subst (λ x. get id x ≡ some g) (sym f) h
Change-removed id g c d gone (identity_added i name kind s free new e f) h =
    subst (λ x. get id x ≡ some g) (sym f) h
Change-removed id g c d gone (identity_retired i generation old s there change e f) h =
    subst (λ x. get id x ≡ some g) (sym f) h
Change-removed id g c d gone (grant_added s free valid e f) h =
    subst (λ x. get id x ≡ some g) (sym f)
      (get-insert_other s.id id s g c.grants h
        (free-key s.id id g c.grants (ground (arith, free)) h))
Change-removed id g c d gone (grant_removed i generation old s there change e f) h =
    subst (λ x. get id x ≡ some g) (sym f)
      (get-insert_other i id s g c.grants h (
        other-key i id old g c.grants there h (λ same.
          remove_grant-active old old.owner_identity_id generation s change
            (ap (λ x. x.status) same ∙ gone))))

-- A grant that was removed stays removed, as it was, whatever commands come.
pub removed_final :
    (id : ℕ) (g : GrantRecord) (history : List Sent) (c : ManagementCatalog)
    → g.status ≡ removed
    → get id c.grants ≡ some g
    → get id (run history c).grants ≡ some g
removed_final id g history c gone h =
    run_keeps (λ d. get id d.grants ≡ some g) (λ a b s k. Change-removed id g a b gone s.change k)
      history c h

abbrev Extends : List ManagementAudit → ManagementCatalog → Type 0
Extends base c = (later : List ManagementAudit) × (c.audit ≡ base ++ later)

-- The audit trail of the control plane only grows: whatever commands come, what it held is still there,
-- in its order, with later events after it.
pub run-trail :
    (history : List Sent) (c : ManagementCatalog)
    → (later : List ManagementAudit) × ((run history c).audit ≡ c.audit ++ later)
run-trail history c =
    run_keeps (Extends c.audit)
      (λ a b s h. (
        h.0 ++ s.events,
        s.logged ∙ ap (λ x. x ++ s.events) h.1 ∙ append_assoc c.audit h.0 s.events,
      ))
      history c ([], sym (append-nil c.audit))
