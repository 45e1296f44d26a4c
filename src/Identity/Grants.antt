-- ===== src/Identity/Grants.antt =====
-- The decision of `authorize` against a direct description of the grant that permits a request.
use mathlib.Core.List.{Memᴰ}
use ops_light_secrets_server.Prelude.{
  ◌≡◌, ◌≢◌, refl, sym, ◌↔◌, ◌∙◌, Bool, true, false, ◌&&◌, Option, none, some, List, arith, any, all,
  find, is_empty, if◌then◌else◌, Bool-cases, inl, inr, not, ap,
}
use ops_light_secrets_server.Prelude.Text.{text_eq, text_eq_iff}
use ops_light_secrets_server.Prelude.Search.{
  find-select, find_sound, find_complete, any-select, is_empty-select, any-cong, all-mem,
}
use ops_light_secrets_server.RawTarget.{Resource, EndpointRequest}
use ops_light_secrets_server.Identity.Capability.{
  Capability, holds, is_secret, is_management, all-holds,
}
use ops_light_secrets_server.Identity.Records.{
  GrantRecord, grant_active, validate_grant, management_mount,
}
use ops_light_secrets_server.Prelude.Result.{is_ok, ok}
use ops_light_secrets_server.Identity.Request.{
  secret_request, secret_request-is_secret, SecretAction, AuthorizationRequest, shape_matches,
  scope_matches,
}
use ops_light_secrets_server.Identity.Authorize.{
  no_grant_for_mount, prefix_boundary_miss, missing_capability, verdict, applicable, same_mount,
  matching, matched, authorize,
}

-- The grant permits the request: it is active, stands at the request's mount, its scope covers the
-- request's segments, and it holds the capability that the request asks for.
pub record Permits (r : AuthorizationRequest) (g : GrantRecord) : Type 0 where
  pub is_active : grant_active g.status ≡ true
  pub at_mount : g.mount ≡ r.resource.mount
  pub covers : scope_matches g.scope g.prefix_segments r.resource.canonical_segments ≡ true
  pub has_capability : holds g.capabilities r.capability ≡ true

abbrev permits : AuthorizationRequest → GrantRecord → Bool
permits r g =
    grant_active g.status
    && (text_eq g.mount r.resource.mount
        && (shape_matches g r.resource && holds g.capabilities r.capability))

matched-find :
    (r : AuthorizationRequest) (grants : List GrantRecord)
    → matched r grants ≡ find (permits r) grants
matched-find r grants =
    find-select _ _ (same_mount r grants)
    ∙ find-select _ _ (applicable grants)
    ∙ find-select _ _ grants

Permits-permits : (r : AuthorizationRequest) (g : GrantRecord) → Permits r g → permits r g ≡ true
unfolding shape_matches
Permits-permits r g p = ground (arith, text_eq_iff g.mount r.resource.mount)

permits-Permits : (r : AuthorizationRequest) (g : GrantRecord) → permits r g ≡ true → Permits r g
unfolding shape_matches
permits-Permits r g h = record {
  is_active = ground arith;
  at_mount = ground (arith, text_eq_iff g.mount r.resource.mount);
  covers = ground arith;
  has_capability = ground arith;
}

verdict-allow :
    (m : Option GrantRecord) (a b : Bool)
    → (verdict m a b).0 ≡ true
    → (g : GrantRecord) × (m ≡ some g) × ((verdict m a b).1 ≡ some g.id)
unfolding verdict
verdict-allow (some g) a b h = (g, refl, refl)
verdict-allow none true b h = ground arith
verdict-allow none false true h = ground arith
verdict-allow none false false h = ground arith

verdict-some : (m : Option GrantRecord) (a b : Bool) → m ≢ none → (verdict m a b).0 ≡ true
unfolding verdict
verdict-some (some g) a b h = refl
verdict-some none a b h = absurd (h refl)

-- An allowed request is permitted by an active grant of the list, and the decision names it.
pub authorize_sound :
    (r : AuthorizationRequest) (grants : List GrantRecord)
    → (authorize r grants).allow ≡ true
    → (g : GrantRecord) × Memᴰ g grants
      × Permits r g
      × ((authorize r grants).matched_grant ≡ some g.id)
unfolding authorize
authorize_sound r grants h =
    let (g, e, n) = verdict-allow _ _ _ h in
    let (m, t) = find_sound (permits r) grants g (sym (matched-find r grants) ∙ e) in
    (g, m, permits-Permits r g t, n)

-- A request that some grant of the list permits is allowed, whatever the other grants are.
pub authorize_complete :
    (r : AuthorizationRequest) (grants : List GrantRecord) (g : GrantRecord)
    → Memᴰ g grants
    → Permits r g
    → (authorize r grants).allow ≡ true
unfolding authorize
authorize_complete r grants g m p = verdict-some _ _ _ (λ e.
    find_complete (permits r) grants g m (Permits-permits r g p) (sym (matched-find r grants) ∙ e))

-- Some active grant of the list stands at the request's mount.
abbrev pub mount_known : AuthorizationRequest → List GrantRecord → Bool
mount_known r grants = any (λ g. grant_active g.status && text_eq g.mount r.resource.mount) grants

-- Some active grant of the list stands at the request's mount and covers its segments.
abbrev pub shape_known : AuthorizationRequest → List GrantRecord → Bool
shape_known r grants = any (λ g. grant_active g.status && shape_matches g r.resource) grants

mount-empty :
    (r : AuthorizationRequest) (grants : List GrantRecord)
    → is_empty (same_mount r grants) ≡ not (mount_known r grants)
mount-empty r grants = is_empty-select _ (applicable grants) ∙ ap not (any-select _ _ grants)

shape-mount :
    (r : AuthorizationRequest) (g : GrantRecord)
    → (grant_active g.status && (text_eq g.mount r.resource.mount && shape_matches g r.resource))
      ≡ (grant_active g.status && shape_matches g r.resource)
unfolding shape_matches
shape-mount r g = ground arith

shape-empty :
    (r : AuthorizationRequest) (grants : List GrantRecord)
    → is_empty (matching r grants) ≡ not (shape_known r grants)
shape-empty r grants =
    is_empty-select _ (same_mount r grants)
    ∙ ap not (
        any-select _ _ (applicable grants)
        ∙ any-select _ _ grants
        ∙ any-cong _ _ grants (shape-mount r))

verdict-reason :
    (m : Option GrantRecord) (a b : Bool)
    → (verdict m a b).2 ≡ (
        if (verdict m a b).0
        then none
        else if a
        then some no_grant_for_mount
        else if b
        then some prefix_boundary_miss
        else some missing_capability)
unfolding verdict
verdict-reason (some g) a b = refl
verdict-reason none true b = refl
verdict-reason none false true = refl
verdict-reason none false false = refl

-- A denial says how far the request came: no active grant at its mount, else none that covers its
-- segments, else none that holds the capability; an allowed request has no reason.
pub authorize_reason :
    (r : AuthorizationRequest) (grants : List GrantRecord)
    → (authorize r grants).deny_reason ≡ (
        if (authorize r grants).allow
        then none
        else if not (mount_known r grants)
        then some no_grant_for_mount
        else if not (shape_known r grants)
        then some prefix_boundary_miss
        else some missing_capability)
unfolding authorize
authorize_reason r grants =
    rw (← mount-empty r grants, ← shape-empty r grants) (verdict-reason _ _ _)

grants_management :
    (g : GrantRecord)
    → is_ok (validate_grant g) ≡ true
    → text_eq g.mount management_mount ≡ true
    → all is_management g.capabilities ≡ true
unfolding validate_grant
grants_management g h m = ground arith

plane_clash : {A : Type 0} (c : Capability) → is_management c ≡ true → is_secret c ≡ true → A
unfolding is_management
plane_clash c h k = absurd (ground arith)

-- A valid grant at the management mount holds management capabilities only.
validate_grant-is_management :
    (g : GrantRecord)
    → is_ok (validate_grant g) ≡ true
    → g.mount ≡ management_mount
    → all is_management g.capabilities ≡ true
validate_grant-is_management g h m =
    grants_management g h ((text_eq_iff g.mount management_mount).1 m)

-- Valid grants keep the planes apart: a request for a secret at the management mount is denied.
pub secret_request-never_management :
    (endpoint : EndpointRequest) (action : SecretAction) (r : AuthorizationRequest)
    (grants : List GrantRecord)
    → all (λ g. is_ok (validate_grant g)) grants ≡ true
    → secret_request endpoint action ≡ ok r
    → endpoint.resource.mount ≡ management_mount
    → (authorize r grants).allow ≡ false
secret_request-never_management endpoint action r grants v e m =
    elim (Bool-cases (authorize r grants).allow) [
      | inr denied ↦ denied
      | inl allowed ↦
          let (g, mem, p, _) = authorize_sound r grants allowed in
          plane_clash r.capability
            (all-holds is_management g.capabilities r.capability
              (validate_grant-is_management g (all-mem _ grants g v mem) (
                p.at_mount
                ∙ ap (λ (x : Resource). x.mount) (secret_request-is_secret endpoint action r e).1
                ∙ m))
              p.has_capability)
            (secret_request-is_secret endpoint action r e).0
    ]

verdict_iff :
    (m : Option GrantRecord) (a b : Bool) → ((verdict m a b).0 ≡ true) ↔ ((verdict m a b).2 ≡ none)
unfolding verdict
verdict_iff (some g) a b = (λ _. refl, λ _. refl)
verdict_iff none true b = ground arith
verdict_iff none false true = ground arith
verdict_iff none false false = ground arith

pub allow_iff_reason :
    (r : AuthorizationRequest) (grants : List GrantRecord)
    → ((authorize r grants).allow ≡ true) ↔ ((authorize r grants).deny_reason ≡ none)
unfolding authorize
allow_iff_reason r grants = verdict_iff _ _ _
