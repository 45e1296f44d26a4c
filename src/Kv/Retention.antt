-- ===== src/Kv/Retention.antt =====
-- src/kv.rs: what pruning keeps and what it removes.
use ops_light_secrets_server.Prelude.{
  ℕ, zero, suc, ◌≤◌, ◌<◌, ◌≡◌, ◌≢◌, refl, ◌∙◌, ◌⊎◌, inl, inr, Bool, true, false, Option, none, some,
  [], ◌∷◌, arith, leb, length, ◌==◌, option_eq, subst, unwrap_or, Bool-cases, Option-cases,
}
use ops_light_secrets_server.Prelude.Order.{nat_ord}
use ops_light_secrets_server.BTreeMap.{BTreeMap, get, remove, keys}
use ops_light_secrets_server.BTreeMap.Laws.{get-remove, length-remove-lt}
use ops_light_secrets_server.BTreeMap.Order.{IsSorted, Above, remove-IsSorted}
use ops_light_secrets_server.BTreeMap.All.{All, remove-All}
use ops_light_secrets_server.Kv.Types.{VersionValue, Entry}
use ops_light_secrets_server.Kv.Catalog.{evictable, prune_candidate, prune_loop, prune_entry}

abbrev Versions : Type 0
Versions = BTreeMap ℕ VersionValue

module _ (p : Option ℕ) (c : ℕ) where
  candidate-found :
      (vs : Versions) (k : ℕ)
      → prune_candidate p c vs ≡ some k
      → (evictable p c k ≡ true) × (get k vs ≢ none)
  unfolding prune_candidate get keys
  candidate-found [] k h = ground arith
  candidate-found ((j, v) ∷ vs) k h = ground (arith, candidate-found vs k)

  Above-lt : (k j : ℕ) (vs : Versions) → Above k vs → get j vs ≢ none → k < j
  unfolding get
  Above-lt k j [] a h = absurd (h refl)
  Above-lt k j ((i, v) ∷ vs) a h = ground (arith, Above-lt k j vs)

  candidate-least :
      (vs : Versions) (k j : ℕ)
      → IsSorted vs
      → prune_candidate p c vs ≡ some k
      → evictable p c j ≡ true
      → get j vs ≢ none
      → k ≤ j
  unfolding prune_candidate get keys
  candidate-least [] k j s h e g = absurd (g refl)
  candidate-least ((i, v) ∷ vs) k j s h e g =
      ground (arith, Above-lt i j vs s.0, candidate-least vs k j s.1)

  -- What holds of the versions, and stays when the candidate is removed, holds after the loop.
  pub prune_loop-inv :
      (P : Versions → Type 0)
      → ((vs : Versions) (k : ℕ) → P vs → prune_candidate p c vs ≡ some k → P (remove k vs))
      → (n max : ℕ) (vs : Versions) → P vs
      → P (prune_loop n max p c vs).0
  unfolding prune_loop
  prune_loop-inv P keep zero max vs h = h
  prune_loop-inv P keep (suc n) max vs h = elim (Bool-cases (leb (length vs) max)) [
    | inl fits ↦ rw (fits, prune_loop) h
    | inr over ↦ elim (Option-cases (prune_candidate p c vs)) [
      | inl e ↦ rw (over, e, prune_loop) h
      | inr (k, e) ↦
          rw (over, e, prune_loop) (prune_loop-inv P keep n max (remove k vs) (keep vs k h e))
    ]
  ]

  pub prune_loop-IsSorted :
      (n max : ℕ) (vs : Versions) → IsSorted vs → IsSorted (prune_loop n max p c vs).0
  prune_loop-IsSorted = prune_loop-inv IsSorted (λ vs k s e. remove-IsSorted k vs s)

  pub prune_loop-All :
      (P : ℕ → VersionValue → Type 0) (n max : ℕ) (vs : Versions)
      → All P vs
      → All P (prune_loop n max p c vs).0
  prune_loop-All P = prune_loop-inv (All P) (λ vs k a e. remove-All P k vs a)

  get-remove_kept :
      (vs : Versions) (j k : ℕ)
      → evictable p c j ≡ false
      → prune_candidate p c vs ≡ some k
      → get j (remove k vs) ≡ get j vs
  get-remove_kept vs j k h e =
      let found = (candidate-found vs k e).0 in ground (arith, get-remove k j vs)

  pub get-prune_loop_kept :
      (j n max : ℕ) (vs : Versions)
      → evictable p c j ≡ false
      → get j (prune_loop n max p c vs).0 ≡ get j vs
  get-prune_loop_kept j n max vs h =
      prune_loop-inv (λ ws. get j ws ≡ get j vs) (λ ws k same e. get-remove_kept ws j k h e ∙ same)
        n max vs refl

  option_eq-some : (q : Option ℕ) (j : ℕ) → option_eq (some j) q ≡ true → q ≡ some j
  option_eq-some none j h = ground arith
  option_eq-some (some i) j h = ground arith

  kept-why : (j : ℕ) → evictable p c j ≡ false → (p ≡ some j) ⊎ (j ≡ c)
  kept-why j h = elim (Bool-cases (option_eq (some j) p)) [
    | inl guarded ↦ inl (option_eq-some p j guarded)
    | inr free ↦ inr (ground (arith, h, free))
  ]

  pub why-kept : (j : ℕ) → (p ≡ some j) ⊎ (j ≡ c) → evictable p c j ≡ false
  why-kept j (inl e) = ground (arith, e)
  why-kept j (inr e) = ground (arith, e)

  -- Where there is no candidate, each version is protected or current.
  candidate-none :
      (vs : Versions) (j : ℕ)
      → prune_candidate p c vs ≡ none
      → get j vs ≢ none
      → (p ≡ some j) ⊎ (j ≡ c)
  unfolding prune_candidate get keys
  candidate-none [] j h g = absurd (g refl)
  candidate-none ((i, v) ∷ vs) j h g = elim (Bool-cases (evictable p c i)) [
    | inl may ↦ absurd (ground (arith, h, may))
    | inr not_ ↦ elim (Bool-cases (i == j)) [
      | inl at ↦
          let same : i ≡ j = ground (arith, at) in
          kept-why j (subst (λ x. evictable p c x ≡ false) same not_)
      | inr other ↦
          candidate-none vs j (ground (arith, h, not_)) (λ e. g (ground (arith, e, other)))
    ]
  ]

  -- How the loop ends: within the limit, or over it with nothing left but what is protected or current.
  pub Ended : ℕ → Versions × Bool → Type 0
  Ended max r =
      ((length r.0 ≤ max) × (r.1 ≡ false))
      ⊎ ((max < length r.0) × (r.1 ≡ true) × ((j : ℕ) → get j r.0 ≢ none → (p ≡ some j) ⊎ (j ≡ c)))

  pub prune_loop-Ended :
      (n max : ℕ) (vs : Versions) → length vs ≤ n → Ended max (prune_loop n max p c vs)
  unfolding prune_loop Ended
  prune_loop-Ended zero max vs h = inl (omega arith, refl)
  prune_loop-Ended (suc n) max vs h = elim (Bool-cases (leb (length vs) max)) [
    | inl fits ↦ rw (fits, prune_loop) (inl (ground arith, refl))
    | inr over ↦ elim (Option-cases (prune_candidate p c vs)) [
      | inl e ↦ rw (over, e, prune_loop) (inr (ground arith, refl, λ j g. candidate-none vs j e g))
      | inr (k, e) ↦
          rw (over, e, prune_loop)
            (prune_loop-Ended n max (remove k vs)
              (omega (arith, length-remove-lt k vs (candidate-found vs k e).1)))
    ]
  ]

  -- Against the versions before: every one that is gone is older than every one that stayed though
  -- it might have been removed.
  abbrev OldestGone : Versions → Versions → Type 0
  OldestGone before after =
      (k j : ℕ)
      → get k before ≢ none
      → get k after ≡ none
      → evictable p c j ≡ true
      → get j after ≢ none
      → k < j

  OldestGone-remove :
      (before vs : Versions) (i : ℕ)
      → IsSorted vs
      → OldestGone before vs
      → prune_candidate p c vs ≡ some i
      → OldestGone before (remove i vs)
  OldestGone-remove before vs i s old e k j kb ka je ja =
      ground
        (arith, old k j kb, candidate-least vs i j s e je, get-remove i k vs, get-remove i j vs)

  pub prune_loop-OldestGone :
      (n max : ℕ) (vs : Versions) → IsSorted vs → OldestGone vs (prune_loop n max p c vs).0
  prune_loop-OldestGone n max vs s =
      (prune_loop-inv (λ ws. IsSorted ws × OldestGone vs ws)
        (λ ws k h e. (remove-IsSorted k ws h.0, OldestGone-remove vs ws k h.0 h.1 e)) n max vs
        (s, λ k j kb ka je ja. absurd (kb ka))).1

-- `Entry::max_versions` or the mount's.
abbrev pub retention_limit : ℕ → Entry → ℕ
retention_limit mount_max e = unwrap_or e.max_versions mount_max

-- After pruning, an entry has at most as many versions as its limit allows and is not marked deferred; or
-- it is marked deferred, is still over the limit, and every version left is protected or current. A
-- version that is protected or current stays as it was.
pub prune_entry_limit :
    (mount_max : ℕ) (e : Entry)
    → Ended e.protected_version e.current_version
        (retention_limit mount_max e)
        ((prune_entry mount_max e).versions, (prune_entry mount_max e).retention_deferred)
      × ((j : ℕ)
          → (e.protected_version ≡ some j) ⊎ (j ≡ e.current_version)
          → get j (prune_entry mount_max e).versions ≡ get j e.versions)
unfolding prune_entry
prune_entry_limit mount_max e = (
  prune_loop-Ended e.protected_version e.current_version (length e.versions)
      (retention_limit mount_max e) e.versions (omega arith),
  λ j h.
      get-prune_loop_kept e.protected_version e.current_version j (length e.versions)
        (retention_limit mount_max e) e.versions
        (why-kept e.protected_version e.current_version j h),
)

-- Pruning changes neither the protected version nor the current one, and of the others it removes
-- the oldest: every version that is gone is older than every one that stayed.
pub prune_entry_oldest :
    (mount_max : ℕ) (e : Entry)
    → IsSorted e.versions
    → ((v : ℕ)
        → evictable e.protected_version e.current_version v ≡ false
        → get v (prune_entry mount_max e).versions ≡ get v e.versions)
      × ((k j : ℕ)
          → get k e.versions ≢ none
          → get k (prune_entry mount_max e).versions ≡ none
          → evictable e.protected_version e.current_version j ≡ true
          → get j (prune_entry mount_max e).versions ≢ none
          → k < j)
unfolding prune_entry
prune_entry_oldest mount_max e s = (
  λ v h.
      get-prune_loop_kept e.protected_version e.current_version v (length e.versions)
        (retention_limit mount_max e) e.versions h,
  prune_loop-OldestGone e.protected_version e.current_version (length e.versions)
      (retention_limit mount_max e) e.versions s,
)
