-- ===== src/Store/Validity.antt =====
-- src/store/mod.rs: a summary stays valid, and a destroyed version stays destroyed.
use ops_light_secrets_server.Prelude.{
  ℕ, ◌+◌, ◌≤◌, ◌≡◌, refl, sym, ap, ◌∙◌, subst, true, false, some, List, [], ◌∷◌, ◌++◌, ltb, leb,
  arith, all, length, is_empty, u64_max, ◌==◌, Bool-cases, Option-cases, inl, inr,
}
use ops_light_secrets_server.Prelude.Order.{nat_ord, same_key, same_key_iff}
use ops_light_secrets_server.Prelude.Text.{text_eq, text_eq_iff}
use ops_light_secrets_server.Prelude.Result.{ok}
use ops_light_secrets_server.Prelude.Action.{◌>>=◌}
use ops_light_secrets_server.BTreeMap.{BTreeMap, get, keys}
use ops_light_secrets_server.BTreeMap.Laws.{get-insert}
use ops_light_secrets_server.BTreeMap.Order.{IsSorted, insert-IsSorted}
use ops_light_secrets_server.Kv.Types.{
  VersionState, live, soft_deleted, destroyed, state_destroyed, state_soft_deleted,
}
use ops_light_secrets_server.Codec.{u32_max}
use ops_light_secrets_server.Store.Summary.{
  VersionSetSummary, empty, bump, add_version, set_state, append, soft_delete, undelete, destroy,
  one_to, validate, Change, appending, soft_deleting, undeleting, destroying, after, run,
}
use ops_light_secrets_server.Store.Keys.{
  keys-insert_present, keys-insert_last, length-keys, get-keys, one_to-below, length-one_to,
  one_to-next,
}

-- What a change may do: nothing, add the next version, or give a version another state, which is
-- `destroyed` if the version was destroyed. The generation it leaves does not matter here.
data Step (s : VersionSetSummary) : VersionSetSummary → Type 0 where
  unchanged : Step s s
  added : (g : ℕ) → Step s (record (add_version (s.max_version + 1) s) { generation = g })
  changed :
      (g version : ℕ) (old state : VersionState)
      → get version s.states ≡ some old
      → (state_destroyed old ≡ true → state ≡ destroyed)
      → Step s (record (set_state version state s) { generation = g })

append-Step : (s : VersionSetSummary) → Step s (append s).1
unfolding append bump ◌>>=◌
append-Step s = elim (Bool-cases (leb (s.max_version + 1) u64_max)) [
  | inr over ↦ rw over unchanged
  | inl fits ↦ elim (Bool-cases (leb (s.generation + 1) u64_max)) [
    | inr over ↦ rw (fits, over) (added s.generation)
    | inl again ↦ rw (fits, again) (added (s.generation + 1))
  ]
]

bump_set-Step :
    (s : VersionSetSummary) (version : ℕ) (old state : VersionState)
    → get version s.states ≡ some old
    → (state_destroyed old ≡ true → state ≡ destroyed)
    → Step s (bump (set_state version state s)).1
unfolding bump ◌>>=◌
bump_set-Step s version old state e k = elim (Bool-cases (leb (s.generation + 1) u64_max)) [
  | inr over ↦ rw over (changed s.generation version old state e k)
  | inl fits ↦ rw fits (changed (s.generation + 1) version old state e k)
]

soft_delete-Step : (version : ℕ) (s : VersionSetSummary) → Step s (soft_delete version s).1
unfolding soft_delete ◌>>=◌
soft_delete-Step version s = elim (Option-cases (get version s.states)) [
  | inl none_there ↦ rw none_there unchanged
  | inr (old, e) ↦ elim (Bool-cases (state_destroyed old)) [
    | inl gone ↦ rw (e, gone) unchanged
    | inr there ↦
        rw (e, there) (bump_set-Step s version old soft_deleted e (λ h. ground (arith, h, there)))
  ]
]

undelete-Step : (version : ℕ) (s : VersionSetSummary) → Step s (undelete version s).1
unfolding undelete ◌>>=◌
undelete-Step version s = elim (Option-cases (get version s.states)) [
  | inl none_there ↦ rw none_there unchanged
  | inr (old, e) ↦ elim (Bool-cases (state_soft_deleted old)) [
    | inr other ↦ rw (e, other) unchanged
    | inl there ↦ rw (e, there) (bump_set-Step s version old live e (λ h. ground (arith, h, there)))
  ]
]

destroy-Step : (version : ℕ) (s : VersionSetSummary) → Step s (destroy version s).1
unfolding destroy ◌>>=◌
destroy-Step version s = elim (Option-cases (get version s.states)) [
  | inl none_there ↦ rw none_there unchanged
  | inr (old, e) ↦ rw e (bump_set-Step s version old destroyed e (λ h. refl))
]

after-Step : (change : Change) (s : VersionSetSummary) → Step s (after change s)
after-Step appending s = append-Step s
after-Step (soft_deleting version) s = soft_delete-Step version s
after-Step (undeleting version) s = undelete-Step version s
after-Step (destroying version) s = destroy-Step version s

record IsValid (s : VersionSetSummary) : Type 0 where
  pub latest : s.current_version ≡ s.max_version
  pub numbered : keys s.states ≡ one_to s.max_version
  pub sorted : IsSorted s.states

keys-below :
    (s : VersionSetSummary)
    → IsValid s
    → all (λ j. ltb j (s.max_version + 1)) (keys s.states) ≡ true
keys-below s h =
    subst (λ x. all (λ j. ltb j (s.max_version + 1)) x ≡ true) (sym h.numbered)
      (one_to-below s.max_version (s.max_version + 1) (ground arith))

Step-IsValid : (s t : VersionSetSummary) → Step s t → IsValid s → IsValid t
Step-IsValid s _ unchanged h = h
Step-IsValid s _ (added g) h = record {
  latest = refl;
  numbered =
      keys-insert_last (s.max_version + 1) live s.states (keys-below s h)
      ∙ ap (λ x. x ++ ((s.max_version + 1) ∷ [])) h.numbered
      ∙ sym (one_to-next s.max_version);
  sorted = insert-IsSorted (s.max_version + 1) live s.states h.sorted;
}
Step-IsValid s _ (changed g version old state e k) h = record {
  latest = h.latest;
  numbered =
      keys-insert_present version state s.states h.sorted (λ missing. ground (arith, missing, e))
      ∙ h.numbered;
  sorted = insert-IsSorted version state s.states h.sorted;
}

Step-destroyed :
    (s t : VersionSetSummary) (v : ℕ)
    → Step s t
    → IsValid s
    → get v s.states ≡ some destroyed
    → get v t.states ≡ some destroyed
Step-destroyed s _ v unchanged h e = e
Step-destroyed s _ v (added g) h e =
    let below =
      get-keys v (s.max_version + 1) s.states (keys-below s h)
        (λ missing. ground (arith, missing, e)) in
    let new = s.max_version + 1 in
    let other : same_key new v ≡ false = ground (arith, same_key_iff new v) in
    get-insert new v live s.states ∙ rw other e
Step-destroyed s _ v (changed g version old state f k) h e =
    elim (Bool-cases (same_key version v)) [
      | inr other ↦ get-insert version v state s.states ∙ rw other e
      | inl this ↦
          let place : version ≡ v = ground (arith, same_key_iff version v) in
          let here : get v s.states ≡ some old = subst (λ x. get x s.states ≡ some old) place f in
          let was : old ≡ destroyed = ground (arith, here, e) in
          let is : state ≡ destroyed = k (rw was refl) in
          get-insert version v state s.states ∙ rw (this, is) refl
    ]

empty-IsValid : IsValid empty
unfolding keys
empty-IsValid = record { latest = refl; numbered = refl; sorted = tt }

run-IsValid : (changes : List Change) (s : VersionSetSummary) → IsValid s → IsValid (run changes s)
run-IsValid [] s h = h
run-IsValid (change ∷ later) s h =
    run-IsValid later (after change s) (Step-IsValid s _ (after-Step change s) h)

is_empty-length : (m : BTreeMap ℕ VersionState) → is_empty m ≡ (length m == 0)
is_empty-length [] = refl
is_empty-length (x ∷ m) = ground arith

IsValid-validate :
    (s : VersionSetSummary) → IsValid s → s.max_version ≤ u32_max → validate s ≡ ok tt
unfolding validate
IsValid-validate s h bound =
    let latest = h.latest in
    let counted : length s.states ≡ s.max_version =
      sym (length-keys s.states) ∙ ap length h.numbered ∙ length-one_to s.max_version in
    let listed : text_eq (keys s.states) (one_to s.max_version) ≡ true =
      (text_eq_iff (keys s.states) (one_to s.max_version)).1 h.numbered in
    rw (listed, validate, is_empty-length s.states, counted, latest) (ground (arith, bound))

-- Whatever changes are made to a new summary, in whatever order, and whether they succeed or fail, the
-- summary passes its validation, as long as the number of its versions fits in 32 bits.
pub run-validate :
    (changes : List Change)
    → (run changes empty).max_version ≤ u32_max
    → validate (run changes empty) ≡ ok tt
run-validate changes bound =
    IsValid-validate (run changes empty) (run-IsValid changes empty empty-IsValid) bound

-- A destroyed version of a summary that some changes made stays destroyed through all later changes,
-- whether they succeed or fail.
pub run-destroyed :
    (earlier later : List Change) (v : ℕ)
    → get v (run earlier empty).states ≡ some destroyed
    → get v (run later (run earlier empty)).states ≡ some destroyed
run-destroyed earlier later v e =
    stays later (run earlier empty) (run-IsValid earlier empty empty-IsValid) e
  where
    stays :
        (changes : List Change) (s : VersionSetSummary)
        → IsValid s
        → get v s.states ≡ some destroyed
        → get v (run changes s).states ≡ some destroyed
    stays [] s h k = k
    stays (change ∷ rest) s h k =
        stays rest (after change s) (Step-IsValid s _ (after-Step change s) h)
          (Step-destroyed s _ v (after-Step change s) h k)
