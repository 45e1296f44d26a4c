-- ===== src/Rotation/Rollup.antt =====
-- src/rotation.rs: the members that `classify_adoption` looks up, and the classes it makes of theirs.
use mathlib.Core.List.{Memᴰ}
use ops_light_secrets_server.Prelude.{
  ℕ, ◌≡◌, ◌∙◌, refl, sym, ap, subst, true, false, not, none, some, List, [], ◌∷◌, map, ◌==◌, ==_iff,
  any, arith, inl, inr, Bool-cases, Option-cases,
}
use ops_light_secrets_server.Prelude.Order.{nat_ord}
use ops_light_secrets_server.Prelude.Text.{Text, text_eq, text_eq_iff}
use ops_light_secrets_server.Prelude.Search.{any_complete}
use ops_light_secrets_server.Rotation.Adoption.{
  find_member, found_members, holds_class, single_class, rollup_class, consumer_class,
}
use ops_light_secrets_server.Rotation.Reads.{
  AdoptionClass, AdoptionMember, on_current, on_prior, silent_since_write, no_instance_observation,
  retired_without_proof, class_code, class_eq,
}

pub class_code-of : (c d : AdoptionClass) → class_eq c d ≡ true → c ≡ d
unfolding class_code
class_code-of on_current on_current h = refl
class_code-of on_prior on_prior h = refl
class_code-of silent_since_write silent_since_write h = refl
class_code-of no_instance_observation no_instance_observation h = refl
class_code-of retired_without_proof retired_without_proof h = refl
class_code-of _ _ h = ground arith

-- A member is found among those that were made for each id of a list.
module _ (kind : Text) (make : ℕ → AdoptionMember) (own_kind : (id : ℕ) → (make id).kind ≡ kind)
    (own_id : (id : ℕ) → (make id).id ≡ id) where
  find_member-map :
      (made : List ℕ) (id : ℕ) → Memᴰ id made → find_member (map make made) kind id ≡ some (make id)
  unfolding find_member
  find_member-map [] id m = elim m [ ]
  find_member-map (x ∷ made) id m =
      let right : text_eq (make x).kind kind ≡ true = (text_eq_iff _ _).1 (own_kind x) in
      elim (Bool-cases ((make x).id == id)) [
        | inl hit ↦
            let same : x ≡ id = sym (own_id x) ∙ (==_iff _ _).0 hit in
            rw (right, hit) (ap (λ y. some (make y)) same)
        | inr miss ↦ rw (right, miss) (find_member-map made id (tail_of miss m))
      ]
    where
      tail_of :
          {x id : ℕ} {made : List ℕ}
          → ((make x).id == id) ≡ false
          → Memᴰ id (x ∷ made)
          → Memᴰ id made
      tail_of {x} {id} miss (Memᴰ.head e) = absurd (ground (arith, miss, own_id x, e))
      tail_of miss (Memᴰ.tail m) = m

  pub found_members-mem :
      (made ids : List ℕ) (id : ℕ)
      → Memᴰ id ids
      → Memᴰ id made
      → Memᴰ (make id) (found_members (map make made) kind ids)
  unfolding found_members
  found_members-mem made [] id m in_made = elim m [ ]
  found_members-mem made (x ∷ ids) id (Memᴰ.head e) in_made =
      let here : find_member (map make made) kind x ≡ some (make id) =
        subst (λ y. find_member (map make made) kind y ≡ some (make id)) e
          (find_member-map made id in_made) in
      elim (Option-cases (find_member (map make made) kind x)) [
        | inl missing ↦ absurd (ground (arith, here, missing))
        | inr (other, found) ↦ rw (found_members, found) (Memᴰ.head (ground (arith, here, found)))
      ]
  found_members-mem made (x ∷ ids) id (Memᴰ.tail m) in_made =
      elim (Option-cases (find_member (map make made) kind x)) [
        | inl missing ↦ rw (found_members, missing) (found_members-mem made ids id m in_made)
        | inr (other, found) ↦
            rw (found_members, found) (Memᴰ.tail (found_members-mem made ids id m in_made))
      ]

without :
    (c : AdoptionClass) (members : List AdoptionMember) (member : AdoptionMember)
    → holds_class c members ≡ false
    → Memᴰ member members
    → class_eq member.class c ≡ false
without c members member h m = elim (Bool-cases (class_eq member.class c)) [
  | inr no_ ↦ no_
  | inl yes_ ↦
      let found = any_complete (λ x. class_eq x.class c) members member m yes_ in
      absurd (ground (arith, h, found))
]

-- The class that is left when a member has none of the others.
last_class :
    (c : AdoptionClass)
    → class_eq c on_prior ≡ false
    → class_eq c silent_since_write ≡ false
    → class_eq c no_instance_observation ≡ false
    → class_eq c retired_without_proof ≡ false
    → c ≡ on_current
unfolding class_code
last_class on_current a b d e = refl
last_class on_prior a b d e = ground arith
last_class silent_since_write a b d e = ground arith
last_class no_instance_observation a b d e = ground arith
last_class retired_without_proof a b d e = ground arith

pub consumer_class-current :
    (identities : List ℕ) (members : List AdoptionMember) (member : AdoptionMember)
    → consumer_class identities members ≡ on_current
    → Memᴰ member members
    → member.class ≡ on_current
unfolding consumer_class
consumer_class-current identities members member h m =
    last_class member.class (without on_prior members member (ground arith) m)
      (without silent_since_write members member (ground arith) m)
      (without no_instance_observation members member (ground arith) m)
      (without retired_without_proof members member (ground arith) m)

single_class-same :
    (members : List AdoptionMember) (c : AdoptionClass) (member : AdoptionMember)
    → single_class members ≡ some c
    → Memᴰ member members
    → member.class ≡ c
single_class-same [] c member h m = ground arith
single_class-same (first ∷ rest) c member h m =
    elim (Bool-cases (any (λ other. not (class_eq other.class first.class)) rest)) [
      | inl differ ↦ absurd (ground (arith, h, differ))
      | inr same ↦ let it : first.class ≡ c = ground (arith, h, same) in go same it m
    ]
  where
    go :
        any (λ other. not (class_eq other.class first.class)) rest ≡ false
        → first.class ≡ c
        → Memᴰ member (first ∷ rest)
        → member.class ≡ c
    go same it (Memᴰ.head e) = ap (λ x. x.class) e ∙ it
    go same it (Memᴰ.tail n) = elim (Bool-cases (class_eq member.class first.class)) [
      | inl equal ↦ class_code-of member.class first.class equal ∙ it
      | inr unequal ↦
          let found =
            any_complete (λ other. not (class_eq other.class first.class)) rest member n
              (ap not unequal) in
          absurd (ground (arith, same, found))
    ]

pub rollup_class-current :
    (members : List AdoptionMember) (member : AdoptionMember)
    → rollup_class members ≡ on_current
    → class_eq member.class no_instance_observation ≡ false
    → Memᴰ member members
    → member.class ≡ on_current
unfolding rollup_class
rollup_class-current members member h never m = elim (Option-cases (single_class members)) [
  | inr (c, one) ↦
      let it : c ≡ on_current = ground (arith, h, one) in
      single_class-same members c member one m ∙ it
  | inl many ↦
      let left = several h many in
      last_class member.class (without on_prior members member left.0 m)
        (without silent_since_write members member left.1 m) never
        (without retired_without_proof members member left.2 m)
]
  where
    several :
        rollup_class members ≡ on_current
        → single_class members ≡ none
        → (holds_class on_prior members ≡ false)
          × (holds_class silent_since_write members ≡ false)
          × (holds_class retired_without_proof members ≡ false)
    several h many = (ground (arith, h, many), ground (arith, h, many), ground (arith, h, many))
