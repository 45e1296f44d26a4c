-- ===== src/Rotation/Interval.antt =====
-- src/rotation.rs: how old a secret is, and the interval after which its rotation is due.
use ops_light_secrets_server.Prelude.{
  ℕ, ◌-◌, ◌≡◌, ◌≢◌, refl, Bool, true, false, Option, none, some, ltb, leb, ◌==◌, arith,
  if◌then◌else◌,
}
use ops_light_secrets_server.Prelude.Text.{Text, text}
use ops_light_secrets_server.Prelude.Result.{Result, ok, err}
use ops_light_secrets_server.Rotation.Lifecycle.{RotationError, invalid}
use ops_light_secrets_server.Rotation.Overview.{is_some_and}

pub record RotationIntervalPolicy : Type 0 where
  pub interval_seconds : Option ℕ
  pub last_completed_rotation_unix_seconds : Option ℕ
  pub created_unix_seconds : ℕ
  pub last_non_rotation_write_unix_seconds : Option ℕ

pub record SecretAgeView : Type 0 where
  pub age_seconds : ℕ
  pub age_basis : Text
  pub interval_seconds : Option ℕ
  pub due : Bool
  pub changed_since_last_completed_rotation : Bool

unfoldable age_basis_of : RotationIntervalPolicy → ℕ × Text
age_basis_of policy = elim policy.last_completed_rotation_unix_seconds [
  | some completed ↦ (completed, text "last_completed_rotation")
  | none ↦ (policy.created_unix_seconds, text "creation")
]

abbrev changed_since : Option ℕ → Option ℕ → Bool
changed_since (some completed) (some written) = ltb completed written
changed_since none (some written) = true
changed_since _ none = false

-- `saturating_sub` is the subtraction of natural numbers.
unfoldable secret_age_view : RotationIntervalPolicy → ℕ → SecretAgeView
secret_age_view policy now_unix_seconds =
    let basis = age_basis_of policy in
    let age_seconds = now_unix_seconds - basis.0 in
    record {
      age_seconds = age_seconds;
      age_basis = basis.1;
      interval_seconds = policy.interval_seconds;
      due = is_some_and policy.interval_seconds (λ interval. leb interval age_seconds);
      changed_since_last_completed_rotation =
          changed_since policy.last_completed_rotation_unix_seconds
            policy.last_non_rotation_write_unix_seconds;
    }

-- `Option::or`, and `Option::and` of nothing.
abbrev or_else : Option ℕ → Option ℕ → Option ℕ
or_else (some a) b = some a
or_else none b = b

abbrev and_none : Option ℕ → Option ℕ
and_none a = none

abbrev is_zero : Option ℕ → Bool
is_zero none = false
is_zero (some seconds) = seconds == 0

unfoldable apply_interval_mutation : Option ℕ → Option ℕ → Result RotationError (Option ℕ)
apply_interval_mutation current next =
    if is_zero next then err invalid else ok (or_else (or_else next (and_none current)) next)

unfoldable set_rotation_interval : ℕ → Result RotationError ℕ
set_rotation_interval seconds = if seconds == 0 then err invalid else ok seconds

unfoldable clear_rotation_interval : Option ℕ
clear_rotation_interval = none

-- The interval that is asked for is the one that is kept: setting it is a mutation to it, and clearing
-- it one to nothing, whatever it was before.
interval_mutations :
    (current : Option ℕ) (seconds : ℕ)
    → seconds ≢ 0
    → (apply_interval_mutation current (some seconds) ≡ ok (some seconds))
      × (set_rotation_interval seconds ≡ ok seconds)
      × (apply_interval_mutation current clear_rotation_interval ≡ ok clear_rotation_interval)
unfolding apply_interval_mutation set_rotation_interval clear_rotation_interval
interval_mutations current seconds h = (ground (arith, h), ground (arith, h), refl)
