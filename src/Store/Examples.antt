-- ===== src/Store/Examples.antt =====
-- Tests of src/store/mod.rs: two versions, one destroyed, and changes that are refused.
use ops_light_secrets_server.Prelude.{◌≡◌, ◌≤◌, refl, List, some, [], ◌∷◌, arith}
use ops_light_secrets_server.Prelude.Order.{nat_ord}
use ops_light_secrets_server.Prelude.Result.{ok, err}
use ops_light_secrets_server.Prelude.Action.{◌>>=◌}
use ops_light_secrets_server.BTreeMap.{get, insert}
use ops_light_secrets_server.Kv.Types.{destroyed}
use ops_light_secrets_server.Codec.{invalid}
use ops_light_secrets_server.Store.Summary.{
  Change, appending, soft_deleting, undeleting, destroying, empty, bump, append, soft_delete,
  undelete, destroy, validate, run,
}
use ops_light_secrets_server.Store.Validity.{run-validate}

abbrev first_destroyed : List Change
first_destroyed = appending ∷ appending ∷ soft_deleting 1 ∷ destroying 1 ∷ []

abbrev refused : List Change
refused = undeleting 1 ∷ soft_deleting 1 ∷ destroying 7 ∷ appending ∷ []

undelete_destroyed : (undelete 1 (run first_destroyed empty)).0 ≡ err invalid
unfolding append soft_delete undelete destroy bump ◌>>=◌ get insert
undelete_destroyed = refl

third_version : (append (run first_destroyed empty)).0 ≡ ok 3
unfolding append soft_delete undelete destroy bump ◌>>=◌ get insert
third_version = refl

first_destroyed_state : get 1 (run first_destroyed empty).states ≡ some destroyed
unfolding append soft_delete undelete destroy bump ◌>>=◌ get insert
first_destroyed_state = refl

few_versions : (run first_destroyed empty).max_version ≤ 4294967295
unfolding append soft_delete undelete destroy bump ◌>>=◌ get insert
few_versions = omega arith

run-validate_example : validate (run first_destroyed empty) ≡ ok tt
run-validate_example = run-validate first_destroyed few_versions
