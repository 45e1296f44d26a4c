-- ===== src/Store/Summary.antt =====
-- src/store/mod.rs: `VersionSetSummary`, the numbers and the states of the versions of one secret.
use ops_light_secrets_server.Prelude.{
  ℕ, zero, suc, Bool, true, false, not, ◌&&◌, ◌||◌, List, [], ◌∷◌, ◌++◌, ltb, ◌==◌, is_empty,
  length, checked_add,
}
use ops_light_secrets_server.Prelude.Order.{nat_ord}
use ops_light_secrets_server.Prelude.Text.{text_eq}
use ops_light_secrets_server.Prelude.Result.{Result, ok, err}
use ops_light_secrets_server.Prelude.Action.{
  Action, ◌>>=◌, ◌>>◌, pure, gets, modify, some_or, refuse,
}
use ops_light_secrets_server.BTreeMap
use ops_light_secrets_server.BTreeMap.{BTreeMap}
use ops_light_secrets_server.Kv.Types.{
  VersionState, live, soft_deleted, destroyed, state_soft_deleted, state_destroyed,
}
use ops_light_secrets_server.Codec.{CodecError, invalid, limit, u32_max}

pub record VersionSetSummary : Type 0 where
  pub generation : ℕ
  pub current_version : ℕ
  pub max_version : ℕ
  pub states : BTreeMap ℕ VersionState

abbrev pub Summary : Type 0 → Type 0
Summary A = Action VersionSetSummary CodecError A

abbrev pub empty : VersionSetSummary
empty = record { generation = 0; current_version = 0; max_version = 0; states = [] }

unfoldable pub bump : Summary (Unit {0})
unfolding ◌>>=◌
bump = do
  generation ← gets (λ s. s.generation)
  next ← some_or (checked_add generation 1) limit
  modify (λ s. record s { generation = next })

abbrev pub add_version : ℕ → VersionSetSummary → VersionSetSummary
add_version version s = record s {
  max_version = version;
  current_version = version;
  states = BTreeMap.insert version live s.states;
}

-- `*state = …` through `get_mut`.
abbrev pub set_state : ℕ → VersionState → VersionSetSummary → VersionSetSummary
set_state version state s = record s { states = BTreeMap.insert version state s.states }

unfoldable pub append : Summary ℕ
append = do
  max_version ← gets (λ s. s.max_version)
  version ← some_or (checked_add max_version 1) limit
  modify (add_version version)
  bump
  pure version

unfoldable pub soft_delete : ℕ → Summary (Unit {0})
soft_delete version = do
  states ← gets (λ s. s.states)
  state ← some_or (BTreeMap.get version states) invalid
  refuse (state_destroyed state) invalid
  modify (set_state version soft_deleted)
  bump

unfoldable pub undelete : ℕ → Summary (Unit {0})
undelete version = do
  states ← gets (λ s. s.states)
  state ← some_or (BTreeMap.get version states) invalid
  refuse (not (state_soft_deleted state)) invalid
  modify (set_state version live)
  bump

unfoldable pub destroy : ℕ → Summary (Unit {0})
destroy version = do
  states ← gets (λ s. s.states)
  state ← some_or (BTreeMap.get version states) invalid
  modify (set_state version destroyed)
  bump

-- `1..=n`.
abbrev pub one_to : ℕ → List ℕ
one_to zero = []
one_to (suc n) = one_to n ++ (suc n ∷ [])

abbrev pub same : Bool → Bool → Bool
same true b = b
same false b = not b

unfoldable pub validate : VersionSetSummary → Result CodecError (Unit {0})
validate s =
    elim (ltb s.max_version s.current_version
      || (ltb 0 s.max_version && not (s.current_version == s.max_version))
      || ltb u32_max (length s.states)
      || not (same (s.max_version == 0) (is_empty s.states))
      || not (text_eq (BTreeMap.keys s.states) (one_to s.max_version))) [
        | true ↦ err invalid
        | false ↦ ok tt
      ]

-- A method with its arguments.
pub data Change : Type 0 where
  appending : Change
  soft_deleting undeleting destroying : ℕ → Change

-- The summary after a change, whether it returns or fails.
abbrev pub after : Change → VersionSetSummary → VersionSetSummary
after appending s = (append s).1
after (soft_deleting version) s = (soft_delete version s).1
after (undeleting version) s = (undelete version s).1
after (destroying version) s = (destroy version s).1

abbrev pub run : List Change → VersionSetSummary → VersionSetSummary
run [] s = s
run (change ∷ later) s = run later (after change s)
