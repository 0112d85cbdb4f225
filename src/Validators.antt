-- ===== src/Validators.antt =====
-- validators/: the set of the joltify chain's validators. Its map has one entry to a key, like a
-- SyncMap; the lock around each method is left out, since every method takes it for its whole body.
pub mod Keyed
pub mod Latest
use oppy_bridge.Common.{String, List, [], ◌∷◌, if◌then◌else◌, ◌==◌, string_key}
use oppy_bridge.Common.Int.{ℤ, pos, int_key}
use oppy_bridge.Common.Result.{Result, ok, err}
use oppy_bridge.External.{Bytes, Env}
use oppy_bridge.SyncMap.{SyncMap, store, delete}

pub record Validator : Type 0 where
  pub address : Bytes
  pub pub_key : Bytes
  pub voting_power : ℤ

pub record ValidatorSet : Type 0 where
  pub active_validators : SyncMap String Validator
  pub block_height : ℤ

-- tmtypes.Validator, with the bytes of its key.
pub record TmValidator : Type 0 where
  pub tm_address : Bytes
  pub tm_pub_key : Bytes
  pub tm_power : ℤ

-- NewValidator
unfoldable pub new_validator : ValidatorSet
new_validator = record { active_validators = []; block_height = pos 0 }

-- The validator that an update describes, at the address that was read from its text.
abbrev pub updated : Bytes → TmValidator → Validator
updated address el = record {
  address = address;
  pub_key = el.tm_pub_key;
  voting_power = el.tm_power;
}

module _ (env : Env) where
  -- The loop of SetupValidatorSet.
  unfoldable pub setup_each : List Validator → SyncMap String Validator → SyncMap String Validator
  setup_each [] m = m
  setup_each (el ∷ l) m = setup_each l (store (env.cons_address_text el.address) el m)

  -- SetupValidatorSet
  unfoldable pub setup_validator_set : List Validator → ℤ → ValidatorSet → ValidatorSet
  setup_validator_set validators height v = record {
    active_validators = setup_each validators v.active_validators;
    block_height = height;
  }

  -- One turn of the loop of UpdateValidatorSet, with the address that was read.
  unfoldable pub update_one :
      Bytes → TmValidator → SyncMap String Validator → SyncMap String Validator
  update_one address el m =
      if el.tm_power == pos 0
      then delete (env.cons_address_text address) m
      else store (env.cons_address_text address) (updated address el) m

  -- The loop of UpdateValidatorSet: an address that cannot be read ends it, and what was done before stays.
  unfoldable pub update_each :
      List TmValidator → SyncMap String Validator → Result (Unit {0}) × SyncMap String Validator
  update_each [] m = (ok tt, m)
  update_each (el ∷ l) m = elim (env.cons_address_from_hex el.tm_address) [
    | err e ↦ (err e, m)
    | ok address ↦ update_each l (update_one address el m)
  ]

  -- UpdateValidatorSet
  unfoldable pub update_validator_set :
      List TmValidator → ℤ → ValidatorSet → Result (Unit {0}) × ValidatorSet
  update_validator_set updates height v =
      let looped = update_each updates v.active_validators in
      (looped.0, record { active_validators = looped.1; block_height = height })

-- The values of a map, in the order in which Range visits it.
abbrev pub values : SyncMap String Validator → List Validator
values [] = []
values ((_, v) ∷ m) = v ∷ values m

-- GetActiveValidators
unfoldable pub get_active_validators : ValidatorSet → List Validator × ℤ
get_active_validators v = (values v.active_validators, v.block_height)
