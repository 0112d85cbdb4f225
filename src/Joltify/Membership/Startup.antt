-- ===== src/Joltify/Membership/Startup.antt =====
-- joltifybridge/validator.go: InitValidators, before the loop of the bridge starts.
pub mod Lists
use oppy_bridge.Common.{String, List, [], ◌∷◌, ◌++◌, ◌≡◌, Option, none, some, Bool, true, false}
use oppy_bridge.Common.Int.{ℤ}
use oppy_bridge.Common.Result.{Result, ok, err}
use oppy_bridge.External.{Bytes, Env}
use oppy_bridge.Validators.{Validator, ValidatorSet, new_validator, setup_validator_set}
use oppy_bridge.Validators.Keyed.{IsKeyed, setup_each-IsKeyed}
use oppy_bridge.Joltify.Membership.{Membership}

-- tmservice.Validator, with what UnpackAny gives for its key.
pub record TipValidator : Type 0 where
  pub tip_address : String
  pub tip_pub_key : Result Bytes
  pub tip_power : ℤ

-- What the node answers at the start: GetSyncing once after the other until the deadline, GetNodeInfo, the status page
-- with what json reads of it (the key in it as base64 decodes it), and the set of validators.
pub record StartupService : Type 0 where
  pub syncing : List (Result Bool)
  pub node_info : Result (Unit {0})
  pub status_page : Result Bytes
  pub status_key : Bytes → Result (Result Bytes)
  pub tip_validators : Result (ℤ × List TipValidator)

module _ (env : Env) where
  -- The loop of doInitValidator.
  unfoldable pub local_vals : List TipValidator → List Validator → Result (List Validator)
  local_vals [] done_vals = ok done_vals
  local_vals (el ∷ l) done_vals = elim el.tip_pub_key [
    | err e ↦ err e
    | ok pk ↦ elim (env.cons_address_from_bech32 el.tip_address) [
      | err e ↦ err e
      | ok adr ↦
          local_vals l
            (done_vals ++ record { address = adr; pub_key = pk; voting_power = el.tip_power } ∷ [])
    ]
  ]

  -- doInitValidator
  unfoldable pub do_init_validator : Result Bytes → ℤ → List TipValidator → Result Membership
  do_init_validator my_key height tips = elim (local_vals tips []) [
    | err e ↦ err e
    | ok vals ↦ ok (record {
      validator_set = setup_validator_set env vals height new_validator;
      my_validator_key = my_key;
      msg_send_cache = [];
    })
  ]

-- The loop over GetSyncing, of the answers within the ten seconds of its context; the call after them
-- fails.
unfoldable pub wait_synced : List (Result Bool) → Result (Unit {0})
wait_synced [] = err "context deadline exceeded"
wait_synced (err e ∷ l) = err e
wait_synced (ok true ∷ l) = wait_synced l
wait_synced (ok false ∷ l) = ok tt

module _ (env : Env) (svc : StartupService) where
  -- InitValidators once the node is synced.
  unfoldable pub init_synced : Result Membership
  init_synced = elim svc.node_info [
    | err e ↦ err e
    | ok _ ↦ elim svc.status_page [
      | err e ↦ err e
      | ok page ↦ elim (svc.status_key page) [
        | err e ↦ err e
        | ok my_key ↦ elim svc.tip_validators [
          | err e ↦ err e
          | ok (height, tips) ↦ do_init_validator env my_key height tips
        ]
      ]
    ]
  ]

  -- InitValidators, of an instance whose cache is empty.
  unfoldable pub init_validators : Result Membership
  init_validators = elim (wait_synced svc.syncing) [ err e ↦ err e | ok _ ↦ init_synced ]
