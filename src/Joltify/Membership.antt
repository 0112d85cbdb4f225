-- ===== src/Joltify/Membership.antt =====
-- joltifybridge: the part of a JoltifyChainInstance that the rest of its methods does not touch, the
-- validators and the cache of pool messages (types.go); prepareTssPool and CheckAndUpdatePool of
-- bridge.go.
pub mod Keygen
pub mod Returns
pub mod Startup
pub mod Submitted
pub mod Head
use oppy_bridge.Common.{
  ℕ, String, Bool, true, false, not, Option, none, some, List, [], ◌∷◌, ◌++◌, if◌then◌else◌, ◌==◌,
}
use oppy_bridge.Common.Int.{ℤ, int_key}
use oppy_bridge.Common.Outcome.{Outcome, done, ◌>>=◌}
use oppy_bridge.Common.Result.{Result, ok, err}
use oppy_bridge.External.{Bytes, Env}
use oppy_bridge.Decimal.{parse_int}
use oppy_bridge.Validators.{ValidatorSet}
use oppy_bridge.Joltify.Signing.{
  Message, TxBuilder, CosmosClient, gas_estimation, gen_send_tx, broadcast,
}

-- tssPoolMsg; an account is its sequence and its number.
pub record TssPoolMsg : Type 0 where
  pub msg : Message
  pub acc : ℕ × ℕ
  pub pool_pub_key : String
  pub block_height : ℤ

-- `my_validator_key` is what base64 decodes of the key in myValidatorInfo.
pub record Membership : Type 0 where
  pub validator_set : ValidatorSet
  pub my_validator_key : Result Bytes
  pub msg_send_cache : List TssPoolMsg

-- prepareTssPool, with the account that the chain knows of the creator: a new entry at the end.
unfoldable pub prepare_tss_pool :
    Result (ℕ × ℕ) → Bytes → String → Bytes → Membership → Result (Unit {0}) × Membership
prepare_tss_pool (err e) creator pub_key height m = (err e, m)
prepare_tss_pool (ok acc) creator pub_key height m = elim (parse_int height) [
  | err e ↦ (err e, m)
  | ok block_height ↦ (
    ok tt,
    record m {
      msg_send_cache =
          m.msg_send_cache
          ++ record {
            msg = Message.create_pool creator pub_key height;
            acc = acc;
            pool_pub_key = pub_key;
            block_height = block_height;
          }
            ∷ [];
    },
  )
]

-- `return false, ""`
abbrev pub not_submitted : Bool × String
not_submitted = (false, "")

module _ (env : Env) (client : CosmosClient) where
  -- CheckAndUpdatePool after BroadcastTx: the entry is taken out, whatever came back.
  unfoldable pub sent_pool :
      TssPoolMsg
      → List TssPoolMsg
      → Result (Bool × String)
      → Membership
      → (Bool × String) × Membership
  sent_pool el rest (err e) m = (not_submitted, record m { msg_send_cache = rest })
  sent_pool el rest (ok (false, resp)) m = (not_submitted, record m { msg_send_cache = rest })
  sent_pool el rest (ok (true, resp)) m =
      ((true, el.pool_pub_key), record m { msg_send_cache = rest })

  -- CheckAndUpdatePool after genSendTx.
  unfoldable pub send_pool :
      TssPoolMsg → List TssPoolMsg → Result TxBuilder → Membership → (Bool × String) × Membership
  send_pool el rest (err e) m = (not_submitted, m)
  send_pool el rest (ok builder) m = elim (client.tx_encoder builder) [
    | err e ↦ (not_submitted, m)
    | ok bytes ↦ sent_pool el rest (broadcast env client bytes) m
  ]

  -- CheckAndUpdatePool after GasEstimation.
  unfoldable pub submit_pool :
      TssPoolMsg → List TssPoolMsg → Result ℕ → Membership → Outcome ((Bool × String) × Membership)
  submit_pool el rest (err e) m = done (not_submitted, m)
  submit_pool el rest (ok gas) m = do
    built ← gen_send_tx env client (el.msg ∷ []) el.acc.0 el.acc.1 gas none
    done (send_pool el rest built m)

  -- CheckAndUpdatePool, by the entries of the cache: only the first is looked at.
  unfoldable pub check_first :
      List TssPoolMsg → ℤ → Membership → Outcome ((Bool × String) × Membership)
  check_first [] height m = done (not_submitted, m)
  check_first (el ∷ rest) height m =
      if el.block_height == height
      then (gas_estimation env client (el.msg ∷ []) el.acc.0 none >>= λ gas.
          submit_pool el rest gas m)
      else done (not_submitted, m)

  -- CheckAndUpdatePool
  unfoldable pub check_and_update_pool : ℤ → Membership → Outcome ((Bool × String) × Membership)
  unfolding check_first
  check_and_update_pool height m = check_first m.msg_send_cache height m
