-- ===== src/Joltify/Service.antt =====
-- joltifybridge: mint.go, MoveFunds of tx_outbound.go, and the checks of validator.go, which ask the node
-- of the joltify chain.
pub mod Returns
use oppy_bridge.Common.{
  ℕ, String, Bool, true, false, ◌||◌, Option, none, some, List, [], ◌∷◌, if◌then◌else◌, ◌==◌,
  nat_key, string_key, bytes_key,
}
use oppy_bridge.Common.Int.{ℤ}
use oppy_bridge.Common.Outcome.{Outcome, done, panics, ◌>>=◌}
use oppy_bridge.Common.Result.{Result, ok, err}
use oppy_bridge.External.{Bytes, Coin, VaultPool, Env}
use oppy_bridge.Misc.Keys.{pool_pub_key_to_jolt_address}
use oppy_bridge.Pool.{PoolInfo}
use oppy_bridge.Pubchain.State.{InboundReq, inbound_hash}
use oppy_bridge.Joltify.State.{JoltifyChainInstance, get_jolt_pool}
use oppy_bridge.Joltify.Signing.{Message, CosmosClient, compose_and_send}

-- What the node of the joltify chain and the keyring answer while one event is processed. An index is
-- the Hex of a request's hash, here its number; `none` is the empty text.
pub record JoltService : Type 0 where
  pub operator : Result Bytes
  pub last_pools : Result (List VaultPool)
  pub query_account : Bytes → Result (ℕ × ℕ)
  pub query_balance : Bytes → Result (List Coin)
  pub given_token_issue : Option ℕ → Result Bool
  pub new_issue_token : Bytes → Option ℕ → Coin → Bytes → Result Message
  pub cosmos : CosmosClient

abbrev any_equals : Bytes → List Bytes → Bool
any_equals address [] = false
any_equals address (n ∷ nodes) = n == address || any_equals address nodes

module _ (svc : JoltService) where
  -- CheckWhetherSigner
  unfoldable pub check_whether_signer : VaultPool → Result Bool
  check_whether_signer pool = elim svc.operator [
    | err e ↦ err e
    | ok creator ↦ ok (any_equals creator pool.nodes)
  ]

  -- CheckWhetherAlreadyExist
  unfoldable pub check_whether_already_exist : Option ℕ → Bool
  check_whether_already_exist index = elim (svc.given_token_issue index) [
    | err e ↦ false
    | ok found ↦ found
  ]

  -- CheckTxStatus, at its last try.
  unfoldable pub check_jolt_tx_status : Option ℕ → Result (Unit {0})
  check_jolt_tx_status index =
      if check_whether_already_exist index then ok tt else err "fail to find the tx"

  -- The end of ProcessInBound: what composeAndSend returns.
  unfoldable pub broadcast_issue : Option ℕ → Result (Bool × String) → Result (String × Option ℕ)
  broadcast_issue index (err e) = err "fail to process the inbound tx"
  broadcast_issue index (ok (false, tx_hash)) = err "fail to process the inbound tx"
  broadcast_issue index (ok (true, tx_hash)) = ok (tx_hash, index)

  -- ProcessInBound from the query of the account on.
  unfoldable pub issue_token :
      Env → InboundReq → PoolInfo → Bytes → ℕ × ℕ → Outcome (Result (String × Option ℕ))
  issue_token env item pool creator (acc_seq, acc_num) =
      let index = some (inbound_hash env item) in
      if check_whether_already_exist index
      then done (ok ("", none))
      else elim (svc.new_issue_token creator index item.coin item.address) [
        | err e ↦ done (err e)
        | ok msg ↦ do
          sent ←
              compose_and_send env svc.cosmos msg acc_seq acc_num
                (record { pk = pool.pk; block_height = item.block_height })
          done (broadcast_issue index sent)
      ]

  -- ProcessInBound
  unfoldable pub process_inbound :
      Env → InboundReq → JoltifyChainInstance → Outcome (Result (String × Option ℕ))
  process_inbound env item jc = elim (get_jolt_pool jc).pool0 [
    | none ↦ done (err "not enough signer")
    | some _ ↦ elim (get_jolt_pool jc).pool1 [
      | none ↦ panics
      | some pool ↦ elim (pool_pub_key_to_jolt_address env pool.pk) [
        | err e ↦ done (err "invalid address")
        | ok creator ↦ elim (svc.query_account pool.joltify_address) [
          | err e ↦ done (err "invalid account query")
          | ok acc ↦ issue_token env item pool creator acc
        ]
      ]
    ]
  ]

  -- The end of MoveFunds: what composeAndSend returns.
  unfoldable pub moved_coins : Result (Bool × String) → Bool × Result (Unit {0})
  moved_coins (err e) = (false, err "fail to process the inbound tx")
  moved_coins (ok (false, resp)) = (false, err "fail to process the inbound tx")
  moved_coins (ok (true, resp)) = (false, ok tt)

  -- MoveFunds from the test of the balance on.
  unfoldable pub move_coins :
      Env → PoolInfo → Bytes → ℤ → ℕ × ℕ → List Coin → Outcome (Bool × Result (Unit {0}))
  move_coins env from_pool to height (acc_seq, acc_num) [] = done (true, ok tt)
  move_coins env from_pool to height (acc_seq, acc_num) (c ∷ coins) = do
    sent ←
        compose_and_send env svc.cosmos (Message.move from_pool.joltify_address to (c ∷ coins))
          acc_seq acc_num (record { pk = from_pool.pk; block_height = height })
    done (moved_coins sent)

  -- MoveFunds: whether the account is empty, and an error.
  unfoldable pub move_jolt_funds : Env → PoolInfo → Bytes → ℤ → Outcome (Bool × Result (Unit {0}))
  move_jolt_funds env from_pool to height = elim (svc.query_account from_pool.joltify_address) [
    | err e ↦ done (false, err e)
    | ok acc ↦ elim (svc.query_balance from_pool.joltify_address) [
      | err e ↦ done (false, err e)
      | ok coins ↦ move_coins env from_pool to height acc coins
    ]
  ]
