-- ===== src/Bridge/PubBlock.antt =====
-- bridge/joltifyBridge.go: the case of a new block of the public chain.
use oppy_bridge.Common.{
  ℕ, Bool, true, false, not, none, some, List, if◌then◌else◌, nat_key, string_key, bytes_key,
}
use oppy_bridge.Common.Int.{int64_of}
use oppy_bridge.Common.Outcome.{Outcome, done, panics, ◌>>=◌}
use oppy_bridge.Common.Result.{Result, ok, err}
use oppy_bridge.External.{Bytes, Transaction, Env}
use oppy_bridge.Misc.BigInt.{uint64}
use oppy_bridge.Pool.{PoolInfo}
use oppy_bridge.Pubchain.State.{
  PubChainInstance, add_pub_move_fund, pop_pub_move_fund, get_pub_pool,
}
use oppy_bridge.Pubchain.Blocks.{process_new_block, delete_expired}
use oppy_bridge.Pubchain.Sending.{EthClient, move_pub_funds}
use oppy_bridge.Joltify.State.{
  JoltifyChainInstance, set_outbound_height, pop_outbound_item, send_outbound,
}
use oppy_bridge.Joltify.Service.{JoltService, check_whether_signer}
use oppy_bridge.Bridge.{Bridge}

-- A request of the retry pool goes to the channel again, at this height.
unfoldable pub retry_outbound : ℕ → JoltifyChainInstance → Outcome JoltifyChainInstance
retry_outbound number jc = do
  popped ← pop_outbound_item jc
  elim popped.0 [
    | none ↦ done popped.1
    | some item ↦ send_outbound (set_outbound_height (int64_of number) item) popped.1
  ]

-- What the results of MoveFunds do to the queue: the pool is put back unless its account is empty.
unfoldable pub requeue : PoolInfo → Bool × Result (Unit {0}) → PubChainInstance → PubChainInstance
requeue previous_pool (empty, err e) pi = add_pub_move_fund previous_pool pi.current_height pi
requeue previous_pool (true, ok _) pi = pi
requeue previous_pool (false, ok _) pi = add_pub_move_fund previous_pool pi.current_height pi

module _ (env : Env) (svc : JoltService) (client : EthClient) (number : ℕ) where
  -- MoveFunds of a pool that was taken out of the queue, by a signer of that pool, to the latest pool,
  -- which is dereferenced.
  unfoldable pub move_to_latest : PoolInfo → PubChainInstance → Outcome PubChainInstance
  move_to_latest previous_pool pi = elim (check_whether_signer svc previous_pool.pool_info) [
    | err e ↦ done pi
    | ok is_signer ↦ if not is_signer then done pi else elim (get_pub_pool pi).pool1 [
      | none ↦ panics
      | some current_pool ↦ do
        moved ←
            move_pub_funds env client previous_pool current_pool.eth_address (int64_of number) pi
        done (requeue previous_pool moved pi)
    ]
  ]

  unfoldable pub move_pub_queue : PubChainInstance → Outcome PubChainInstance
  move_pub_queue pi = do
    popped ← pop_pub_move_fund (int64_of (uint64 number)) pi
    elim popped.0 [ none ↦ done popped.1 | some entry ↦ move_to_latest entry.0 popped.1 ]

  -- The case of pubNewBlockChan, with what BlockByNumber and checkEachTx return.
  unfoldable pub new_pub_block :
      (Bytes → Result ℕ) → Result (List Transaction) → Bridge → Outcome Bridge
  new_pub_block check_each_tx block b = do
    processed ← process_new_block env check_each_tx number block b.pi
    retried ← retry_outbound number b.jolt_chain
    moved ←
        move_pub_queue
          (delete_expired (uint64 number) (record processed.1 { current_height = int64_of number }))
    done (record b { pi = moved; jolt_chain = retried })
