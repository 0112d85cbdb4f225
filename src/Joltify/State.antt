-- ===== src/Joltify/State.antt =====
-- joltifybridge/types.go: the state of a JoltifyChainInstance, and the methods that keep its queues and
-- its pools. The key server, the clients and the cache of pool messages are not part of it.
use oppy_bridge.Common.{
  ℕ, suc, Option, none, List, [], ◌∷◌, ◌++◌, ltb, if◌then◌else◌, nat_key, string_key, bytes_key,
  length,
}
use oppy_bridge.Common.Int.{ℤ, pos, negsuc}
use oppy_bridge.Common.Outcome.{Outcome, done, blocked, ◌>>=◌}
use oppy_bridge.Common.Result.{Result, ok, err}
use oppy_bridge.Config.{req_cache_size}
use oppy_bridge.External.{Bytes, Coin, VaultPool, Env}
use oppy_bridge.Misc.Keys.{pool_pub_key_to_jolt_address, pool_pub_key_to_eth_address}
use oppy_bridge.Pool.{PoolInfo, TwoPools, no_pools, push_pool}
use oppy_bridge.RetryPool
use oppy_bridge.RetryPool.{RetryPool}
use oppy_bridge.MoveFundQueue
use oppy_bridge.SyncMap.{SyncMap}

pub record OutBoundReq : Type 0 where
  pub tx_id : Bytes
  pub out_receiver_address : Bytes
  pub from_pool_addr : Bytes
  pub coin : Coin
  pub block_height : ℤ

pub record OutboundTx : Type 0 where
  pub out_receiver_address : Bytes
  pub block_height : ℕ
  pub token : Coin
  pub fee : Coin

pub record JoltifyChainInstance : Type 0 where
  pub last_two_pools : TwoPools
  pub outbound_req_chan : List OutBoundReq
  pub retry_outbound_req : RetryPool OutBoundReq
  pub move_fund_req : SyncMap ℤ PoolInfo
  pub current_height : ℤ

-- NewJoltifyBridge, once the clients are connected.
unfoldable pub new_joltify_bridge : JoltifyChainInstance
new_joltify_bridge = record {
  last_two_pools = no_pools;
  outbound_req_chan = [];
  retry_outbound_req = RetryPool.empty;
  move_fund_req = [];
  current_height = pos 0;
}

abbrev pub new_outbound_req : Bytes → Bytes → Bytes → Coin → ℤ → OutBoundReq
new_outbound_req tx_id address from_pool_addr coin block_height = record {
  tx_id = tx_id;
  out_receiver_address = address;
  from_pool_addr = from_pool_addr;
  coin = coin;
  block_height = block_height;
}

abbrev pub set_outbound_height : ℤ → OutBoundReq → OutBoundReq
set_outbound_height h req = record req { block_height = h }

-- big.Int.Bytes is of the absolute value.
abbrev pub abs : ℤ → ℕ
abs (pos n) = n
abs (negsuc n) = suc n

-- OutBoundReq.Hash().Big()
unfoldable pub outbound_hash : Env → OutBoundReq → ℕ
outbound_hash env i = env.keccak256 (
    i.out_receiver_address
    ∷ i.from_pool_addr
    ∷ i.tx_id
    ∷ env.height_bytes (abs i.block_height)
    ∷ [])

-- AddItem
unfoldable pub add_outbound_item : Env → OutBoundReq → JoltifyChainInstance → JoltifyChainInstance
unfolding outbound_hash
add_outbound_item env req jc = record jc {
  retry_outbound_req = RetryPool.add_item (outbound_hash env req) req jc.retry_outbound_req;
}

-- PopItem
unfoldable pub pop_outbound_item :
    JoltifyChainInstance → Outcome (Option OutBoundReq × JoltifyChainInstance)
pop_outbound_item jc = do
  popped ← RetryPool.pop_item jc.retry_outbound_req
  done (popped.0, record jc { retry_outbound_req = popped.1 })

-- Size
unfoldable pub outbound_size : JoltifyChainInstance → ℕ
outbound_size jc = RetryPool.size jc.retry_outbound_req

-- A send on OutboundReqChan, whose only receiver is the loop that sends.
unfoldable pub send_outbound : OutBoundReq → JoltifyChainInstance → Outcome JoltifyChainInstance
send_outbound req jc =
    if ltb (length jc.outbound_req_chan) req_cache_size
    then done (record jc { outbound_req_chan = jc.outbound_req_chan ++ req ∷ [] })
    else blocked

-- AddMoveFundItem
unfoldable pub add_jolt_move_fund : PoolInfo → ℤ → JoltifyChainInstance → JoltifyChainInstance
add_jolt_move_fund pool height jc = record jc {
  move_fund_req = MoveFundQueue.add_move_fund_item pool height jc.move_fund_req;
}

-- PopMoveFundItemAfterBlock
unfoldable pub pop_jolt_move_fund :
    ℤ → JoltifyChainInstance → Outcome (Option (PoolInfo × ℤ) × JoltifyChainInstance)
pop_jolt_move_fund current jc = do
  popped ← MoveFundQueue.pop_move_fund_item_after_block current jc.move_fund_req
  done (popped.0, record jc { move_fund_req = popped.1 })

-- The pool that UpdatePool stores; its address on the public chain is computed first.
unfoldable pub jolt_pool_of : Env → VaultPool → Result PoolInfo
jolt_pool_of env pool = elim (pool_pub_key_to_eth_address env pool.pool_pub_key) [
  | err e ↦ err e
  | ok eth_addr ↦ elim (pool_pub_key_to_jolt_address env pool.pool_pub_key) [
    | err e ↦ err e
    | ok addr ↦ ok (record {
      pk = pool.pool_pub_key;
      joltify_address = addr;
      eth_address = eth_addr;
      pool_info = pool;
    })
  ]
]

-- UpdatePool: it returns the pool that was at index 0, or nil where a key has no address.
unfoldable pub update_jolt_pool :
    Env → VaultPool → JoltifyChainInstance → Option PoolInfo × JoltifyChainInstance
update_jolt_pool env pool jc = elim (jolt_pool_of env pool) [
  | err e ↦ (none, jc)
  | ok p ↦ (jc.last_two_pools.pool0, record jc { last_two_pools = push_pool p jc.last_two_pools })
]

-- GetPool
abbrev pub get_jolt_pool : JoltifyChainInstance → TwoPools
get_jolt_pool jc = jc.last_two_pools
