-- ===== src/Pubchain/State.antt =====
-- pubchain/types.go and the pool methods of pubchain/tx_inbound.go: the state of a PubChainInstance and
-- the methods that keep its pools and queues. Requests are values: the program never holds one request
-- at two places.
use oppy_bridge.Common.{
  ℕ, String, Bool, false, ◌||◌, Option, none, some, List, [], ◌∷◌, ◌++◌, ltb, if◌then◌else◌, ◌==◌,
  nat_key, string_key, bytes_key, length,
}
use oppy_bridge.Common.Int.{ℤ, pos}
use oppy_bridge.Common.Outcome.{Outcome, done, blocked, ◌>>=◌}
use oppy_bridge.Common.Result.{Result, ok, err}
use oppy_bridge.Config.{req_cache_size}
use oppy_bridge.External.{Bytes, Coin, VaultPool, Env}
use oppy_bridge.Misc.Keys.{pool_pub_key_to_jolt_address, pool_pub_key_to_eth_address}
use oppy_bridge.Pool.{PoolInfo, TwoPools, no_pools, push_pool}
use oppy_bridge.RetryPool
use oppy_bridge.RetryPool.{RetryPool}
use oppy_bridge.MoveFundQueue
use oppy_bridge.SyncMap.{SyncMap}

pub record InboundReq : Type 0 where
  pub address : Bytes
  pub tx_id : Bytes
  pub to_pool_addr : Bytes
  pub coin : Coin
  pub block_height : ℤ

pub record InboundTx : Type 0 where
  pub address : Bytes
  pub pub_block_height : ℕ
  pub token : Coin
  pub fee : Coin

pub record InboundTxBnb : Type 0 where
  pub block_height : ℕ
  pub tx_id : Bytes
  pub fee : Coin

pub record PubChainInstance : Type 0 where
  pub token_addr : String
  pub pending_inbounds : SyncMap Bytes InboundTx
  pub pending_inbounds_bnb : SyncMap Bytes InboundTxBnb
  pub last_two_pools : TwoPools
  pub inbound_req_chan : List InboundReq
  pub retry_inbound_req : RetryPool InboundReq
  pub move_fund_req : SyncMap ℤ PoolInfo
  pub current_height : ℤ

-- NewChainInstance, once the clients are connected.
unfoldable pub new_chain_instance : String → PubChainInstance
new_chain_instance token_addr = record {
  token_addr = token_addr;
  pending_inbounds = [];
  pending_inbounds_bnb = [];
  last_two_pools = no_pools;
  inbound_req_chan = [];
  retry_inbound_req = RetryPool.empty;
  move_fund_req = [];
  current_height = pos 0;
}

abbrev pub new_account_inbound_req : Bytes → Bytes → Coin → Bytes → ℤ → InboundReq
new_account_inbound_req address to_pool_addr coin txid block_height = record {
  address = address;
  tx_id = txid;
  to_pool_addr = to_pool_addr;
  coin = coin;
  block_height = block_height;
}

abbrev pub set_item_height : ℤ → InboundReq → InboundReq
set_item_height h req = record req { block_height = h }

-- InboundReq.Hash().Big()
unfoldable pub inbound_hash : Env → InboundReq → ℕ
inbound_hash env i = env.keccak256 (i.address ∷ i.tx_id ∷ [])

-- AddItem
unfoldable pub add_inbound_item : Env → InboundReq → PubChainInstance → PubChainInstance
unfolding inbound_hash
add_inbound_item env req pi = record pi {
  retry_inbound_req = RetryPool.add_item (inbound_hash env req) req pi.retry_inbound_req;
}

-- PopItem
unfoldable pub pop_inbound_item : PubChainInstance → Outcome (Option InboundReq × PubChainInstance)
pop_inbound_item pi = do
  popped ← RetryPool.pop_item pi.retry_inbound_req
  done (popped.0, record pi { retry_inbound_req = popped.1 })

-- Size
unfoldable pub inbound_size : PubChainInstance → ℕ
inbound_size pi = RetryPool.size pi.retry_inbound_req

-- A send on InboundReqChan, which waits for ever where the channel is full: its only receiver is the
-- loop that sends.
unfoldable pub send_inbound : InboundReq → PubChainInstance → Outcome PubChainInstance
send_inbound req pi =
    if ltb (length pi.inbound_req_chan) req_cache_size
    then done (record pi { inbound_req_chan = pi.inbound_req_chan ++ req ∷ [] })
    else blocked

-- AddMoveFundItem
unfoldable pub add_pub_move_fund : PoolInfo → ℤ → PubChainInstance → PubChainInstance
add_pub_move_fund pool height pi = record pi {
  move_fund_req = MoveFundQueue.add_move_fund_item pool height pi.move_fund_req;
}

-- PopMoveFundItemAfterBlock
unfoldable pub pop_pub_move_fund :
    ℤ → PubChainInstance → Outcome (Option (PoolInfo × ℤ) × PubChainInstance)
pop_pub_move_fund current pi = do
  popped ← MoveFundQueue.pop_move_fund_item_after_block current pi.move_fund_req
  done (popped.0, record pi { move_fund_req = popped.1 })

-- The pool that UpdatePool stores: the key's two addresses, or the first error.
unfoldable pub pool_of : Env → VaultPool → Result PoolInfo
pool_of env pool = elim (pool_pub_key_to_jolt_address env pool.pool_pub_key) [
  | err e ↦ err e
  | ok addr ↦ elim (pool_pub_key_to_eth_address env pool.pool_pub_key) [
    | err e ↦ err e
    | ok eth_addr ↦ ok (record {
      pk = pool.pool_pub_key;
      joltify_address = addr;
      eth_address = eth_addr;
      pool_info = pool;
    })
  ]
]

-- UpdatePool
unfoldable pub update_pub_pool :
    Env → Option VaultPool → PubChainInstance → Result (Unit {0}) × PubChainInstance
unfolding pool_of
update_pub_pool env none pi = (err "nil pool", pi)
update_pub_pool env (some pool) pi = elim (pool_of env pool) [
  | err e ↦ (err e, pi)
  | ok p ↦ (ok tt, record pi { last_two_pools = push_pool p pi.last_two_pools })
]

-- GetPool
abbrev pub get_pub_pool : PubChainInstance → TwoPools
get_pub_pool pi = pi.last_two_pools

is_pool_address : Env → Bytes → Option PoolInfo → Bool
is_pool_address env dest none = false
is_pool_address env dest (some el) = env.address_text dest == env.address_text el.eth_address

-- checkToBridge
unfoldable pub check_to_bridge : Env → Bytes → PubChainInstance → Bool
unfolding is_pool_address
check_to_bridge env dest pi =
    let pools = get_pub_pool pi in
    is_pool_address env dest pools.pool0 || is_pool_address env dest pools.pool1
