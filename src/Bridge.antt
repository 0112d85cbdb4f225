-- ===== src/Bridge.antt =====
-- bridge/: the loop over the events of both chains, one function to a case of its select.
pub mod JoltBlock
pub mod PubBlock
pub mod Requests
pub mod Loop
pub mod Sound
pub mod Rotation
pub mod Overwritten
pub mod Settling
pub mod Deadlock
pub mod Room
pub mod Kept
pub mod Startup
use oppy_bridge.Common.{
  ℕ, String, Bool, true, false, not, ◌&&◌, Option, none, some, List, [], ◌∷◌, arith, if◌then◌else◌,
  Key, ◌==◌, nat_key, string_key, bytes_key,
}
use oppy_bridge.Common.Int.{ℤ, pos, add64, sub64, int64_of}
use oppy_bridge.Common.Outcome.{Outcome, done, panics, ◌>>=◌}
use oppy_bridge.Common.Result.{Result, ok, err}
use oppy_bridge.Config.{min_check_block_gap}
use oppy_bridge.External.{Bytes, VaultPool, Transaction, Env}
use oppy_bridge.Misc.BigInt.{uint64}
use oppy_bridge.Misc.Keys.{pool_pub_key_to_jolt_address, pool_pub_key_to_eth_address}
use oppy_bridge.Pool.{PoolInfo, TwoPools}
use oppy_bridge.Pubchain.State.{
  InboundReq, PubChainInstance, new_chain_instance, set_item_height, add_inbound_item,
  pop_inbound_item, send_inbound, add_pub_move_fund, pop_pub_move_fund, update_pub_pool,
  get_pub_pool,
}
use oppy_bridge.Pubchain.Blocks.{process_new_block, delete_expired}
use oppy_bridge.Pubchain.Sending.{EthClient, process_out_bound, move_pub_funds, check_pub_tx_status}
use oppy_bridge.Joltify.State.{
  OutBoundReq, JoltifyChainInstance, new_joltify_bridge, set_outbound_height, add_outbound_item,
  pop_outbound_item, send_outbound, add_jolt_move_fund, pop_jolt_move_fund, update_jolt_pool,
  get_jolt_pool,
}
use oppy_bridge.Joltify.Membership.{Membership}
use oppy_bridge.Joltify.Outbound.{Msg, check_out_bound_tx}
use oppy_bridge.Joltify.Service.{
  JoltService, check_whether_signer, process_inbound, move_jolt_funds, check_jolt_tx_status,
}

-- The two instances, that of the joltify chain in two parts, and the goroutines that wait for the status
-- of a transaction: the request and what they look for.
pub record Bridge : Type 0 where
  pub pi : PubChainInstance
  pub jolt_chain : JoltifyChainInstance
  pub membership : Membership
  pub inbound_checks : List (InboundReq × Option ℕ)
  pub outbound_checks : List (OutBoundReq × Bytes)

unfoldable pub start : String → Membership → Bridge
start token_addr membership = record {
  pi = new_chain_instance token_addr;
  jolt_chain = new_joltify_bridge;
  membership = membership;
  inbound_checks = [];
  outbound_checks = [];
}

-- The addresses of a key that NeedUpdate computes, the public chain's first.
abbrev pub jolt_address_of : Env → String → Result Bytes
jolt_address_of env pk = elim (pool_pub_key_to_eth_address env pk) [
  | err e ↦ err e
  | ok _ ↦ pool_pub_key_to_jolt_address env pk
]

-- NeedUpdate where two pools are known: the query's are read in turn, whatever their number.
unfoldable pub compare_pools : Env → PoolInfo → PoolInfo → List VaultPool → Outcome Bool
compare_pools env cur0 cur1 [] = panics
compare_pools env cur0 cur1 (q0 ∷ []) = elim (jolt_address_of env q0.pool_pub_key) [
  | err e ↦ done false
  | ok _ ↦ panics
]
compare_pools env cur0 cur1 (q0 ∷ q1 ∷ _) = elim (jolt_address_of env q0.pool_pub_key) [
  | err e ↦ done false
  | ok addr0 ↦ elim (jolt_address_of env q1.pool_pub_key) [
    | err e ↦ done false
    | ok addr1 ↦ done (not (addr0 == cur1.joltify_address && addr1 == cur0.joltify_address))
  ]
]

-- NeedUpdate.
unfoldable pub need_update : Env → List VaultPool → TwoPools → Outcome Bool
need_update env qc_pools cur = elim cur.pool0 [
  | none ↦ done true
  | some cur0 ↦ elim cur.pool1 [
    | none ↦ done true
    | some cur1 ↦ compare_pools env cur0 cur1 qc_pools
  ]
]
