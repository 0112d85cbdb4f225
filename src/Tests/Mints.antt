-- ===== src/Tests/Mints.antt =====
-- The theorem on requests to mint, along a run with a top-up of the public chain.
use oppy_bridge.Common.{◌≤◌, ◌≡◌, refl, subst, inl, [], ◌∷◌, arith, nat_key, string_key, bytes_key}
use oppy_bridge.Common.Int.{pos, int64_of}
use oppy_bridge.Common.Outcome.{done}
use oppy_bridge.Common.SdkInt.{new_int}
use oppy_bridge.Common.Result.{ok, err}
use oppy_bridge.External.{Bytes}
use oppy_bridge.RetryPool
use oppy_bridge.MoveFundQueue
use oppy_bridge.SyncMap.{store, load, delete}
use oppy_bridge.Hex.{hex_encode}
use oppy_bridge.Misc.BigInt.{big_bytes}
use oppy_bridge.Misc.Signature.{make_signature}
use oppy_bridge.Misc.RecoveryId.{recover_rec_id}
use oppy_bridge.Misc.Keys.{
  eth_sign_pub_key_to_jolt_addr, pool_pub_key_to_jolt_address, pool_pub_key_to_eth_address,
}
use oppy_bridge.Pubchain.State.{
  InboundReq, new_account_inbound_req, set_item_height, inbound_hash, add_inbound_item,
  pop_inbound_item, send_inbound, check_to_bridge, pop_pub_move_fund, new_chain_instance,
}
use oppy_bridge.Pubchain.Inbound.{verify_inbound_tx, update_inbound_tx, process_inbound_tx}
use oppy_bridge.Pubchain.Blocks.{
  check_erc20, process_payment, process_inbound_erc20, process_to, process_each_tx,
  process_new_block, process_each_block, delete_expired, expired_keys, delete_keys,
}
use oppy_bridge.Joltify.State.{pop_jolt_move_fund, pop_outbound_item, new_joltify_bridge}
use oppy_bridge.Joltify.Service.{JoltService, check_whether_signer, process_inbound}
use oppy_bridge.Joltify.Membership.{check_first, check_and_update_pool}
use oppy_bridge.Bridge.{Bridge, start, need_update, compare_pools}
use oppy_bridge.Bridge.JoltBlock.{
  retry_inbound, rotate, move_jolt_queue, follow_pools, with_pools, follow_block, new_joltify_block,
}
use oppy_bridge.Bridge.PubBlock.{retry_outbound, move_pub_queue, new_pub_block}
use oppy_bridge.Bridge.Requests.{after_inbound, handle_inbound, inbound_request}
use oppy_bridge.Bridge.Kept.{held_mints}
use oppy_bridge.Bridge.Loop.{Step, Reaches}
use oppy_bridge.Bridge.Loop.KeepsMints.{MintRun, MintRun-held_mints}
use oppy_bridge.Tests.Amounts.{two-Fit, empty-Amounts}
use oppy_bridge.Tests.Fixtures.{toy_env, transfer_tx, payment_tx, bridge_address}
use oppy_bridge.Tests.Chains.{
  toy_service, toy_client, toy_client-IsAble, toy_cosmos-IsReady, new_pool, old_pool,
}
use oppy_bridge.Tests.Loop.{old_info, after_block, after_block-Reaches}

abbrev top_up_id : Bytes
top_up_id = 1 ∷ 2 ∷ []

abbrev mint : InboundReq
mint =
    new_account_inbound_req (3 ∷ []) bridge_address (record { denom = "JUSD"; amount = 500 })
      top_up_id (pos 0)

-- The block with the transfer and its payment leaves one request in the retry pool.
abbrev after_top_up : Bridge
after_top_up = record after_block {
  pi = record after_block.pi {
    retry_inbound_req = record { next_pointer = 1; entries = (0, (77, mint)) ∷ [] };
    current_height = pos 40;
  };
}

top_up_processed :
    new_pub_block toy_env toy_service toy_client 40
      (λ h. ok 1)
      (ok (transfer_tx ∷ payment_tx ∷ []))
      after_block
    ≡ done after_top_up
unfolding new_pub_block process_new_block process_each_block process_each_tx process_to
    process_payment process_inbound_erc20 check_erc20 process_inbound_tx update_inbound_tx
    verify_inbound_tx check_to_bridge add_inbound_item inbound_hash hex_encode make_signature
    big_bytes recover_rec_id eth_sign_pub_key_to_jolt_addr load store delete RetryPool.add_item
    retry_outbound pop_outbound_item RetryPool.pop_item RetryPool.range_max RetryPool.pop_at
    move_pub_queue pop_pub_move_fund MoveFundQueue.pop_move_fund_item_after_block
    MoveFundQueue.range_min MoveFundQueue.pop_at delete_expired expired_keys delete_keys start
    new_chain_instance new_joltify_bridge int64_of new_int
top_up_processed = refl

after_top_up-Reaches : Reaches toy_env "0xToken" after_top_up
unfolding start new_chain_instance
after_top_up-Reaches = Reaches.next after_block after_top_up after_block-Reaches (
    subst (Step toy_env after_block) top_up_processed (
      Step.pub_block toy_service toy_client 40 (λ h. ok 1) (ok (transfer_tx ∷ payment_tx ∷ []))
        after_block
        (two-Fit after_block.pi, empty-Amounts 12 after_block.pi (omega arith) refl refl)
        toy_client-IsAble))

-- A block of the joltify chain, whose query gives the known pools, sends it to the channel.
abbrev known_service : JoltService
known_service = record toy_service { last_pools = ok (old_pool ∷ new_pool ∷ []) }

abbrev after_retry : Bridge
after_retry = record after_top_up {
  pi = record after_top_up.pi {
    inbound_req_chan = set_item_height (pos 9) mint ∷ [];
    retry_inbound_req = record { next_pointer = 1; entries = [] };
  };
  jolt_chain = record after_top_up.jolt_chain { current_height = pos 9 };
}

-- The node, a signer of the latest pool, cannot find its account.
abbrev no_account_service : JoltService
no_account_service = record toy_service { query_account = λ a. err "no account" }

abbrev after_failure : Bridge
after_failure = record after_retry {
  pi = record after_retry.pi {
    inbound_req_chan = [];
    retry_inbound_req = record {
      next_pointer = 2;
      entries = (1, (77, set_item_height (pos 9) mint)) ∷ [];
    };
  };
}

from_retry : MintRun top_up_id toy_env after_retry after_failure
unfolding inbound_request handle_inbound after_inbound process_inbound check_whether_signer
    pool_pub_key_to_jolt_address add_inbound_item inbound_hash RetryPool.add_item store start
    new_chain_instance new_joltify_bridge
from_retry =
    MintRun.turn after_retry after_failure after_failure
      (Step.inbound no_account_service after_retry toy_cosmos-IsReady) (inl (old_info, refl, refl))
      (MintRun.here after_failure)

from_top_up : MintRun top_up_id toy_env after_top_up after_failure
unfolding new_joltify_block check_and_update_pool check_first follow_block with_pools retry_inbound
    pop_inbound_item send_inbound RetryPool.pop_item RetryPool.range_max RetryPool.pop_at load
    delete follow_pools need_update compare_pools pool_pub_key_to_eth_address
    pool_pub_key_to_jolt_address rotate move_jolt_queue pop_jolt_move_fund
    MoveFundQueue.pop_move_fund_item_after_block MoveFundQueue.range_min MoveFundQueue.pop_at start
    new_chain_instance new_joltify_bridge
from_top_up =
    MintRun.turn after_top_up after_retry after_failure
      (Step.joltify_block known_service (pos 9) after_top_up toy_cosmos-IsReady) tt from_retry

MintRun-held_mints_example : held_mints top_up_id after_top_up ≤ held_mints top_up_id after_failure
MintRun-held_mints_example =
    MintRun-held_mints top_up_id toy_env "0xToken" after_top_up after_failure after_top_up-Reaches
      from_top_up
