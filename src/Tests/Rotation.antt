-- ===== src/Tests/Rotation.antt =====
-- The pools, the move-fund queue and the channel, at concrete inputs.
use oppy_bridge.Common.{
  ℕ, ◌≤◌, ◌<◌, ◌≡◌, refl, ap, ◌⊎◌, Bool, true, false, if◌then◌else◌, ◌==◌, Option, none, some, [],
  ◌∷◌, ◌++◌, arith, nat_key, string_key, bytes_key, length, replicate,
}
use oppy_bridge.Common.Int.{ℤ, int_key, pos, ◌≤ℤ◌, ◌+ℤ◌, ◌-ℤ◌, +ℤ_parts}
use oppy_bridge.Common.Outcome.{done, blocked}
use oppy_bridge.Common.Result.{Result, ok}
use oppy_bridge.Config.{req_cache_size}
use oppy_bridge.Misc.Keys.{pool_pub_key_to_jolt_address, pool_pub_key_to_eth_address}
use oppy_bridge.MoveFundQueue.{pop_move_fund_item_after_block, add_move_fund_item}
use oppy_bridge.RetryPool
use oppy_bridge.RetryPool.{RetryPool}
use oppy_bridge.SyncMap.{load, delete}
use oppy_bridge.Pubchain.State.{
  InboundReq, new_account_inbound_req, add_inbound_item, pool_of, set_item_height,
}
use oppy_bridge.Joltify.State.{jolt_pool_of}
use oppy_bridge.Joltify.Service.{JoltService, check_whether_signer}
use oppy_bridge.Joltify.Membership.{check_first, check_and_update_pool}
use oppy_bridge.Bridge.{Bridge, start, need_update}
use oppy_bridge.Bridge.JoltBlock.{
  fill_pools, rotate, move_height, new_joltify_block, follow_pools, requeue_jolt, retire,
}
use oppy_bridge.Bridge.Rotation.{retired_waits}
use oppy_bridge.Bridge.Overwritten.{requeued_overwritten}
use oppy_bridge.Bridge.Settling.{with_both, pools_settle}
use oppy_bridge.Bridge.Deadlock.{full_channel_deadlocks}
use oppy_bridge.Bridge.Requests.{handle_inbound, inbound_checked}
use oppy_bridge.Bridge.Loop.Again.{issued_elsewhere_retries}
use oppy_bridge.Pubchain.State.{new_chain_instance}
use oppy_bridge.Joltify.State.{new_joltify_bridge}
use oppy_bridge.Tests.Fixtures.{toy_env}
use oppy_bridge.Tests.Chains.{toy_service, new_pool, old_pool}
use oppy_bridge.Tests.Loop.{new_info, old_info, began, after_block, toy_members}

retired_waits_example :
    ((pos 106 ≤ℤ pos 100 +ℤ pos 5)
      × (pop_move_fund_item_after_block
            (pos 106)
            (add_move_fund_item new_info (move_height (pos 100)) [])
          ≡ done (none, add_move_fund_item new_info (move_height (pos 100)) [])))
    ⊎ ((pos 100 +ℤ pos 6 ≤ℤ pos 106)
        × (pop_move_fund_item_after_block
              (pos 106)
              (add_move_fund_item new_info (move_height (pos 100)) [])
            ≡ done (some (new_info, pos 100 -ℤ pos 1), [])))
retired_waits_example =
    retired_waits new_info (pos 100) (pos 106) (omega arith, omega arith) (omega arith, omega arith)

requeued_overwritten_example :
    (b' : Bridge) × (retire
        (pos 100 +ℤ pos 1)
        new_pool
        (some old_info)
        (requeue_jolt (pos 100) new_info (false, ok tt) after_block)
      ≡ done b')
    × ((j : ℤ)
        → load j b'.jolt_chain.move_fund_req
          ≡ (if pos 100 == j then some old_info else load j after_block.jolt_chain.move_fund_req))
requeued_overwritten_example =
    requeued_overwritten new_info old_info new_pool (pos 100) (ok tt) after_block
      (omega (arith, +ℤ_parts (pos 100) (pos 1)), omega (arith, +ℤ_parts (pos 100) (pos 1))) refl

pools_settle_example :
    (fill_pools toy_env (new_pool ∷ old_pool ∷ []) began ≡ with_both new_info old_info began)
    × (need_update toy_env
          (new_pool ∷ old_pool ∷ [])
          (with_both new_info old_info began).pi.last_two_pools
        ≡ done true)
    × (rotate toy_env (pos 9) new_pool true (with_both new_info old_info began)
        ≡ done (with_both old_info new_info began))
    × (need_update toy_env
          (new_pool ∷ old_pool ∷ [])
          (with_both old_info new_info began).pi.last_two_pools
        ≡ done false)
unfolding pool_of jolt_pool_of pool_pub_key_to_jolt_address pool_pub_key_to_eth_address start
    new_chain_instance new_joltify_bridge
pools_settle_example =
    pools_settle toy_env new_pool old_pool new_info old_info refl refl refl refl (pos 9) began refl
      refl (λ e. ground (arith, ap length e, e))

abbrev item : InboundReq
item =
    new_account_inbound_req (3 ∷ []) (9 ∷ []) (record { denom = "JUSD"; amount = 500 }) (1 ∷ 2 ∷ [])
      (pos 0)

-- A bridge with one request to retry, and a full channel.
abbrev full : Bridge
full = record after_block {
  pi = record after_block.pi {
    inbound_req_chan = replicate 512 item;
    retry_inbound_req = record { next_pointer = 1; entries = (0, (77, item)) ∷ [] };
  };
}

one_to_retry :
    RetryPool.pop_item full.pi.retry_inbound_req
    ≡ done (some item, record { next_pointer = 1; entries = [] })
unfolding RetryPool.pop_item RetryPool.range_max RetryPool.pop_at load delete
one_to_retry = refl

full_channel_deadlocks_example :
    ((req_cache_size ≤ length full.pi.inbound_req_chan)
      × (new_joltify_block toy_env toy_service (pos 9) full ≡ blocked))
    ⊎ ((length full.pi.inbound_req_chan < req_cache_size)
        × (new_joltify_block toy_env toy_service (pos 9) full
            ≡ follow_pools toy_env toy_service (pos 9) new_pool old_pool (record full {
              pi = record full.pi {
                retry_inbound_req = record { next_pointer = 1; entries = [] };
                inbound_req_chan = full.pi.inbound_req_chan ++ set_item_height (pos 9) item ∷ [];
              };
              jolt_chain = record full.jolt_chain { current_height = pos 9 };
            })))
unfolding check_and_update_pool check_first start
full_channel_deadlocks_example =
    full_channel_deadlocks toy_env toy_service (pos 9) full new_pool old_pool item
      (record { next_pointer = 1; entries = [] }) (false, "") toy_members refl refl one_to_retry

-- The node finds every token issued, but none under the empty index.
abbrev issued : Option ℕ → Result Bool
issued none = ok false
issued (some _) = ok true

abbrev issued_service : JoltService
issued_service = record toy_service { given_token_issue = issued }

issued_elsewhere_retries_example :
    (handle_inbound toy_env issued_service item after_block
      ≡ done (record after_block { inbound_checks = (item, none) ∷ [] }))
    × (inbound_checked toy_env issued_service (item, none) after_block
        ≡ record after_block { pi = add_inbound_item toy_env item after_block.pi })
unfolding check_whether_signer pool_pub_key_to_jolt_address start
issued_elsewhere_retries_example =
    issued_elsewhere_retries toy_env issued_service issued_service item after_block after_block
      new_info old_info (1 ∷ []) (1, 2) refl refl refl refl refl refl (λ e. ground (arith, e))
