-- ===== src/Tests/Loop.antt =====
-- The loop of the bridge, run on a few events.
use oppy_bridge.Common.{
  ◌≡◌, refl, false, subst, ◌≢◌, some, [], ◌∷◌, arith, nat_key, string_key, bytes_key,
}
use oppy_bridge.Common.Int.{pos}
use oppy_bridge.Common.Outcome.{done, panics}
use oppy_bridge.Common.Result.{ok}
use oppy_bridge.Pool.{PoolInfo, TwoPools, push_pool}
use oppy_bridge.RetryPool
use oppy_bridge.Misc.Keys.{pool_pub_key_to_jolt_address, pool_pub_key_to_eth_address}
use oppy_bridge.Pubchain.State.{new_chain_instance, pop_inbound_item, pool_of, update_pub_pool}
use oppy_bridge.Joltify.State.{new_joltify_bridge, jolt_pool_of, update_jolt_pool}
use oppy_bridge.SyncMap.{store}
use oppy_bridge.Validators.{new_validator, setup_each, setup_validator_set}
use oppy_bridge.Joltify.Membership.{Membership, check_first, check_and_update_pool}
use oppy_bridge.Joltify.Membership.Startup.{
  StartupService, init_validators, init_synced, wait_synced, do_init_validator, local_vals,
}
use oppy_bridge.Bridge.{Bridge, start}
use oppy_bridge.Bridge.JoltBlock.{
  retry_inbound, update_both, fill_pools, follow_pools, with_pools, follow_block, new_joltify_block,
}
use oppy_bridge.Bridge.PubBlock.{new_pub_block}
use oppy_bridge.Bridge.Loop.{Step, Reaches}
use oppy_bridge.Bridge.Loop.Sound.{Reaches-never_panics, Reaches-same_pools}
use oppy_bridge.Tests.Amounts.{two-Fit, empty-Amounts}
use oppy_bridge.Tests.Fixtures.{toy_env, transfer_tx, payment_tx}
use oppy_bridge.Tests.Chains.{
  toy_service, toy_client, toy_client-IsAble, toy_cosmos-IsReady, new_pool, old_pool,
}

abbrev pub new_info : PoolInfo
new_info = record {
  pk = "new";
  joltify_address = 2 ∷ [];
  eth_address = 9 ∷ [];
  pool_info = new_pool;
}

abbrev pub old_info : PoolInfo
old_info = record {
  pk = "old";
  joltify_address = 1 ∷ [];
  eth_address = 9 ∷ [];
  pool_info = old_pool;
}

-- The pools go in in the order of the query, the latest first.
abbrev filled : TwoPools
filled = record { pool0 = some new_info; pool1 = some old_info }

-- The node is validator one; InitValidators finds it synced at once.
abbrev pub toy_startup : StartupService
toy_startup = record {
  syncing = ok false ∷ [];
  node_info = ok tt;
  status_page = ok [];
  status_key = λ page. ok (ok (4 ∷ []));
  tip_validators =
      ok
        (pos 5, record { tip_address = "one"; tip_pub_key = ok (4 ∷ []); tip_power = pos 10 } ∷ []);
}

abbrev pub toy_members : Membership
toy_members = record {
  validator_set = record {
    active_validators =
        ("one", record { address = 1 ∷ []; pub_key = 4 ∷ []; voting_power = pos 10 }) ∷ [];
    block_height = pos 5;
  };
  my_validator_key = ok (4 ∷ []);
  msg_send_cache = [];
}

pub toy_startup_runs : init_validators toy_env toy_startup ≡ ok toy_members
unfolding init_validators init_synced wait_synced do_init_validator local_vals setup_validator_set
    setup_each new_validator store
toy_startup_runs = refl

abbrev pub began : Bridge
began = start "0xToken" toy_members

abbrev pub after_block : Bridge
after_block = record began {
  pi = record began.pi { last_two_pools = filled };
  jolt_chain = record began.jolt_chain { last_two_pools = filled; current_height = pos 8 };
}

first_block : new_joltify_block toy_env toy_service (pos 8) began ≡ done after_block
unfolding new_joltify_block check_and_update_pool check_first follow_block with_pools retry_inbound
    pop_inbound_item RetryPool.pop_item RetryPool.range_max RetryPool.pop_at follow_pools fill_pools
    update_both update_pub_pool update_jolt_pool pool_of jolt_pool_of pool_pub_key_to_jolt_address
    pool_pub_key_to_eth_address push_pool start new_chain_instance new_joltify_bridge
first_block = refl

pub after_block-Reaches : Reaches toy_env "0xToken" after_block
after_block-Reaches =
    Reaches.next began after_block (Reaches.begin toy_startup toy_members toy_startup_runs) (
      subst (Step toy_env began) first_block
        (Step.joltify_block toy_service (pos 8) began toy_cosmos-IsReady))

-- A block of the public chain with a transfer and its payment comes next.
Reaches-never_panics_example :
    new_pub_block toy_env toy_service toy_client 40
      (λ h. ok 1)
      (ok (transfer_tx ∷ payment_tx ∷ []))
      after_block
    ≢ panics
unfolding start new_chain_instance
Reaches-never_panics_example =
    Reaches-never_panics toy_env "0xToken" after_block
      (new_pub_block toy_env toy_service toy_client 40 (λ h. ok 1)
        (ok (transfer_tx ∷ payment_tx ∷ [])) after_block)
      after_block-Reaches
      (Step.pub_block toy_service toy_client 40 (λ h. ok 1) (ok (transfer_tx ∷ payment_tx ∷ []))
        after_block
        (two-Fit after_block.pi, empty-Amounts 12 after_block.pi (omega arith) refl refl)
        toy_client-IsAble)

Reaches-same_pools_example : after_block.pi.last_two_pools ≡ after_block.jolt_chain.last_two_pools
Reaches-same_pools_example = Reaches-same_pools toy_env "0xToken" after_block after_block-Reaches
