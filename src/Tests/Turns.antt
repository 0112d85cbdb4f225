-- ===== src/Tests/Turns.antt =====
-- The theorems on the turns of the loop, along a run with a transfer to the public chain.
use oppy_bridge.Common.{
  ◌≤◌, ◌≡◌, refl, subst, inl, some, [], ◌∷◌, arith, nat_key, string_key, bytes_key,
}
use oppy_bridge.Common.Int.{pos, int64_of}
use oppy_bridge.Common.Outcome.{done}
use oppy_bridge.Common.Result.{ok}
use oppy_bridge.External.{Bytes}
use oppy_bridge.RetryPool
use oppy_bridge.MoveFundQueue
use oppy_bridge.SyncMap.{store, load, delete}
use oppy_bridge.Hex.{hex_encode}
use oppy_bridge.Misc.BigInt.{big_bytes, set_bytes}
use oppy_bridge.Misc.Signature.{serialize_sig}
use oppy_bridge.Misc.Keys.{account_pub_key_to_eth_address}
use oppy_bridge.Pubchain.State.{pop_pub_move_fund, new_chain_instance}
use oppy_bridge.Pubchain.Blocks.{
  process_new_block, process_each_block, delete_expired, expired_keys, delete_keys,
}
use oppy_bridge.Pubchain.Sending.{
  EthClient, send_token, transfer_as, sign_tx, tss_sign, read_response, attach, send_signed,
  sent_or_known, process_out_bound, check_pub_tx_status,
}
use oppy_bridge.Joltify.State.{
  OutBoundReq, outbound_hash, add_outbound_item, pop_outbound_item, send_outbound,
  new_joltify_bridge,
}
use oppy_bridge.Joltify.Outbound.{
  Msg, process_demon_and_fee, verify_outbound_tx, fee_pair, parties, process_paid, process_msg,
  process_msgs, check_out_bound_tx,
}
use oppy_bridge.Joltify.Outbound.Paid.{token_coin, fee_coin}
use oppy_bridge.Joltify.Service.{check_whether_signer}
use oppy_bridge.Bridge.{Bridge, start}
use oppy_bridge.Bridge.PubBlock.{retry_outbound, move_pub_queue, new_pub_block}
use oppy_bridge.Bridge.Requests.{
  after_outbound, handle_outbound, outbound_request, outbound_checked,
}
use oppy_bridge.Bridge.Kept.{held}
use oppy_bridge.Bridge.Loop.{Step, Reaches, joltify_tx}
use oppy_bridge.Bridge.Loop.Ends.{Reaches-ends}
use oppy_bridge.Bridge.Loop.Keeps.{Run, Run-held}
use oppy_bridge.Tests.Amounts.{two-Fit, empty-Amounts}
use oppy_bridge.Tests.Fixtures.{toy_env, transfer_tx, payment_tx}
use oppy_bridge.Tests.Chains.{toy_service, toy_client, toy_client-IsAble}
use oppy_bridge.Tests.Loop.{old_info, after_block, after_block-Reaches}

Reaches-ends_example :
    (b' : Bridge) × (new_pub_block toy_env toy_service toy_client 40
        (λ h. ok 1)
        (ok (transfer_tx ∷ payment_tx ∷ []))
        after_block
      ≡ done b')
    × Reaches toy_env "0xToken" b'
unfolding start new_chain_instance new_joltify_bridge
Reaches-ends_example =
    Reaches-ends toy_env "0xToken" after_block
      (new_pub_block toy_env toy_service toy_client 40 (λ h. ok 1)
        (ok (transfer_tx ∷ payment_tx ∷ [])) after_block)
      after_block-Reaches
      (Step.pub_block toy_service toy_client 40 (λ h. ok 1) (ok (transfer_tx ∷ payment_tx ∷ []))
        after_block
        (two-Fit after_block.pi, empty-Amounts 12 after_block.pi (omega arith) refl refl)
        toy_client-IsAble)
      (omega arith, omega arith)

-- A transaction with one message, which pays 500 and a fee of 12 to the pool.
abbrev paying : Msg
paying = Msg.send (record {
  from_address = "user";
  to_address = "pool";
  amount = fee_coin 12 ∷ token_coin 500 ∷ [];
})

abbrev paying_id : Bytes
paying_id = 48 ∷ 56 ∷ []

abbrev transfer : OutBoundReq
transfer = record {
  tx_id = paying_id;
  out_receiver_address = 9 ∷ [];
  from_pool_addr = 9 ∷ [];
  coin = token_coin 500;
  block_height = pos 9;
}

abbrev after_transfer : Bridge
after_transfer = record after_block {
  jolt_chain = record after_block.jolt_chain {
    retry_outbound_req = record { next_pointer = 1; entries = (0, (77, transfer)) ∷ [] };
  };
}

transfer_added :
    joltify_tx toy_env (λ a. ok (3 ∷ [])) 0 (pos 9) (8 ∷ []) (some (paying ∷ [])) after_block
    ≡ after_transfer
unfolding joltify_tx check_out_bound_tx process_msgs process_msg process_paid parties fee_pair
    process_demon_and_fee verify_outbound_tx hex_encode add_outbound_item outbound_hash
    RetryPool.add_item store account_pub_key_to_eth_address start new_joltify_bridge
transfer_added = refl

after_transfer-Reaches : Reaches toy_env "0xToken" after_transfer
after_transfer-Reaches = Reaches.next after_block after_transfer after_block-Reaches (
    subst (λ b. Step toy_env after_block (done b)) transfer_added
      (Step.joltify_transfer (λ a. ok (3 ∷ [])) 0 (pos 9) (8 ∷ []) (some (paying ∷ []))
        after_block))

-- A block of the public chain sends the transfer to the channel.
abbrev sent_again : OutBoundReq
sent_again = record transfer { block_height = pos 40 }

abbrev after_retry : Bridge
after_retry = record after_transfer {
  pi = record after_transfer.pi { current_height = pos 40 };
  jolt_chain = record after_transfer.jolt_chain {
    outbound_req_chan = sent_again ∷ [];
    retry_outbound_req = record { next_pointer = 1; entries = [] };
  };
}

-- The node, a signer of the latest pool, pays it.
abbrev after_payment : Bridge
after_payment = record after_retry {
  jolt_chain = record after_retry.jolt_chain { outbound_req_chan = [] };
  outbound_checks = (sent_again, 500 ∷ []) ∷ [];
}

-- The payment fails.
abbrev failing_client : EthClient
failing_client = record toy_client { transaction_receipt = λ h. ok 0 }

abbrev after_failure : Bridge
after_failure = record after_payment {
  jolt_chain = record after_payment.jolt_chain {
    retry_outbound_req = record { next_pointer = 2; entries = (1, (77, sent_again)) ∷ [] };
  };
  outbound_checks = [];
}

from_payment : Run paying_id toy_env after_payment after_failure
unfolding outbound_checked check_pub_tx_status add_outbound_item outbound_hash RetryPool.add_item
    store start new_chain_instance new_joltify_bridge
from_payment =
    Run.turn after_payment after_failure after_failure
      (Step.outbound_check failing_client [] [] (sent_again, 500 ∷ []) after_payment refl)
      (inl refl) (Run.here after_failure)

from_retry : Run paying_id toy_env after_retry after_failure
unfolding outbound_request handle_outbound after_outbound process_out_bound sent_or_known send_token
    transfer_as sign_tx tss_sign read_response attach send_signed serialize_sig big_bytes set_bytes
    check_whether_signer start new_chain_instance new_joltify_bridge
from_retry =
    Run.turn after_retry after_payment after_failure
      (Step.outbound toy_service toy_client after_retry toy_client-IsAble)
      (inl (old_info, refl, refl)) from_payment

from_transfer : Run paying_id toy_env after_transfer after_failure
unfolding new_pub_block process_new_block process_each_block retry_outbound pop_outbound_item
    send_outbound RetryPool.pop_item RetryPool.range_max RetryPool.pop_at delete load move_pub_queue
    pop_pub_move_fund MoveFundQueue.pop_move_fund_item_after_block MoveFundQueue.range_min
    MoveFundQueue.pop_at delete_expired expired_keys delete_keys start new_chain_instance
    new_joltify_bridge int64_of
from_transfer =
    Run.turn after_transfer after_retry after_failure
      (Step.pub_block toy_service toy_client 40 (λ h. ok 1) (ok []) after_transfer
        (tt, empty-Amounts 0 after_transfer.pi (omega arith) refl refl) toy_client-IsAble)
      tt from_retry

Run-held_example : held paying_id after_transfer ≤ held paying_id after_failure
Run-held_example =
    Run-held paying_id toy_env "0xToken" after_transfer after_failure after_transfer-Reaches
      from_transfer
