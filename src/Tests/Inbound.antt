-- ===== src/Tests/Inbound.antt =====
-- pubchain/ at concrete inputs.
use oppy_bridge.Common.{
  ℕ, ◌-◌, ◌^◌, ◌≤◌, ◌<◌, ◌≡◌, refl, ◌≢◌, ◌↔◌, inl, Option, none, some, [], ◌∷◌, arith, nat_key,
  string_key, bytes_key, length,
}
use oppy_bridge.Common.Int.{pos, int64_of}
use oppy_bridge.Common.Outcome.{done, panics}
use oppy_bridge.Common.SdkInt.{new_int}
use oppy_bridge.Common.Result.{ok, err}
use oppy_bridge.Config.{in_bound_denom_fee}
use oppy_bridge.External.{Bytes, AbiValue, Coin, Env, Transaction}
use oppy_bridge.Hex.{hex_encode}
use oppy_bridge.Misc.BigInt.{big_bytes, uint64}
use oppy_bridge.Misc.Keys.{eth_sign_pub_key_to_jolt_addr}
use oppy_bridge.Misc.RecoveryId.{recover_rec_id}
use oppy_bridge.Misc.Signature.{make_signature}
use oppy_bridge.Misc.Signature.Layout.{make_signature_reads_back}
use oppy_bridge.RetryPool
use oppy_bridge.SyncMap.{load, store, delete}
use oppy_bridge.Pubchain.State.{
  InboundTx, InboundTxBnb, PubChainInstance, check_to_bridge, add_inbound_item,
  new_account_inbound_req,
}
use oppy_bridge.Pubchain.Inbound.{verify_inbound_tx, update_inbound_tx, process_inbound_tx, add_fee}
use oppy_bridge.Pubchain.Inbound.Fee.{verify_inbound_tx_iff, update_inbound_tx_sums}
use oppy_bridge.Pubchain.Inbound.Orders.{RetriedLast, either_order}
use oppy_bridge.Pubchain.Inbound.Waiting.{Waits}
use oppy_bridge.Pubchain.Blocks.{
  check_erc20, process_payment, process_inbound_erc20, process_to, process_each_tx,
  process_each_block, delete_expired,
}
use oppy_bridge.Pubchain.Blocks.Cases.{signature_of}
use oppy_bridge.Pubchain.Blocks.Huge.{process_each_tx_panics}
use oppy_bridge.Pubchain.Blocks.Invariant.{process_each_block-Waits}
use oppy_bridge.Pubchain.Blocks.Room.{process_each_block_returns}
use oppy_bridge.Pubchain.Blocks.Selector.{check_erc20_selector}
use oppy_bridge.Pubchain.Blocks.Expiry.{Expires, delete_expired_ages}
use oppy_bridge.Tests.Amounts.{two-Fit, empty-Amounts}
use oppy_bridge.Tests.Fixtures.{toy_env, token, bridge_address, one_pool, transfer_tx, payment_tx}

abbrev paid : Coin
paid = record { denom = "BNB"; amount = 12 }

abbrev waiting_tx : InboundTx
waiting_tx = record {
  address = 3 ∷ [];
  pub_block_height = 40;
  token = record { denom = "JUSD"; amount = 500 };
  fee = record { denom = "BNB"; amount = 4 };
}

abbrev waiting_fee : InboundTxBnb
waiting_fee = record { block_height = 40; tx_id = 8 ∷ []; fee = paid }

-- One token and one fee of other transactions wait.
abbrev waiting : PubChainInstance
waiting = record one_pool {
  pending_inbounds = (5 ∷ [], waiting_tx) ∷ [];
  pending_inbounds_bnb = (8 ∷ [], waiting_fee) ∷ [];
}

-- The block with the transfer and its payment leaves one request in the retry pool.
abbrev topped_up : PubChainInstance
topped_up = record one_pool {
  retry_inbound_req = record {
    next_pointer = 1;
    entries =
        (
          0,
          (
            77,
            new_account_inbound_req (3 ∷ []) bridge_address
                (record { denom = "JUSD"; amount = 500 }) (1 ∷ 2 ∷ []) (pos 0),
          ),
        )
        ∷ [];
  };
}

block_of_two :
    process_each_block toy_env (λ h. ok 1) 40 (transfer_tx ∷ payment_tx ∷ []) one_pool
    ≡ done topped_up
unfolding process_each_block process_each_tx process_to process_payment process_inbound_erc20
    check_erc20 process_inbound_tx update_inbound_tx verify_inbound_tx check_to_bridge
    add_inbound_item hex_encode make_signature big_bytes recover_rec_id
    eth_sign_pub_key_to_jolt_addr load store delete RetryPool.add_item new_int
block_of_two = refl

one_pool-Waits : Waits toy_env one_pool
unfolding load
one_pool-Waits = record { short = λ k tx h. cc; in_denom = λ k b h. cc; apart = λ k. inl refl }

process_each_block-Waits_example : Waits toy_env topped_up
process_each_block-Waits_example =
    process_each_block-Waits toy_env (λ h. ok 1) 40 (transfer_tx ∷ payment_tx ∷ []) one_pool
      topped_up (10, refl, omega arith) one_pool-Waits block_of_two

process_each_block_returns_example :
    (pi' : PubChainInstance) × (process_each_block toy_env
        (λ h. ok 1)
        40
        (transfer_tx ∷ payment_tx ∷ [])
        one_pool
      ≡ done pi')
    × (length pi'.inbound_req_chan ≤ 2)
process_each_block_returns_example =
    process_each_block_returns toy_env (λ h. ok 1) 40 (transfer_tx ∷ payment_tx ∷ []) one_pool
      (two-Fit one_pool) (empty-Amounts 12 one_pool (omega arith) refl refl) (omega arith)

-- An approval of the pool for the greatest amount, which reads like a transfer.
abbrev huge_env : Env
huge_env = record toy_env {
  unpack_transfer =
      λ input. ok (AbiValue.address bridge_address ∷ AbiValue.integer (2 ^ 256 - 1) ∷ []);
}

abbrev approve_tx : Transaction
approve_tx = record transfer_tx { payload = some (0x09 ∷ 0x5e ∷ 0xa7 ∷ 0xb3 ∷ []) }

made : (sig : Bytes) × (signature_of approve_tx ≡ done sig)
made =
    let signed =
      make_signature_reads_back 5 6 (recover_rec_id (uint64 56) 147) (omega arith) (omega arith) in
    (signed.0, signed.1)

process_each_tx_panics_example :
    (process_each_tx huge_env (λ h. ok 1) 40 approve_tx one_pool ≡ panics) ↔ (2 ^ 255 ≤ 2 ^ 256 - 1)
unfolding check_erc20 check_to_bridge eth_sign_pub_key_to_jolt_addr load
process_each_tx_panics_example =
    process_each_tx_panics huge_env (λ h. ok 1) 40 approve_tx token bridge_address (2 ^ 256 - 1)
      made.0 (3 ∷ []) (3 ∷ []) one_pool refl refl refl refl refl refl made.1 refl refl refl

either_order_example :
    let coin : Coin = record { denom = "JUSD"; amount = 500 } in
    ((p1 : PubChainInstance) × (p2 : PubChainInstance) × (process_inbound_tx toy_env
          (hex_encode (1 ∷ 2 ∷ []))
          40
          (3 ∷ [])
          bridge_address
          500
          token
          one_pool
        ≡ done (ok tt, p1))
      × (process_payment toy_env 41 payment_tx bridge_address p1 ≡ done p2)
      × RetriedLast toy_env
          (new_account_inbound_req (3 ∷ []) bridge_address coin (1 ∷ 2 ∷ []) (pos 0))
          one_pool
          p2
      × (p2.inbound_req_chan ≡ [])
      × (load (hex_encode (1 ∷ 2 ∷ [])) p2.pending_inbounds ≡ none)
      × (load (hex_encode (1 ∷ 2 ∷ [])) p2.pending_inbounds_bnb ≡ none))
    × ((q1 : PubChainInstance) × (q2 : PubChainInstance) × (process_payment toy_env 41 payment_tx
            bridge_address one_pool
          ≡ done q1)
        × (process_inbound_tx toy_env
              (hex_encode (1 ∷ 2 ∷ []))
              40
              (3 ∷ [])
              bridge_address
              500
              token
              q1
            ≡ done (ok tt, q2))
        × (q2.inbound_req_chan
            ≡ new_account_inbound_req (3 ∷ []) bridge_address coin (1 ∷ 2 ∷ []) (int64_of 40) ∷ [])
        × (q2.retry_inbound_req ≡ RetryPool.empty)
        × (load (hex_encode (1 ∷ 2 ∷ [])) q2.pending_inbounds ≡ none)
        × (load (hex_encode (1 ∷ 2 ∷ [])) q2.pending_inbounds_bnb ≡ none))
unfolding load check_to_bridge
either_order_example =
    either_order toy_env (1 ∷ 2 ∷ []) 40 (3 ∷ []) bridge_address 500 token bridge_address payment_tx
      41 10 one_pool (omega arith) refl refl refl (omega arith) (omega arith) (omega arith) refl
      refl refl (omega arith) (record { distinct = tt; below = tt })

update_inbound_tx_sums_example :
    (out : Option InboundTx) × (pi' : PubChainInstance) × (update_inbound_tx toy_env
        (5 ∷ [])
        5
        41
        waiting
      ≡ done (out, pi'))
    × (out ≡ none)
    × (load (5 ∷ []) pi'.pending_inbounds ≡ some (add_fee 5 waiting_tx))
    × ((k : Bytes) → k ≢ 5 ∷ [] → load k pi'.pending_inbounds ≡ load k waiting.pending_inbounds)
    × (pi' ≡ record waiting { pending_inbounds = pi'.pending_inbounds })
unfolding load
update_inbound_tx_sums_example =
    update_inbound_tx_sums toy_env (5 ∷ []) 5 41 10 waiting_tx waiting refl refl refl (omega arith)

verify_inbound_tx_iff_example :
    (verify_inbound_tx toy_env waiting_tx ≡ ok tt)
    ↔ ((waiting_tx.fee.denom ≡ in_bound_denom_fee) × (10 ≤ 4))
verify_inbound_tx_iff_example = verify_inbound_tx_iff toy_env waiting_tx 10 refl

check_erc20_selector_example :
    (check_erc20 toy_env (0xa9 ∷ 0x05 ∷ 0x9c ∷ 0xbb ∷ 1 ∷ [])
      ≡ check_erc20 toy_env (0x09 ∷ 0x5e ∷ 0xa7 ∷ 0xb3 ∷ 1 ∷ []))
    × ((to : Bytes) (amount : ℕ)
        → toy_env.unpack_transfer (1 ∷ []) ≡ ok (AbiValue.address to ∷ AbiValue.integer amount ∷ [])
        → check_erc20 toy_env (0x09 ∷ 0x5e ∷ 0xa7 ∷ 0xb3 ∷ 1 ∷ []) ≡ ok (to, amount))
    × ((short : Bytes) → length short < 4 → check_erc20 toy_env short ≡ err "invalid data")
check_erc20_selector_example =
    check_erc20_selector toy_env (0xa9 ∷ 0x05 ∷ 0x9c ∷ 0xbb ∷ []) (0x09 ∷ 0x5e ∷ 0xa7 ∷ 0xb3 ∷ [])
      (1 ∷ []) (omega arith) (omega arith) refl

delete_expired_ages_example :
    let pi' = delete_expired 400 waiting in
    Expires
      (λ (t : InboundTx). t.pub_block_height)
      400
      (5 ∷ [])
      waiting_tx
      waiting.pending_inbounds
      pi'.pending_inbounds
    × Expires
        (λ (t : InboundTxBnb). t.block_height)
        400
        (8 ∷ [])
        waiting_fee
        waiting.pending_inbounds_bnb
        pi'.pending_inbounds_bnb
unfolding load
delete_expired_ages_example =
    delete_expired_ages 400 (5 ∷ []) (8 ∷ []) waiting_tx waiting_fee waiting (omega arith)
      (omega arith) (omega arith) (tt, tt) (tt, tt) refl refl
