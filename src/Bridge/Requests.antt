-- ===== src/Bridge/Requests.antt =====
-- bridge/joltifyBridge.go: the cases of the two channels of requests, and the goroutines that they start.
pub mod Cases
use oppy_bridge.Common.{
  ℕ, String, not, Option, none, some, [], ◌∷◌, ◌++◌, if◌then◌else◌, ◌==◌, nat_key, string_key,
  bytes_key,
}
use oppy_bridge.Common.Outcome.{Outcome, done, panics, ◌>>=◌}
use oppy_bridge.Common.Result.{Result, ok, err}
use oppy_bridge.External.{Bytes, Env}
use oppy_bridge.Pubchain.State.{InboundReq, add_inbound_item}
use oppy_bridge.Pubchain.Sending.{EthClient, process_out_bound, check_pub_tx_status}
use oppy_bridge.Joltify.State.{OutBoundReq, add_outbound_item, get_jolt_pool}
use oppy_bridge.Joltify.Service.{
  JoltService, check_whether_signer, process_inbound, check_jolt_tx_status,
}
use oppy_bridge.Bridge.{Bridge}

module _ (env : Env) (svc : JoltService) where
  -- The result of ProcessInBound: the request goes to the retry pool, or a goroutine checks its index.
  unfoldable pub after_inbound : InboundReq → Result (String × Option ℕ) → Bridge → Bridge
  after_inbound item (err e) b = record b { pi = add_inbound_item env item b.pi }
  after_inbound item (ok (tx_hash, index)) b = record b {
    inbound_checks = b.inbound_checks ++ (item, index) ∷ [];
  }

  -- A request that was taken out of InboundReqChan; the latest pool is dereferenced.
  unfoldable pub handle_inbound : InboundReq → Bridge → Outcome Bridge
  handle_inbound item b = elim (get_jolt_pool b.jolt_chain).pool1 [
    | none ↦ panics
    | some pool ↦ elim (check_whether_signer svc pool.pool_info) [
      | err e ↦ done b
      | ok found ↦
          if found
          then (process_inbound svc env item b.jolt_chain >>= λ result.
              done (after_inbound item result b))
          else done b
    ]
  ]

  -- The case of InboundReqChan
  unfoldable pub inbound_request : Bridge → Outcome Bridge
  inbound_request b = elim b.pi.inbound_req_chan [
    | [] ↦ done b
    | item ∷ rest ↦ handle_inbound item (record b { pi = record b.pi { inbound_req_chan = rest } })
  ]

  -- The end of a goroutine of InboundReqChan: a request whose index was not found is tried again.
  unfoldable pub inbound_checked : InboundReq × Option ℕ → Bridge → Bridge
  inbound_checked (item, index) b = elim (check_jolt_tx_status svc index) [
    | err e ↦ record b { pi = add_inbound_item env item b.pi }
    | ok _ ↦ b
  ]

module _ (env : Env) (svc : JoltService) (client : EthClient) where
  -- The result of ProcessOutBound.
  unfoldable pub after_outbound : OutBoundReq → Result Bytes → Bridge → Bridge
  after_outbound item (err e) b = record b { jolt_chain = add_outbound_item env item b.jolt_chain }
  after_outbound item (ok tx_hash) b = record b {
    outbound_checks = b.outbound_checks ++ (item, tx_hash) ∷ [];
  }

  -- A request that was taken out of OutboundReqChan.
  unfoldable pub handle_outbound : OutBoundReq → Bridge → Outcome Bridge
  handle_outbound item b = elim (get_jolt_pool b.jolt_chain).pool1 [
    | none ↦ panics
    | some pool ↦ elim (check_whether_signer svc pool.pool_info) [
      | err e ↦ done b
      | ok found ↦
          if found
          then (process_out_bound env client item.out_receiver_address item.from_pool_addr
                item.coin.amount item.block_height b.pi
              >>= λ result. done (after_outbound item result b))
          else done b
    ]
  ]

  -- The case of OutboundReqChan
  unfoldable pub outbound_request : Bridge → Outcome Bridge
  outbound_request b = elim b.jolt_chain.outbound_req_chan [
    | [] ↦ done b
    | item ∷ rest ↦
        handle_outbound item
          (record b { jolt_chain = record b.jolt_chain { outbound_req_chan = rest } })
  ]

module _ (env : Env) (client : EthClient) where
  -- The end of a goroutine of OutboundReqChan: only a transaction that failed is tried again.
  unfoldable pub outbound_checked : OutBoundReq × Bytes → Bridge → Bridge
  outbound_checked (item, tx_hash) b = elim (check_pub_tx_status env client tx_hash) [
    | ok _ ↦ b
    | err e ↦
        if not (e == "tx failed")
        then b
        else record b { jolt_chain = add_outbound_item env item b.jolt_chain }
  ]
