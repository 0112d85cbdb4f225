-- ===== src/Bridge/Requests/Cases.antt =====
-- bridge/joltifyBridge.go: the ways in which the loop treats a request that it takes out of a channel.
use oppy_bridge.Common.{
  ◌≡◌, refl, sym, subst, ◌≢◌, inl, inr, true, false, none, some, List, [], ◌∷◌, arith, nat_key,
  string_key, bytes_key, Option-cases,
}
use oppy_bridge.Common.Outcome.{Outcome, done, panics, ◌>>=◌}
use oppy_bridge.Common.Result.{ok, Result-cases}
use oppy_bridge.External.{Env}
use oppy_bridge.Pool.{PoolInfo}
use oppy_bridge.Pubchain.State.{InboundReq}
use oppy_bridge.Pubchain.Sending.{EthClient, process_out_bound}
use oppy_bridge.Joltify.State.{OutBoundReq}
use oppy_bridge.Joltify.Service.{JoltService, check_whether_signer, process_inbound}
use oppy_bridge.Bridge.{Bridge}
use oppy_bridge.Bridge.Requests.{
  after_inbound, handle_inbound, inbound_request, after_outbound, handle_outbound, outbound_request,
}

module _ {ℓ} (P : Outcome Bridge → Type ℓ) (env : Env) (svc : JoltService) where
  -- A request to mint: no pool is known, the node is not known to be a signer, or it is.
  pub handle_inbound_cases :
      (item : InboundReq) (b : Bridge)
      → (b.jolt_chain.last_two_pools.pool1 ≡ none → P panics)
      → ((p : PoolInfo)
          → b.jolt_chain.last_two_pools.pool1 ≡ some p
          → check_whether_signer svc p.pool_info ≢ ok true
          → P (done b))
      → ((p : PoolInfo)
          → b.jolt_chain.last_two_pools.pool1 ≡ some p
          → check_whether_signer svc p.pool_info ≡ ok true
          → P (
              process_inbound svc env item b.jolt_chain >>= λ result.
              done (after_inbound env svc item result b)))
      → P (handle_inbound env svc item b)
  unfolding handle_inbound
  handle_inbound_cases item b no_pool skips signs =
      elim (Option-cases b.jolt_chain.last_two_pools.pool1) [
        | inl unknown ↦ rw (unknown, handle_inbound) (no_pool unknown)
        | inr (p, known) ↦ elim (Result-cases (check_whether_signer svc p.pool_info)) [
          | inr (e, c) ↦ rw (known, c, handle_inbound) (skips p known (λ q. ground (arith, c, q)))
          | inl (false, c) ↦
              rw (known, c, handle_inbound) (skips p known (λ q. ground (arith, c, q)))
          | inl (true, c) ↦ rw (known, c, handle_inbound) (signs p known c)
        ]
      ]

  -- The case of InboundReqChan, whether it is empty or not.
  pub inbound_request_cases :
      (b : Bridge)
      → P (done b)
      → ((item : InboundReq) (rest : List InboundReq)
          → b.pi.inbound_req_chan ≡ item ∷ rest
          → P (
              handle_inbound env svc item
                (record b { pi = record b.pi { inbound_req_chan = rest } })))
      → P (inbound_request env svc b)
  unfolding inbound_request
  inbound_request_cases b nothing takes = from_chan b.pi.inbound_req_chan refl
    where
      from_chan :
          (chan : List InboundReq) → b.pi.inbound_req_chan ≡ chan → P (inbound_request env svc b)
      from_chan [] e =
          let received : inbound_request env svc b ≡ done b = ground arith in
          subst P (sym received) nothing
      from_chan (item ∷ rest) e =
          let received : inbound_request env svc b
              ≡ handle_inbound env svc item
                  (record b { pi = record b.pi { inbound_req_chan = rest } }) =
            ground arith in
          subst P (sym received) (takes item rest e)

  module _ (client : EthClient) where
    -- A transfer: no pool is known, the node is not known to be a signer, or it is.
    pub handle_outbound_cases :
        (item : OutBoundReq) (b : Bridge)
        → (b.jolt_chain.last_two_pools.pool1 ≡ none → P panics)
        → ((p : PoolInfo)
            → b.jolt_chain.last_two_pools.pool1 ≡ some p
            → check_whether_signer svc p.pool_info ≢ ok true
            → P (done b))
        → ((p : PoolInfo)
            → b.jolt_chain.last_two_pools.pool1 ≡ some p
            → check_whether_signer svc p.pool_info ≡ ok true
            → P (
                process_out_bound env client item.out_receiver_address item.from_pool_addr
                  item.coin.amount item.block_height b.pi
                >>= λ result. done (after_outbound env svc client item result b)))
        → P (handle_outbound env svc client item b)
    unfolding handle_outbound
    handle_outbound_cases item b no_pool skips signs =
        elim (Option-cases b.jolt_chain.last_two_pools.pool1) [
          | inl unknown ↦ rw (unknown, handle_outbound) (no_pool unknown)
          | inr (p, known) ↦ elim (Result-cases (check_whether_signer svc p.pool_info)) [
            | inr (e, c) ↦
                rw (known, c, handle_outbound) (skips p known (λ q. ground (arith, c, q)))
            | inl (false, c) ↦
                rw (known, c, handle_outbound) (skips p known (λ q. ground (arith, c, q)))
            | inl (true, c) ↦ rw (known, c, handle_outbound) (signs p known c)
          ]
        ]

    -- The case of OutboundReqChan, whether it is empty or not.
    pub outbound_request_cases :
        (b : Bridge)
        → P (done b)
        → ((item : OutBoundReq) (rest : List OutBoundReq)
            → b.jolt_chain.outbound_req_chan ≡ item ∷ rest
            → P (
                handle_outbound env svc client item
                  (record b { jolt_chain = record b.jolt_chain { outbound_req_chan = rest } })))
        → P (outbound_request env svc client b)
    unfolding outbound_request
    outbound_request_cases b nothing takes = from_chan b.jolt_chain.outbound_req_chan refl
      where
        from_chan :
            (chan : List OutBoundReq)
            → b.jolt_chain.outbound_req_chan ≡ chan
            → P (outbound_request env svc client b)
        from_chan [] e =
            let received : outbound_request env svc client b ≡ done b = ground arith in
            subst P (sym received) nothing
        from_chan (item ∷ rest) e =
            let received : outbound_request env svc client b
                ≡ handle_outbound env svc client item
                    (record b { jolt_chain = record b.jolt_chain { outbound_req_chan = rest } }) =
              ground arith in
            subst P (sym received) (takes item rest e)
