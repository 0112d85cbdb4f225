-- ===== src/Bridge/Kept/OnRequests.antt =====
-- bridge/joltifyBridge.go: what the case of OutboundReqChan, and the goroutines that it starts, do to the transfers that are to be sent on the public chain.
use oppy_bridge.Common.{
  ℕ, ◌+◌, ◌≤◌, ◌≡◌, refl, ap, ◌≢◌, ◌⊎◌, inl, inr, true, some, List, ◌∷◌, ◌++◌, arith, ◌==◌, nat_key,
  string_key, bytes_key, Bool-cases,
}
use oppy_bridge.Common.Outcome.{Ensures, Ensures-last}
use oppy_bridge.Common.Result.{Result, ok, err, Result-cases}
use oppy_bridge.External.{Bytes, Env}
use oppy_bridge.Pool.{PoolInfo}
use oppy_bridge.RetryPool.Max.{IsValid}
use oppy_bridge.Pubchain.Sending.{EthClient, process_out_bound, check_pub_tx_status}
use oppy_bridge.Joltify.State.{OutBoundReq, add_outbound_item}
use oppy_bridge.Joltify.Service.{JoltService, check_whether_signer}
use oppy_bridge.Bridge.{Bridge}
use oppy_bridge.Bridge.Requests.Cases.{handle_outbound_cases, outbound_request_cases}
use oppy_bridge.Bridge.Requests.{
  after_outbound, handle_outbound, outbound_request, outbound_checked,
}
use oppy_bridge.Bridge.Kept.{one, count, checked_requests, count_checked, count_started, held}
use oppy_bridge.Bridge.Kept.Retries.{added}

module _ (tx_id : Bytes) (env : Env) where
  pub added_held :
      (item : OutBoundReq) (b : Bridge)
      → IsValid b.jolt_chain.retry_outbound_req
      → held tx_id (record b { jolt_chain = add_outbound_item env item b.jolt_chain })
        ≡ one tx_id item + held tx_id b
  unfolding add_outbound_item
  added_held item b v = omega (arith, added tx_id env item b.jolt_chain v)

  -- A request for another transaction.
  pub other_one : (item : OutBoundReq) → item.tx_id ≢ tx_id → one tx_id item ≡ 0
  other_one item other = elim (Bool-cases (item.tx_id == tx_id)) [
    | inr differs ↦ rw differs refl
    | inl same ↦ absurd (other ((bytes_key.same_iff item.tx_id tx_id).0 same))
  ]

  module _ (svc : JoltService) (client : EthClient) where
    after_held :
        (item : OutBoundReq) (result : Result Bytes) (b : Bridge)
        → IsValid b.jolt_chain.retry_outbound_req
        → held tx_id (after_outbound env svc client item result b) ≡ one tx_id item + held tx_id b
    unfolding after_outbound
    after_held item (err e) b v = added_held item b v
    after_held item (ok tx_hash) b v =
        omega (arith, count_started (one tx_id) b.outbound_checks item tx_hash)

    -- This node is known to be a signer of the latest pool.
    abbrev pub Signs : Bridge → Type 0
    Signs b =
        (p : PoolInfo) × (b.jolt_chain.last_two_pools.pool1 ≡ some p)
        × (check_whether_signer svc p.pool_info ≡ ok true)

    -- The transfer that comes next out of OutboundReqChan is another one.
    abbrev pub NextIsOther : Bridge → Type 0
    NextIsOther b =
        (item : OutBoundReq) (rest : List OutBoundReq)
        → b.jolt_chain.outbound_req_chan ≡ item ∷ rest
        → item.tx_id ≢ tx_id

    -- A transfer that does not count, or that the node signs, leaves at least as many.
    handled :
        (item : OutBoundReq) (b : Bridge) (n : ℕ)
        → IsValid b.jolt_chain.retry_outbound_req
        → n ≤ one tx_id item + held tx_id b
        → Signs b ⊎ (one tx_id item ≡ 0)
        → Ensures (λ b'. n ≤ held tx_id b') (handle_outbound env svc client item b)
    handled item b n v h stays =
        let Q : Bridge → Type 0 = λ b'. n ≤ held tx_id b' in
        handle_outbound_cases (Ensures Q) env svc client item b (λ _. tt)
          (λ p known no_signer. elim stays [
            | inl (q, latest, signer) ↦ absurd (ground (arith, known, latest, signer, no_signer))
            | inr zero_one ↦ omega (arith, h, zero_one)
          ])
          (λ _ _ _.
            Ensures-last Q
              (process_out_bound env client item.out_receiver_address item.from_pool_addr
                item.coin.amount item.block_height b.pi)
              (λ result. after_outbound env svc client item result b)
              (λ result _. omega (arith, h, after_held item result b v)))

    pub outbound_held :
        (b : Bridge)
        → IsValid b.jolt_chain.retry_outbound_req
        → Signs b ⊎ NextIsOther b
        → Ensures (λ b'. held tx_id b ≤ held tx_id b') (outbound_request env svc client b)
    outbound_held b v stays =
        outbound_request_cases (Ensures (λ b'. held tx_id b ≤ held tx_id b')) env svc client b
          (omega arith)
          (λ item rest e.
            let taken = record b {
              jolt_chain = record b.jolt_chain { outbound_req_chan = rest };
            } in
            handled item taken (held tx_id b) v (omega (arith, ap (count (one tx_id)) e))
              (elim stays [
                | inl signs ↦ inl signs
                | inr other ↦ inr (other_one item (other item rest e))
              ]))

  pub checked_other_held :
      (client : EthClient) (before after : List (OutBoundReq × Bytes)) (check : OutBoundReq × Bytes)
      (b : Bridge)
      → IsValid b.jolt_chain.retry_outbound_req
      → b.outbound_checks ≡ before ++ check ∷ after
      → check.0.tx_id ≢ tx_id
      → held tx_id b
        ≤ held tx_id
            (outbound_checked env client check (record b { outbound_checks = before ++ after }))
  unfolding outbound_checked
  checked_other_held client before after (item, tx_hash) b v e other =
      let rest = record b { outbound_checks = before ++ after } in
      let same : held tx_id b ≡ held tx_id rest = omega (
        arith,
        other_one item other,
        ap (λ l. count (one tx_id) (checked_requests l)) e,
        count_checked (one tx_id) before after item tx_hash,
      ) in
      elim (Result-cases (check_pub_tx_status env client tx_hash)) [
        | inl (u, c) ↦ rw (c, outbound_checked) (omega (arith, same))
        | inr (t, c) ↦ elim (Bool-cases (t == "tx failed")) [
          | inr differs ↦ rw (c, differs, outbound_checked) (omega (arith, same))
          | inl failed ↦
              rw (c, failed, outbound_checked) (omega (arith, same, added_held item rest v))
        ]
      ]

  pub held-outbound_checked :
      (client : EthClient) (before after : List (OutBoundReq × Bytes)) (check : OutBoundReq × Bytes)
      (b : Bridge)
      → IsValid b.jolt_chain.retry_outbound_req
      → b.outbound_checks ≡ before ++ check ∷ after
      → check_pub_tx_status env client check.1 ≡ err "tx failed"
      → held tx_id b
        ≡ held tx_id
            (outbound_checked env client check (record b { outbound_checks = before ++ after }))
  unfolding outbound_checked
  held-outbound_checked client before after (item, tx_hash) b v e failed =
      let rest = record b { outbound_checks = before ++ after } in
      rw (failed, outbound_checked)
        (omega (
          arith,
          added_held item rest v,
          ap (λ l. count (one tx_id) (checked_requests l)) e,
          count_checked (one tx_id) before after item tx_hash,
        ))
