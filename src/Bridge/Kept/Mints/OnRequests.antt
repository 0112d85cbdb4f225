-- ===== src/Bridge/Kept/Mints/OnRequests.antt =====
-- bridge/joltifyBridge.go: what the case of InboundReqChan, and the goroutines that it starts, do to the
-- requests to mint.
use oppy_bridge.Common.{
  ℕ, ◌+◌, ◌≤◌, String, ◌≡◌, refl, ap, ◌≢◌, ◌⊎◌, inl, inr, true, Option, some, List, ◌∷◌, ◌++◌,
  arith, ◌==◌, nat_key, string_key, bytes_key, Bool-cases,
}
use oppy_bridge.Common.Outcome.{Ensures, Ensures-last}
use oppy_bridge.Common.Result.{Result, ok, err, Result-cases}
use oppy_bridge.External.{Bytes, Env}
use oppy_bridge.Pool.{PoolInfo}
use oppy_bridge.RetryPool.Max.{IsValid}
use oppy_bridge.Pubchain.State.{InboundReq, add_inbound_item}
use oppy_bridge.Joltify.Service.{
  JoltService, check_whether_signer, process_inbound, check_jolt_tx_status,
}
use oppy_bridge.Bridge.{Bridge}
use oppy_bridge.Bridge.Requests.Cases.{handle_inbound_cases, inbound_request_cases}
use oppy_bridge.Bridge.Requests.{after_inbound, handle_inbound, inbound_request, inbound_checked}
use oppy_bridge.Bridge.Kept.{
  one_mint, count, checked_requests, count_checked, count_started, held_mints,
}
use oppy_bridge.Bridge.Kept.Mints.{mint_added}

module _ (tx_id : Bytes) (env : Env) where
  added_mints :
      (item : InboundReq) (b : Bridge)
      → IsValid b.pi.retry_inbound_req
      → held_mints tx_id (record b { pi = add_inbound_item env item b.pi })
        ≡ one_mint tx_id item + held_mints tx_id b
  added_mints item b v = omega (arith, mint_added tx_id env item b.pi v)

  -- A request for another transaction.
  other_mint : (item : InboundReq) → item.tx_id ≢ tx_id → one_mint tx_id item ≡ 0
  other_mint item other = elim (Bool-cases (item.tx_id == tx_id)) [
    | inr differs ↦ rw differs refl
    | inl same ↦ absurd (other ((bytes_key.same_iff item.tx_id tx_id).0 same))
  ]

  module _ (svc : JoltService) where
    after_mints :
        (item : InboundReq) (result : Result (String × Option ℕ)) (b : Bridge)
        → IsValid b.pi.retry_inbound_req
        → held_mints tx_id (after_inbound env svc item result b)
          ≡ one_mint tx_id item + held_mints tx_id b
    unfolding after_inbound
    after_mints item (err e) b v = added_mints item b v
    after_mints item (ok (tx_hash, index)) b v =
        omega (arith, count_started (one_mint tx_id) b.inbound_checks item index)

    -- This node is known to be a signer of the latest pool.
    abbrev pub Signs : Bridge → Type 0
    Signs b =
        (p : PoolInfo) × (b.jolt_chain.last_two_pools.pool1 ≡ some p)
        × (check_whether_signer svc p.pool_info ≡ ok true)

    -- The request that comes next out of InboundReqChan is another one.
    abbrev pub NextIsOther : Bridge → Type 0
    NextIsOther b =
        (item : InboundReq) (rest : List InboundReq)
        → b.pi.inbound_req_chan ≡ item ∷ rest
        → item.tx_id ≢ tx_id

    -- A request that does not count, or that the node signs, leaves at least as many.
    handled :
        (item : InboundReq) (b : Bridge) (n : ℕ)
        → IsValid b.pi.retry_inbound_req
        → n ≤ one_mint tx_id item + held_mints tx_id b
        → Signs b ⊎ (one_mint tx_id item ≡ 0)
        → Ensures (λ b'. n ≤ held_mints tx_id b') (handle_inbound env svc item b)
    handled item b n v h stays =
        let Q : Bridge → Type 0 = λ b'. n ≤ held_mints tx_id b' in
        handle_inbound_cases (Ensures Q) env svc item b (λ _. tt)
          (λ p known no_signer. elim stays [
            | inl (q, latest, signer) ↦ absurd (ground (arith, known, latest, signer, no_signer))
            | inr zero_one ↦ omega (arith, h, zero_one)
          ])
          (λ _ _ _.
            Ensures-last Q (process_inbound svc env item b.jolt_chain)
              (λ result. after_inbound env svc item result b)
              (λ result _. omega (arith, h, after_mints item result b v)))

    pub inbound_mints :
        (b : Bridge)
        → IsValid b.pi.retry_inbound_req
        → Signs b ⊎ NextIsOther b
        → Ensures (λ b'. held_mints tx_id b ≤ held_mints tx_id b') (inbound_request env svc b)
    inbound_mints b v stays =
        inbound_request_cases (Ensures (λ b'. held_mints tx_id b ≤ held_mints tx_id b')) env svc b
          (omega arith)
          (λ item rest e.
            let taken = record b { pi = record b.pi { inbound_req_chan = rest } } in
            handled item taken (held_mints tx_id b) v (omega (arith, ap (count (one_mint tx_id)) e))
              (elim stays [
                | inl signs ↦ inl signs
                | inr other ↦ inr (other_mint item (other item rest e))
              ]))

    pub inbound_checked_mints :
        (before after : List (InboundReq × Option ℕ)) (check : InboundReq × Option ℕ) (b : Bridge)
        → IsValid b.pi.retry_inbound_req
        → b.inbound_checks ≡ before ++ check ∷ after
        → ((e : String) × (check_jolt_tx_status svc check.1 ≡ err e)) ⊎ (check.0.tx_id ≢ tx_id)
        → held_mints tx_id b
          ≤ held_mints tx_id
              (inbound_checked env svc check (record b { inbound_checks = before ++ after }))
    unfolding inbound_checked
    inbound_checked_mints before after (item, index) b v e stays =
        let rest = record b { inbound_checks = before ++ after } in
        let counted : held_mints tx_id b ≡ one_mint tx_id item + held_mints tx_id rest = omega (
          arith,
          ap (λ l. count (one_mint tx_id) (checked_requests l)) e,
          count_checked (one_mint tx_id) before after item index,
        ) in
        elim (Result-cases (check_jolt_tx_status svc index)) [
          | inr (t, c) ↦ rw (c, inbound_checked) (omega (arith, counted, added_mints item rest v))
          | inl (u, c) ↦ elim stays [
            | inl (t, failed) ↦ absurd (ground (arith, c, failed))
            | inr other ↦ rw (c, inbound_checked) (omega (arith, counted, other_mint item other))
          ]
        ]
