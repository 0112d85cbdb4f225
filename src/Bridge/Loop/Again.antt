-- ===== src/Bridge/Loop/Again.antt =====
-- bridge/joltifyBridge.go, joltifybridge/mint.go: a request whose token another node has issued.
use oppy_bridge.Common.{
  ℕ, String, ◌≡◌, refl, ap, ◌∙◌, ◌≢◌, inl, inr, true, false, Option, none, some, [], ◌∷◌, ◌++◌,
  arith, nat_key, string_key, bytes_key,
}
use oppy_bridge.Common.Outcome.{done, ◌>>=◌}
use oppy_bridge.Common.Result.{ok, Result-cases}
use oppy_bridge.External.{Bytes, Env}
use oppy_bridge.Misc.Keys.{pool_pub_key_to_jolt_address}
use oppy_bridge.Pool.{PoolInfo}
use oppy_bridge.Pubchain.State.{InboundReq, inbound_hash, add_inbound_item}
use oppy_bridge.Joltify.State.{JoltifyChainInstance}
use oppy_bridge.Joltify.Service.{
  JoltService, check_whether_signer, check_whether_already_exist, check_jolt_tx_status, issue_token,
  process_inbound,
}
use oppy_bridge.Bridge.{Bridge}
use oppy_bridge.Bridge.Requests.{after_inbound, handle_inbound, inbound_checked}

module _ (env : Env) where
  exists_issued :
      (svc : JoltService) (item : InboundReq) (p : PoolInfo) (creator : Bytes) (acc : ℕ × ℕ)
      → svc.given_token_issue (some (inbound_hash env item)) ≡ ok true
      → issue_token svc env item p creator acc ≡ done (ok ("", none))
  unfolding issue_token check_whether_already_exist
  exists_issued svc item p creator acc g = ground (arith, g)

  issued_result :
      (svc : JoltService) (item : InboundReq) (jc : JoltifyChainInstance) (p0 p1 : PoolInfo)
      (creator : Bytes) (acc : ℕ × ℕ)
      → jc.last_two_pools.pool0 ≡ some p0
      → jc.last_two_pools.pool1 ≡ some p1
      → pool_pub_key_to_jolt_address env p1.pk ≡ ok creator
      → svc.query_account p1.joltify_address ≡ ok acc
      → process_inbound svc env item jc ≡ issue_token svc env item p1 creator acc
  unfolding process_inbound
  issued_result svc item jc p0 p1 creator acc n l k a = ground arith

  signer_handles :
      (svc : JoltService) (item : InboundReq) (b : Bridge) (p : PoolInfo)
      → b.jolt_chain.last_two_pools.pool1 ≡ some p
      → check_whether_signer svc p.pool_info ≡ ok true
      → handle_inbound env svc item b ≡ (
          process_inbound svc env item b.jolt_chain >>= λ result.
          done (after_inbound env svc item result b))
  unfolding handle_inbound
  signer_handles svc item b p l c = ground arith

  checks_index :
      (svc : JoltService) (item : InboundReq) (index : Option ℕ) (tx_hash : String) (b : Bridge)
      → after_inbound env svc item (ok (tx_hash, index)) b
        ≡ record b { inbound_checks = b.inbound_checks ++ (item, index) ∷ [] }
  unfolding after_inbound
  checks_index svc item index tx_hash b = refl

  never_found :
      (svc : JoltService)
      → svc.given_token_issue none ≢ ok true
      → check_whether_already_exist svc none ≡ false
  unfolding check_whether_already_exist
  never_found svc w = elim (Result-cases (svc.given_token_issue none)) [
    | inr (e, g) ↦ ground arith
    | inl (false, g) ↦ ground arith
    | inl (true, g) ↦ absurd (w g)
  ]

  not_found :
      (svc : JoltService) (item : InboundReq) (b : Bridge)
      → svc.given_token_issue none ≢ ok true
      → inbound_checked env svc (item, none) b ≡ record b { pi = add_inbound_item env item b.pi }
  unfolding inbound_checked check_jolt_tx_status
  not_found svc item b w = rw (inbound_checked, check_jolt_tx_status, never_found svc w) refl

  -- A signer that takes a request from the channel after another node has issued its token, where both
  -- pools, the latest key's address and the account are known, does not drop the request: it starts a
  -- goroutine that looks for the empty index. Unless the chain knows a token under the empty index, the
  -- end of that goroutine, at whatever state, puts the request into the retry pool again.
  pub issued_elsewhere_retries :
      (svc svc' : JoltService) (item : InboundReq) (b b' : Bridge) (p0 p1 : PoolInfo)
      (creator : Bytes) (acc : ℕ × ℕ)
      → b.jolt_chain.last_two_pools.pool0 ≡ some p0
      → b.jolt_chain.last_two_pools.pool1 ≡ some p1
      → check_whether_signer svc p1.pool_info ≡ ok true
      → pool_pub_key_to_jolt_address env p1.pk ≡ ok creator
      → svc.query_account p1.joltify_address ≡ ok acc
      → svc.given_token_issue (some (inbound_hash env item)) ≡ ok true
      → svc'.given_token_issue none ≢ ok true
      → (handle_inbound env svc item b
          ≡ done (record b { inbound_checks = b.inbound_checks ++ (item, none) ∷ [] }))
        × (inbound_checked env svc' (item, none) b'
            ≡ record b' { pi = add_inbound_item env item b'.pi })
  issued_elsewhere_retries svc svc' item b b' p0 p1 creator acc n l c k a g w = (
    signer_handles svc item b p1 l c
        ∙ ap (λ out. out >>= λ result. done (after_inbound env svc item result b))
            (issued_result svc item b.jolt_chain p0 p1 creator acc n l k a
              ∙ exists_issued svc item p1 creator acc g)
        ∙ ap done (checks_index svc item none "" b),
    not_found svc' item b' w,
  )
