-- ===== src/Joltify/Service/Returns.antt =====
-- joltifybridge/mint.go and tx_outbound.go: when minting and moving funds do not panic.
use oppy_bridge.Common.{
  ℕ, String, ◌≡◌, sym, subst, inl, inr, none, some, List, [], ◌∷◌, arith, nat_key, string_key,
  bytes_key, Bool-cases, Option-cases,
}
use oppy_bridge.Common.Int.{ℤ}
use oppy_bridge.Common.Outcome.{done, Returns, Returns-bind}
use oppy_bridge.Common.Result.{ok, err, Result-cases}
use oppy_bridge.External.{Bytes, Coin, Env}
use oppy_bridge.Misc.Keys.{pool_pub_key_to_jolt_address}
use oppy_bridge.Pool.{PoolInfo}
use oppy_bridge.Pubchain.State.{InboundReq, inbound_hash}
use oppy_bridge.Joltify.State.{JoltifyChainInstance}
use oppy_bridge.Joltify.Signing.{Message, compose_and_send}
use oppy_bridge.Joltify.Signing.Returns.{IsReady, compose-Returns}
use oppy_bridge.Joltify.Service.{
  JoltService, check_whether_already_exist, broadcast_issue, issue_token, process_inbound,
  moved_coins, move_coins, move_jolt_funds,
}

module _ (env : Env) (svc : JoltService) (ready : IsReady env svc.cosmos) where
  issue-Returns :
      (item : InboundReq) (pool : PoolInfo) (creator : Bytes) (acc : ℕ × ℕ)
      → Returns (issue_token svc env item pool creator acc)
  unfolding issue_token
  issue-Returns item pool creator (acc_seq, acc_num) =
      elim (Bool-cases (check_whether_already_exist svc (some (inbound_hash env item)))) [
        | inl found ↦ rw (found, issue_token) tt
        | inr new ↦
            elim (Result-cases
              (svc.new_issue_token creator (some (inbound_hash env item)) item.coin item.address)) [
                | inr (e, m) ↦ rw (new, m, issue_token) tt
                | inl (msg, m) ↦
                    rw (new, m, issue_token)
                      (Returns-bind
                        (compose_and_send env svc.cosmos msg acc_seq acc_num
                          (record { pk = pool.pk; block_height = item.block_height }))
                        (λ sent. done (broadcast_issue svc (some (inbound_hash env item)) sent))
                        (compose-Returns env svc.cosmos ready msg acc_seq acc_num
                          (record { pk = pool.pk; block_height = item.block_height }))
                        (λ a. tt))
              ]
      ]

  module _ (item : InboundReq) (jc : JoltifyChainInstance) (p : PoolInfo)
      (l : jc.last_two_pools.pool1 ≡ some p) where
    one_pool :
        jc.last_two_pools.pool0 ≡ none
        → process_inbound svc env item jc ≡ done (err "not enough signer")
    unfolding process_inbound
    one_pool n = ground arith

    no_address :
        (q : PoolInfo) (e : String)
        → jc.last_two_pools.pool0 ≡ some q
        → pool_pub_key_to_jolt_address env p.pk ≡ err e
        → process_inbound svc env item jc ≡ done (err "invalid address")
    unfolding process_inbound
    no_address q e n k = ground arith

    no_account :
        (q : PoolInfo) (creator : Bytes) (e : String)
        → jc.last_two_pools.pool0 ≡ some q
        → pool_pub_key_to_jolt_address env p.pk ≡ ok creator
        → svc.query_account p.joltify_address ≡ err e
        → process_inbound svc env item jc ≡ done (err "invalid account query")
    unfolding process_inbound
    no_account q creator e n k a = ground arith

    issues :
        (q : PoolInfo) (creator : Bytes) (acc : ℕ × ℕ)
        → jc.last_two_pools.pool0 ≡ some q
        → pool_pub_key_to_jolt_address env p.pk ≡ ok creator
        → svc.query_account p.joltify_address ≡ ok acc
        → process_inbound svc env item jc ≡ issue_token svc env item p creator acc
    unfolding process_inbound
    issues q creator acc n k a = ground arith

    pub process-Returns : Returns (process_inbound svc env item jc)
    process-Returns = elim (Option-cases jc.last_two_pools.pool0) [
      | inl n ↦ subst Returns (sym (one_pool n)) tt
      | inr (q, n) ↦ elim (Result-cases (pool_pub_key_to_jolt_address env p.pk)) [
        | inr (e, k) ↦ subst Returns (sym (no_address q e n k)) tt
        | inl (creator, k) ↦ elim (Result-cases (svc.query_account p.joltify_address)) [
          | inr (e, a) ↦ subst Returns (sym (no_account q creator e n k a)) tt
          | inl (acc, a) ↦
              subst Returns (sym (issues q creator acc n k a)) (issue-Returns item p creator acc)
        ]
      ]
    ]

  coins-Returns :
      (pool : PoolInfo) (to : Bytes) (height : ℤ) (acc : ℕ × ℕ) (coins : List Coin)
      → Returns (move_coins svc env pool to height acc coins)
  unfolding move_coins
  coins-Returns pool to height (acc_seq, acc_num) [] = tt
  coins-Returns pool to height (acc_seq, acc_num) (c ∷ coins) =
      Returns-bind
        (compose_and_send env svc.cosmos (Message.move pool.joltify_address to (c ∷ coins)) acc_seq
          acc_num (record { pk = pool.pk; block_height = height }))
        (λ sent. done (moved_coins svc sent))
        (compose-Returns env svc.cosmos ready (Message.move pool.joltify_address to (c ∷ coins))
          acc_seq acc_num (record { pk = pool.pk; block_height = height }))
        (λ a. tt)

  pub funds-Returns :
      (pool : PoolInfo) (to : Bytes) (height : ℤ) → Returns (move_jolt_funds svc env pool to height)
  unfolding move_jolt_funds
  funds-Returns pool to height = elim (Result-cases (svc.query_account pool.joltify_address)) [
    | inr (e, q) ↦ rw (q, move_jolt_funds) tt
    | inl (acc, q) ↦ elim (Result-cases (svc.query_balance pool.joltify_address)) [
      | inr (e, c) ↦ rw (q, c, move_jolt_funds) tt
      | inl (coins, c) ↦ rw (q, c, move_jolt_funds) (coins-Returns pool to height acc coins)
    ]
  ]
