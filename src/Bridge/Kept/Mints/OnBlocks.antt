-- ===== src/Bridge/Kept/Mints/OnBlocks.antt =====
-- bridge/joltifyBridge.go: the blocks of both chains lose no request to mint, and move requests from
-- RetryInboundReq to InboundReqChan.
use oppy_bridge.Common.{
  ℕ, ◌≤◌, ◌≡◌, refl, subst, inl, inr, Bool, true, false, Option, none, some, List, arith, nat_key,
  string_key, bytes_key, Option-cases,
}
use oppy_bridge.Common.Int.{ℤ, int64_of}
use oppy_bridge.Common.Outcome.{
  Outcome, done, panics, blocked, Ensures, Ensures-bind, Ensures-last, Ensures-map,
}
use oppy_bridge.Common.Result.{Result, ok, err, Result-cases}
use oppy_bridge.External.{Bytes, Transaction, Env}
use oppy_bridge.MoveFundQueue
use oppy_bridge.SyncMap.{SyncMap}
use oppy_bridge.Misc.BigInt.{uint64}
use oppy_bridge.Pool.{PoolInfo}
use oppy_bridge.RetryPool.Max.{IsValid}
use oppy_bridge.Pubchain.State.{PubChainInstance, add_pub_move_fund, pop_pub_move_fund}
use oppy_bridge.Pubchain.Blocks.{process_new_block, delete_expired}
use oppy_bridge.Pubchain.Sending.{EthClient, move_pub_funds}
use oppy_bridge.Joltify.Service.{JoltService, check_whether_signer}
use oppy_bridge.Bridge.{Bridge}
use oppy_bridge.Bridge.JoltBlock.{new_joltify_block, retry_inbound}
use oppy_bridge.Bridge.PubBlock.{
  retry_outbound, requeue, move_to_latest, move_pub_queue, new_pub_block,
}
use oppy_bridge.Bridge.Kept.{one_mint, held_in, held_mints}
use oppy_bridge.Bridge.Kept.OnJoltBlock.{jolt_block-At}
use oppy_bridge.Bridge.Kept.Mints.Received.{block-Has}
use oppy_bridge.Bridge.Kept.Mints.{waiting_mints, Has, retry-waiting_mints}

module _ (tx_id : Bytes) (n : ℕ) where
  abbrev Still : PubChainInstance → Type 0
  Still pi = n ≤ waiting_mints tx_id pi

  requeue-Still :
      (previous : PoolInfo) (moved : Bool × Result (Unit {0})) (pi : PubChainInstance)
      → Still pi
      → Still (requeue previous moved pi)
  unfolding requeue add_pub_move_fund
  requeue-Still previous (empty, err e) pi h = h
  requeue-Still previous (true, ok _) pi h = h
  requeue-Still previous (false, ok _) pi h = h

  module _ (env : Env) (svc : JoltService) (client : EthClient) (number : ℕ) where
    latest-Still :
        (previous : PoolInfo) (pi : PubChainInstance)
        → Still pi
        → Ensures Still (move_to_latest env svc client number previous pi)
    unfolding move_to_latest
    latest-Still previous pi h = elim (Result-cases (check_whether_signer svc previous.pool_info)) [
      | inr (e, c) ↦ rw (c, move_to_latest) h
      | inl (false, c) ↦ rw (c, move_to_latest) h
      | inl (true, c) ↦ elim (Option-cases pi.last_two_pools.pool1) [
        | inl unknown ↦ rw (c, unknown, move_to_latest) tt
        | inr (latest, known) ↦
            rw (c, known, move_to_latest)
              (Ensures-last Still
                (move_pub_funds env client previous latest.eth_address (int64_of number) pi)
                (λ m. requeue previous m pi) (λ m _. requeue-Still previous m pi h))
      ]
    ]

    queue-Still :
        (pi : PubChainInstance) → Still pi → Ensures Still (move_pub_queue env svc client number pi)
    unfolding move_pub_queue pop_pub_move_fund
    queue-Still pi h =
        from_pop
          (MoveFundQueue.pop_move_fund_item_after_block (int64_of (uint64 number)) pi.move_fund_req)
          refl
      where
        from_pop :
            (out : Outcome (Option (PoolInfo × ℤ) × SyncMap ℤ PoolInfo))
            → MoveFundQueue.pop_move_fund_item_after_block
                (int64_of (uint64 number))
                pi.move_fund_req
              ≡ out
            → Ensures Still (move_pub_queue env svc client number pi)
        from_pop (done (none, m)) e = rw (e, move_pub_queue, pop_pub_move_fund) h
        from_pop (done (some entry, m)) e =
            rw (e, move_pub_queue, pop_pub_move_fund)
              (latest-Still entry.0 (record pi { move_fund_req = m }) h)
        from_pop panics e = rw (e, move_pub_queue, pop_pub_move_fund) tt
        from_pop blocked e = rw (e, move_pub_queue, pop_pub_move_fund) tt

module _ (tx_id : Bytes) (env : Env) (svc : JoltService) where
  pub pub_block_mints :
      (client : EthClient) (number : ℕ) (check_each_tx : Bytes → Result ℕ)
      (block : Result (List Transaction)) (b : Bridge)
      → IsValid b.pi.retry_inbound_req
      → Ensures
          (λ b'. held_mints tx_id b ≤ held_mints tx_id b')
          (new_pub_block env svc client number check_each_tx block b)
  unfolding new_pub_block delete_expired
  pub_block_mints client number check_each_tx block b v =
      let Q : Bridge → Type 0 = λ b'. held_mints tx_id b ≤ held_mints tx_id b' in
      let n = waiting_mints tx_id b.pi in
      Ensures-bind Q (process_new_block env check_each_tx number block b.pi) _ (λ o e.
        let (h, _) =
          subst (Ensures (λ o. Has tx_id n o.1)) e
            (block-Has tx_id n env number check_each_tx block b.pi (omega arith, v)) in
        Ensures-bind Q (retry_outbound number b.jolt_chain) _ (λ jc _.
          let expired =
            delete_expired (uint64 number) (record o.1 { current_height = int64_of number }) in
          Ensures-bind Q (move_pub_queue env svc client number expired) _ (λ pi e'.
            let still : n ≤ waiting_mints tx_id pi =
              subst (Ensures (λ pi'. n ≤ waiting_mints tx_id pi')) e'
                (queue-Still tx_id n env svc client number expired h) in
            omega (arith, still))))

  pub jolt_block_mints :
      (height : ℤ) (b : Bridge)
      → IsValid b.pi.retry_inbound_req
      → Ensures
          (λ b'. held_mints tx_id b ≤ held_mints tx_id b')
          (new_joltify_block env svc height b)
  jolt_block_mints height b v =
      let n = waiting_mints tx_id b.pi in
      jolt_block-At
        (λ chan retries checks _ _ _.
          held_mints tx_id b ≤ held_in (one_mint tx_id) chan retries checks)
        env svc height b (omega arith)
        (Ensures-map (λ pi. n ≤ waiting_mints tx_id pi) _ (retry_inbound height b.pi)
          (λ pi h. omega (arith, h)) (retry-waiting_mints tx_id n height b.pi (omega arith, v)))
