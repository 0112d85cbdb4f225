-- ===== src/Bridge/Room/OnPubBlock.antt =====
-- bridge/joltifyBridge.go: when a block of the public chain does not block the loop.
use oppy_bridge.Common.{
  ℕ, ◌≡◌, refl, inl, inr, true, false, Option, none, some, List, ◌+◌, ◌≤◌, ◌<◌, length,
  Option-cases, lt→ltb,
}
use oppy_bridge.Common.Int.{ℤ, int64_of}
use oppy_bridge.Common.Outcome.{Outcome, done, panics, blocked}
use oppy_bridge.Common.Result.{Result, ok, err, Result-cases}
use oppy_bridge.Config.{req_cache_size}
use oppy_bridge.External.{Bytes, Transaction, Env}
use oppy_bridge.Misc.BigInt.{uint64}
use oppy_bridge.Pool.{PoolInfo}
use oppy_bridge.RetryPool
use oppy_bridge.RetryPool.{RetryPool}
use oppy_bridge.MoveFundQueue
use oppy_bridge.SyncMap.{SyncMap}
use oppy_bridge.Pubchain.State.{PubChainInstance, pop_pub_move_fund}
use oppy_bridge.Pubchain.Blocks.{process_new_block, delete_expired}
use oppy_bridge.Pubchain.Blocks.Room.{process_each_block_returns}
use oppy_bridge.Pubchain.Sending.{EthClient, move_pub_funds}
use oppy_bridge.Pubchain.Sending.Returns.{IsAble, funds-Returns}
use oppy_bridge.Joltify.State.{
  JoltifyChainInstance, OutBoundReq, set_outbound_height, pop_outbound_item, send_outbound,
}
use oppy_bridge.Joltify.Service.{JoltService, check_whether_signer}
use oppy_bridge.Bridge.{Bridge}
use oppy_bridge.Bridge.PubBlock.{
  retry_outbound, requeue, move_to_latest, move_pub_queue, new_pub_block,
}
use oppy_bridge.Bridge.Sound.OnPubBlock.{BlockFits}
use oppy_bridge.Bridge.Room.{Open, Open-bind, Returns-Open, pop_item-Open, pop_after_block-Open}

-- Every transaction of a block has room in the channel.
abbrev pub BlockHasRoom : Result (List Transaction) → PubChainInstance → Type 0
BlockHasRoom (ok txs) pi = length pi.inbound_req_chan + length txs ≤ req_cache_size
BlockHasRoom (err e) pi = Unit {0}

process-Open :
    (env : Env) (number : ℕ) (check_each_tx : Bytes → Result ℕ) (block : Result (List Transaction))
    (pi : PubChainInstance)
    → BlockFits env block pi
    → BlockHasRoom block pi
    → Open (process_new_block env check_each_tx number block pi)
unfolding process_new_block
process-Open env number check_each_tx (err e) pi fits room = tt
process-Open env number check_each_tx (ok txs) pi fits room =
    let (pi', returned, _) =
      process_each_block_returns env check_each_tx number txs pi fits.0 fits.1 room in
    rw returned tt

send-Open :
    (req : OutBoundReq) (jc : JoltifyChainInstance)
    → length jc.outbound_req_chan < req_cache_size
    → Open (send_outbound req jc)
unfolding send_outbound
send-Open req jc room =
    rw (lt→ltb (length jc.outbound_req_chan) req_cache_size room, send_outbound) tt

retry-Open :
    (number : ℕ) (jc : JoltifyChainInstance)
    → length jc.outbound_req_chan < req_cache_size
    → Open (retry_outbound number jc)
unfolding retry_outbound pop_outbound_item
retry-Open number jc room =
    from_pop (RetryPool.pop_item jc.retry_outbound_req) refl (pop_item-Open jc.retry_outbound_req)
  where
    from_pop :
        (out : Outcome (Option OutBoundReq × RetryPool OutBoundReq))
        → RetryPool.pop_item jc.retry_outbound_req ≡ out
        → Open out
        → Open (retry_outbound number jc)
    from_pop (done (none, p)) e o = rw (e, retry_outbound, pop_outbound_item) tt
    from_pop (done (some req, p)) e o =
        rw (e, retry_outbound, pop_outbound_item)
          (send-Open (set_outbound_height (int64_of number) req)
            (record jc { retry_outbound_req = p }) room)
    from_pop panics e o = rw (e, retry_outbound, pop_outbound_item) tt
    from_pop blocked e o = absurd o

module _ (env : Env) (svc : JoltService) (client : EthClient) (able : IsAble env client)
    (number : ℕ) where
  latest-Open :
      (previous : PoolInfo) (pi : PubChainInstance)
      → Open (move_to_latest env svc client number previous pi)
  unfolding move_to_latest
  latest-Open previous pi = elim (Result-cases (check_whether_signer svc previous.pool_info)) [
    | inr (e, c) ↦ rw (c, move_to_latest) tt
    | inl (false, c) ↦ rw (c, move_to_latest) tt
    | inl (true, c) ↦ elim (Option-cases pi.last_two_pools.pool1) [
      | inl unknown ↦ rw (c, unknown, move_to_latest) tt
      | inr (latest, known) ↦
          let moved = move_pub_funds env client previous latest.eth_address (int64_of number) pi in
          rw (c, known, move_to_latest)
            (Open-bind moved (λ m. done (requeue previous m pi))
              (Returns-Open moved (
                funds-Returns env client able pi latest known previous latest.eth_address
                  (int64_of number)))
              (λ m _. tt))
    ]
  ]

  queue-Open : (pi : PubChainInstance) → Open (move_pub_queue env svc client number pi)
  unfolding move_pub_queue pop_pub_move_fund
  queue-Open pi =
      from_pop
        (MoveFundQueue.pop_move_fund_item_after_block (int64_of (uint64 number)) pi.move_fund_req)
        refl (pop_after_block-Open (int64_of (uint64 number)) pi.move_fund_req)
    where
      from_pop :
          (out : Outcome (Option (PoolInfo × ℤ) × SyncMap ℤ PoolInfo))
          → MoveFundQueue.pop_move_fund_item_after_block (int64_of (uint64 number)) pi.move_fund_req
            ≡ out
          → Open out
          → Open (move_pub_queue env svc client number pi)
      from_pop (done (none, m)) e o = rw (e, move_pub_queue, pop_pub_move_fund) tt
      from_pop (done (some entry, m)) e o =
          rw (e, move_pub_queue, pop_pub_move_fund)
            (latest-Open entry.0 (record pi { move_fund_req = m }))
      from_pop panics e o = rw (e, move_pub_queue, pop_pub_move_fund) tt
      from_pop blocked e o = absurd o

  pub pub_block-Open :
      (check_each_tx : Bytes → Result ℕ) (block : Result (List Transaction)) (b : Bridge)
      → BlockFits env block b.pi
      → BlockHasRoom block b.pi
      → length b.jolt_chain.outbound_req_chan < req_cache_size
      → Open (new_pub_block env svc client number check_each_tx block b)
  unfolding new_pub_block
  pub_block-Open check_each_tx block b fits room out_room =
      Open-bind (process_new_block env check_each_tx number block b.pi) _
        (process-Open env number check_each_tx block b.pi fits room)
        (λ o _.
          Open-bind (retry_outbound number b.jolt_chain) _ (retry-Open number b.jolt_chain out_room)
            (λ jc _.
              Open-bind
                (move_pub_queue env svc client number (
                  delete_expired (uint64 number) (record o.1 { current_height = int64_of number })))
                _
                (queue-Open (
                  delete_expired (uint64 number) (record o.1 { current_height = int64_of number })))
                (λ pi _. tt)))
