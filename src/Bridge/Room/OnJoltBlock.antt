-- ===== src/Bridge/Room/OnJoltBlock.antt =====
-- bridge/joltifyBridge.go: when a block of the joltify chain does not block the loop.
use oppy_bridge.Common.{
  ◌≡◌, refl, sym, subst, inl, inr, Bool, true, false, Option, none, some, List, [], ◌∷◌, ◌<◌,
  length, Option-cases, Bool-cases, ◌==◌, string_key,
}
use oppy_bridge.Common.Int.{ℤ}
use oppy_bridge.Common.Outcome.{Outcome, done, panics, blocked}
use oppy_bridge.Common.Result.{Result-cases}
use oppy_bridge.Config.{req_cache_size}
use oppy_bridge.External.{VaultPool, Env}
use oppy_bridge.Pool.{PoolInfo, TwoPools}
use oppy_bridge.RetryPool
use oppy_bridge.RetryPool.{RetryPool}
use oppy_bridge.MoveFundQueue
use oppy_bridge.SyncMap.{SyncMap}
use oppy_bridge.Pubchain.State.{InboundReq, PubChainInstance, set_item_height, pop_inbound_item}
use oppy_bridge.Pubchain.Inbound.Branches.{send_with_room}
use oppy_bridge.Joltify.State.{pop_jolt_move_fund, update_jolt_pool}
use oppy_bridge.Joltify.Service.{JoltService, check_whether_signer, move_jolt_funds}
use oppy_bridge.Joltify.Service.Returns.{funds-Returns}
use oppy_bridge.Joltify.Signing.Returns.{IsReady}
use oppy_bridge.Joltify.Membership.{check_and_update_pool}
use oppy_bridge.Joltify.Membership.Returns.{check-Returns}
use oppy_bridge.Bridge.{Bridge, need_update, compare_pools, jolt_address_of}
use oppy_bridge.Bridge.JoltBlock.{
  retry_inbound, retire, update_both, rotate, requeue_jolt, move_retired, move_jolt_queue,
  follow_pools, with_pools, follow_block, new_joltify_block,
}
use oppy_bridge.Bridge.Sound.OnJoltBlock.{pools_unknown, pools_known}
use oppy_bridge.Bridge.Room.{Open, Open-bind, Returns-Open, pop_item-Open, pop_after_block-Open}

retry-Open :
    (height : ℤ) (pi : PubChainInstance)
    → length pi.inbound_req_chan < req_cache_size
    → Open (retry_inbound height pi)
unfolding retry_inbound pop_inbound_item
retry-Open height pi room =
    from_pop (RetryPool.pop_item pi.retry_inbound_req) refl (pop_item-Open pi.retry_inbound_req)
  where
    from_pop :
        (out : Outcome (Option InboundReq × RetryPool InboundReq))
        → RetryPool.pop_item pi.retry_inbound_req ≡ out
        → Open out
        → Open (retry_inbound height pi)
    from_pop (done (none, p)) e o = rw (e, retry_inbound, pop_inbound_item) tt
    from_pop (done (some req, p)) e o =
        rw (e, retry_inbound, pop_inbound_item)
          (subst Open
            (sym (
              send_with_room (set_item_height height req) (record pi { retry_inbound_req = p })
                room))
            tt)
    from_pop panics e o = rw (e, retry_inbound, pop_inbound_item) tt
    from_pop blocked e o = absurd o

compare-Open :
    (env : Env) (cur0 cur1 : PoolInfo) (pools : List VaultPool)
    → Open (compare_pools env cur0 cur1 pools)
unfolding compare_pools
compare-Open env cur0 cur1 [] = tt
compare-Open env cur0 cur1 (q0 ∷ []) = elim (Result-cases (jolt_address_of env q0.pool_pub_key)) [
  | inr (e, a) ↦ rw (a, compare_pools) tt
  | inl (addr, a) ↦ rw (a, compare_pools) tt
]
compare-Open env cur0 cur1 (q0 ∷ q1 ∷ l) =
    elim (Result-cases (jolt_address_of env q0.pool_pub_key)) [
      | inr (e, a) ↦ rw (a, compare_pools) tt
      | inl (addr0, a) ↦ elim (Result-cases (jolt_address_of env q1.pool_pub_key)) [
        | inr (e, c) ↦ rw (a, c, compare_pools) tt
        | inl (addr1, c) ↦ rw (a, c, compare_pools) tt
      ]
    ]

need-Open : (env : Env) (pools : List VaultPool) (cur : TwoPools) → Open (need_update env pools cur)
unfolding need_update
need-Open env pools cur = elim (Option-cases cur.pool0) [
  | inl n ↦ rw (n, need_update) tt
  | inr (cur0, n) ↦ elim (Option-cases cur.pool1) [
    | inl k ↦ rw (n, k, need_update) tt
    | inr (cur1, k) ↦ rw (n, k, need_update) (compare-Open env cur0 cur1 pools)
  ]
]

retire-Open :
    (height : ℤ) (latest : VaultPool) (previous : Option PoolInfo) (b : Bridge)
    → Open (retire height latest previous b)
unfolding retire
retire-Open height latest none b = tt
retire-Open height latest (some previous) b =
    elim (Bool-cases (previous.pk == latest.pool_pub_key)) [
      | inl same ↦ rw (same, retire) tt
      | inr other ↦ rw (other, retire) tt
    ]

rotate-Open :
    (env : Env) (height : ℤ) (latest : VaultPool) (need : Bool) (b : Bridge)
    → Open (rotate env height latest need b)
unfolding rotate
rotate-Open env height latest false b = tt
rotate-Open env height latest true b =
    retire-Open height latest (update_jolt_pool env latest b.jolt_chain).0
      (update_both env latest b)

module _ (env : Env) (svc : JoltService) (ready : IsReady env svc.cosmos) (height : ℤ) where
  retired-Open :
      (latest : VaultPool) (previous : PoolInfo) (b : Bridge)
      → Open (move_retired env svc height latest previous b)
  unfolding move_retired
  retired-Open latest previous b =
      elim (Result-cases (check_whether_signer svc previous.pool_info)) [
        | inr (e, c) ↦ rw (c, move_retired) tt
        | inl (false, c) ↦ rw (c, move_retired) tt
        | inl (true, c) ↦
            let moved = move_jolt_funds svc env previous latest.pool_addr height in
            rw (c, move_retired)
              (Open-bind moved (λ m. done (requeue_jolt height previous m b))
                (Returns-Open moved (funds-Returns env svc ready previous latest.pool_addr height))
                (λ m _. tt))
      ]

  queue-Open : (latest : VaultPool) (b : Bridge) → Open (move_jolt_queue env svc height latest b)
  unfolding move_jolt_queue pop_jolt_move_fund
  queue-Open latest b =
      from_pop (MoveFundQueue.pop_move_fund_item_after_block height b.jolt_chain.move_fund_req) refl
        (pop_after_block-Open height b.jolt_chain.move_fund_req)
    where
      from_pop :
          (out : Outcome (Option (PoolInfo × ℤ) × SyncMap ℤ PoolInfo))
          → MoveFundQueue.pop_move_fund_item_after_block height b.jolt_chain.move_fund_req ≡ out
          → Open out
          → Open (move_jolt_queue env svc height latest b)
      from_pop (done (none, m)) e o = rw (e, move_jolt_queue, pop_jolt_move_fund) tt
      from_pop (done (some entry, m)) e o =
          rw (e, move_jolt_queue, pop_jolt_move_fund)
            (retired-Open latest entry.0
              (record b { jolt_chain = record b.jolt_chain { move_fund_req = m } }))
      from_pop panics e o = rw (e, move_jolt_queue, pop_jolt_move_fund) tt
      from_pop blocked e o = absurd o

  follow-Open : (q0 q1 : VaultPool) (b : Bridge) → Open (follow_pools env svc height q0 q1 b)
  unfolding follow_pools
  follow-Open q0 q1 b = elim (Option-cases b.pi.last_two_pools.pool0) [
    | inl unknown ↦ rw (unknown, follow_pools) tt
    | inr (cur0, known) ↦
        rw (known, follow_pools)
          (Open-bind (need_update env (q0 ∷ q1 ∷ []) b.pi.last_two_pools) _
            (need-Open env (q0 ∷ q1 ∷ []) b.pi.last_two_pools)
            (λ need _.
              Open-bind (rotate env height q0 need b) _ (rotate-Open env height q0 need b)
                (λ rotated _. queue-Open q0 rotated)))
  ]

  with-Open :
      (pools : List VaultPool) (b : Bridge)
      → length b.pi.inbound_req_chan < req_cache_size
      → Open (with_pools env svc height pools b)
  unfolding with_pools
  with-Open [] b room = tt
  with-Open (q0 ∷ []) b room = tt
  with-Open (q0 ∷ q1 ∷ []) b room =
      Open-bind (retry_inbound height b.pi) _ (retry-Open height b.pi room)
        (λ pi _. follow-Open q0 q1 (record b { pi = pi }))
  with-Open (q0 ∷ q1 ∷ q2 ∷ l) b room = tt

  block-Open :
      (b : Bridge)
      → length b.pi.inbound_req_chan < req_cache_size
      → Open (follow_block env svc height b)
  block-Open b room = elim (Result-cases svc.last_pools) [
    | inr (e, q) ↦ subst Open (sym (pools_unknown env svc height b e q)) tt
    | inl (pools, q) ↦ subst Open (sym (pools_known env svc height b pools q)) (
        with-Open pools (record b { jolt_chain = record b.jolt_chain { current_height = height } })
          room)
  ]

  pub jolt_block-Open :
      (b : Bridge)
      → length b.pi.inbound_req_chan < req_cache_size
      → Open (new_joltify_block env svc height b)
  unfolding new_joltify_block
  jolt_block-Open b room =
      let checked = check_and_update_pool env svc.cosmos height b.membership in
      Open-bind checked _
        (Returns-Open checked (check-Returns env svc.cosmos ready height b.membership))
        (λ o _. block-Open (record b { membership = o.1 }) room)
