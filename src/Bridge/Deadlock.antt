-- ===== src/Bridge/Deadlock.antt =====
-- bridge/joltifyBridge.go: the loop sends on the channels of which it is the only receiver.
use oppy_bridge.Common.{
  String, Bool, ◌≤◌, ◌<◌, ◌≡◌, ap, ◌∙◌, ◌⊎◌, inl, inr, some, [], ◌∷◌, ◌++◌, arith, ltb, nat_key,
  string_key, bytes_key, Bool-cases, length,
}
use oppy_bridge.Common.Int.{ℤ}
use oppy_bridge.Common.Outcome.{done, blocked, ◌>>=◌}
use oppy_bridge.Common.Result.{ok}
use oppy_bridge.Config.{req_cache_size}
use oppy_bridge.External.{VaultPool, Env}
use oppy_bridge.RetryPool
use oppy_bridge.RetryPool.{RetryPool}
use oppy_bridge.Pubchain.State.{
  InboundReq, PubChainInstance, set_item_height, pop_inbound_item, send_inbound,
}
use oppy_bridge.Joltify.Service.{JoltService}
use oppy_bridge.Joltify.Membership.{Membership, check_and_update_pool}
use oppy_bridge.Bridge.{Bridge}
use oppy_bridge.Bridge.JoltBlock.{
  retry_inbound, follow_pools, with_pools, follow_block, new_joltify_block,
}
use oppy_bridge.Bridge.Sound.OnJoltBlock.{pools_known}
use oppy_bridge.Pubchain.Inbound.Branches.{send_with_room}

send_full :
    (req : InboundReq) (pi : PubChainInstance)
    → req_cache_size ≤ length pi.inbound_req_chan
    → send_inbound req pi ≡ blocked
unfolding send_inbound
send_full req pi h = ground arith

retry_full :
    (height : ℤ) (pi : PubChainInstance) (item : InboundReq) (p' : RetryPool InboundReq)
    → RetryPool.pop_item pi.retry_inbound_req ≡ done (some item, p')
    → req_cache_size ≤ length pi.inbound_req_chan
    → retry_inbound height pi ≡ blocked
unfolding retry_inbound pop_inbound_item
retry_full height pi item p' e h =
    rw (retry_inbound, pop_inbound_item, e)
      (send_full (set_item_height height item) (record pi { retry_inbound_req = p' }) h)

retry_room :
    (height : ℤ) (pi : PubChainInstance) (item : InboundReq) (p' : RetryPool InboundReq)
    → RetryPool.pop_item pi.retry_inbound_req ≡ done (some item, p')
    → length pi.inbound_req_chan < req_cache_size
    → retry_inbound height pi
      ≡ done (record pi {
        retry_inbound_req = p';
        inbound_req_chan = pi.inbound_req_chan ++ set_item_height height item ∷ [];
      })
unfolding retry_inbound pop_inbound_item
retry_room height pi item p' e h =
    rw (retry_inbound, pop_inbound_item, e)
      (send_with_room (set_item_height height item) (record pi { retry_inbound_req = p' }) h)

-- At a block of the joltify chain, where CheckAndUpdatePool returns, the query gives two pools and the
-- retry pool gives a request: while InboundReqChan is full, the loop blocks for ever, since the send waits for the loop that makes it;
-- with room for one request, the block goes on to the pools.
pub full_channel_deadlocks :
    (env : Env) (svc : JoltService) (height : ℤ) (b : Bridge) (q0 q1 : VaultPool)
    (item : InboundReq) (p' : RetryPool InboundReq) (r : Bool × String) (members : Membership)
    → check_and_update_pool env svc.cosmos height b.membership ≡ done (r, members)
    → svc.last_pools ≡ ok (q0 ∷ q1 ∷ [])
    → RetryPool.pop_item b.pi.retry_inbound_req ≡ done (some item, p')
    → ((req_cache_size ≤ length b.pi.inbound_req_chan)
        × (new_joltify_block env svc height b ≡ blocked))
      ⊎ ((length b.pi.inbound_req_chan < req_cache_size)
          × (new_joltify_block env svc height b
              ≡ follow_pools env svc height q0 q1 (record b {
                pi = record b.pi {
                  retry_inbound_req = p';
                  inbound_req_chan = b.pi.inbound_req_chan ++ set_item_height height item ∷ [];
                };
                jolt_chain = record b.jolt_chain { current_height = height };
                membership = members;
              })))
unfolding with_pools new_joltify_block
full_channel_deadlocks env svc height b q0 q1 item p' r members c q e =
    let checked = record b { membership = members } in
    let at = record checked { jolt_chain = record b.jolt_chain { current_height = height } } in
    let asked =
      ap (λ out. out >>= λ o. follow_block env svc height (record b { membership = o.1 })) c
      ∙ pools_known env svc height checked (q0 ∷ q1 ∷ []) q in
    elim (Bool-cases (ltb (length b.pi.inbound_req_chan) req_cache_size)) [
      | inr full ↦ inl (
        ground arith,
        asked
            ∙ ap (λ out. out >>= (λ pi. follow_pools env svc height q0 q1 (record at { pi = pi })))
                (retry_full height b.pi item p' e (ground arith)),
      )
      | inl room ↦ inr (
        ground arith,
        asked
            ∙ ap (λ out. out >>= (λ pi. follow_pools env svc height q0 q1 (record at { pi = pi })))
                (retry_room height b.pi item p' e (ground arith)),
      )
    ]
