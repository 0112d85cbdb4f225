-- ===== src/Bridge/Sound/OnRequests.antt =====
-- bridge/joltifyBridge.go: requests, the goroutines that check them and transfers on the joltify chain
-- keep the loop's invariant and do not panic.
use oppy_bridge.Common.{
  ℕ, String, ◌≡◌, refl, sym, ap, ◌∙◌, subst, inl, inr, Option, [], ◌∷◌, ◌++◌, arith, nat_key,
  string_key, bytes_key,
}
use oppy_bridge.Common.Int.{int_key}
use oppy_bridge.Common.Outcome.{done, Safe, Safe-bind, Returns-Safe}
use oppy_bridge.Common.Result.{Result, ok, err, Result-cases}
use oppy_bridge.External.{Env}
use oppy_bridge.RetryPool.Max.{IsValid, add_item_appends}
use oppy_bridge.SyncMap.Distinct.{IsDistinct}
use oppy_bridge.Pubchain.State.{InboundReq, add_inbound_item, inbound_hash}
use oppy_bridge.Joltify.State.{OutBoundReq, add_outbound_item, outbound_hash}
use oppy_bridge.Joltify.Service.{JoltService, process_inbound, check_jolt_tx_status}
use oppy_bridge.Bridge.{Bridge}
use oppy_bridge.Bridge.Requests.Cases.{handle_inbound_cases, inbound_request_cases}
use oppy_bridge.Bridge.Requests.{after_inbound, handle_inbound, inbound_request, inbound_checked}
use oppy_bridge.Bridge.Sound.{IsSound, Latest}
use oppy_bridge.Bridge.Sound.OnJoltBlock.{busy_knows}
use oppy_bridge.Joltify.Service.Returns.{process-Returns}
use oppy_bridge.Joltify.Signing.Returns.{IsReady}

-- Where a pool is known, all that the invariant asks for is this.
pub known-IsSound :
    (b b' : Bridge)
    → IsSound b
    → Latest b.pi.last_two_pools
    → b'.pi.last_two_pools ≡ b.pi.last_two_pools
    → b'.jolt_chain.last_two_pools ≡ b.jolt_chain.last_two_pools
    → IsValid b'.pi.retry_inbound_req
    → IsValid b'.jolt_chain.retry_outbound_req
    → b'.pi.move_fund_req ≡ b.pi.move_fund_req
    → b'.jolt_chain.move_fund_req ≡ b.jolt_chain.move_fund_req
    → IsSound b'
known-IsSound b b' s (p, l) e j v w m k = record {
  lockstep = e ∙ s.lockstep ∙ sym j;
  inbound_valid = v;
  outbound_valid = w;
  moves_distinct = subst IsDistinct (sym m) s.moves_distinct;
  jolt_moves_distinct = subst IsDistinct (sym k) s.jolt_moves_distinct;
  known = inl (p, ap (λ t. t.pool1) e ∙ l);
}

module _ (env : Env) where
  pub inbound_added-IsSound :
      (item : InboundReq) (b : Bridge)
      → IsSound b
      → Latest b.pi.last_two_pools
      → IsSound (record b { pi = add_inbound_item env item b.pi })
  unfolding add_inbound_item
  inbound_added-IsSound item b s l =
      known-IsSound b (record b { pi = add_inbound_item env item b.pi }) s l refl refl
        (add_item_appends (inbound_hash env item) item b.pi.retry_inbound_req s.inbound_valid).2
        s.outbound_valid refl refl

  pub outbound_added-IsSound :
      (item : OutBoundReq) (b : Bridge)
      → IsSound b
      → Latest b.pi.last_two_pools
      → IsSound (record b { jolt_chain = add_outbound_item env item b.jolt_chain })
  unfolding add_outbound_item
  outbound_added-IsSound item b s l =
      known-IsSound b (record b { jolt_chain = add_outbound_item env item b.jolt_chain }) s l refl
        refl s.inbound_valid
        (add_item_appends (outbound_hash env item) item b.jolt_chain.retry_outbound_req
          s.outbound_valid).2
        refl refl

  module _ (svc : JoltService) where
    after-IsSound :
        (item : InboundReq) (result : Result (String × Option ℕ)) (b : Bridge)
        → IsSound b
        → Latest b.pi.last_two_pools
        → IsSound (after_inbound env svc item result b)
    unfolding after_inbound
    after-IsSound item (err e) b s l = inbound_added-IsSound item b s l
    after-IsSound item (ok (tx_hash, index)) b s l =
        known-IsSound b (record b { inbound_checks = b.inbound_checks ++ (item, index) ∷ [] }) s l
          refl refl s.inbound_valid s.outbound_valid refl refl

    handle-IsSound :
        (ready : IsReady env svc.cosmos) (item : InboundReq) (b : Bridge)
        → IsSound b
        → Latest b.pi.last_two_pools
        → Safe IsSound (handle_inbound env svc item b)
    handle-IsSound ready item b s (p, l) =
        handle_inbound_cases (Safe IsSound) env svc item b
          (λ unknown. ground (arith, ap (λ t. t.pool1) s.lockstep, l, unknown)) (λ q known _. s)
          (λ q known _.
            Safe-bind (λ a. Unit {0}) IsSound (process_inbound svc env item b.jolt_chain)
              (λ result. done (after_inbound env svc item result b))
              (Returns-Safe _ (process-Returns env svc ready item b.jolt_chain q known))
              (λ result u. after-IsSound item result b s (p, l)))

    pub inbound-IsSound :
        IsReady env svc.cosmos → (b : Bridge) → IsSound b → Safe IsSound (inbound_request env svc b)
    inbound-IsSound ready b s = inbound_request_cases (Safe IsSound) env svc b s (λ item rest e.
        let l = busy_knows b s (λ idle. ground (arith, idle.no_requests, e)) in
        let taken = record b { pi = record b.pi { inbound_req_chan = rest } } in
        handle-IsSound ready item taken
          (known-IsSound b taken s l refl refl s.inbound_valid s.outbound_valid refl refl) l)

    pub inbound_checked-IsSound :
        (item : InboundReq) (index : Option ℕ) (b : Bridge)
        → IsSound b
        → Latest b.pi.last_two_pools
        → IsSound (inbound_checked env svc (item, index) b)
    unfolding inbound_checked
    inbound_checked-IsSound item index b s l =
        elim (Result-cases (check_jolt_tx_status svc index)) [
          | inr (e, c) ↦ rw (c, inbound_checked) (inbound_added-IsSound item b s l)
          | inl (tt, c) ↦ rw (c, inbound_checked) s
        ]
