-- ===== src/Bridge/Sound/OnTransfers.antt =====
-- bridge/joltifyBridge.go: payments on the public chain and transfers on the joltify chain keep the loop's
-- invariant and do not panic.
use oppy_bridge.Common.{
  String, refl, ap, ◌∙◌, inl, inr, Option, List, [], ◌∷◌, ◌++◌, arith, ◌==◌, nat_key, string_key,
  bytes_key, Bool-cases,
}
use oppy_bridge.Common.Int.{ℤ, int_key}
use oppy_bridge.Common.Outcome.{done, Safe, Safe-bind, Returns-Safe}
use oppy_bridge.Common.Result.{Result, ok, err, Result-cases}
use oppy_bridge.External.{Bytes, Env}
use oppy_bridge.Pubchain.Sending.{EthClient, process_out_bound, check_pub_tx_status}
use oppy_bridge.Pubchain.Sending.Returns.{IsAble, out_bound-Returns}
use oppy_bridge.Joltify.State.{OutBoundReq}
use oppy_bridge.Joltify.Outbound.{Msg, check_out_bound_tx}
use oppy_bridge.Joltify.Service.{JoltService}
use oppy_bridge.Joltify.Outbound.Adds.{transaction_keeps}
use oppy_bridge.Bridge.{Bridge}
use oppy_bridge.Bridge.Requests.Cases.{handle_outbound_cases, outbound_request_cases}
use oppy_bridge.Bridge.Requests.{
  after_outbound, handle_outbound, outbound_request, outbound_checked,
}
use oppy_bridge.Bridge.Sound.{IsSound, Latest}
use oppy_bridge.Bridge.Sound.OnJoltBlock.{busy_knows}
use oppy_bridge.Bridge.Sound.OnRequests.{known-IsSound, outbound_added-IsSound}

module _ (env : Env) (svc : JoltService) (client : EthClient) (able : IsAble env client) where
  after-IsSound :
      (item : OutBoundReq) (result : Result Bytes) (b : Bridge)
      → IsSound b
      → Latest b.pi.last_two_pools
      → IsSound (after_outbound env svc client item result b)
  unfolding after_outbound
  after-IsSound item (err e) b s l = outbound_added-IsSound env item b s l
  after-IsSound item (ok tx_hash) b s l =
      known-IsSound b (record b { outbound_checks = b.outbound_checks ++ (item, tx_hash) ∷ [] }) s l
        refl refl s.inbound_valid s.outbound_valid refl refl

  handle-IsSound :
      (item : OutBoundReq) (b : Bridge)
      → IsSound b
      → Latest b.pi.last_two_pools
      → Safe IsSound (handle_outbound env svc client item b)
  handle-IsSound item b s (p, l) =
      handle_outbound_cases (Safe IsSound) env svc client item b
        (λ unknown. ground (arith, ap (λ t. t.pool1) s.lockstep, l, unknown)) (λ q known _. s)
        (λ q known _.
          Safe-bind (λ r. Unit {0}) IsSound
            (process_out_bound env client item.out_receiver_address item.from_pool_addr
              item.coin.amount item.block_height b.pi)
            (λ result. done (after_outbound env svc client item result b))
            (Returns-Safe _ (
              out_bound-Returns env client able b.pi p l item.out_receiver_address
                item.from_pool_addr item.coin.amount item.block_height))
            (λ result u. after-IsSound item result b s (p, l)))

  pub outbound-IsSound : (b : Bridge) → IsSound b → Safe IsSound (outbound_request env svc client b)
  outbound-IsSound b s = outbound_request_cases (Safe IsSound) env svc client b s (λ item rest e.
      let l = busy_knows b s (λ idle. ground (arith, idle.no_outbound_requests, e)) in
      let taken = record b { jolt_chain = record b.jolt_chain { outbound_req_chan = rest } } in
      handle-IsSound item taken
        (known-IsSound b taken s l refl refl s.inbound_valid s.outbound_valid refl refl) l)

pub outbound_checked-IsSound :
    (env : Env) (client : EthClient) (item : OutBoundReq) (tx_hash : Bytes) (b : Bridge)
    → IsSound b
    → Latest b.pi.last_two_pools
    → IsSound (outbound_checked env client (item, tx_hash) b)
unfolding outbound_checked
outbound_checked-IsSound env client item tx_hash b s l =
    elim (Result-cases (check_pub_tx_status env client tx_hash)) [
      | inl (tt, c) ↦ rw (c, outbound_checked) s
      | inr (e, c) ↦ elim (Bool-cases (e == "tx failed")) [
        | inr other ↦ rw (c, other, outbound_checked) s
        | inl failed ↦ rw (c, failed, outbound_checked) (outbound_added-IsSound env item b s l)
      ]
    ]

-- Transfers on the joltify chain only add to the retry pool.
pub transfer-IsSound :
    (env : Env) (query_account : String → Result Bytes) (height : ℤ) (tx_hash : Bytes)
    (decoded : Option (List Msg)) (b : Bridge)
    → IsSound b
    → IsSound (record b {
      jolt_chain = check_out_bound_tx env query_account height tx_hash decoded b.jolt_chain;
    })
transfer-IsSound env query_account height tx_hash decoded b s =
    transaction_keeps (λ jc. IsSound (record b { jolt_chain = jc })) env query_account height
      tx_hash decoded b.jolt_chain
      (λ p known item jc s'.
        outbound_added-IsSound env item (record b { jolt_chain = jc }) s'
          (p, ap (λ t. t.pool1) s.lockstep ∙ known))
      s
