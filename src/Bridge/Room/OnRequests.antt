-- ===== src/Bridge/Room/OnRequests.antt =====
-- bridge/joltifyBridge.go: the cases of the two channels of requests never block.
use oppy_bridge.Common.{◌≡◌, ap, ◌∙◌, nat_key, string_key, bytes_key}
use oppy_bridge.Common.Outcome.{done}
use oppy_bridge.External.{Env}
use oppy_bridge.Pubchain.Sending.{EthClient, process_out_bound}
use oppy_bridge.Pubchain.Sending.Returns.{IsAble, out_bound-Returns}
use oppy_bridge.Joltify.Service.{JoltService, process_inbound}
use oppy_bridge.Joltify.Service.Returns.{process-Returns}
use oppy_bridge.Joltify.Signing.Returns.{IsReady}
use oppy_bridge.Bridge.{Bridge}
use oppy_bridge.Bridge.Requests.Cases.{
  handle_inbound_cases, inbound_request_cases, handle_outbound_cases, outbound_request_cases,
}
use oppy_bridge.Bridge.Requests.{after_inbound, inbound_request, after_outbound, outbound_request}
use oppy_bridge.Bridge.Room.{Open, Open-bind, Returns-Open}

module _ (env : Env) (svc : JoltService) (ready : IsReady env svc.cosmos) where
  pub inbound-Open : (b : Bridge) → Open (inbound_request env svc b)
  inbound-Open b = inbound_request_cases Open env svc b tt (λ item rest _.
      let taken = record b { pi = record b.pi { inbound_req_chan = rest } } in
      handle_inbound_cases Open env svc item taken (λ _. tt) (λ p _ _. tt)
        (λ p known _.
          let result = process_inbound svc env item b.jolt_chain in
          Open-bind result (λ r. done (after_inbound env svc item r taken))
            (Returns-Open result (process-Returns env svc ready item b.jolt_chain p known))
            (λ r _. tt)))

module _ (env : Env) (svc : JoltService) (client : EthClient) (able : IsAble env client) where
  pub outbound-Open :
      (b : Bridge)
      → b.pi.last_two_pools ≡ b.jolt_chain.last_two_pools
      → Open (outbound_request env svc client b)
  outbound-Open b same = outbound_request_cases Open env svc client b tt (λ item rest _.
      let taken = record b { jolt_chain = record b.jolt_chain { outbound_req_chan = rest } } in
      handle_outbound_cases Open env svc client item taken (λ _. tt) (λ p _ _. tt)
        (λ p known _.
          let sent =
            process_out_bound env client item.out_receiver_address item.from_pool_addr
              item.coin.amount item.block_height b.pi in
          Open-bind sent (λ result. done (after_outbound env svc client item result taken))
            (Returns-Open sent (
              out_bound-Returns env client able b.pi p (ap (λ t. t.pool1) same ∙ known)
                item.out_receiver_address item.from_pool_addr item.coin.amount item.block_height))
            (λ result _. tt)))
