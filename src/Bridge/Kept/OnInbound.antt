-- ===== src/Bridge/Kept/OnInbound.antt =====
-- bridge/joltifyBridge.go: the case of InboundReqChan and the goroutines that it starts leave the
-- transfers to the public chain alone.
use oppy_bridge.Common.{
  ℕ, ◌≤◌, String, inl, inr, Option, List, ◌++◌, nat_key, string_key, bytes_key,
}
use oppy_bridge.Common.Outcome.{Ensures, Ensures-last}
use oppy_bridge.Common.Result.{Result, ok, err, Result-cases}
use oppy_bridge.External.{Bytes, Env}
use oppy_bridge.Pubchain.State.{InboundReq}
use oppy_bridge.Joltify.Service.{JoltService, process_inbound, check_jolt_tx_status}
use oppy_bridge.Bridge.{Bridge}
use oppy_bridge.Bridge.Requests.Cases.{handle_inbound_cases, inbound_request_cases}
use oppy_bridge.Bridge.Requests.{after_inbound, inbound_request, inbound_checked}
use oppy_bridge.Bridge.Kept.{held}

module _ (tx_id : Bytes) (n : ℕ) (env : Env) (svc : JoltService) where
  after_inbound_kept :
      (item : InboundReq) (result : Result (String × Option ℕ)) (b : Bridge)
      → n ≤ held tx_id b
      → n ≤ held tx_id (after_inbound env svc item result b)
  unfolding after_inbound
  after_inbound_kept item (err e) b p = p
  after_inbound_kept item (ok (tx_hash, index)) b p = p

  pub inbound_kept :
      (b : Bridge)
      → n ≤ held tx_id b
      → Ensures (λ b'. n ≤ held tx_id b') (inbound_request env svc b)
  inbound_kept b p =
      let Q : Bridge → Type 0 = λ b'. n ≤ held tx_id b' in
      inbound_request_cases (Ensures Q) env svc b p (λ item rest _.
        let taken = record b { pi = record b.pi { inbound_req_chan = rest } } in
        handle_inbound_cases (Ensures Q) env svc item taken (λ _. tt) (λ _ _ _. p)
          (λ _ _ _.
            Ensures-last Q (process_inbound svc env item b.jolt_chain)
              (λ result. after_inbound env svc item result taken)
              (λ result _. after_inbound_kept item result taken p)))

  pub inbound_checked_kept :
      (before after : List (InboundReq × Option ℕ)) (check : InboundReq × Option ℕ) (b : Bridge)
      → n ≤ held tx_id b
      → n
        ≤ held tx_id (inbound_checked env svc check (record b { inbound_checks = before ++ after }))
  unfolding inbound_checked
  inbound_checked_kept before after (item, index) b p =
      elim (Result-cases (check_jolt_tx_status svc index)) [
        | inr (e, c) ↦ rw (c, inbound_checked) p
        | inl (u, c) ↦ rw (c, inbound_checked) p
      ]
