-- ===== src/Bridge/Kept/Mints/OnOutbound.antt =====
-- bridge/joltifyBridge.go: transfers to the public chain leave the requests to mint alone.
use oppy_bridge.Common.{
  ℕ, ◌≤◌, String, inl, inr, Option, List, ◌++◌, ◌==◌, nat_key, string_key, bytes_key, Bool-cases,
}
use oppy_bridge.Common.Int.{ℤ}
use oppy_bridge.Common.Outcome.{Ensures, Ensures-last}
use oppy_bridge.Common.Result.{Result, ok, err, Result-cases}
use oppy_bridge.External.{Bytes, Env}
use oppy_bridge.Pubchain.Sending.{EthClient, process_out_bound, check_pub_tx_status}
use oppy_bridge.Joltify.State.{OutBoundReq}
use oppy_bridge.Joltify.Outbound.{Msg}
use oppy_bridge.Joltify.Service.{JoltService}
use oppy_bridge.Bridge.{Bridge}
use oppy_bridge.Bridge.Requests.Cases.{handle_outbound_cases, outbound_request_cases}
use oppy_bridge.Bridge.Requests.{after_outbound, outbound_request, outbound_checked}
use oppy_bridge.Bridge.Loop.{joltify_tx}
use oppy_bridge.Bridge.Kept.{held_mints}

module _ (tx_id : Bytes) (n : ℕ) (env : Env) where
  pub transfer_mints :
      (query_account : String → Result Bytes) (height : ℤ) (code : ℕ) (tx_hash : Bytes)
      (decoded : Option (List Msg)) (b : Bridge)
      → n ≤ held_mints tx_id b
      → n ≤ held_mints tx_id (joltify_tx env query_account code height tx_hash decoded b)
  unfolding joltify_tx
  transfer_mints query_account height code tx_hash decoded b h = elim (Bool-cases (code == 0)) [
    | inl z ↦ rw (z, joltify_tx) h
    | inr nz ↦ rw (nz, joltify_tx) h
  ]

  module _ (svc : JoltService) (client : EthClient) where
    after_mints :
        (item : OutBoundReq) (result : Result Bytes) (b : Bridge)
        → n ≤ held_mints tx_id b
        → n ≤ held_mints tx_id (after_outbound env svc client item result b)
    unfolding after_outbound
    after_mints item (err e) b h = h
    after_mints item (ok tx_hash) b h = h

    pub outbound_mints :
        (b : Bridge)
        → n ≤ held_mints tx_id b
        → Ensures (λ b'. n ≤ held_mints tx_id b') (outbound_request env svc client b)
    outbound_mints b h =
        let Q : Bridge → Type 0 = λ b'. n ≤ held_mints tx_id b' in
        outbound_request_cases (Ensures Q) env svc client b h (λ item rest _.
          let taken = record b { jolt_chain = record b.jolt_chain { outbound_req_chan = rest } } in
          handle_outbound_cases (Ensures Q) env svc client item taken (λ _. tt) (λ _ _ _. h)
            (λ _ _ _.
              Ensures-last Q
                (process_out_bound env client item.out_receiver_address item.from_pool_addr
                  item.coin.amount item.block_height b.pi)
                (λ result. after_outbound env svc client item result taken)
                (λ result _. after_mints item result taken h)))

  pub outbound_checked_mints :
      (client : EthClient) (before after : List (OutBoundReq × Bytes)) (check : OutBoundReq × Bytes)
      (b : Bridge)
      → n ≤ held_mints tx_id b
      → n
        ≤ held_mints tx_id
            (outbound_checked env client check (record b { outbound_checks = before ++ after }))
  unfolding outbound_checked
  outbound_checked_mints client before after (item, tx_hash) b h =
      elim (Result-cases (check_pub_tx_status env client tx_hash)) [
        | inl (u, c) ↦ rw (c, outbound_checked) h
        | inr (t, c) ↦ elim (Bool-cases (t == "tx failed")) [
          | inr differs ↦ rw (c, differs, outbound_checked) h
          | inl failed ↦ rw (c, failed, outbound_checked) h
        ]
      ]
