-- ===== src/Bridge/Kept/OnTransfers.antt =====
-- joltifybridge/bridge.go, joltifybridge/tx_outbound.go: a transaction of the joltify chain only adds
-- transfers that are to be sent.
use oppy_bridge.Common.{
  ℕ, ◌≤◌, String, inl, inr, Option, List, arith, ◌==◌, nat_key, string_key, bytes_key, Bool-cases,
}
use oppy_bridge.Common.Int.{ℤ}
use oppy_bridge.Common.Result.{Result}
use oppy_bridge.External.{Bytes, Env}
use oppy_bridge.RetryPool.Max.{IsValid, add_item_appends}
use oppy_bridge.Joltify.State.{OutBoundReq, JoltifyChainInstance, outbound_hash, add_outbound_item}
use oppy_bridge.Joltify.Outbound.{Msg}
use oppy_bridge.Joltify.Outbound.Adds.{transaction_keeps}
use oppy_bridge.Bridge.{Bridge}
use oppy_bridge.Bridge.Loop.{joltify_tx}
use oppy_bridge.Bridge.Kept.{held}
use oppy_bridge.Bridge.Kept.Retries.{waiting, added}

module _ (tx_id : Bytes) (env : Env) (query_account : String → Result Bytes) (height : ℤ) where
  -- The instance still has that many of the requests for the transaction, in a pool whose keys are
  -- distinct.
  abbrev Has : ℕ → JoltifyChainInstance → Type 0
  Has n jc = (n ≤ waiting tx_id jc) × IsValid jc.retry_outbound_req

  added-Has :
      (n : ℕ) (item : OutBoundReq) (jc : JoltifyChainInstance)
      → Has n jc
      → Has n (add_outbound_item env item jc)
  unfolding add_outbound_item
  added-Has n item jc (h, v) = (
    omega (arith, h, added tx_id env item jc v),
    (add_item_appends (outbound_hash env item) item jc.retry_outbound_req v).2,
  )

  pub transfer_held :
      (code : ℕ) (tx_hash : Bytes) (decoded : Option (List Msg)) (b : Bridge)
      → IsValid b.jolt_chain.retry_outbound_req
      → held tx_id b ≤ held tx_id (joltify_tx env query_account code height tx_hash decoded b)
  unfolding joltify_tx
  transfer_held code tx_hash decoded b v =
      let has =
        transaction_keeps (Has (waiting tx_id b.jolt_chain)) env query_account height tx_hash
          decoded b.jolt_chain (λ p known. added-Has (waiting tx_id b.jolt_chain))
          (omega arith, v) in
      elim (Bool-cases (code == 0)) [
        | inl z ↦ rw (z, joltify_tx) (omega (arith, has.0))
        | inr nz ↦ rw (nz, joltify_tx) (omega arith)
      ]
