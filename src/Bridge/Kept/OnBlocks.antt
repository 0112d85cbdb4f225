-- ===== src/Bridge/Kept/OnBlocks.antt =====
-- bridge/joltifyBridge.go: a block of the public chain moves transfers from RetryOutboundReq to
-- OutboundReqChan, and one of the joltify chain leaves them alone.
use oppy_bridge.Common.{ℕ, ◌+◌, ◌≤◌, ◌≡◌, ap, subst, List, arith, nat_key, string_key, bytes_key}
use oppy_bridge.Common.Outcome.{Ensures, Ensures-bind, Ensures-all}
use oppy_bridge.Common.Int.{int64_of}
use oppy_bridge.Common.Result.{Result}
use oppy_bridge.External.{Bytes, Transaction, Env}
use oppy_bridge.Misc.BigInt.{uint64}
use oppy_bridge.RetryPool.Max.{IsValid}
use oppy_bridge.Pubchain.Blocks.{process_new_block, delete_expired}
use oppy_bridge.Pubchain.Sending.{EthClient}
use oppy_bridge.Joltify.Service.{JoltService}
use oppy_bridge.Bridge.{Bridge}
use oppy_bridge.Bridge.PubBlock.{retry_outbound, move_pub_queue, new_pub_block}
use oppy_bridge.Bridge.Kept.{one, count, checked_requests, held_in, held}
use oppy_bridge.Bridge.Kept.OnJoltBlock.{jolt_block-At}
use oppy_bridge.Bridge.JoltBlock.{retry_inbound, new_joltify_block}
use oppy_bridge.Common.Int.{ℤ}
use oppy_bridge.Bridge.Kept.Retries.{waiting, retry_waiting}

pub pub_block_held :
    (tx_id : Bytes) (env : Env) (svc : JoltService) (client : EthClient) (number : ℕ)
    (check_each_tx : Bytes → Result ℕ) (block : Result (List Transaction)) (b : Bridge)
    → IsValid b.jolt_chain.retry_outbound_req
    → Ensures
        (λ b'. held tx_id b ≡ held tx_id b')
        (new_pub_block env svc client number check_each_tx block b)
unfolding new_pub_block
pub_block_held tx_id env svc client number check_each_tx block b v =
    let Q : Bridge → Type 0 = λ b'. held tx_id b ≡ held tx_id b' in
    Ensures-bind Q (process_new_block env check_each_tx number block b.pi) _ (λ o _.
      Ensures-bind Q (retry_outbound number b.jolt_chain) _ (λ jc e.
        let kept : waiting tx_id b.jolt_chain ≡ waiting tx_id jc =
          subst (Ensures (λ jc'. waiting tx_id b.jolt_chain ≡ waiting tx_id jc')) e
            (retry_waiting tx_id number b.jolt_chain v) in
        Ensures-bind Q
          (move_pub_queue env svc client number
            (delete_expired (uint64 number) (record o.1 { current_height = int64_of number })))
          _ (λ pi _. ap (λ n. n + count (one tx_id) (checked_requests b.outbound_checks)) kept)))

pub jolt_block_held :
    (tx_id : Bytes) (env : Env) (svc : JoltService) (height : ℤ) (b : Bridge)
    → Ensures (λ b'. held tx_id b ≤ held tx_id b') (new_joltify_block env svc height b)
jolt_block_held tx_id env svc height b =
    jolt_block-At
      (λ _ _ _ chan retries checks. held tx_id b ≤ held_in (one tx_id) chan retries checks) env svc
      height b (omega arith) (Ensures-all _ (retry_inbound height b.pi) (λ pi. omega arith))
