-- ===== src/Bridge/Loop/Keeps.antt =====
-- bridge/joltifyBridge.go: no transfer to the public chain is lost between the turns of the loop.
use oppy_bridge.Common.{◌≤◌, String, ◌≡◌, ◌≢◌, ◌⊎◌, inl, inr, arith, nat_key, string_key, bytes_key}
use oppy_bridge.Common.Outcome.{Outcome, done, panics, blocked, Ensures}
use oppy_bridge.Common.Result.{ok, err}
use oppy_bridge.External.{Bytes, Env}
use oppy_bridge.Pubchain.Sending.{check_pub_tx_status}
use oppy_bridge.Bridge.{Bridge}
use oppy_bridge.Bridge.Sound.{IsSound}
use oppy_bridge.Bridge.Kept.{held}
use oppy_bridge.Bridge.Kept.OnTransfers.{transfer_held}
use oppy_bridge.Bridge.Kept.OnBlocks.{pub_block_held, jolt_block_held}
use oppy_bridge.Bridge.Kept.OnInbound.{inbound_kept, inbound_checked_kept}
use oppy_bridge.Bridge.Kept.OnRequests.{
  Signs, NextIsOther, outbound_held, held-outbound_checked, checked_other_held,
}
use oppy_bridge.Bridge.Loop.{Step, Reaches, validators_update}
use oppy_bridge.Bridge.Loop.Sound.{Reaches-IsSound}

module _ (tx_id : Bytes) (env : Env) where
  -- What an event asks so that it does not end the transfer: the node that takes it out of the channel is
  -- a signer, and the goroutine that waits for its payment finds that it failed.
  abbrev pub Stays : (b : Bridge) (out : Outcome Bridge) → Step env b out → Type 0
  Stays b _ (Step.validators svc key_gen last_height updates _) = Unit {0}
  Stays b _ (Step.joltify_block svc height _ ready) = Unit {0}
  Stays b _ (Step.joltify_transfer query_account code height tx_hash decoded _) = Unit {0}
  Stays b _ (Step.pub_block svc client number check_each_tx block _ fits able) = Unit {0}
  Stays b _ (Step.inbound svc _ ready) = Unit {0}
  Stays b _ (Step.outbound svc client _ able) =
      Signs tx_id env svc client b ⊎ NextIsOther tx_id env svc client b
  Stays b _ (Step.inbound_check svc before after check _ e) = Unit {0}
  Stays b _ (Step.outbound_check client before after check _ e) =
      (check_pub_tx_status env client check.1 ≡ err "tx failed") ⊎ (check.0.tx_id ≢ tx_id)

  -- A run of the loop in which the transfer stays.
  pub data Run : Bridge → Bridge → Type 0 where
    here : (b : Bridge) → Run b b
    turn :
        (b b' c : Bridge) (step : Step env b (done b'))
        → Stays b (done b') step
        → Run b' c
        → Run b c

  abbrev Keeps : Bridge → Outcome Bridge → Type 0
  Keeps b out = Ensures (λ b'. held tx_id b ≤ held tx_id b') out

  equal-Keeps :
      (b : Bridge) (out : Outcome Bridge)
      → Ensures (λ b'. held tx_id b ≡ held tx_id b') out
      → Keeps b out
  equal-Keeps b (done b') p = omega (arith, p)
  equal-Keeps b panics p = tt
  equal-Keeps b blocked p = tt

  Step-Keeps :
      (b : Bridge) (out : Outcome Bridge) (step : Step env b out)
      → IsSound b
      → Stays b out step
      → Keeps b out
  unfolding validators_update
  Step-Keeps b _ (Step.validators svc key_gen (err e) updates _) s stays = omega arith
  Step-Keeps b _ (Step.validators svc key_gen (ok height) updates _) s stays = omega arith
  Step-Keeps b _ (Step.joltify_block svc height _ ready) s stays =
      jolt_block_held tx_id env svc height b
  Step-Keeps b _ (Step.joltify_transfer query_account code height tx_hash decoded _) s stays =
      transfer_held tx_id env query_account height code tx_hash decoded b s.outbound_valid
  Step-Keeps b _ (Step.pub_block svc client number check_each_tx block _ fits able) s stays =
      equal-Keeps b _
        (pub_block_held tx_id env svc client number check_each_tx block b s.outbound_valid)
  Step-Keeps b _ (Step.inbound svc _ ready) s stays =
      inbound_kept tx_id (held tx_id b) env svc b (omega arith)
  Step-Keeps b _ (Step.outbound svc client _ able) s stays =
      outbound_held tx_id env svc client b s.outbound_valid stays
  Step-Keeps b _ (Step.inbound_check svc before after check _ e) s stays =
      inbound_checked_kept tx_id (held tx_id b) env svc before after check b (omega arith)
  Step-Keeps b _ (Step.outbound_check client before after check _ e) s (inl failed) =
      omega (
        arith,
        held-outbound_checked tx_id env client before after check b s.outbound_valid e failed,
      )
  Step-Keeps b _ (Step.outbound_check client before after check _ e) s (inr other) =
      checked_other_held tx_id env client before after check b s.outbound_valid e other

  -- From a state that the loop reaches, let a run be such that, whenever a transfer of this transaction
  -- is taken out of OutboundReqChan, CheckWhetherSigner says that the node is a signer of the latest
  -- pool, and whenever the goroutine of one comes to its end, it has found that the payment failed. Then
  -- the channel, the retry pool and the goroutines hold at its end at least as many requests for the
  -- transaction as at its start.
  pub Run-held :
      (token_addr : String) (b c : Bridge)
      → Reaches env token_addr b
      → Run b c
      → held tx_id b ≤ held tx_id c
  Run-held token_addr b _ r (Run.here _) = omega arith
  Run-held token_addr b c r (Run.turn _ b' _ step stays run) =
      let one_turn = Step-Keeps b (done b') step (Reaches-IsSound env token_addr b r) stays in
      let others = Run-held token_addr b' c (Reaches.next b b' r step) run in
      omega (arith, one_turn, others)
