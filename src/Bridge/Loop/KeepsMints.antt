-- ===== src/Bridge/Loop/KeepsMints.antt =====
-- bridge/joltifyBridge.go: no request to mint is lost between the turns of the loop.
use oppy_bridge.Common.{◌≤◌, String, ◌≡◌, ◌≢◌, ◌⊎◌, arith, nat_key, string_key, bytes_key}
use oppy_bridge.Common.Outcome.{Outcome, done, Ensures}
use oppy_bridge.Common.Result.{ok, err}
use oppy_bridge.External.{Bytes, Env}
use oppy_bridge.Joltify.Service.{check_jolt_tx_status}
use oppy_bridge.Bridge.{Bridge}
use oppy_bridge.Bridge.Sound.{IsSound}
use oppy_bridge.Bridge.Kept.{held_mints}
use oppy_bridge.Bridge.Kept.Mints.OnBlocks.{jolt_block_mints, pub_block_mints}
use oppy_bridge.Bridge.Kept.Mints.OnRequests.{
  Signs, NextIsOther, inbound_mints, inbound_checked_mints,
}
use oppy_bridge.Bridge.Kept.Mints.OnOutbound.{
  transfer_mints, outbound_mints, outbound_checked_mints,
}
use oppy_bridge.Bridge.Loop.{Step, Reaches, validators_update}
use oppy_bridge.Bridge.Loop.Sound.{Reaches-IsSound}

module _ (tx_id : Bytes) (env : Env) where
  -- What an event asks so that it does not end the request: the node that takes it out of the channel is a
  -- signer, and the goroutine that looks for its token does not find it.
  abbrev pub MintStays : (b : Bridge) (out : Outcome Bridge) → Step env b out → Type 0
  MintStays b _ (Step.validators svc key_gen last_height updates _) = Unit {0}
  MintStays b _ (Step.joltify_block svc height _ ready) = Unit {0}
  MintStays b _ (Step.joltify_transfer query_account code height tx_hash decoded _) = Unit {0}
  MintStays b _ (Step.pub_block svc client number check_each_tx block _ fits able) = Unit {0}
  MintStays b _ (Step.inbound svc _ ready) = Signs tx_id env svc b ⊎ NextIsOther tx_id env svc b
  MintStays b _ (Step.outbound svc client _ able) = Unit {0}
  MintStays b _ (Step.inbound_check svc before after check _ e) =
      ((t : String) × (check_jolt_tx_status svc check.1 ≡ err t)) ⊎ (check.0.tx_id ≢ tx_id)
  MintStays b _ (Step.outbound_check client before after check _ e) = Unit {0}

  -- A run of the loop in which the request stays.
  pub data MintRun : Bridge → Bridge → Type 0 where
    here : (b : Bridge) → MintRun b b
    turn :
        (b b' c : Bridge) (step : Step env b (done b'))
        → MintStays b (done b') step
        → MintRun b' c
        → MintRun b c

  Step-Keeps :
      (b : Bridge) (out : Outcome Bridge) (step : Step env b out)
      → IsSound b
      → MintStays b out step
      → Ensures (λ b'. held_mints tx_id b ≤ held_mints tx_id b') out
  unfolding validators_update
  Step-Keeps b _ (Step.validators svc key_gen (err e) updates _) s stays = omega arith
  Step-Keeps b _ (Step.validators svc key_gen (ok height) updates _) s stays = omega arith
  Step-Keeps b _ (Step.joltify_block svc height _ ready) s stays =
      jolt_block_mints tx_id env svc height b s.inbound_valid
  Step-Keeps b _ (Step.joltify_transfer query_account code height tx_hash decoded _) s stays =
      transfer_mints tx_id (held_mints tx_id b) env query_account height code tx_hash decoded b
        (omega arith)
  Step-Keeps b _ (Step.pub_block svc client number check_each_tx block _ fits able) s stays =
      pub_block_mints tx_id env svc client number check_each_tx block b s.inbound_valid
  Step-Keeps b _ (Step.inbound svc _ ready) s stays =
      inbound_mints tx_id env svc b s.inbound_valid stays
  Step-Keeps b _ (Step.outbound svc client _ able) s stays =
      outbound_mints tx_id (held_mints tx_id b) env svc client b (omega arith)
  Step-Keeps b _ (Step.inbound_check svc before after check _ e) s stays =
      inbound_checked_mints tx_id env svc before after check b s.inbound_valid e stays
  Step-Keeps b _ (Step.outbound_check client before after check _ e) s stays =
      outbound_checked_mints tx_id (held_mints tx_id b) env client before after check b
        (omega arith)

  -- From a state that the loop reaches, let a run be such that, whenever a request to mint for this
  -- transaction is taken out of InboundReqChan, CheckWhetherSigner says that the node is a signer of the
  -- latest pool, and whenever the goroutine of one comes to its end, CheckTxStatus has not found the
  -- token. Then the channel, the retry pool and the goroutines hold at its end at least as many requests
  -- for the transaction as at its start.
  pub MintRun-held_mints :
      (token_addr : String) (b c : Bridge)
      → Reaches env token_addr b
      → MintRun b c
      → held_mints tx_id b ≤ held_mints tx_id c
  MintRun-held_mints token_addr b _ r (MintRun.here _) = omega arith
  MintRun-held_mints token_addr b c r (MintRun.turn _ b' _ step stays run) =
      let one_turn = Step-Keeps b (done b') step (Reaches-IsSound env token_addr b r) stays in
      let others = MintRun-held_mints token_addr b' c (Reaches.next b b' r step) run in
      omega (arith, one_turn, others)
