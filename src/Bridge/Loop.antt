-- ===== src/Bridge/Loop.antt =====
-- bridge/joltifyBridge.go: the loop as a step relation over events, from the state in which
-- NewBridgeService starts it.
pub mod Sound
pub mod Again
pub mod Ends
pub mod Keeps
pub mod KeepsMints
use oppy_bridge.Common.{
  ℕ, String, ◌≡◌, Bool, not, Option, some, List, [], ◌∷◌, ◌++◌, arith, if◌then◌else◌, Key, ◌==◌,
  nat_key, string_key, bytes_key,
}
use oppy_bridge.Common.Int.{ℤ, int64_of}
use oppy_bridge.Common.Outcome.{Outcome, done}
use oppy_bridge.Common.Result.{Result, ok, err}
use oppy_bridge.External.{Bytes, Transaction, Env}
use oppy_bridge.Pubchain.State.{InboundReq}
use oppy_bridge.Pubchain.Sending.{EthClient}
use oppy_bridge.Pubchain.Sending.Returns.{IsAble}
use oppy_bridge.Bridge.Sound.OnPubBlock.{BlockFits}
use oppy_bridge.Joltify.State.{OutBoundReq}
use oppy_bridge.Joltify.Outbound.{Msg, check_out_bound_tx}
use oppy_bridge.Joltify.Service.{JoltService}
use oppy_bridge.Joltify.Signing.Returns.{IsReady}
use oppy_bridge.Validators.{TmValidator}
use oppy_bridge.Joltify.Membership.{Membership}
use oppy_bridge.Joltify.Membership.Startup.{StartupService, init_validators}
use oppy_bridge.Joltify.Membership.Keygen.{handle_update_validators}
use oppy_bridge.Bridge.{Bridge, start}
use oppy_bridge.Bridge.JoltBlock.{new_joltify_block}
use oppy_bridge.Bridge.PubBlock.{new_pub_block}
use oppy_bridge.Bridge.Requests.{
  inbound_request, outbound_request, inbound_checked, outbound_checked,
}

-- The case of newJoltifyTxChan: a transaction with an error code is skipped.
unfoldable pub joltify_tx :
    Env → (String → Result Bytes) → ℕ → ℤ → Bytes → Option (List Msg) → Bridge → Bridge
joltify_tx env query_account code height tx_hash decoded b =
    if not (code == 0) then b else record b {
      jolt_chain = check_out_bound_tx env query_account height tx_hash decoded b.jolt_chain;
    }

-- The case of validatorUpdateChan: GetLastBlockHeight, and HandleUpdateValidators, whose error is only
-- logged.
unfoldable pub validators_update :
    Env
    → JoltService
    → (List String → ℤ → Result (Bool × String))
    → Result ℤ
    → List TmValidator
    → Bridge
    → Bridge
validators_update env svc key_gen (err e) updates b = b
validators_update env svc key_gen (ok height) updates b = record b {
  membership = (handle_update_validators env svc key_gen updates height b.membership).1;
}

-- One turn of the loop, or the end of a goroutine that it has started, whichever is next. What the
-- chains, the key server and the configuration give is within bounds: BlockFits, for a block and the fees
-- that wait in the state, IsAble and IsReady.
pub data Step (env : Env) : Bridge → Outcome Bridge → Type 0 where
  validators :
      (svc : JoltService) (key_gen : List String → ℤ → Result (Bool × String))
      (last_height : Result ℤ) (updates : List TmValidator) (b : Bridge)
      → Step env b (done (validators_update env svc key_gen last_height updates b))
  joltify_block :
      (svc : JoltService) (height : ℤ) (b : Bridge)
      → IsReady env svc.cosmos
      → Step env b (new_joltify_block env svc height b)
  joltify_transfer :
      (query_account : String → Result Bytes) (code : ℕ) (height : ℤ) (tx_hash : Bytes)
      (decoded : Option (List Msg)) (b : Bridge)
      → Step env b (done (joltify_tx env query_account code height tx_hash decoded b))
  pub_block :
      (svc : JoltService) (client : EthClient) (number : ℕ) (check_each_tx : Bytes → Result ℕ)
      (block : Result (List Transaction)) (b : Bridge)
      → BlockFits env block b.pi
      → IsAble env client
      → Step env b (new_pub_block env svc client number check_each_tx block b)
  inbound :
      (svc : JoltService) (b : Bridge)
      → IsReady env svc.cosmos
      → Step env b (inbound_request env svc b)
  outbound :
      (svc : JoltService) (client : EthClient) (b : Bridge)
      → IsAble env client
      → Step env b (outbound_request env svc client b)
  inbound_check :
      (svc : JoltService) (before after : List (InboundReq × Option ℕ))
      (check : InboundReq × Option ℕ) (b : Bridge)
      → b.inbound_checks ≡ before ++ check ∷ after
      → Step env b
          (done (inbound_checked env svc check (record b { inbound_checks = before ++ after })))
  outbound_check :
      (client : EthClient) (before after : List (OutBoundReq × Bytes)) (check : OutBoundReq × Bytes)
      (b : Bridge)
      → b.outbound_checks ≡ before ++ check ∷ after
      → Step env b (
          done (outbound_checked env client check (record b { outbound_checks = before ++ after })))

-- The states that the loop reaches from its start, after InitValidators.
pub data Reaches (env : Env) (token_addr : String) : Bridge → Type 0 where
  begin :
      (startup : StartupService) (members : Membership)
      → init_validators env startup ≡ ok members
      → Reaches env token_addr (start token_addr members)
  next :
      (b b' : Bridge) → Reaches env token_addr b → Step env b (done b') → Reaches env token_addr b'
