-- ===== src/Tests/Signing.antt =====
-- joltifybridge/bridge.go and helper.go at concrete inputs.
use oppy_bridge.Common.{◌≡◌, refl, true, [], ◌∷◌, nat_key, string_key, bytes_key}
use oppy_bridge.Common.Int.{pos}
use oppy_bridge.Common.Outcome.{done}
use oppy_bridge.Common.SdkInt.{new_dec}
use oppy_bridge.Common.Result.{ok}
use oppy_bridge.Misc.BigInt.{big_bytes, set_bytes}
use oppy_bridge.Misc.Signature.{serialize_sig}
use oppy_bridge.Joltify.Signing.{
  Message, TssSignMsg, signing_key, with_tss_key, read_signed, sign_bytes, sign_jolt_tx,
  new_builder, attach_signature, gen_send_tx, gas_wanted, gas_estimation, broadcast, send_built,
  compose_with_gas, compose_and_send,
}
use oppy_bridge.Joltify.Signing.Failed.{Accepted, compose_and_send-Accepted}
use oppy_bridge.Tests.Fixtures.{toy_env}
use oppy_bridge.Tests.Chains.{toy_cosmos}

abbrev toy_msg : TssSignMsg
toy_msg = record { pk = "new"; block_height = pos 5 }

abbrev transfer : Message
transfer = Message.move (2 ∷ []) (1 ∷ []) []

composed : compose_and_send toy_env toy_cosmos transfer 1 2 toy_msg ≡ done (ok (true, "0xHash"))
unfolding compose_and_send compose_with_gas gas_estimation gas_wanted new_builder signing_key
    gen_send_tx sign_jolt_tx sign_bytes read_signed with_tss_key attach_signature send_built
    broadcast serialize_sig big_bytes set_bytes new_dec
composed = refl

compose_and_send-Accepted_example : Accepted toy_env toy_cosmos transfer 1 2 toy_msg "0xHash"
compose_and_send-Accepted_example =
    compose_and_send-Accepted toy_env toy_cosmos transfer 1 2 toy_msg "0xHash" composed
