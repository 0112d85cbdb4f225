-- ===== src/Tests/Outbound.antt =====
-- The theorems on transfers and payments, at concrete inputs.
use oppy_bridge.Common.{
  ℕ, ◌≤◌, String, ◌≡◌, refl, ◌↔◌, true, false, [], ◌∷◌, arith, nat_key, string_key, bytes_key,
}
use oppy_bridge.Common.Int.{pos}
use oppy_bridge.Common.Outcome.{done}
use oppy_bridge.Common.Result.{Result, ok}
use oppy_bridge.External.{Env}
use oppy_bridge.Misc.BigInt.{big_bytes, set_bytes}
use oppy_bridge.Misc.Signature.{serialize_sig}
use oppy_bridge.Joltify.State.{new_joltify_bridge}
use oppy_bridge.Joltify.Outbound.{MsgSend, process_msg}
use oppy_bridge.Joltify.Outbound.Paid.{token_coin, fee_coin, Queues, process_msg_pays}
use oppy_bridge.Pubchain.Sending.{
  send_token, transfer_as, sign_tx, tss_sign, read_response, attach, send_signed, move_pub_funds,
}
use oppy_bridge.Pubchain.Sending.Signed.{KeyOf, Sends, send_token_signed}
use oppy_bridge.Pubchain.Sending.Retired.{move_pub_funds_empty, move_pub_funds_leftover}
use oppy_bridge.Tests.Fixtures.{toy_env, one_pool, bridge_pool}
use oppy_bridge.Tests.Chains.{toy_client}

-- A message that pays 500 and a fee of 12 to the pool.
abbrev paying : MsgSend
paying = record {
  from_address = "user";
  to_address = "pool";
  amount = fee_coin 12 ∷ token_coin 500 ∷ [];
}

process_msg_pays_example :
    Queues toy_env
      (λ a. ok (3 ∷ []))
      10
      refl
      (pos 5)
      (1 ∷ [])
      (2 ∷ [])
      (9 ∷ [])
      paying
      (8 ∷ [])
      new_joltify_bridge
      (process_msg toy_env
        (λ a. ok (3 ∷ []))
        (pos 5)
        (1 ∷ [], 2 ∷ [])
        (9 ∷ [])
        paying
        (8 ∷ [])
        new_joltify_bridge)
process_msg_pays_example =
    process_msg_pays toy_env (λ a. ok (3 ∷ [])) 10 refl (pos 5) (1 ∷ []) (2 ∷ []) (9 ∷ []) paying
      (8 ∷ []) new_joltify_bridge

sent :
    send_token toy_env toy_client "" (9 ∷ []) (5 ∷ []) 77 (pos 5) one_pool ≡ done (77 ∷ [], ok tt)
unfolding send_token transfer_as sign_tx tss_sign read_response attach send_signed serialize_sig
    big_bytes set_bytes
sent = refl

send_token_signed_example :
    (key : String) × (chain_id : ℕ) × (ok 56 ≡ ok chain_id)
    × KeyOf toy_env toy_client "" one_pool key
    × Sends toy_env toy_client key (9 ∷ []) (5 ∷ []) 77 (pos 5) chain_id (77 ∷ [])
send_token_signed_example =
    send_token_signed toy_env toy_client "" (9 ∷ []) (5 ∷ []) 77 (pos 5) one_pool (77 ∷ []) sent

abbrev no_token : ℕ
no_token = 0

move_pub_funds_empty_example :
    ((r : Result (Unit {0})) × (move_pub_funds toy_env toy_client bridge_pool
          (5 ∷ [])
          (pos 5)
          one_pool
        ≡ done (true, r)))
    ↔ ((no_token ≡ 0) × (14 ≤ 10))
move_pub_funds_empty_example =
    move_pub_funds_empty toy_env toy_client bridge_pool (5 ∷ []) (pos 5) one_pool 0 14 10 refl refl
      refl

-- A fee above 4 leaves no more than the dust.
abbrev costly_env : Env
costly_env = record toy_env { dec_mul = λ a b. 6 }

move_pub_funds_leftover_example :
    move_pub_funds costly_env toy_client bridge_pool (5 ∷ []) (pos 5) one_pool ≡ done (false, ok tt)
move_pub_funds_leftover_example =
    move_pub_funds_leftover costly_env toy_client bridge_pool (5 ∷ []) (pos 5) one_pool 0 14 10 refl
      refl refl 56 2 3 10 7 refl refl refl refl (omega arith) refl refl (omega arith) (omega arith)
