-- ===== src/Tests/Members.antt =====
-- The validators and the pool messages at concrete inputs.
use oppy_bridge.Common.{
  String, ◌≡◌, refl, ◌≢◌, ◌↔◌, ◌⊎◌, Bool, true, false, none, some, List, [], ◌∷◌, ◌++◌, arith, ◌==◌,
  nat_key, string_key, bytes_key,
}
use oppy_bridge.Common.Int.{ℤ, pos, ◌+ℤ◌, +ℤ_parts, int_key}
use oppy_bridge.Common.Outcome.{done}
use oppy_bridge.Common.SdkInt.{new_dec}
use oppy_bridge.Common.Result.{Result, ok, err}
use oppy_bridge.SyncMap.{store, delete}
use oppy_bridge.Validators.{
  Validator, TmValidator, update_one, update_each, update_validator_set, get_active_validators,
}
use oppy_bridge.Validators.Keyed.{Among, IsKeyed}
use oppy_bridge.Validators.Latest.{last_update, update_then_active, update_stops}
use oppy_bridge.Joltify.Signing.{
  CosmosClient, new_builder, signing_key, gas_estimation, gas_wanted, gen_send_tx, sign_jolt_tx,
  sign_bytes, attach_signature, broadcast,
}
use oppy_bridge.Joltify.Membership.{
  Membership, not_submitted, check_and_update_pool, check_first, submit_pool, send_pool, sent_pool,
}
use oppy_bridge.Joltify.Membership.Head.{check_blocks, failed_head_blocks}
use oppy_bridge.Joltify.Membership.Submitted.{Ends, check_and_update_pool-Ends}
use oppy_bridge.Joltify.Membership.Startup.Lists.{Lists, init_validators-Lists}
use oppy_bridge.Joltify.Membership.Startup.{TipValidator}
use oppy_bridge.Joltify.Membership.Keygen.{handle_update_validators}
use oppy_bridge.Joltify.Membership.Keygen.Joins.{
  Holds, set_after, active_after, pool_msg, handle_update_joins,
}
use oppy_bridge.Tests.Fixtures.{toy_env}
use oppy_bridge.Tests.Chains.{toy_cosmos, toy_service}
use oppy_bridge.Tests.Loop.{toy_members, toy_startup, toy_startup_runs}

-- Validator two joins with a power of 7, and validator one leaves.
abbrev changes : List TmValidator
changes =
    record { tm_address = 2 ∷ []; tm_pub_key = 5 ∷ []; tm_power = pos 7 }
    ∷ record { tm_address = 1 ∷ []; tm_pub_key = 4 ∷ []; tm_power = pos 0 }
    ∷ []

abbrev two : Validator
two = record { address = 2 ∷ []; pub_key = 5 ∷ []; voting_power = pos 7 }

toy_set-IsKeyed : IsKeyed toy_env toy_members.validator_set.active_validators
toy_set-IsKeyed = record { distinct = (tt, tt); own = (refl, tt) }

changes_read : (update_validator_set toy_env changes (pos 9) toy_members.validator_set).0 ≡ ok tt
unfolding update_validator_set update_each update_one
changes_read = refl

update_then_active_example :
    (Among two
        (get_active_validators
          (update_validator_set toy_env changes (pos 9) toy_members.validator_set).1).0
      ↔ (((last_update toy_env "two" changes ≡ some two) × ((pos 7 == pos 0) ≡ false))
          ⊎ ((last_update toy_env "two" changes ≡ none)
              × Among two (get_active_validators toy_members.validator_set).0)))
    × ((get_active_validators
          (update_validator_set toy_env changes (pos 9) toy_members.validator_set).1).1
        ≡ pos 9)
update_then_active_example =
    update_then_active toy_env changes (pos 9) toy_members.validator_set two toy_set-IsKeyed
      changes_read

-- An update without an address comes after those two.
abbrev nameless : TmValidator
nameless = record { tm_address = []; tm_pub_key = 6 ∷ []; tm_power = pos 1 }

update_stops_example :
    update_validator_set toy_env (changes ++ nameless ∷ []) (pos 9) toy_members.validator_set ≡ (
      err "empty address string",
      (update_validator_set toy_env changes (pos 9) toy_members.validator_set).1,
    )
update_stops_example =
    update_stops toy_env changes [] nameless "empty address string" (pos 9)
      toy_members.validator_set changes_read refl

-- This node's own key is that of validator two.
abbrev joining : Membership
joining = record toy_members { my_validator_key = ok (5 ∷ []) }

abbrev key_gen : List String → ℤ → Result (Bool × String)
key_gen keys height = ok (true, "fresh")

handle_update_joins_example :
    (Holds (5 ∷ []) (active_after toy_env toy_service key_gen changes (pos 9) joining)
      × (handle_update_validators toy_env toy_service key_gen changes (pos 9) joining ≡ (
        ok tt,
        record joining {
          validator_set = set_after toy_env toy_service key_gen changes (pos 9) joining;
          msg_send_cache = pool_msg (4 ∷ []) (1, 2) "fresh" (pos 9 +ℤ pos 1) ∷ [];
        },
      )))
    ⊎ (((w : Validator)
          → Among w (active_after toy_env toy_service key_gen changes (pos 9) joining)
          → w.pub_key ≢ 5 ∷ [])
        × (handle_update_validators toy_env toy_service key_gen changes (pos 9) joining ≡ (
          ok tt,
          record joining {
            validator_set = set_after toy_env toy_service key_gen changes (pos 9) joining;
          },
        )))
unfolding update_validator_set update_each update_one delete store get_active_validators
handle_update_joins_example =
    handle_update_joins toy_env toy_service key_gen changes (pos 9) joining (5 ∷ []) (λ k. "key")
      "fresh" (4 ∷ []) (1, 2) changes_read refl (refl, tt) refl refl refl
      (omega (arith, +ℤ_parts (pos 9) (pos 1)), omega (arith, +ℤ_parts (pos 9) (pos 1)))

-- Two pool messages, and a node that cannot simulate.
abbrev two_messages : Membership
two_messages = record toy_members {
  msg_send_cache =
      pool_msg (4 ∷ []) (1, 2) "fresh" (pos 10) ∷ pool_msg (4 ∷ []) (1, 2) "later" (pos 11) ∷ [];
}

abbrev no_simulation : CosmosClient
no_simulation = record toy_cosmos { simulate = λ bytes. err "out of gas" }

failed_head_blocks_example :
    check_blocks toy_env no_simulation (pos 10 ∷ pos 11 ∷ pos 12 ∷ []) two_messages
    ≡ done (not_submitted ∷ not_submitted ∷ not_submitted ∷ [], two_messages)
unfolding gas_estimation new_builder signing_key
failed_head_blocks_example =
    failed_head_blocks toy_env no_simulation two_messages
      (pool_msg (4 ∷ []) (1, 2) "fresh" (pos 10)) (pool_msg (4 ∷ []) (1, 2) "later" (pos 11) ∷ [])
      refl "out of gas" (pos 11 ∷ pos 12 ∷ []) refl (refl, (refl, tt))

abbrev one_message : Membership
one_message = record two_messages {
  msg_send_cache = pool_msg (4 ∷ []) (1, 2) "later" (pos 11) ∷ [];
}

submitted :
    check_and_update_pool toy_env toy_cosmos (pos 10) two_messages
    ≡ done ((true, "fresh"), one_message)
unfolding check_and_update_pool check_first submit_pool send_pool sent_pool gas_estimation new_dec
    gas_wanted new_builder signing_key gen_send_tx sign_jolt_tx sign_bytes attach_signature
    broadcast
submitted = refl

check_and_update_pool-Ends_example :
    Ends toy_env toy_cosmos (pos 10) two_messages ((true, "fresh"), one_message)
check_and_update_pool-Ends_example =
    check_and_update_pool-Ends toy_env toy_cosmos (pos 10) two_messages
      ((true, "fresh"), one_message) submitted

init_validators-Lists_example :
    (height : ℤ) × (tips : List TipValidator) × (toy_startup.tip_validators ≡ ok (height, tips))
    × Lists toy_env height tips toy_members
init_validators-Lists_example =
    init_validators-Lists toy_env toy_startup toy_members toy_startup_runs
