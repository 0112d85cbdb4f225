-- ===== src/Bridge/Loop/Sound.antt =====
-- bridge/joltifyBridge.go: what every schedule of events keeps. The theorems at the end of this file are
-- about all states that the loop reaches.
use oppy_bridge.Common.{
  middle_ne, ℕ, String, ◌≡◌, refl, sym, ◌∙◌, subst, ◌≢◌, inl, inr, Bool, Option, List, ◌++◌, ◌==◌,
  nat_key, string_key, bytes_key, Bool-cases,
}
use oppy_bridge.Common.Int.{ℤ, int_key}
use oppy_bridge.Common.Outcome.{Outcome, done, panics, Safe}
use oppy_bridge.Common.Result.{Result, ok, err}
use oppy_bridge.External.{Bytes, Env}
use oppy_bridge.Joltify.Outbound.{Msg}
use oppy_bridge.Validators.{TmValidator}
use oppy_bridge.Joltify.Service.{JoltService}
use oppy_bridge.Bridge.{Bridge}
use oppy_bridge.Bridge.Sound.{IsSound, start-IsSound}
use oppy_bridge.Bridge.Sound.OnJoltBlock.{jolt_block-IsSound, busy_knows}
use oppy_bridge.Bridge.Sound.OnPubBlock.{pub_block-IsSound}
use oppy_bridge.Bridge.Sound.OnRequests.{inbound-IsSound, inbound_checked-IsSound, known-IsSound}
use oppy_bridge.Bridge.Sound.OnTransfers.{
  outbound-IsSound, outbound_checked-IsSound, transfer-IsSound,
}
use oppy_bridge.Bridge.Loop.{joltify_tx, validators_update, Step, Reaches}

tx-IsSound :
    (env : Env) (query_account : String → Result Bytes) (code : ℕ) (height : ℤ) (tx_hash : Bytes)
    (decoded : Option (List Msg)) (b : Bridge)
    → IsSound b
    → IsSound (joltify_tx env query_account code height tx_hash decoded b)
unfolding joltify_tx
tx-IsSound env query_account code height tx_hash decoded b s = elim (Bool-cases (code == 0)) [
  | inr failed ↦ rw (failed, joltify_tx) s
  | inl good ↦ rw (good, joltify_tx) (transfer-IsSound env query_account height tx_hash decoded b s)
]

validators-IsSound :
    (env : Env) (svc : JoltService) (key_gen : List String → ℤ → Result (Bool × String))
    (last_height : Result ℤ) (updates : List TmValidator) (b : Bridge)
    → IsSound b
    → IsSound (validators_update env svc key_gen last_height updates b)
unfolding validators_update
validators-IsSound env svc key_gen (err e) updates b s = s
validators-IsSound env svc key_gen (ok height) updates b s = s

pub Step-IsSound :
    (env : Env) (b : Bridge) (out : Outcome Bridge) → Step env b out → IsSound b → Safe IsSound out
Step-IsSound env b _ (Step.validators svc key_gen last_height updates _) s =
    validators-IsSound env svc key_gen last_height updates b s
Step-IsSound env b _ (Step.joltify_block svc height _ ready) s =
    jolt_block-IsSound env svc ready height b s
Step-IsSound env b _ (Step.joltify_transfer query_account code height tx_hash decoded _) s =
    tx-IsSound env query_account code height tx_hash decoded b s
Step-IsSound env b _ (Step.pub_block svc client number check_each_tx block _ fits able) s =
    pub_block-IsSound env svc client able number check_each_tx block b fits s
Step-IsSound env b _ (Step.inbound svc _ ready) s = inbound-IsSound env svc ready b s
Step-IsSound env b _ (Step.outbound svc client _ able) s = outbound-IsSound env svc client able b s
Step-IsSound env b _ (Step.inbound_check svc before after (item, index) _ e) s =
    let l =
      busy_knows b s (λ idle. middle_ne before (item, index) after (sym e ∙ idle.no_checks)) in
    inbound_checked-IsSound env svc item index (record b { inbound_checks = before ++ after })
      (known-IsSound b (record b { inbound_checks = before ++ after }) s l refl refl s.inbound_valid
        s.outbound_valid refl refl)
      l
Step-IsSound env b _ (Step.outbound_check client before after (item, tx_hash) _ e) s =
    let l =
      busy_knows b s
        (λ idle. middle_ne before (item, tx_hash) after (sym e ∙ idle.no_outbound_checks)) in
    outbound_checked-IsSound env client item tx_hash
      (record b { outbound_checks = before ++ after })
      (known-IsSound b (record b { outbound_checks = before ++ after }) s l refl refl
        s.inbound_valid s.outbound_valid refl refl)
      l

pub Reaches-IsSound :
    (env : Env) (token_addr : String) (b : Bridge) → Reaches env token_addr b → IsSound b
Reaches-IsSound env token_addr _ (Reaches.begin startup members _) =
    start-IsSound token_addr members
Reaches-IsSound env token_addr b (Reaches.next b0 _ r step) =
    Step-IsSound env b0 (done b) step (Reaches-IsSound env token_addr b0 r)

-- Let every event meet what its step asks: the configured decimals parse; the signatures of the key
-- server and those of a block's transactions fit 32 bytes; a gas limit fits an int64; the product of the gas
-- price, the gas and their ratio fits sdk.Dec; in a block of the public chain, the amount in the input of a
-- transaction to the bridge's token that names a pool fits sdk.Int, and so does each fee that waits with the
-- values of the block's transactions added. In every state that the loop then reaches from its start, by any
-- events in any order, none of its cases and none of its goroutines panics: no nil pool is dereferenced and
-- no type assertion fails.
pub Reaches-never_panics :
    (env : Env) (token_addr : String) (b : Bridge) (out : Outcome Bridge)
    → Reaches env token_addr b
    → Step env b out
    → out ≢ panics
Reaches-never_panics env token_addr b out r step e =
    subst (Safe IsSound) e (Step-IsSound env b out step (Reaches-IsSound env token_addr b r))

-- In every state that the loop reaches, the two instances know the same two pools.
pub Reaches-same_pools :
    (env : Env) (token_addr : String) (b : Bridge)
    → Reaches env token_addr b
    → b.pi.last_two_pools ≡ b.jolt_chain.last_two_pools
Reaches-same_pools env token_addr b r = (Reaches-IsSound env token_addr b r).lockstep
