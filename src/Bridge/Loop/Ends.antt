-- ===== src/Bridge/Loop/Ends.antt =====
-- bridge/joltifyBridge.go: every turn of the loop comes to its end where the two channels have room.
use oppy_bridge.Common.{String, ◌≡◌, ◌<◌, subst, length}
use oppy_bridge.Common.Outcome.{Outcome, done}
use oppy_bridge.Config.{req_cache_size}
use oppy_bridge.External.{Env}
use oppy_bridge.Bridge.{Bridge}
use oppy_bridge.Bridge.Sound.{IsSound}
use oppy_bridge.Bridge.Room.{Open, Safe-Open}
use oppy_bridge.Bridge.Room.OnJoltBlock.{jolt_block-Open}
use oppy_bridge.Bridge.Room.OnPubBlock.{BlockHasRoom, pub_block-Open}
use oppy_bridge.Bridge.Room.OnRequests.{inbound-Open, outbound-Open}
use oppy_bridge.Bridge.Loop.{Step, Reaches}
use oppy_bridge.Bridge.Loop.Sound.{Step-IsSound, Reaches-IsSound}

-- The room that an event needs: a block of the joltify chain that of one request to mint, a block of
-- the public chain that of one request to each transaction, and of one transfer to send.
abbrev pub HasRoom : (env : Env) (b : Bridge) (out : Outcome Bridge) → Step env b out → Type 0
HasRoom env b _ (Step.joltify_block svc height _ ready) =
    length b.pi.inbound_req_chan < req_cache_size
HasRoom env b _ (Step.pub_block svc client number check_each_tx block _ fits able) =
    BlockHasRoom block b.pi × (length b.jolt_chain.outbound_req_chan < req_cache_size)
HasRoom env b _ (Step.validators svc key_gen last_height updates _) = Unit {0}
HasRoom env b _ (Step.joltify_transfer query_account code height tx_hash decoded _) = Unit {0}
HasRoom env b _ (Step.inbound svc _ ready) = Unit {0}
HasRoom env b _ (Step.outbound svc client _ able) = Unit {0}
HasRoom env b _ (Step.inbound_check svc before after check _ e) = Unit {0}
HasRoom env b _ (Step.outbound_check client before after check _ e) = Unit {0}

Step-Open :
    (env : Env) (b : Bridge) (out : Outcome Bridge) (step : Step env b out)
    → IsSound b
    → HasRoom env b out step
    → Open out
Step-Open env b _ (Step.joltify_block svc height _ ready) s room =
    jolt_block-Open env svc ready height b room
Step-Open env b _ (Step.pub_block svc client number check_each_tx block _ fits able) s room =
    pub_block-Open env svc client able number check_each_tx block b fits room.0 room.1
Step-Open env b _ (Step.validators svc key_gen last_height updates _) s room = tt
Step-Open env b _ (Step.joltify_transfer query_account code height tx_hash decoded _) s room = tt
Step-Open env b _ (Step.inbound svc _ ready) s room = inbound-Open env svc ready b
Step-Open env b _ (Step.outbound svc client _ able) s room =
    outbound-Open env svc client able b s.lockstep
Step-Open env b _ (Step.inbound_check svc before after check _ e) s room = tt
Step-Open env b _ (Step.outbound_check client before after check _ e) s room = tt

-- In a state that the loop reaches, let an event meet what its step asks (decimals, signatures, gas and the
-- amounts of a block within bounds, as for the theorem that no case panics), and let the channels have the room that it may need: for a block of the joltify chain
-- one place of InboundReqChan, for a block of the public chain one to each of its transactions and one of
-- OutboundReqChan, and none for any other event. Then its case comes to its end, with a state: it
-- neither panics nor blocks.
pub Reaches-ends :
    (env : Env) (token_addr : String) (b : Bridge) (out : Outcome Bridge)
    → Reaches env token_addr b
    → (step : Step env b out) → HasRoom env b out step
    → (b' : Bridge) × (out ≡ done b') × Reaches env token_addr b'
Reaches-ends env token_addr b out r step room =
    let s = Reaches-IsSound env token_addr b r in
    let (b', e, _) =
      Safe-Open IsSound out (Step-IsSound env b out step s) (Step-Open env b out step s room) in
    (b', e, Reaches.next b b' r (subst (Step env b) e step))
