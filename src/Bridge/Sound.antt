-- ===== src/Bridge/Sound.antt =====
-- bridge/: what holds between two turns of the loop. The two instances know the same pools; the queues
-- can be popped; and while no pool is known there is nothing to do.
pub mod Pools
pub mod OnRotation
pub mod OnJoltBlock
pub mod OnPubBlock
pub mod OnRequests
pub mod OnTransfers
use oppy_bridge.Common.{
  ℕ, String, ◌≡◌, refl, ◌⊎◌, inr, Option, some, List, [], arith, if◌then◌else◌, Key, nat_key,
  string_key, bytes_key,
}
use oppy_bridge.Common.Int.{ℤ, int_key}
use oppy_bridge.External.{Bytes}
use oppy_bridge.Pool.{PoolInfo, TwoPools, no_pools}
use oppy_bridge.RetryPool.{RetryPool}
use oppy_bridge.RetryPool.Max.{IsValid}
use oppy_bridge.SyncMap.{SyncMap}
use oppy_bridge.SyncMap.Distinct.{IsDistinct}
use oppy_bridge.Pubchain.State.{InboundReq, new_chain_instance}
use oppy_bridge.Joltify.State.{OutBoundReq, new_joltify_bridge}
use oppy_bridge.Joltify.Membership.{Membership}
use oppy_bridge.Bridge.{Bridge, start}

abbrev pub Latest : TwoPools → Type 0
Latest pools = (p : PoolInfo) × (pools.pool1 ≡ some p)

module _ (pools jolt_pools : TwoPools) (inbound : RetryPool InboundReq)
    (outbound : RetryPool OutBoundReq) (moves jolt_moves : SyncMap ℤ PoolInfo)
    (inbound_chan : List InboundReq) (outbound_chan : List OutBoundReq)
    (inbound_checks : List (InboundReq × Option ℕ))
    (outbound_checks : List (OutBoundReq × Bytes)) where
  -- No pool is known, and no request and no retired pool is there.
  pub record NothingToDo : Type 0 where
    pub unknown : pools ≡ no_pools
    pub no_retries : inbound.entries ≡ []
    pub no_outbound_retries : outbound.entries ≡ []
    pub no_moves : moves ≡ []
    pub no_requests : inbound_chan ≡ []
    pub no_outbound_requests : outbound_chan ≡ []
    pub no_checks : inbound_checks ≡ []
    pub no_outbound_checks : outbound_checks ≡ []

  pub record Fields : Type 0 where
    pub lockstep : pools ≡ jolt_pools
    pub inbound_valid : IsValid inbound
    pub outbound_valid : IsValid outbound
    pub moves_distinct : IsDistinct moves
    pub jolt_moves_distinct : IsDistinct jolt_moves
    pub known : Latest pools ⊎ NothingToDo

abbrev pub IsSound : Bridge → Type 0
IsSound b =
    Fields b.pi.last_two_pools b.jolt_chain.last_two_pools b.pi.retry_inbound_req
      b.jolt_chain.retry_outbound_req b.pi.move_fund_req b.jolt_chain.move_fund_req
      b.pi.inbound_req_chan b.jolt_chain.outbound_req_chan b.inbound_checks b.outbound_checks

abbrev pub IsIdle : Bridge → Type 0
IsIdle b =
    NothingToDo b.pi.last_two_pools b.jolt_chain.last_two_pools b.pi.retry_inbound_req
      b.jolt_chain.retry_outbound_req b.pi.move_fund_req b.jolt_chain.move_fund_req
      b.pi.inbound_req_chan b.jolt_chain.outbound_req_chan b.inbound_checks b.outbound_checks

pub start-IsSound :
    (token_addr : String) (members : Membership) → IsSound (start token_addr members)
unfolding start new_joltify_bridge new_chain_instance
start-IsSound token_addr members = record {
  lockstep = refl;
  inbound_valid = record { distinct = tt; below = tt };
  outbound_valid = record { distinct = tt; below = tt };
  moves_distinct = tt;
  jolt_moves_distinct = tt;
  known = inr (record {
    unknown = refl;
    no_retries = refl;
    no_outbound_retries = refl;
    no_moves = refl;
    no_requests = refl;
    no_outbound_requests = refl;
    no_checks = refl;
    no_outbound_checks = refl;
  });
}
