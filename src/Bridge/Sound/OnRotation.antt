-- ===== src/Bridge/Sound/OnRotation.antt =====
-- bridge/joltifyBridge.go: UpdatePool of both instances, and the pool that it retires.
use oppy_bridge.Common.{
  ◌≡◌, sym, ap, ◌∙◌, subst, inl, inr, true, some, List, [], ◌∷◌, ◌==◌, nat_key, string_key,
  bytes_key, Bool-cases,
}
use oppy_bridge.Common.Int.{ℤ, int_key}
use oppy_bridge.Common.Outcome.{Safe}
use oppy_bridge.Common.Result.{ok}
use oppy_bridge.External.{Bytes, VaultPool, Env}
use oppy_bridge.Pool.{PoolInfo}
use oppy_bridge.MoveFundQueue.Keeps.{add-IsDistinct}
use oppy_bridge.Pubchain.State.{add_pub_move_fund}
use oppy_bridge.Joltify.State.{add_jolt_move_fund, update_jolt_pool}
use oppy_bridge.Bridge.{Bridge, jolt_address_of}
use oppy_bridge.Bridge.JoltBlock.{retire, update_both, fill_pools, rotate, move_height}
use oppy_bridge.Bridge.Sound.{IsSound, Latest}
use oppy_bridge.Bridge.Sound.Pools.{
  same_pool, update_both-IsSound, update_both_stores, jolt_stores, push-Latest,
}

pub fill-IsSound :
    (env : Env) (pools : List VaultPool) (b : Bridge) → IsSound b → IsSound (fill_pools env pools b)
unfolding fill_pools
fill-IsSound env [] b s = s
fill-IsSound env (el ∷ pools) b s =
    fill-IsSound env pools (update_both env el b) (update_both-IsSound env el b s)

-- A pool that goes into both queues.
retired-IsSound :
    (pool : PoolInfo) (h k : ℤ) (b : Bridge)
    → IsSound b
    → Latest b.pi.last_two_pools
    → IsSound (record b {
      jolt_chain = add_jolt_move_fund pool h b.jolt_chain;
      pi = add_pub_move_fund pool k b.pi;
    })
unfolding add_jolt_move_fund add_pub_move_fund
retired-IsSound pool h k b s l = record {
  lockstep = s.lockstep;
  inbound_valid = s.inbound_valid;
  outbound_valid = s.outbound_valid;
  moves_distinct = add-IsDistinct pool k b.pi.move_fund_req s.moves_distinct;
  jolt_moves_distinct = add-IsDistinct pool h b.jolt_chain.move_fund_req s.jolt_moves_distinct;
  known = inl l;
}

retire-IsSound :
    (height : ℤ) (latest : VaultPool) (previous : PoolInfo) (b : Bridge)
    → IsSound b
    → Latest b.pi.last_two_pools
    → Safe IsSound (retire height latest (some previous) b)
unfolding retire
retire-IsSound height latest previous b s l =
    elim (Bool-cases (previous.pk == latest.pool_pub_key)) [
      | inl same ↦ rw (same, retire) s
      | inr other ↦
          rw (other, retire)
            (retired-IsSound previous (move_height height) (move_height b.pi.current_height) b s l)
    ]

pub rotate-IsSound :
    (env : Env) (height : ℤ) (latest : VaultPool) (b : Bridge) (cur0 : PoolInfo) (a : Bytes)
    → IsSound b
    → b.pi.last_two_pools.pool0 ≡ some cur0
    → jolt_address_of env latest.pool_pub_key ≡ ok a
    → Safe IsSound (rotate env height latest true b)
unfolding rotate
rotate-IsSound env height latest b cur0 a s c q = elim (same_pool env latest) [
  | inr (e, e', _, _, bad) ↦ absurd (bad a q)
  | inl (p, e, j) ↦
      let previous : (update_jolt_pool env latest b.jolt_chain).0 ≡ some cur0 =
        ap (λ o. o.0) (jolt_stores env latest b.pi b.jolt_chain p j)
        ∙ ap (λ t. t.pool0) (sym s.lockstep)
        ∙ c in
      subst (λ o. Safe IsSound (retire height latest o (update_both env latest b))) (sym previous)
        (retire-IsSound height latest cur0 (update_both env latest b)
          (update_both-IsSound env latest b s)
          (subst (λ x. Latest x.pi.last_two_pools) (sym (update_both_stores env latest b p e j))
            (push-Latest p b.pi.last_two_pools)))
]
