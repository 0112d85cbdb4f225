-- ===== src/Bridge/Sound/Pools.antt =====
-- UpdatePool of both instances (pubchain/tx_inbound.go, joltifybridge/tx_outbound.go) and NeedUpdate
-- (bridge/helper.go): the two instances accept the same pools.
use oppy_bridge.Common.{
  ap₂, String, ◌≡◌, refl, sym, ap, subst, ◌⊎◌, inl, inr, true, false, ◌&&◌, none, some, [], ◌∷◌,
  arith, ◌==◌, nat_key, string_key, bytes_key, Bool-cases,
}
use oppy_bridge.Common.Int.{int_key}
use oppy_bridge.Common.Outcome.{done}
use oppy_bridge.Common.Result.{ok, err, Result-cases}
use oppy_bridge.External.{Bytes, VaultPool, Env}
use oppy_bridge.Misc.Keys.{pool_pub_key_to_jolt_address, pool_pub_key_to_eth_address}
use oppy_bridge.Pool.{PoolInfo, TwoPools, push_pool}
use oppy_bridge.Pubchain.State.{PubChainInstance, pool_of, update_pub_pool}
use oppy_bridge.Joltify.State.{JoltifyChainInstance, jolt_pool_of, update_jolt_pool}
use oppy_bridge.Bridge.{Bridge, need_update, compare_pools, jolt_address_of}
use oppy_bridge.Bridge.JoltBlock.{update_both}
use oppy_bridge.Bridge.Sound.{Latest, IsSound}

-- The key of a pool has both addresses, and both instances make the same record of it; or it has neither,
-- and neither stores anything.
abbrev pub SamePool : Env → VaultPool → Type 0
SamePool env pool =
    ((p : PoolInfo) × (pool_of env pool ≡ ok p) × (jolt_pool_of env pool ≡ ok p))
    ⊎ ((e : String) × (e' : String) × (pool_of env pool ≡ err e)
        × (jolt_pool_of env pool ≡ err e')
        × ((a : Bytes) → jolt_address_of env pool.pool_pub_key ≡ ok a → ⊥))

pub same_pool : (env : Env) (pool : VaultPool) → SamePool env pool
unfolding pool_of jolt_pool_of
same_pool env pool = elim (Result-cases (pool_pub_key_to_jolt_address env pool.pool_pub_key)) [
  | inr (e, j) ↦ elim (Result-cases (pool_pub_key_to_eth_address env pool.pool_pub_key)) [
    | inr (e', h) ↦
        inr (e, e', rw (j, pool_of) refl, rw (h, jolt_pool_of) refl, λ a q. ground (arith, h, q))
    | inl (eth, h) ↦
        inr
          (e, e, rw (j, pool_of) refl, rw (h, j, jolt_pool_of) refl, λ a q. ground (arith, h, j, q))
  ]
  | inl (addr, j) ↦ elim (Result-cases (pool_pub_key_to_eth_address env pool.pool_pub_key)) [
    | inr (e', h) ↦
        inr
          (e', e', rw (j, h, pool_of) refl, rw (h, jolt_pool_of) refl, λ a q. ground (arith, h, q))
    | inl (eth, h) ↦ inl (
      record {
        pk = pool.pool_pub_key;
        joltify_address = addr;
        eth_address = eth;
        pool_info = pool;
      },
      rw (j, h, pool_of) refl,
      rw (h, j, jolt_pool_of) refl,
    )
  ]
]

pub push-Latest : (p : PoolInfo) (pools : TwoPools) → Latest (push_pool p pools)
unfolding push_pool
push-Latest p pools = (p, ground arith)

module _ (env : Env) (pool : VaultPool) (pi : PubChainInstance) (jc : JoltifyChainInstance) where
  pub pub_stores :
      (p : PoolInfo)
      → pool_of env pool ≡ ok p
      → (update_pub_pool env (some pool) pi).1
        ≡ record pi { last_two_pools = push_pool p pi.last_two_pools }
  unfolding update_pub_pool
  pub_stores p e = ground (arith, e)

  pub pub_rejects :
      (e : String) → pool_of env pool ≡ err e → (update_pub_pool env (some pool) pi).1 ≡ pi
  unfolding update_pub_pool
  pub_rejects t e = ground (arith, e)

  pub jolt_stores :
      (p : PoolInfo)
      → jolt_pool_of env pool ≡ ok p
      → update_jolt_pool env pool jc
        ≡ (jc.last_two_pools.pool0, record jc { last_two_pools = push_pool p jc.last_two_pools })
  unfolding update_jolt_pool
  jolt_stores p e = ground (arith, e)

  pub jolt_rejects :
      (e : String) → jolt_pool_of env pool ≡ err e → update_jolt_pool env pool jc ≡ (none, jc)
  unfolding update_jolt_pool
  jolt_rejects t e = ground (arith, e)

pub update_both_stores :
    (env : Env) (pool : VaultPool) (b : Bridge) (p : PoolInfo)
    → pool_of env pool ≡ ok p
    → jolt_pool_of env pool ≡ ok p
    → update_both env pool b ≡ record b {
      pi = record b.pi { last_two_pools = push_pool p b.pi.last_two_pools };
      jolt_chain = record b.jolt_chain { last_two_pools = push_pool p b.jolt_chain.last_two_pools };
    }
unfolding update_both
update_both_stores env pool b p e j =
    ap₂ (λ x y. record b { pi = x; jolt_chain = y }) (pub_stores env pool b.pi b.jolt_chain p e)
      (ap (λ o. o.1) (jolt_stores env pool b.pi b.jolt_chain p j))

pub stored-IsSound :
    (p : PoolInfo) (b : Bridge)
    → IsSound b
    → IsSound (record b {
      pi = record b.pi { last_two_pools = push_pool p b.pi.last_two_pools };
      jolt_chain = record b.jolt_chain { last_two_pools = push_pool p b.jolt_chain.last_two_pools };
    })
stored-IsSound p b s = record {
  lockstep = ap (push_pool p) s.lockstep;
  inbound_valid = s.inbound_valid;
  outbound_valid = s.outbound_valid;
  moves_distinct = s.moves_distinct;
  jolt_moves_distinct = s.jolt_moves_distinct;
  known = inl (push-Latest p b.pi.last_two_pools);
}

pub update_both-IsSound :
    (env : Env) (pool : VaultPool) (b : Bridge) → IsSound b → IsSound (update_both env pool b)
unfolding update_both
update_both-IsSound env pool b s = elim (same_pool env pool) [
  | inl (p, e, j) ↦ subst IsSound (sym (update_both_stores env pool b p e j)) (stored-IsSound p b s)
  | inr (e, e', q, j, _) ↦
      subst IsSound
        (sym (
          ap₂ (λ x y. record b { pi = x; jolt_chain = y })
            (pub_rejects env pool b.pi b.jolt_chain e q)
            (ap (λ o. o.1) (jolt_rejects env pool b.pi b.jolt_chain e' j))))
        s
]

-- NeedUpdate of two pools, where two are known: it asks for an update only if the first key has both
-- addresses.
pub need_known :
    (env : Env) (q0 q1 : VaultPool) (pools : TwoPools) (cur0 cur1 : PoolInfo)
    → pools.pool0 ≡ some cur0
    → pools.pool1 ≡ some cur1
    → (need_update env (q0 ∷ q1 ∷ []) pools ≡ done false)
      ⊎ ((need_update env (q0 ∷ q1 ∷ []) pools ≡ done true)
          × ((a : Bytes) × (jolt_address_of env q0.pool_pub_key ≡ ok a)))
unfolding need_update compare_pools
need_known env q0 q1 pools cur0 cur1 e0 e1 =
    elim (Result-cases (jolt_address_of env q0.pool_pub_key)) [
      | inr (e, a) ↦ inl (rw (e0, e1, need_update, compare_pools, a) refl)
      | inl (a0, a) ↦ elim (Result-cases (jolt_address_of env q1.pool_pub_key)) [
        | inr (e, c) ↦ inl (rw (e0, e1, need_update, compare_pools, a, c) refl)
        | inl (a1, c) ↦
            elim (Bool-cases (a0 == cur1.joltify_address && a1 == cur0.joltify_address)) [
              | inl same ↦ inl (rw (e0, e1, need_update, compare_pools, a, c, same) refl)
              | inr other ↦ inr (rw (e0, e1, need_update, compare_pools, a, c, other) refl, (a0, a))
            ]
      ]
    ]
