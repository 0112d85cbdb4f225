-- ===== src/Bridge/Settling.antt =====
-- bridge/joltifyBridge.go, bridge/helper.go: how the two known pools come into their order.
use oppy_bridge.Common.{
  ap₂, ◌≡◌, refl, ap, ◌∙◌, ◌≢◌, inl, inr, true, false, not, ◌&&◌, none, some, [], ◌∷◌, arith, ◌==◌,
  nat_key, string_key, bytes_key, beq_refl, beq-ne,
}
use oppy_bridge.Common.Int.{ℤ}
use oppy_bridge.Common.Outcome.{done}
use oppy_bridge.Common.Result.{ok, Result-cases}
use oppy_bridge.External.{VaultPool, Env}
use oppy_bridge.Misc.Keys.{pool_pub_key_to_jolt_address, pool_pub_key_to_eth_address}
use oppy_bridge.Pool.{PoolInfo, no_pools, push_pool}
use oppy_bridge.Pubchain.State.{pool_of}
use oppy_bridge.Joltify.State.{jolt_pool_of}
use oppy_bridge.Bridge.{Bridge, need_update, compare_pools, jolt_address_of}
use oppy_bridge.Bridge.JoltBlock.{update_both, fill_pools, rotate, retire}
use oppy_bridge.Bridge.Sound.Pools.{update_both_stores, jolt_stores}

abbrev pub with_both : PoolInfo → PoolInfo → Bridge → Bridge
with_both old latest b = record b {
  pi = record b.pi { last_two_pools = record { pool0 = some old; pool1 = some latest } };
  jolt_chain = record b.jolt_chain {
    last_two_pools = record { pool0 = some old; pool1 = some latest };
  };
}

pool_fields :
    (env : Env) (q : VaultPool) (p : PoolInfo)
    → pool_of env q ≡ ok p
    → (jolt_address_of env q.pool_pub_key ≡ ok p.joltify_address) × (p.pk ≡ q.pool_pub_key)
unfolding pool_of
pool_fields env q p e = elim (Result-cases (pool_pub_key_to_jolt_address env q.pool_pub_key)) [
  | inr (t, j) ↦ absurd (ground (arith, j, e))
  | inl (addr, j) ↦ elim (Result-cases (pool_pub_key_to_eth_address env q.pool_pub_key)) [
    | inr (t, h) ↦ absurd (ground (arith, j, h, e))
    | inl (eth, h) ↦ (ground (arith, j, h, e), ground (arith, j, h, e))
  ]
]

-- A pool that is known already is not retired.
same_key :
    (height : ℤ) (q : VaultPool) (p : PoolInfo) (b : Bridge)
    → p.pk ≡ q.pool_pub_key
    → retire height q (some p) b ≡ done b
unfolding retire
same_key height q p b e = rw (retire, (string_key.same_iff p.pk q.pool_pub_key).1 e) refl

need_answer :
    (env : Env) (q0 q1 : VaultPool) (p0 p1 cur0 cur1 : PoolInfo)
    → jolt_address_of env q0.pool_pub_key ≡ ok p0.joltify_address
    → jolt_address_of env q1.pool_pub_key ≡ ok p1.joltify_address
    → need_update env (q0 ∷ q1 ∷ []) (record { pool0 = some cur0; pool1 = some cur1 })
      ≡ done (
          not (
            p0.joltify_address == cur1.joltify_address
            && p1.joltify_address == cur0.joltify_address))
unfolding need_update compare_pools
need_answer env q0 q1 p0 p1 cur0 cur1 e0 e1 = rw (need_update, compare_pools, e0, e1) refl

module _ (env : Env) (q0 q1 : VaultPool) (p0 p1 : PoolInfo) (a0 : pool_of env q0 ≡ ok p0)
    (j0 : jolt_pool_of env q0 ≡ ok p0) (a1 : pool_of env q1 ≡ ok p1)
    (j1 : jolt_pool_of env q1 ≡ ok p1) where
  filled :
      (b : Bridge)
      → b.pi.last_two_pools ≡ no_pools
      → b.jolt_chain.last_two_pools ≡ no_pools
      → fill_pools env (q0 ∷ q1 ∷ []) b ≡ with_both p0 p1 b
  unfolding fill_pools push_pool
  filled b n m =
      let first =
        update_both_stores env q0 b p0 a0 j0
        ∙ ap₂
            (λ x y. record b {
              pi = record b.pi { last_two_pools = push_pool p0 x };
              jolt_chain = record b.jolt_chain { last_two_pools = push_pool p0 y };
            })
            n m in
      let one = record b {
        pi = record b.pi { last_two_pools = record { pool0 = none; pool1 = some p0 } };
        jolt_chain = record b.jolt_chain {
          last_two_pools = record { pool0 = none; pool1 = some p0 };
        };
      } in
      ap (update_both env q1) first ∙ update_both_stores env q1 one p1 a1 j1

  rotated :
      (height : ℤ) (b : Bridge)
      → rotate env height q0 true (with_both p0 p1 b) ≡ done (with_both p1 p0 b)
  unfolding rotate push_pool
  rotated height b =
      let both = with_both p0 p1 b in
      ap₂ (retire height q0) (ap (λ o. o.0) (jolt_stores env q0 both.pi both.jolt_chain p0 j0))
        (update_both_stores env q0 both p0 a0 j0)
      ∙ same_key height q0 p0 (with_both p1 p0 b) (pool_fields env q0 p0 a0).1

  -- Where no pool is known, and both pools of the query, the latest first, have addresses and those on the
  -- joltify chain differ: the first block puts the latest at index 0 and the older at index 1, and NeedUpdate
  -- then asks for an update; the next block with the same query puts them to their places, with nothing put
  -- into either queue, and NeedUpdate asks for no further one.
  pub pools_settle :
      (height : ℤ) (b : Bridge)
      → b.pi.last_two_pools ≡ no_pools
      → b.jolt_chain.last_two_pools ≡ no_pools
      → p0.joltify_address ≢ p1.joltify_address
      → (fill_pools env (q0 ∷ q1 ∷ []) b ≡ with_both p0 p1 b)
        × (need_update env (q0 ∷ q1 ∷ []) (with_both p0 p1 b).pi.last_two_pools ≡ done true)
        × (rotate env height q0 true (with_both p0 p1 b) ≡ done (with_both p1 p0 b))
        × (need_update env (q0 ∷ q1 ∷ []) (with_both p1 p0 b).pi.last_two_pools ≡ done false)
  pools_settle height b n m differ =
      let f0 = pool_fields env q0 p0 a0 in
      let f1 = pool_fields env q1 p1 a1 in
      (
        filled b n m,
        need_answer env q0 q1 p0 p1 p0 p1 f0.0 f1.0
            ∙ ap (λ x. done (not (x && (p1.joltify_address == p0.joltify_address))))
                (beq-ne p0.joltify_address p1.joltify_address differ),
        rotated height b,
        need_answer env q0 q1 p0 p1 p1 p0 f0.0 f1.0
            ∙ ap₂ (λ x y. done (not (x && y))) (beq_refl p0.joltify_address)
                (beq_refl p1.joltify_address),
      )
