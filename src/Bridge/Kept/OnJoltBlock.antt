-- ===== src/Bridge/Kept/OnJoltBlock.antt =====
-- bridge/joltifyBridge.go: a block of the joltify chain leaves the places of both directions alone, but for
-- the retry of a request to mint.
use oppy_bridge.Common.{
  ◌≡◌, refl, sym, subst, inl, inr, Bool, true, false, Option, none, some, List, [], ◌∷◌, ◌==◌,
  nat_key, string_key, bytes_key, Bool-cases, Option-cases,
}
use oppy_bridge.Common.Int.{ℤ}
use oppy_bridge.Pubchain.State.{add_pub_move_fund, pool_of, update_pub_pool}
use oppy_bridge.Bridge.Kept.{Places, At}
use oppy_bridge.Common.Outcome.{Outcome, done, panics, blocked, Ensures, Ensures-bind, Ensures-last}
use oppy_bridge.Common.Result.{Result, Result-cases}
use oppy_bridge.External.{VaultPool, Env}
use oppy_bridge.Pool.{PoolInfo}
use oppy_bridge.MoveFundQueue
use oppy_bridge.SyncMap.{SyncMap}
use oppy_bridge.Joltify.State.{
  pop_jolt_move_fund, update_jolt_pool, jolt_pool_of, add_jolt_move_fund,
}
use oppy_bridge.Joltify.Service.{JoltService, check_whether_signer, move_jolt_funds}
use oppy_bridge.Joltify.Membership.{check_and_update_pool}
use oppy_bridge.Bridge.{Bridge, need_update}
use oppy_bridge.Bridge.JoltBlock.{
  retry_inbound, retire, update_both, fill_pools, rotate, requeue_jolt, move_retired,
  move_jolt_queue, follow_pools, with_pools, follow_block, new_joltify_block,
}
use oppy_bridge.Bridge.Sound.OnJoltBlock.{pools_unknown, pools_known}

module _ (Q : Places) where
  update-At : (env : Env) (pool : VaultPool) (b : Bridge) → At Q b → At Q (update_both env pool b)
  unfolding update_both update_jolt_pool update_pub_pool
  update-At env pool b p = elim (Result-cases (jolt_pool_of env pool)) [
    | inr (e, j) ↦ elim (Result-cases (pool_of env pool)) [
      | inr (e', k) ↦ rw (j, k, update_both, update_jolt_pool, update_pub_pool) p
      | inl (q', k) ↦ rw (j, k, update_both, update_jolt_pool, update_pub_pool) p
    ]
    | inl (q, j) ↦ elim (Result-cases (pool_of env pool)) [
      | inr (e', k) ↦ rw (j, k, update_both, update_jolt_pool, update_pub_pool) p
      | inl (q', k) ↦ rw (j, k, update_both, update_jolt_pool, update_pub_pool) p
    ]
  ]

  fill-At :
      (env : Env) (pools : List VaultPool) (b : Bridge) → At Q b → At Q (fill_pools env pools b)
  unfolding fill_pools
  fill-At env [] b p = p
  fill-At env (el ∷ pools) b p = fill-At env pools (update_both env el b) (update-At env el b p)

  retire-At :
      (height : ℤ) (latest : VaultPool) (previous : Option PoolInfo) (b : Bridge)
      → At Q b
      → Ensures (At Q) (retire height latest previous b)
  unfolding retire add_jolt_move_fund add_pub_move_fund
  retire-At height latest none b p = tt
  retire-At height latest (some previous) b p =
      elim (Bool-cases (previous.pk == latest.pool_pub_key)) [
        | inl same ↦ rw (same, retire) p
        | inr other ↦ rw (other, retire) p
      ]

  rotate-At :
      (env : Env) (height : ℤ) (latest : VaultPool) (need : Bool) (b : Bridge)
      → At Q b
      → Ensures (At Q) (rotate env height latest need b)
  unfolding rotate
  rotate-At env height latest false b p = p
  rotate-At env height latest true b p =
      retire-At height latest (update_jolt_pool env latest b.jolt_chain).0
        (update_both env latest b) (update-At env latest b p)

  requeue-At :
      (height : ℤ) (previous : PoolInfo) (moved : Bool × Result (Unit {0})) (b : Bridge)
      → At Q b
      → At Q (requeue_jolt height previous moved b)
  unfolding requeue_jolt add_jolt_move_fund
  requeue-At height previous (true, r) b p = p
  requeue-At height previous (false, r) b p = p

  module _ (env : Env) (svc : JoltService) (height : ℤ) where
    retired-At :
        (latest : VaultPool) (previous : PoolInfo) (b : Bridge)
        → At Q b
        → Ensures (At Q) (move_retired env svc height latest previous b)
    unfolding move_retired
    retired-At latest previous b p =
        elim (Result-cases (check_whether_signer svc previous.pool_info)) [
          | inr (e, c) ↦ rw (c, move_retired) p
          | inl (false, c) ↦ rw (c, move_retired) p
          | inl (true, c) ↦
              rw (c, move_retired)
                (Ensures-last (At Q) (move_jolt_funds svc env previous latest.pool_addr height)
                  (λ m. requeue_jolt height previous m b) (λ m _. requeue-At height previous m b p))
        ]

    queue-At :
        (latest : VaultPool) (b : Bridge)
        → At Q b
        → Ensures (At Q) (move_jolt_queue env svc height latest b)
    unfolding move_jolt_queue pop_jolt_move_fund
    queue-At latest b p =
        from_pop (MoveFundQueue.pop_move_fund_item_after_block height b.jolt_chain.move_fund_req)
          refl
      where
        popped :
            (m : SyncMap ℤ PoolInfo)
            → At Q (record b { jolt_chain = record b.jolt_chain { move_fund_req = m } })
        popped m = p

        from_pop :
            (out : Outcome (Option (PoolInfo × ℤ) × SyncMap ℤ PoolInfo))
            → MoveFundQueue.pop_move_fund_item_after_block height b.jolt_chain.move_fund_req ≡ out
            → Ensures (At Q) (move_jolt_queue env svc height latest b)
        from_pop (done (none, m)) e = rw (e, move_jolt_queue, pop_jolt_move_fund) (popped m)
        from_pop (done (some entry, m)) e =
            rw (e, move_jolt_queue, pop_jolt_move_fund)
              (retired-At latest entry.0
                (record b { jolt_chain = record b.jolt_chain { move_fund_req = m } }) (popped m))
        from_pop panics e = rw (e, move_jolt_queue, pop_jolt_move_fund) tt
        from_pop blocked e = rw (e, move_jolt_queue, pop_jolt_move_fund) tt

    follow-At :
        (q0 q1 : VaultPool) (b : Bridge)
        → At Q b
        → Ensures (At Q) (follow_pools env svc height q0 q1 b)
    unfolding follow_pools
    follow-At q0 q1 b p = elim (Option-cases b.pi.last_two_pools.pool0) [
      | inl unknown ↦ rw (unknown, follow_pools) (fill-At env (q0 ∷ q1 ∷ []) b p)
      | inr (cur0, known) ↦
          rw (known, follow_pools)
            (Ensures-bind (At Q) (need_update env (q0 ∷ q1 ∷ []) b.pi.last_two_pools) _ (λ need _.
              Ensures-bind (At Q) (rotate env height q0 need b) _ (λ rotated e.
                queue-At q0 rotated (subst (Ensures (At Q)) e (rotate-At env height q0 need b p)))))
    ]

    -- A retry keeps the statement.
    abbrev pub RetryKeeps : Bridge → Type 0
    RetryKeeps b = Ensures (λ pi. At Q (record b { pi = pi })) (retry_inbound height b.pi)

    with-At :
        (pools : List VaultPool) (b : Bridge)
        → At Q b
        → RetryKeeps b
        → Ensures (At Q) (with_pools env svc height pools b)
    unfolding with_pools
    with-At [] b p r = p
    with-At (q0 ∷ []) b p r = p
    with-At (q0 ∷ q1 ∷ []) b p r = Ensures-bind (At Q) (retry_inbound height b.pi) _ (λ pi e.
        follow-At q0 q1 (record b { pi = pi })
          (subst (Ensures (λ pi. At Q (record b { pi = pi }))) e r))
    with-At (q0 ∷ q1 ∷ q2 ∷ l) b p r = p

    block-At : (b : Bridge) → At Q b → RetryKeeps b → Ensures (At Q) (follow_block env svc height b)
    block-At b p r =
        let at = record b { jolt_chain = record b.jolt_chain { current_height = height } } in
        elim (Result-cases svc.last_pools) [
          | inr (e, q) ↦ subst (Ensures (At Q)) (sym (pools_unknown env svc height b e q)) p
          | inl (pools, q) ↦
              subst (Ensures (At Q)) (sym (pools_known env svc height b pools q))
                (with-At pools at p r)
        ]

    pub jolt_block-At :
        (b : Bridge) → At Q b → RetryKeeps b → Ensures (At Q) (new_joltify_block env svc height b)
    unfolding new_joltify_block
    jolt_block-At b p r =
        Ensures-bind (At Q) (check_and_update_pool env svc.cosmos height b.membership) _
          (λ o _. block-At (record b { membership = o.1 }) p r)
