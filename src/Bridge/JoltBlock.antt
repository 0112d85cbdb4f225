-- ===== src/Bridge/JoltBlock.antt =====
-- bridge/joltifyBridge.go: the case of a new block of the joltify chain.
use oppy_bridge.Common.{
  Bool, true, false, not, Option, none, some, List, [], ◌∷◌, if◌then◌else◌, ◌==◌, nat_key,
  string_key, bytes_key,
}
use oppy_bridge.Common.Int.{ℤ, pos, add64, sub64}
use oppy_bridge.Common.Outcome.{Outcome, done, panics, ◌>>=◌}
use oppy_bridge.Common.Result.{Result, ok, err}
use oppy_bridge.Config.{min_check_block_gap}
use oppy_bridge.External.{VaultPool, Env}
use oppy_bridge.Pool.{PoolInfo}
use oppy_bridge.Pubchain.State.{
  PubChainInstance, set_item_height, pop_inbound_item, send_inbound, add_pub_move_fund,
  update_pub_pool, get_pub_pool,
}
use oppy_bridge.Joltify.State.{add_jolt_move_fund, pop_jolt_move_fund, update_jolt_pool}
use oppy_bridge.Joltify.Service.{JoltService, check_whether_signer, move_jolt_funds}
use oppy_bridge.Joltify.Membership.{check_and_update_pool}
use oppy_bridge.Bridge.{Bridge, need_update}

-- `h-config.MINCHECKBLOCKGAP+5` on int64
abbrev pub move_height : ℤ → ℤ
move_height h = add64 (sub64 h min_check_block_gap) (pos 5)

module _ (height : ℤ) where
  -- A request of the retry pool goes to the channel again, at this height.
  unfoldable pub retry_inbound : PubChainInstance → Outcome PubChainInstance
  retry_inbound pi = do
    popped ← pop_inbound_item pi
    elim popped.0 [
      | none ↦ done popped.1
      | some item ↦ send_inbound (set_item_height height item) popped.1
    ]

  -- The pool that UpdatePool returns is put into both queues unless its key is that of the new pool;
  -- a nil pool is dereferenced.
  unfoldable pub retire : VaultPool → Option PoolInfo → Bridge → Outcome Bridge
  retire latest none b = panics
  retire latest (some previous_pool) b =
      if not (previous_pool.pk == latest.pool_pub_key)
      then done (record b {
        jolt_chain = add_jolt_move_fund previous_pool (move_height height) b.jolt_chain;
        pi = add_pub_move_fund previous_pool (move_height b.pi.current_height) b.pi;
      })
      else done b

module _ (env : Env) where
  -- UpdatePool of both instances; an error of the first is only logged.
  unfoldable pub update_both : VaultPool → Bridge → Bridge
  update_both pool b = record b {
    pi = (update_pub_pool env (some pool) b.pi).1;
    jolt_chain = (update_jolt_pool env pool b.jolt_chain).1;
  }

  -- The first pools: each of the query, in the query's order.
  unfoldable pub fill_pools : List VaultPool → Bridge → Bridge
  fill_pools [] b = b
  fill_pools (el ∷ pools) b = fill_pools pools (update_both el b)

module _ (env : Env) (height : ℤ) where
  -- The new pool, where NeedUpdate asks for it.
  unfoldable pub rotate : VaultPool → Bool → Bridge → Outcome Bridge
  rotate latest false b = done b
  rotate latest true b =
      retire height latest (update_jolt_pool env latest b.jolt_chain).0 (update_both env latest b)

-- What the results of MoveFunds do to the queue: the pool is put back unless its account is empty.
unfoldable pub requeue_jolt : ℤ → PoolInfo → Bool × Result (Unit {0}) → Bridge → Bridge
requeue_jolt height previous_pool (true, _) b = b
requeue_jolt height previous_pool (false, _) b = record b {
  jolt_chain = add_jolt_move_fund previous_pool height b.jolt_chain;
}

module _ (env : Env) (svc : JoltService) (height : ℤ) where
  -- MoveFunds of a pool that was taken out of the queue, by a signer of that pool.
  unfoldable pub move_retired : VaultPool → PoolInfo → Bridge → Outcome Bridge
  move_retired latest previous_pool b = elim (check_whether_signer svc previous_pool.pool_info) [
    | err e ↦ done b
    | ok is_signer ↦
        if not is_signer
        then done b
        else (move_jolt_funds svc env previous_pool latest.pool_addr height >>= λ moved.
            done (requeue_jolt height previous_pool moved b))
  ]

  unfoldable pub move_jolt_queue : VaultPool → Bridge → Outcome Bridge
  move_jolt_queue latest b = do
    popped ← pop_jolt_move_fund height b.jolt_chain
    elim popped.0 [
      | none ↦ done (record b { jolt_chain = popped.1 })
      | some entry ↦ move_retired latest entry.0 (record b { jolt_chain = popped.1 })
    ]

  -- The case from the test of the current pools on.
  unfoldable pub follow_pools : VaultPool → VaultPool → Bridge → Outcome Bridge
  follow_pools q0 q1 b = elim (get_pub_pool b.pi).pool0 [
    | none ↦ done (fill_pools env (q0 ∷ q1 ∷ []) b)
    | some _ ↦ do
      need ← need_update env (q0 ∷ q1 ∷ []) (get_pub_pool b.pi)
      rotated ← rotate env height q0 need b
      move_jolt_queue q0 rotated
  ]

  unfoldable pub with_pools : List VaultPool → Bridge → Outcome Bridge
  with_pools (q0 ∷ q1 ∷ []) b = do
    retried ← retry_inbound height b.pi
    follow_pools q0 q1 (record b { pi = retried })
  with_pools [] b = done b
  with_pools (_ ∷ []) b = done b
  with_pools (_ ∷ _ ∷ _ ∷ _) b = done b

  -- The case of newBlockChan after CheckAndUpdatePool.
  unfoldable pub follow_block : Bridge → Outcome Bridge
  follow_block b =
      let at = record b { jolt_chain = record b.jolt_chain { current_height = height } } in
      elim svc.last_pools [ err e ↦ done at | ok pool_info ↦ with_pools pool_info at ]

  -- The case of newBlockChan
  unfoldable pub new_joltify_block : Bridge → Outcome Bridge
  new_joltify_block b = do
    checked ← check_and_update_pool env svc.cosmos height b.membership
    follow_block (record b { membership = checked.1 })
