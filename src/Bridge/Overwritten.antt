-- ===== src/Bridge/Overwritten.antt =====
-- bridge/joltifyBridge.go: a pool that MoveFunds has put back into the queue, and a rotation in the next
-- block of the joltify chain.
use oppy_bridge.Common.{
  ◌≡◌, refl, sym, ◌∙◌, subst, false, some, ◌==◌, if◌then◌else◌, arith, nat_key, string_key,
  bytes_key, Bool-cases, inl, inr,
}
use oppy_bridge.Common.Int.{ℤ, pos, int_key, ◌+ℤ◌, ◌-ℤ◌, +ℤ_parts, -ℤ_parts, eq_of_parts}
use oppy_bridge.Common.Outcome.{done}
use oppy_bridge.Common.Result.{Result}
use oppy_bridge.External.{VaultPool}
use oppy_bridge.Pool.{PoolInfo}
use oppy_bridge.SyncMap.{load, store, load-store}
use oppy_bridge.MoveFundQueue.{add_move_fund_item}
use oppy_bridge.Pubchain.State.{add_pub_move_fund}
use oppy_bridge.Joltify.State.{add_jolt_move_fund}
use oppy_bridge.Bridge.{Bridge}
use oppy_bridge.Bridge.JoltBlock.{requeue_jolt, retire, move_height}
use oppy_bridge.Bridge.Rotation.{IsBlockHeight, move_height-before}

next_back : (h : ℤ) → (h +ℤ pos 1) -ℤ pos 1 ≡ h
next_back h =
    eq_of_parts ((h +ℤ pos 1) -ℤ pos 1) h
      (omega (arith, +ℤ_parts h (pos 1), -ℤ_parts (h +ℤ pos 1) (pos 1)))

stored_twice :
    (h j : ℤ) (p q : PoolInfo) (b : Bridge)
    → load j (store h q (store h p b.jolt_chain.move_fund_req))
      ≡ (if h == j then some q else load j b.jolt_chain.move_fund_req)
stored_twice h j p q b = elim (Bool-cases (h == j)) [
  | inl same ↦ rw (load-store h q (store h p b.jolt_chain.move_fund_req) j, same) refl
  | inr other ↦
      rw
        (
          load-store h q (store h p b.jolt_chain.move_fund_req) j,
          load-store h p b.jolt_chain.move_fund_req j,
          other,
        )
        refl
]

-- Let MoveFunds of a pool at height `h` not have found the account empty, so that the pool is put back,
-- and let the block at `h + 1` retire another pool, whose key is not that of the latest pool. The second
-- goes to the same height `h`: afterwards the queue of the joltify chain has it there, and at every
-- other height what it had before the first was put back, so that the entry of the first is lost.
pub requeued_overwritten :
    (p q : PoolInfo) (latest : VaultPool) (h : ℤ) (result : Result (Unit {0})) (b : Bridge)
    → IsBlockHeight (h +ℤ pos 1)
    → (q.pk == latest.pool_pub_key) ≡ false
    → (b' : Bridge) × (retire (h +ℤ pos 1) latest (some q) (requeue_jolt h p (false, result) b)
        ≡ done b')
      × ((j : ℤ)
          → load j b'.jolt_chain.move_fund_req
            ≡ (if h == j then some q else load j b.jolt_chain.move_fund_req))
unfolding retire requeue_jolt add_jolt_move_fund add_move_fund_item
requeued_overwritten p q latest h result b bounds other =
    let key : move_height (h +ℤ pos 1) ≡ h = move_height-before (h +ℤ pos 1) bounds ∙ next_back h in
    let put_back = requeue_jolt h p (false, result) b in
    (
      record put_back {
        jolt_chain = add_jolt_move_fund q (move_height (h +ℤ pos 1)) put_back.jolt_chain;
        pi = add_pub_move_fund q (move_height put_back.pi.current_height) put_back.pi;
      },
      rw (other, retire) refl,
      λ j.
          subst
            (λ k.
              load j (store k q (store h p b.jolt_chain.move_fund_req))
              ≡ (if h == j then some q else load j b.jolt_chain.move_fund_req))
            (sym key) (stored_twice h j p q b),
    )
