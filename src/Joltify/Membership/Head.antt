-- ===== src/Joltify/Membership/Head.antt =====
-- joltifybridge/bridge.go: CheckAndUpdatePool looks only at the first entry of its cache.
use oppy_bridge.Common.{
  String, ◌≡◌, refl, ◌≢◌, Bool, true, none, List, [], ◌∷◌, arith, All, beq-ne, beq_refl,
}
use oppy_bridge.Common.Int.{ℤ, int_key, ltb_ℤ}
use oppy_bridge.Common.Outcome.{Outcome, done, ◌>>=◌}
use oppy_bridge.Common.Result.{err}
use oppy_bridge.External.{Env}
use oppy_bridge.Joltify.Signing.{CosmosClient, gas_estimation}
use oppy_bridge.Joltify.Membership.{
  TssPoolMsg, Membership, not_submitted, submit_pool, check_first, check_and_update_pool,
}

later_ne : (a h : ℤ) → ltb_ℤ a h ≡ true → a ≢ h
later_ne a h l e = ground (arith, l, e)

module _ (env : Env) (client : CosmosClient) where
  -- CheckAndUpdatePool at one block after the other, with what it returned.
  abbrev pub check_blocks : List ℤ → Membership → Outcome (List (Bool × String) × Membership)
  check_blocks [] m = done ([], m)
  check_blocks (h ∷ hs) m = check_and_update_pool env client h m >>= λ o.
      check_blocks hs o.1 >>= λ r. done (o.0 ∷ r.0, r.1)

  abbrev pub refusals : List ℤ → List (Bool × String)
  refusals [] = []
  refusals (h ∷ hs) = not_submitted ∷ refusals hs

  module _ (m : Membership) (el : TssPoolMsg) (rest : List TssPoolMsg)
      (first : m.msg_send_cache ≡ el ∷ rest) where
    passed :
        (h : ℤ)
        → ltb_ℤ el.block_height h ≡ true
        → check_and_update_pool env client h m ≡ done (not_submitted, m)
    unfolding check_and_update_pool check_first
    passed h l =
        rw (first, check_first, beq-ne el.block_height h (later_ne el.block_height h l)) refl

    blocks_passed :
        (hs : List ℤ)
        → All (λ h. ltb_ℤ el.block_height h ≡ true) hs
        → check_blocks hs m ≡ done (refusals hs, m)
    blocks_passed [] a = refl
    blocks_passed (h ∷ hs) a = rw (passed h a.0, blocks_passed hs a.1) refl

    failed :
        (e : String)
        → gas_estimation env client (el.msg ∷ []) el.acc.0 none ≡ done (err e)
        → check_and_update_pool env client el.block_height m ≡ done (not_submitted, m)
    unfolding check_and_update_pool check_first submit_pool
    failed e g = rw (first, check_first, beq_refl el.block_height, g) refl

    -- Let the estimate of the gas fail at the block for which the first pool message of the cache is
    -- meant. That message stays, so that neither at this block nor at any block of a greater height
    -- CheckAndUpdatePool submits anything, whatever messages are behind it, and the cache never changes.
    pub failed_head_blocks :
        (e : String) (hs : List ℤ)
        → gas_estimation env client (el.msg ∷ []) el.acc.0 none ≡ done (err e)
        → All (λ h. ltb_ℤ el.block_height h ≡ true) hs
        → check_blocks (el.block_height ∷ hs) m ≡ done (refusals (el.block_height ∷ hs), m)
    failed_head_blocks e hs g a = rw (failed e g, blocks_passed hs a) refl
