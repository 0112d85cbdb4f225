-- ===== src/Joltify/Membership/Returns.antt =====
-- joltifybridge/bridge.go: when CheckAndUpdatePool does not panic.
use oppy_bridge.Common.{ℕ, inl, inr, none, List, [], ◌∷◌, ◌==◌, Bool-cases}
use oppy_bridge.Common.Int.{ℤ, int_key}
use oppy_bridge.Common.Outcome.{done, Returns, Returns-bind}
use oppy_bridge.Common.Result.{Result, ok, err}
use oppy_bridge.External.{Env}
use oppy_bridge.Joltify.Signing.{CosmosClient, gas_estimation, gen_send_tx}
use oppy_bridge.Joltify.Signing.Returns.{IsReady, gen-Returns, estimation-Returns}
use oppy_bridge.Joltify.Membership.{
  TssPoolMsg, Membership, send_pool, submit_pool, check_first, check_and_update_pool,
}

module _ (env : Env) (client : CosmosClient) (ready : IsReady env client) where
  submit-Returns :
      (el : TssPoolMsg) (rest : List TssPoolMsg) (gas : Result ℕ) (m : Membership)
      → Returns (submit_pool env client el rest gas m)
  unfolding submit_pool
  submit-Returns el rest (err e) m = tt
  submit-Returns el rest (ok gas) m =
      Returns-bind (gen_send_tx env client (el.msg ∷ []) el.acc.0 el.acc.1 gas none)
        (λ built. done (send_pool env client el rest built m))
        (gen-Returns env client ready (el.msg ∷ []) el.acc.0 el.acc.1 gas none) (λ a. tt)

  first-Returns :
      (cache : List TssPoolMsg) (height : ℤ) (m : Membership)
      → Returns (check_first env client cache height m)
  unfolding check_first
  first-Returns [] height m = tt
  first-Returns (el ∷ rest) height m = elim (Bool-cases (el.block_height == height)) [
    | inl due ↦
        rw (due, check_first)
          (Returns-bind (gas_estimation env client (el.msg ∷ []) el.acc.0 none)
            (λ gas. submit_pool env client el rest gas m)
            (estimation-Returns env client ready (el.msg ∷ []) el.acc.0 none)
            (λ gas. submit-Returns el rest gas m))
    | inr other ↦ rw (other, check_first) tt
  ]

  pub check-Returns :
      (height : ℤ) (m : Membership) → Returns (check_and_update_pool env client height m)
  unfolding check_and_update_pool
  check-Returns height m = first-Returns m.msg_send_cache height m
