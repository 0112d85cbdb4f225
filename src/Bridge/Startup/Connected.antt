-- ===== src/Bridge/Startup/Connected.antt =====
-- joltifybridge/validator.go, joltifybridge/bridge.go, pubchain/types.go: what the host has answered where
-- the node is synced and the two chains are connected.
use oppy_bridge.Common.{
  String, ◌≡◌, refl, ap, inl, inr, Bool, true, false, List, [], ◌∷◌, ◌++◌, arith, nat_key,
  string_key, bytes_key, All,
}
use oppy_bridge.Common.Result.{Result, ok, err, Result-cases}
use oppy_bridge.External.{Env}
use oppy_bridge.Joltify.Membership.{Membership}
use oppy_bridge.Joltify.Membership.Startup.{StartupService, wait_synced, init_validators}
use oppy_bridge.Bridge.Startup.{Host, connect_joltify, connect_public}

-- The node has answered that it is syncing, any number of times, and then that it is not.
abbrev pub Synced : List (Result Bool) → Type 0
Synced answers =
    (before : List (Result Bool)) × (after : List (Result Bool)) × (answers
      ≡ before ++ ok false ∷ after)
    × All (λ answer. answer ≡ ok true) before

wait_synced-Synced : (answers : List (Result Bool)) → wait_synced answers ≡ ok tt → Synced answers
unfolding wait_synced
wait_synced-Synced [] e = absurd (ground (arith, e))
wait_synced-Synced (err x ∷ l) e = absurd (ground (arith, e))
wait_synced-Synced (ok true ∷ l) e =
    let (before, after, same, waited) = wait_synced-Synced l e in
    (ok true ∷ before, after, ap (λ m. ok true ∷ m) same, (refl, waited))
wait_synced-Synced (ok false ∷ l) e = ([], l, refl, tt)

pub init_validators-Synced :
    (env : Env) (svc : StartupService) (m : Membership)
    → init_validators env svc ≡ ok m
    → Synced svc.syncing
unfolding init_validators
init_validators-Synced env svc m e = elim (Result-cases (wait_synced svc.syncing)) [
  | inl (tt, w) ↦ wait_synced-Synced svc.syncing w
  | inr (t, w) ↦ absurd (ground (arith, w, e))
]

module _ (env : Env) (host : Host) where
  pub joltify_connected :
      (grpc_addr http_addr : String)
      → connect_joltify env host grpc_addr http_addr ≡ ok tt
      → (host.grpc_dial grpc_addr ≡ ok tt)
        × (host.tm_client http_addr ≡ ok tt)
        × (host.tm_client_start ≡ ok tt)
  unfolding connect_joltify
  joltify_connected grpc_addr http_addr e = elim (Result-cases (host.grpc_dial grpc_addr)) [
    | inr (x, bad) ↦ absurd (ground (arith, bad, e))
    | inl (tt, g) ↦ elim (Result-cases (host.tm_client http_addr)) [
      | inr (x, bad) ↦ absurd (ground (arith, g, bad, e))
      | inl (tt, t) ↦ (g, t, ground (arith, g, t, e))
    ]
  ]

  pub public_connected :
      (ws token : String)
      → connect_public env host ws token ≡ ok tt
      → (host.eth_dial ws ≡ ok tt) × (host.new_token token ≡ ok tt) × (host.token_abi ≡ ok tt)
  unfolding connect_public
  public_connected ws token e = elim (Result-cases (host.eth_dial ws)) [
    | inr (x, bad) ↦ absurd (ground (arith, bad, e))
    | inl (tt, d) ↦ elim (Result-cases (host.new_token token)) [
      | inr (x, bad) ↦ absurd (ground (arith, d, bad, e))
      | inl (tt, t) ↦ elim (Result-cases host.token_abi) [
        | inr (x, bad) ↦ absurd (ground (arith, d, t, bad, e))
        | inl (tt, a) ↦ (d, t, a)
      ]
    ]
  ]
