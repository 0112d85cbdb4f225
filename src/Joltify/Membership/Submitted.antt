-- ===== src/Joltify/Membership/Submitted.antt =====
-- joltifybridge/bridge.go: what CheckAndUpdatePool has done where it returns true, and what it does to
-- the cache.
use oppy_bridge.Common.{
  ℕ, String, ◌≡◌, refl, sym, ◌⊎◌, inl, inr, Bool, true, false, none, List, [], ◌∷◌, arith, ◌==◌,
  Bool-cases,
}
use oppy_bridge.Common.Int.{ℤ, int_key}
use oppy_bridge.Common.Outcome.{done, ◌>>=◌, Outcome-cases}
use oppy_bridge.Common.Result.{Result, ok, err, Result-cases}
use oppy_bridge.External.{Bytes, Env}
use oppy_bridge.Joltify.Signing.{TxBuilder, CosmosClient, gas_estimation, gen_send_tx, broadcast}
use oppy_bridge.Joltify.Signing.Failed.{accepted_bytes}
use oppy_bridge.Joltify.Membership.{
  TssPoolMsg, Membership, not_submitted, sent_pool, send_pool, submit_pool, check_first,
  check_and_update_pool,
}

module _ (env : Env) (client : CosmosClient) where
  -- The node accepted the transaction of an entry, signed by the operator, at the estimated gas.
  abbrev pub PoolAccepted : TssPoolMsg → Type 0
  PoolAccepted el =
      (gas : ℕ) × (builder : TxBuilder) × (bytes : Bytes) × (hash : String) × (gas_estimation env
          client (el.msg ∷ []) el.acc.0 none
        ≡ done (ok gas))
      × (gen_send_tx env client (el.msg ∷ []) el.acc.0 el.acc.1 gas none ≡ done (ok builder))
      × (client.tx_encoder builder ≡ ok bytes)
      × (client.broadcast_tx bytes ≡ ok (0, hash))

  -- The three ways in which CheckAndUpdatePool ends: with nothing submitted and the cache as it was, with
  -- the first entry taken out though it was not accepted, and with the first entry accepted and taken out.
  abbrev pub Ends : ℤ → Membership → (Bool × String) × Membership → Type 0
  Ends height m o =
      (o ≡ (not_submitted, m))
      ⊎ ((el : TssPoolMsg) × (rest : List TssPoolMsg) × (m.msg_send_cache ≡ el ∷ rest)
          × (el.block_height ≡ height)
          × ((o ≡ (not_submitted, record m { msg_send_cache = rest }))
              ⊎ ((o ≡ ((true, el.pool_pub_key), record m { msg_send_cache = rest }))
                  × PoolAccepted el)))

  module _ (height : ℤ) (m : Membership) (o : (Bool × String) × Membership) (el : TssPoolMsg)
      (rest : List TssPoolMsg) (first : m.msg_send_cache ≡ el ∷ rest)
      (due : el.block_height ≡ height) where
    from_answer :
        (gas : ℕ) (builder : TxBuilder) (bytes : Bytes)
        → gas_estimation env client (el.msg ∷ []) el.acc.0 none ≡ done (ok gas)
        → gen_send_tx env client (el.msg ∷ []) el.acc.0 el.acc.1 gas none ≡ done (ok builder)
        → client.tx_encoder builder ≡ ok bytes
        → (answer : Result (Bool × String)) → broadcast env client bytes ≡ answer
        → sent_pool env client el rest answer m ≡ o
        → Ends height m o
    unfolding sent_pool
    from_answer gas builder bytes g b n (err e) c q = inr (el, rest, first, due, inl (sym q))
    from_answer gas builder bytes g b n (ok (false, hash)) c q =
        inr (el, rest, first, due, inl (sym q))
    from_answer gas builder bytes g b n (ok (true, hash)) c q = inr (
      el,
      rest,
      first,
      due,
      inr (sym q, (gas, builder, bytes, hash, g, b, n, accepted_bytes env client bytes hash c)),
    )

    from_built :
        (gas : ℕ) (built : Result TxBuilder)
        → gas_estimation env client (el.msg ∷ []) el.acc.0 none ≡ done (ok gas)
        → gen_send_tx env client (el.msg ∷ []) el.acc.0 el.acc.1 gas none ≡ done built
        → send_pool env client el rest built m ≡ o
        → Ends height m o
    unfolding send_pool
    from_built gas (err e) g b q = inl (sym q)
    from_built gas (ok builder) g b q = elim (Result-cases (client.tx_encoder builder)) [
      | inr (e, n) ↦ inl (ground (arith, n, q))
      | inl (bytes, n) ↦
          from_answer gas builder bytes g b n (broadcast env client bytes) refl
            (ground (arith, n, q))
    ]

    from_gas :
        (gas : Result ℕ)
        → gas_estimation env client (el.msg ∷ []) el.acc.0 none ≡ done gas
        → submit_pool env client el rest gas m ≡ done o
        → Ends height m o
    unfolding submit_pool
    from_gas (err e) g q = inl (ground (arith, q))
    from_gas (ok gas) g q =
        elim (Outcome-cases (gen_send_tx env client (el.msg ∷ []) el.acc.0 el.acc.1 gas none)) [
          | inl (built, b) ↦ from_built gas built g b (ground (arith, b, q))
          | inr (inl p) ↦ absurd (ground (arith, p, q))
          | inr (inr p) ↦ absurd (ground (arith, p, q))
        ]

    from_estimation :
        (gas_estimation env client (el.msg ∷ []) el.acc.0 none >>= λ gas.
        submit_pool env client el rest gas m)
          ≡ done o
        → Ends height m o
    from_estimation q =
        elim (Outcome-cases (gas_estimation env client (el.msg ∷ []) el.acc.0 none)) [
          | inl (gas, g) ↦ from_gas gas g (ground (arith, g, q))
          | inr (inl p) ↦ absurd (ground (arith, p, q))
          | inr (inr p) ↦ absurd (ground (arith, p, q))
        ]

  check-Ends :
      (height : ℤ) (m : Membership) (o : (Bool × String) × Membership) (cache : List TssPoolMsg)
      → m.msg_send_cache ≡ cache
      → check_first env client cache height m ≡ done o
      → Ends height m o
  unfolding check_first
  check-Ends height m o [] first q = inl (ground (arith, q))
  check-Ends height m o (el ∷ rest) first q = elim (Bool-cases (el.block_height == height)) [
    | inl due ↦
        from_estimation height m o el rest first ((int_key.same_iff el.block_height height).0 due)
          (ground (arith, due, q))
    | inr other ↦ inl (ground (arith, other, q))
  ]

  -- Where CheckAndUpdatePool returns, it has done one of three things: submitted nothing and left the
  -- cache; taken out the first entry, which is meant for this height, and returned false; or taken it out
  -- and returned true and its key, and then the node has accepted, with the code 0, the encoded
  -- transaction that genSendTx made of its message at the gas that GasEstimation returned.
  pub check_and_update_pool-Ends :
      (height : ℤ) (m : Membership) (o : (Bool × String) × Membership)
      → check_and_update_pool env client height m ≡ done o
      → Ends height m o
  unfolding check_and_update_pool
  check_and_update_pool-Ends height m o = check-Ends height m o m.msg_send_cache refl
