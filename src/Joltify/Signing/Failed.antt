-- ===== src/Joltify/Signing/Failed.antt =====
-- joltifybridge/bridge.go: what a broadcast transaction carries.
use oppy_bridge.Common.{
  ℕ, String, ◌≡◌, refl, inl, inr, true, some, [], ◌∷◌, arith, ◌==◌, nat_key, string_key, bytes_key,
  Bool-cases,
}
use oppy_bridge.Common.Outcome.{Outcome, done, panics, blocked, ◌>>=◌}
use oppy_bridge.Common.Result.{Result, ok, err, Result-cases}
use oppy_bridge.External.{Bytes, Env}
use oppy_bridge.Joltify.Signing.{
  Message, TxBuilder, TssSignMsg, CosmosClient, gen_send_tx, send_built, compose_with_gas,
  broadcast, compose_and_send, gas_estimation,
}

module _ (env : Env) (client : CosmosClient) where
  pub accepted_bytes :
      (bytes : Bytes) (h : String)
      → broadcast env client bytes ≡ ok (true, h)
      → client.broadcast_tx bytes ≡ ok (0, h)
  unfolding broadcast
  accepted_bytes bytes h e = elim (Result-cases (client.broadcast_tx bytes)) [
    | inr (t, c) ↦ absurd (ground (arith, c, e))
    | inl ((code, hash), c) ↦ elim (Bool-cases (code == 0)) [
      | inr other ↦ absurd (ground (arith, c, e, other))
      | inl success ↦ ground (arith, c, e, success, (nat_key.same_iff code 0).0 success)
    ]
  ]

  -- What was broadcast and accepted: the transaction of genSendTx at the estimated gas, encoded.
  abbrev pub Accepted : Message → ℕ → ℕ → TssSignMsg → String → Type 0
  Accepted msg acc_seq acc_num sign_msg hash =
      (gas : ℕ) × (builder : TxBuilder) × (bytes : Bytes) × (gas_estimation env client (msg ∷ [])
          acc_seq (some sign_msg)
        ≡ done (ok gas))
      × (gen_send_tx env client (msg ∷ []) acc_seq acc_num gas (some sign_msg) ≡ done (ok builder))
      × (client.tx_encoder builder ≡ ok bytes)
      × (client.broadcast_tx bytes ≡ ok (0, hash))

  -- composeAndSend returns true and a hash only if the node accepted, with the code 0 and this hash, the
  -- encoded transaction that genSendTx made of the message at the gas that GasEstimation returned.
  pub compose_and_send-Accepted :
      (msg : Message) (acc_seq acc_num : ℕ) (sign_msg : TssSignMsg) (hash : String)
      → compose_and_send env client msg acc_seq acc_num sign_msg ≡ done (ok (true, hash))
      → Accepted msg acc_seq acc_num sign_msg hash
  unfolding compose_and_send compose_with_gas send_built
  compose_and_send-Accepted msg acc_seq acc_num sign_msg hash =
      from_gas (gas_estimation env client (msg ∷ []) acc_seq (some sign_msg)) refl
    where
      from_encoded :
          (gas : ℕ) (builder : TxBuilder)
          → gas_estimation env client (msg ∷ []) acc_seq (some sign_msg) ≡ done (ok gas)
          → gen_send_tx env client (msg ∷ []) acc_seq acc_num gas (some sign_msg)
            ≡ done (ok builder)
          → (encoded : Result Bytes) → client.tx_encoder builder ≡ encoded
          → send_built env client (ok builder) ≡ ok (true, hash)
          → Accepted msg acc_seq acc_num sign_msg hash
      from_encoded gas builder g b (err t) n e = absurd (ground (arith, n, e))
      from_encoded gas builder g b (ok bytes) n e =
          (gas, builder, bytes, g, b, n, accepted_bytes bytes hash (ground (arith, n, e)))

      from_built :
          (gas : ℕ)
          → gas_estimation env client (msg ∷ []) acc_seq (some sign_msg) ≡ done (ok gas)
          → (out : Outcome (Result TxBuilder))
          → gen_send_tx env client (msg ∷ []) acc_seq acc_num gas (some sign_msg) ≡ out
          → (out >>= λ built. done (send_built env client built)) ≡ done (ok (true, hash))
          → Accepted msg acc_seq acc_num sign_msg hash
      from_built gas g panics b e = absurd (ground (arith, e))
      from_built gas g blocked b e = absurd (ground (arith, e))
      from_built gas g (done (err t)) b e = absurd (ground (arith, e))
      from_built gas g (done (ok builder)) b e =
          from_encoded gas builder g b (client.tx_encoder builder) refl (ground (arith, e))

      from_gas :
          (out : Outcome (Result ℕ))
          → gas_estimation env client (msg ∷ []) acc_seq (some sign_msg) ≡ out
          → (out >>= compose_with_gas env client msg acc_seq acc_num sign_msg)
            ≡ done (ok (true, hash))
          → Accepted msg acc_seq acc_num sign_msg hash
      from_gas panics g e = absurd (ground (arith, e))
      from_gas blocked g e = absurd (ground (arith, e))
      from_gas (done (err t)) g e = absurd (ground (arith, e))
      from_gas (done (ok gas)) g e =
          from_built gas g (gen_send_tx env client (msg ∷ []) acc_seq acc_num gas (some sign_msg))
            refl e
