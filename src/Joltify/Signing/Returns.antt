-- ===== src/Joltify/Signing/Returns.antt =====
-- joltifybridge/bridge.go: when composing and sending a transaction does not panic.
use oppy_bridge.Common.{
  ℕ, ◌-◌, ◌*◌, ◌^◌, ◌≤◌, String, ◌≡◌, inl, inr, Bool, true, false, Option, none, some, List, [],
  ◌∷◌, arith, nat_key, string_key, bytes_key, All,
}
use oppy_bridge.Common.Int.{ℤ}
use oppy_bridge.Common.Outcome.{done, Returns, Returns-bind}
use oppy_bridge.Common.SdkInt.{new_dec_fits}
use oppy_bridge.Common.Result.{Result, ok, err, Result-cases}
use oppy_bridge.Config.{gas_fee_ratio}
use oppy_bridge.External.{Bytes, Env}
use oppy_bridge.Misc.Signature.{TssSignature, serialize_sig}
use oppy_bridge.Joltify.Signing.{
  Message, TxBuilder, TssSignMsg, CosmosClient, with_tss_key, read_signed, sign_bytes, sign_jolt_tx,
  new_builder, attach_signature, gen_send_tx, gas_wanted, gas_estimation, send_built,
  compose_with_gas, compose_and_send, to_uint64,
}

-- The configured ratio is a well-formed decimal; RoundInt64 returns where the decimal is in the range of
-- an int64, and the gas that a simulation reports is in that range after the multiplication; and the key
-- server's signatures fit their bytes.
pub record IsReady (env : Env) (client : CosmosClient) : Type 0 where
  pub ratio : ℕ
  pub ratio_parses : env.dec_from_str gas_fee_ratio ≡ ok ratio
  pub rounds : (d : ℕ) → d ≤ (2 ^ 63 - 1) * 10 ^ 18 → Returns (client.round_int64 d)
  pub gas_fits :
      (bytes : Bytes) (gas : ℕ)
      → client.simulate bytes ≡ ok gas
      → env.dec_mul (gas * 10 ^ 18) ratio ≤ (2 ^ 63 - 1) * 10 ^ 18
  pub signatures_fit :
      (pk : String) (msg : Bytes) (height : ℤ) (success : Bool) (signatures : List TssSignature)
      → client.key_sign pk msg height ≡ ok (success, signatures)
      → All (λ s. Returns (serialize_sig env s false)) signatures

module _ (env : Env) (client : CosmosClient) (ready : IsReady env client) where
  read-Returns :
      (pk : String) (acc_seq : ℕ) (response : Bool × List TssSignature)
      → All (λ s. Returns (serialize_sig env s false)) response.1
      → Returns (read_signed env client pk acc_seq response)
  unfolding read_signed
  read-Returns pk acc_seq (false, l) h = tt
  read-Returns pk acc_seq (true, []) h = tt
  read-Returns pk acc_seq (true, s ∷ []) h =
      Returns-bind (serialize_sig env s false)
        (λ signature. done (with_tss_key env client pk acc_seq signature)) h.0 (λ a. tt)
  read-Returns pk acc_seq (true, s ∷ t ∷ l) h = tt

  bytes-Returns :
      (msg : Option TssSignMsg) (acc_seq : ℕ) (bytes : Bytes)
      → Returns (sign_bytes env client msg acc_seq bytes)
  unfolding sign_bytes
  bytes-Returns none acc_seq bytes = elim (Result-cases (client.keyring_sign bytes)) [
    | inr (e, k) ↦ rw (k, sign_bytes) tt
    | inl (signed, k) ↦ rw (k, sign_bytes) tt
  ]
  bytes-Returns (some msg) acc_seq bytes =
      elim (Result-cases (client.key_sign msg.pk (client.sha256 bytes) msg.block_height)) [
        | inr (e, k) ↦ rw (k, sign_bytes) tt
        | inl (response, k) ↦
            rw (k, sign_bytes)
              (read-Returns msg.pk acc_seq response (
                ready.signatures_fit msg.pk (client.sha256 bytes) msg.block_height response.0
                  response.1 k))
      ]

  signed-Returns :
      (msg : Option TssSignMsg) (acc_seq acc_num : ℕ) (builder : TxBuilder)
      → Returns (sign_jolt_tx env client msg acc_seq acc_num builder)
  unfolding sign_jolt_tx
  signed-Returns msg acc_seq acc_num builder =
      elim (Result-cases (client.get_sign_bytes builder acc_num acc_seq)) [
        | inr (e, b) ↦ rw (b, sign_jolt_tx) tt
        | inl (bytes, b) ↦ rw (b, sign_jolt_tx) (bytes-Returns msg acc_seq bytes)
      ]

  pub gen-Returns :
      (msgs : List Message) (acc_seq acc_num gas : ℕ) (msg : Option TssSignMsg)
      → Returns (gen_send_tx env client msgs acc_seq acc_num gas msg)
  unfolding gen_send_tx
  gen-Returns msgs acc_seq acc_num gas msg =
      elim (Result-cases (new_builder env client msgs acc_seq gas msg)) [
        | inr (e, n) ↦ rw (n, gen_send_tx) tt
        | inl (builder, n) ↦
            rw (n, gen_send_tx)
              (Returns-bind (sign_jolt_tx env client msg acc_seq acc_num builder)
                (λ signature. done (attach_signature env client builder signature))
                (signed-Returns msg acc_seq acc_num builder) (λ a. tt))
      ]

  gas-Returns :
      (bytes : Bytes) (gas_used : ℕ)
      → client.simulate bytes ≡ ok gas_used
      → Returns (gas_wanted env client gas_used)
  unfolding gas_wanted
  gas-Returns bytes gas_used u =
      let bound = ready.gas_fits bytes gas_used u in
      rw
        (
          ready.ratio_parses,
          new_dec_fits (env.dec_mul (gas_used * 10 ^ 18) ready.ratio) (omega arith),
          gas_wanted,
        )
        (Returns-bind (client.round_int64 (env.dec_mul (gas_used * 10 ^ 18) ready.ratio))
          (λ wanted. done (ok (to_uint64 wanted)))
          (ready.rounds (env.dec_mul (gas_used * 10 ^ 18) ready.ratio) bound) (λ a. tt))

  pub estimation-Returns :
      (msgs : List Message) (acc_seq : ℕ) (msg : Option TssSignMsg)
      → Returns (gas_estimation env client msgs acc_seq msg)
  unfolding gas_estimation
  estimation-Returns msgs acc_seq msg =
      elim (Result-cases (new_builder env client msgs acc_seq 200000 msg)) [
        | inr (e, n) ↦ rw (n, gas_estimation) tt
        | inl (builder, n) ↦ elim (Result-cases (client.tx_encoder builder)) [
          | inr (e, b) ↦ rw (n, b, gas_estimation) tt
          | inl (bytes, b) ↦ elim (Result-cases (client.simulate bytes)) [
            | inr (e, u) ↦ rw (n, b, u, gas_estimation) tt
            | inl (gas_used, u) ↦ rw (n, b, u, gas_estimation) (gas-Returns bytes gas_used u)
          ]
        ]
      ]

  pub compose-Returns :
      (msg : Message) (acc_seq acc_num : ℕ) (sign_msg : TssSignMsg)
      → Returns (compose_and_send env client msg acc_seq acc_num sign_msg)
  unfolding compose_and_send compose_with_gas
  compose-Returns msg acc_seq acc_num sign_msg =
      Returns-bind (gas_estimation env client (msg ∷ []) acc_seq (some sign_msg))
        (compose_with_gas env client msg acc_seq acc_num sign_msg)
        (estimation-Returns (msg ∷ []) acc_seq (some sign_msg)) with_gas
    where
      with_gas :
          (gas : Result ℕ) → Returns (compose_with_gas env client msg acc_seq acc_num sign_msg gas)
      with_gas (err e) = tt
      with_gas (ok gas) =
          Returns-bind (gen_send_tx env client (msg ∷ []) acc_seq acc_num gas (some sign_msg))
            (λ built. done (send_built env client built))
            (gen-Returns (msg ∷ []) acc_seq acc_num gas (some sign_msg)) (λ a. tt)
