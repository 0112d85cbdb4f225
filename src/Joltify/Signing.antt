-- ===== src/Joltify/Signing.antt =====
-- joltifybridge/bridge.go and helper.go: how a transaction of the joltify chain is composed, signed and
-- broadcast.
pub mod Failed
pub mod Returns
use oppy_bridge.Common.{
  ℕ, zero, suc, ◌+◌, ◌-◌, ◌*◌, ◌/◌, ◌%◌, ◌^◌, ◌≤◌, ◌<◌, String, ◌≡◌, refl, sym, ap, ◌∙◌, subst, ◌≢◌,
  ◌↔◌, ◌⊎◌, inl, inr, Bool, true, false, not, ◌&&◌, ◌||◌, Option, none, some, List, [], ◌∷◌, ◌++◌,
  map, arith, ltb, leb, nat_beq, if◌then◌else◌, Key, ◌==◌, nat_key, string_key, bytes_key,
  Bool-cases, Option-cases, beq_refl, beq-ne, length, take, drop, replicate, All, length-append,
}
use oppy_bridge.Common.Int.{ℤ, pos, negsuc}
use oppy_bridge.Common.Outcome.{Outcome, done, panics, ◌>>=◌}
use oppy_bridge.Common.SdkInt.{new_dec}
use oppy_bridge.Common.Result.{Result, ok, err}
use oppy_bridge.Config.{gas_fee_ratio}
use oppy_bridge.External.{Bytes, Coin, Env}
use oppy_bridge.Misc.Signature.{TssSignature, serialize_sig}

-- A message that the bridge composes: an issue of tokens, with its creator, index, coin and receiver,
-- a transfer of coins, or a new pool, with its creator, key and the text of its height.
pub data Message : Type 0 where
  issue : Bytes → Option ℕ → Coin → Bytes → Message
  move : Bytes → Bytes → List Coin → Message
  create_pool : Bytes → String → Bytes → Message

-- signing.SignatureV2. `sig_data` is none where Data is nil; an empty signature is nil in Go.
pub record SignatureV2 : Type 0 where
  pub pub_key : Option Bytes
  pub sig_data : Option Bytes
  pub sequence : ℕ

-- What a client.TxBuilder holds.
pub record TxBuilder : Type 0 where
  pub msgs : List Message
  pub gas_limit : ℕ
  pub signature : SignatureV2

-- tssclient.TssSignigMsg: the key and the height.
pub record TssSignMsg : Type 0 where
  pub pk : String
  pub block_height : ℤ

-- cosmos-sdk, the node of the joltify chain and the key server.
pub record CosmosClient : Type 0 where
  -- Keyring.Key("operator"), as its public key, and Keyring.Sign("operator", bytes)
  pub operator_key : Result Bytes
  pub keyring_sign : Bytes → Result (Bytes × Bytes)
  -- TxBuilder.SetMsgs and TxBuilder.SetSignatures
  pub set_msgs : List Message → Result (Unit {0})
  pub set_signatures : SignatureV2 → Result (Unit {0})
  -- GetSignBytes, of the builder, the account's number and its sequence
  pub get_sign_bytes : TxBuilder → ℕ → ℕ → Result Bytes
  pub sha256 : Bytes → Bytes
  pub tx_encoder : TxBuilder → Result Bytes
  -- KeySign, of a key, a message and a height: whether the status is Success, and the signatures
  pub key_sign : String → Bytes → ℤ → Result (Bool × List TssSignature)
  -- Simulate, with the gas used; BroadcastTx, with the code and the hash
  pub simulate : Bytes → Result ℕ
  pub broadcast_tx : Bytes → Result (ℕ × String)
  -- Dec.RoundInt64, of a Dec as the integer of units of 10 ^ -18; it panics on an overflow
  pub round_int64 : ℕ → Outcome ℤ

-- SignatureV2{}
abbrev pub zero_signature : SignatureV2
zero_signature = record { pub_key = none; sig_data = none; sequence = 0 }

-- The signature that goes in before signing: the key, with nil for a signature.
abbrev pub unsigned : Bytes → ℕ → SignatureV2
unsigned pub_key acc_seq = record { pub_key = some pub_key; sig_data = some []; sequence = acc_seq }

-- uint64(gasWanted)
abbrev pub to_uint64 : ℤ → ℕ
to_uint64 (pos n) = n
to_uint64 (negsuc n) = 2 ^ 64 - 1 - n

module _ (env : Env) (client : CosmosClient) where
  -- The key that a transaction is signed with: the operator's, or that of the message for the key server.
  unfoldable pub signing_key : Option TssSignMsg → Bytes → Result Bytes
  signing_key none key = ok key
  signing_key (some msg) key = env.unmarshal_pub_key msg.pk

  -- signTx once the key server's signature is encoded.
  unfoldable pub with_tss_key : String → ℕ → Result Bytes → Result SignatureV2
  with_tss_key pk acc_seq (err e) = err e
  with_tss_key pk acc_seq (ok signature) = elim (env.unmarshal_pub_key pk) [
    | err e ↦ err e
    | ok pubkey ↦
        ok (record { pub_key = some pubkey; sig_data = some signature; sequence = acc_seq })
  ]

  -- signTx from its test of the key server's response on. Where the status is not Success, the error that
  -- it returns is nil.
  unfoldable pub read_signed : String → ℕ → Bool × List TssSignature → Outcome (Result SignatureV2)
  read_signed pk acc_seq (false, signatures) = done (ok zero_signature)
  read_signed pk acc_seq (true, []) = done (err "more than 1 signature received")
  read_signed pk acc_seq (true, _ ∷ _ ∷ _) = done (err "more than 1 signature received")
  read_signed pk acc_seq (true, s ∷ []) = do
    signature ← serialize_sig env s false
    done (with_tss_key pk acc_seq signature)

  -- signTx with the bytes to be signed.
  unfoldable pub sign_bytes : Option TssSignMsg → ℕ → Bytes → Outcome (Result SignatureV2)
  sign_bytes none acc_seq bytes = elim (client.keyring_sign bytes) [
    | err e ↦ done (err e)
    | ok signed ↦
        done (ok (record { pub_key = some signed.1; sig_data = some signed.0; sequence = acc_seq }))
  ]
  sign_bytes (some msg) acc_seq bytes =
      elim (client.key_sign msg.pk (client.sha256 bytes) msg.block_height) [
        | err e ↦ done (err e)
        | ok response ↦ read_signed msg.pk acc_seq response
      ]

  -- signTx
  unfoldable pub sign_jolt_tx : Option TssSignMsg → ℕ → ℕ → TxBuilder → Outcome (Result SignatureV2)
  sign_jolt_tx sign_msg acc_seq acc_num builder =
      elim (client.get_sign_bytes builder acc_num acc_seq) [
        | err e ↦ done (err e)
        | ok bytes ↦ sign_bytes sign_msg acc_seq bytes
      ]

  -- The start of genSendTx and of GasEstimation: a builder with the messages and an empty signature.
  unfoldable pub new_builder : List Message → ℕ → ℕ → Option TssSignMsg → Result TxBuilder
  new_builder msgs acc_seq gas sign_msg = elim (client.set_msgs msgs) [
    | err e ↦ err e
    | ok _ ↦ elim client.operator_key [
      | err e ↦ err e
      | ok key ↦ elim (signing_key sign_msg key) [
        | err e ↦ err e
        | ok pub_key ↦ elim (client.set_signatures (unsigned pub_key acc_seq)) [
          | err e ↦ err e
          | ok _ ↦
              ok (record { msgs = msgs; gas_limit = gas; signature = unsigned pub_key acc_seq })
        ]
      ]
    ]
  ]

  -- The end of genSendTx.
  unfoldable pub attach_signature : TxBuilder → Result SignatureV2 → Result TxBuilder
  attach_signature builder (err e) = err e
  attach_signature builder (ok signature) = elim (client.set_signatures signature) [
    | err e ↦ err e
    | ok _ ↦ ok (record builder { signature = signature })
  ]

  -- genSendTx
  unfoldable pub gen_send_tx :
      List Message → ℕ → ℕ → ℕ → Option TssSignMsg → Outcome (Result TxBuilder)
  gen_send_tx msgs acc_seq acc_num gas sign_msg = elim (new_builder msgs acc_seq gas sign_msg) [
    | err e ↦ done (err e)
    | ok builder ↦ do
      signature ← sign_jolt_tx sign_msg acc_seq acc_num builder
      done (attach_signature builder signature)
  ]

  -- The end of GasEstimation: one and a half times the gas of the simulation.
  unfoldable pub gas_wanted : ℕ → Outcome (Result ℕ)
  gas_wanted gas_used = elim (env.dec_from_str gas_fee_ratio) [
    | err e ↦ panics
    | ok ratio ↦ do
      product ← new_dec (env.dec_mul (gas_used * 10 ^ 18) ratio)
      wanted ← client.round_int64 product
      done (ok (to_uint64 wanted))
  ]

  -- GasEstimation
  unfoldable pub gas_estimation : List Message → ℕ → Option TssSignMsg → Outcome (Result ℕ)
  gas_estimation msgs acc_seq sign_msg = elim (new_builder msgs acc_seq 200000 sign_msg) [
    | err e ↦ done (err e)
    | ok builder ↦ elim (client.tx_encoder builder) [
      | err e ↦ done (err e)
      | ok bytes ↦ elim (client.simulate bytes) [
        | err e ↦ done (err e)
        | ok gas_used ↦ gas_wanted gas_used
      ]
    ]
  ]

  -- BroadcastTx: a code other than 0 is no error.
  unfoldable pub broadcast : Bytes → Result (Bool × String)
  broadcast bytes = elim (client.broadcast_tx bytes) [
    | err e ↦ err e
    | ok (code, tx_hash) ↦ if not (code == 0) then ok (false, "") else ok (true, tx_hash)
  ]

  -- The end of composeAndSend.
  unfoldable pub send_built : Result TxBuilder → Result (Bool × String)
  send_built (err e) = err e
  send_built (ok builder) = elim (client.tx_encoder builder) [
    | err e ↦ err e
    | ok bytes ↦ broadcast bytes
  ]

  unfoldable pub compose_with_gas :
      Message → ℕ → ℕ → TssSignMsg → Result ℕ → Outcome (Result (Bool × String))
  compose_with_gas msg acc_seq acc_num sign_msg (err e) = done (err e)
  compose_with_gas msg acc_seq acc_num sign_msg (ok gas) = do
    built ← gen_send_tx (msg ∷ []) acc_seq acc_num gas (some sign_msg)
    done (send_built built)

  -- composeAndSend
  unfoldable pub compose_and_send : Message → ℕ → ℕ → TssSignMsg → Outcome (Result (Bool × String))
  compose_and_send msg acc_seq acc_num sign_msg = do
    gas ← gas_estimation (msg ∷ []) acc_seq (some sign_msg)
    compose_with_gas msg acc_seq acc_num sign_msg gas
