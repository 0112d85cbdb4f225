-- ===== src/Joltify/Outbound.antt =====
-- joltifybridge/tx_outbound.go and CheckOutBoundTx of joltifybridge/bridge.go: a transfer to a pool on
-- the joltify chain, with its fee, becomes a request to pay out on the public chain.
pub mod Paid
pub mod Adds
use oppy_bridge.Common.{
  ℕ, ◌-◌, ◌^◌, String, not, ◌&&◌, ◌||◌, Option, none, some, List, [], ◌∷◌, arith, ltb,
  if◌then◌else◌, Key, ◌==◌, nat_key, string_key, bytes_key,
}
use oppy_bridge.Common.Int.{ℤ, pos, negsuc}
use oppy_bridge.Common.Result.{Result, ok, err, ◌>>=◌}
use oppy_bridge.Config.{out_bound_denom, out_bound_denom_fee, out_bound_fee_out}
use oppy_bridge.External.{Bytes, Coin, Env}
use oppy_bridge.Hex.{hex_encode}
use oppy_bridge.Misc.Keys.{account_pub_key_to_eth_address}
use oppy_bridge.Joltify.State.{
  OutBoundReq, OutboundTx, JoltifyChainInstance, new_outbound_req, add_outbound_item, get_jolt_pool,
}

-- banktypes.MsgSend
pub record MsgSend : Type 0 where
  pub from_address : String
  pub to_address : String
  pub amount : List Coin

-- A message of a transaction; the loop of CheckOutBoundTx skips the other types.
pub data Msg : Type 0 where
  send : MsgSend → Msg
  other : Msg

-- outboundTx.Verify; of an error's text the part that is fixed.
unfoldable pub verify_outbound_tx : Env → OutboundTx → Result (Unit {0})
verify_outbound_tx env a =
    if not (a.fee.denom == out_bound_denom_fee)
    then err "invalid outbound fee denom"
    else elim (env.dec_from_str out_bound_fee_out) [
      | err e ↦ err "invalid minimal inbound fee"
      | ok amount ↦ if ltb a.fee.amount amount then err "the fee is not enough" else ok tt
    ]

-- uint64(blockHeight)
abbrev uint64_of : ℤ → ℕ
uint64_of (pos n) = n
uint64_of (negsuc n) = 2 ^ 64 - 1 - n

abbrev pub outbound_tx : Env → ℤ → Bytes → ℕ → ℕ → OutboundTx
outbound_tx env block_height from_address demon_amount fee_amount = record {
  out_receiver_address = env.bytes_to_address from_address;
  block_height = uint64_of block_height;
  token = record { denom = out_bound_denom; amount = demon_amount };
  fee = record { denom = out_bound_denom_fee; amount = fee_amount };
}

-- processDemonAndFee
unfoldable pub process_demon_and_fee : Env → ℤ → Bytes → ℕ → ℕ → Option OutboundTx
process_demon_and_fee env block_height from_address demon_amount fee_amount =
    let tx = outbound_tx env block_height from_address demon_amount fee_amount in
    elim (verify_outbound_tx env tx) [ err e ↦ none | ok _ ↦ some tx ]

-- The two amounts of a message that pays the token and the fee, in either order.
unfoldable pub fee_pair : List Coin → Result (ℕ × ℕ)
fee_pair (a ∷ b ∷ []) =
    if b.denom == out_bound_denom && a.denom == out_bound_denom_fee
    then ok (b.amount, a.amount)
    else if a.denom == out_bound_denom && b.denom == out_bound_denom_fee
    then ok (a.amount, b.amount)
    else err "invalid fee pair"
fee_pair [] = err "we only allow fee and top up in one tx now"
fee_pair (_ ∷ []) = err "we only allow fee and top up in one tx now"
fee_pair (_ ∷ _ ∷ _ ∷ _) = err "we only allow fee and top up in one tx now"

-- The receiver of the message, and its sender's address on the public chain, which belongs to the
-- public key that queryAccount finds.
unfoldable pub parties : Env → (String → Result Bytes) → MsgSend → Result (Bytes × Bytes)
parties env query_account msg = do
  to_address ← env.acc_address_from_bech32 msg.to_address
  pub_key ← query_account msg.from_address
  from_eth_addr ← account_pub_key_to_eth_address env pub_key
  wrap_from_eth_addr ← env.acc_address_from_hex (env.address_hex from_eth_addr)
  ok (to_address, wrap_from_eth_addr)

-- processMsg from the test of the number of coins on.
unfoldable pub process_paid :
    Env
    → ℤ
    → Bytes
    → Bytes
    → List Coin
    → Bytes
    → JoltifyChainInstance
    → Result (Unit {0}) × JoltifyChainInstance
process_paid env block_height from cur_eth_addr amount tx_hash jc = elim (fee_pair amount) [
  | err e ↦ (err e, jc)
  | ok (demon, fee) ↦ elim (process_demon_and_fee env block_height from demon fee) [
    | none ↦ (err "not enough fee", jc)
    | some item ↦ (
      ok tt,
      add_outbound_item env
          (new_outbound_req (hex_encode tx_hash) item.out_receiver_address cur_eth_addr item.token
            block_height)
          jc,
    )
  ]
]

-- processMsg, with the addresses of the two pools.
unfoldable pub process_msg :
    Env
    → (String → Result Bytes)
    → ℤ
    → Bytes × Bytes
    → Bytes
    → MsgSend
    → Bytes
    → JoltifyChainInstance
    → Result (Unit {0}) × JoltifyChainInstance
process_msg env query_account block_height (address0, address1) cur_eth_addr msg tx_hash jc =
    elim (parties env query_account msg) [
      | err e ↦ (err e, jc)
      | ok (to, from) ↦
          if not (to == address0 || to == address1)
          then (err "not a top up message to the pool", jc)
          else process_paid env block_height from cur_eth_addr msg.amount tx_hash jc
    ]

-- The loop of CheckOutBoundTx over the messages; an error is only logged.
unfoldable pub process_msgs :
    Env
    → (String → Result Bytes)
    → ℤ
    → Bytes × Bytes
    → Bytes
    → Bytes
    → List Msg
    → JoltifyChainInstance
    → JoltifyChainInstance
process_msgs env query_account block_height address cur_eth_addr tx_hash [] jc = jc
process_msgs env query_account block_height address cur_eth_addr tx_hash (Msg.other ∷ msgs) jc =
    process_msgs env query_account block_height address cur_eth_addr tx_hash msgs jc
process_msgs env query_account block_height address cur_eth_addr tx_hash (Msg.send msg ∷ msgs) jc =
    process_msgs env query_account block_height address cur_eth_addr tx_hash msgs
      (process_msg env query_account block_height address cur_eth_addr msg tx_hash jc).1

-- CheckOutBoundTx, of a transaction with this hash that decodes to these messages, if it does and is an
-- sdk.TxWithMemo.
unfoldable pub check_out_bound_tx :
    Env
    → (String → Result Bytes)
    → ℤ
    → Bytes
    → Option (List Msg)
    → JoltifyChainInstance
    → JoltifyChainInstance
check_out_bound_tx env query_account block_height tx_hash decoded jc =
    elim (get_jolt_pool jc).pool0 [
      | none ↦ jc
      | some p0 ↦ elim (get_jolt_pool jc).pool1 [
        | none ↦ jc
        | some p1 ↦ elim decoded [
          | none ↦ jc
          | some msgs ↦
              process_msgs env query_account block_height (p0.joltify_address, p1.joltify_address)
                p1.eth_address tx_hash msgs jc
        ]
      ]
    ]
