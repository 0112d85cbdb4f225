-- ===== src/Joltify/Outbound/Adds.antt =====
-- joltifybridge/bridge.go, joltifybridge/tx_outbound.go: all that a transaction does to the instance is to
-- add requests to the retry pool.
use oppy_bridge.Common.{
  String, ◌≡◌, inl, inr, ◌||◌, Option, some, List, [], ◌∷◌, ◌==◌, nat_key, string_key, bytes_key,
  Bool-cases, Option-cases,
}
use oppy_bridge.Common.Int.{ℤ}
use oppy_bridge.Common.Result.{Result, Result-cases}
use oppy_bridge.External.{Bytes, Coin, Env}
use oppy_bridge.Hex.{hex_encode}
use oppy_bridge.Pool.{PoolInfo}
use oppy_bridge.Joltify.State.{
  OutBoundReq, JoltifyChainInstance, new_outbound_req, add_outbound_item,
}
use oppy_bridge.Joltify.Outbound.{
  Msg, MsgSend, process_demon_and_fee, fee_pair, parties, process_paid, process_msg, process_msgs,
  check_out_bound_tx,
}

-- What adding a request keeps, the messages of a transaction keep.
module _ {ℓ} (P : JoltifyChainInstance → Type ℓ) (env : Env) (query_account : String → Result Bytes)
    (height : ℤ)
    (adds : (item : OutBoundReq) (jc : JoltifyChainInstance)
      → P jc
      → P (add_outbound_item env item jc)) where
  paid_keeps :
      (from cur_eth tx_hash : Bytes) (amount : List Coin) (jc : JoltifyChainInstance)
      → P jc
      → P (process_paid env height from cur_eth amount tx_hash jc).1
  unfolding process_paid
  paid_keeps from cur_eth tx_hash amount jc h = elim (Result-cases (fee_pair amount)) [
    | inr (e, f) ↦ rw (f, process_paid) h
    | inl ((d, f), q) ↦ elim (Option-cases (process_demon_and_fee env height from d f)) [
      | inl m ↦ rw (q, m, process_paid) h
      | inr (item, m) ↦
          rw (q, m, process_paid)
            (adds
              (new_outbound_req (hex_encode tx_hash) item.out_receiver_address cur_eth item.token
                height)
              jc h)
    ]
  ]

  msg_keeps :
      (address : Bytes × Bytes) (cur_eth tx_hash : Bytes) (msg : MsgSend)
      (jc : JoltifyChainInstance)
      → P jc
      → P (process_msg env query_account height address cur_eth msg tx_hash jc).1
  unfolding process_msg
  msg_keeps (a0, a1) cur_eth tx_hash msg jc h =
      elim (Result-cases (parties env query_account msg)) [
        | inr (e, q) ↦ rw (q, process_msg) h
        | inl ((to, from), q) ↦ elim (Bool-cases (to == a0 || to == a1)) [
          | inr other ↦ rw (q, other, process_msg) h
          | inl pool ↦ rw (q, pool, process_msg) (paid_keeps from cur_eth tx_hash msg.amount jc h)
        ]
      ]

  pub msgs_keep :
      (address : Bytes × Bytes) (cur_eth tx_hash : Bytes) (msgs : List Msg)
      (jc : JoltifyChainInstance)
      → P jc
      → P (process_msgs env query_account height address cur_eth tx_hash msgs jc)
  unfolding process_msgs
  msgs_keep address cur_eth tx_hash [] jc h = h
  msgs_keep address cur_eth tx_hash (Msg.other ∷ msgs) jc h =
      msgs_keep address cur_eth tx_hash msgs jc h
  msgs_keep address cur_eth tx_hash (Msg.send msg ∷ msgs) jc h =
      msgs_keep address cur_eth tx_hash msgs
        (process_msg env query_account height address cur_eth msg tx_hash jc).1
        (msg_keeps address cur_eth tx_hash msg jc h)

-- A transaction is looked at only while both pools are known.
pub transaction_keeps {ℓ} :
    (P : JoltifyChainInstance → Type ℓ) (env : Env) (query_account : String → Result Bytes)
    (height : ℤ) (tx_hash : Bytes) (decoded : Option (List Msg)) (jc : JoltifyChainInstance)
    → ((p : PoolInfo)
        → jc.last_two_pools.pool1 ≡ some p
        → (item : OutBoundReq) (jc' : JoltifyChainInstance) → P jc'
        → P (add_outbound_item env item jc'))
    → P jc
    → P (check_out_bound_tx env query_account height tx_hash decoded jc)
unfolding check_out_bound_tx
transaction_keeps P env query_account height tx_hash decoded jc adds h =
    elim (Option-cases jc.last_two_pools.pool0) [
      | inl e0 ↦ rw (e0, check_out_bound_tx) h
      | inr (p0, e0) ↦ elim (Option-cases jc.last_two_pools.pool1) [
        | inl e1 ↦ rw (e0, e1, check_out_bound_tx) h
        | inr (p1, e1) ↦ elim (Option-cases decoded) [
          | inl d ↦ rw (e0, e1, d, check_out_bound_tx) h
          | inr (msgs, d) ↦
              rw (e0, e1, d, check_out_bound_tx)
                (msgs_keep P env query_account height (adds p1 e1)
                  (p0.joltify_address, p1.joltify_address) p1.eth_address tx_hash msgs jc h)
        ]
      ]
    ]
