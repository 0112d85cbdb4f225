-- ===== src/Pubchain/Inbound/Amounts.antt =====
-- pubchain/tx_inbound.go: when the fees that wait, and those that may still be added, fit sdk.Int, so that
-- no amount makes updateInboundTx or processInboundTx panic.
use oppy_bridge.Common.{
  ℕ, ◌+◌, ◌^◌, ◌<◌, ◌≡◌, subst, inl, inr, some, arith, ltb, ◌==◌, nat_key, string_key, bytes_key,
  Bool-cases, Option-cases, length,
}
use oppy_bridge.Common.Int.{int64_of}
use oppy_bridge.Common.Outcome.{done, ◌>>=◌, Safe}
use oppy_bridge.Common.Result.{Result, ok, Result-cases}
use oppy_bridge.Config.{req_cache_size}
use oppy_bridge.External.{Bytes, Env}
use oppy_bridge.Hex.{hex_decode}
use oppy_bridge.SyncMap.{SyncMap, load, store, delete, load-store-some, load-delete-some}
use oppy_bridge.Pubchain.State.{
  InboundReq, InboundTx, InboundTxBnb, PubChainInstance, send_inbound, new_account_inbound_req,
}
use oppy_bridge.Pubchain.Inbound.{
  verify_inbound_tx, update_inbound_tx, process_with_fee, process_inbound_tx, new_inbound_tx,
  add_fee, first_fee,
}
use oppy_bridge.Pubchain.Inbound.Fee.{update_no_token, update_short, update_paid}
use oppy_bridge.Pubchain.Inbound.Branches.{
  no_fee, process_existed, process_wrong_token, process_without_fee, process_after_fee,
  with_fee_short, with_fee_no_hex, with_fee_paid,
}

-- With `rest` more, every fee that waits fits sdk.Int.
pub record AmountsFit (rest : ℕ) (pending : SyncMap Bytes InboundTx)
    (bnb : SyncMap Bytes InboundTxBnb) : Type 0 where
  pub rest_fits : rest < 2 ^ 255
  pub tokens :
      (k : Bytes) (tx : InboundTx) → load k pending ≡ some tx → tx.fee.amount + rest < 2 ^ 255
  pub fees : (k : Bytes) (b : InboundTxBnb) → load k bnb ≡ some b → b.fee.amount + rest < 2 ^ 255

abbrev pub Amounts : ℕ → PubChainInstance → Type 0
Amounts rest pi = AmountsFit rest pi.pending_inbounds pi.pending_inbounds_bnb

module _ (rest : ℕ) (pending : SyncMap Bytes InboundTx) (bnb : SyncMap Bytes InboundTxBnb) where
  pub fewer-AmountsFit :
      (amount : ℕ) → AmountsFit (amount + rest) pending bnb → AmountsFit rest pending bnb
  fewer-AmountsFit amount a = record {
    rest_fits = let h = a.rest_fits in omega arith;
    tokens = λ k tx l. let h = a.tokens k tx l in omega arith;
    fees = λ k b l. let h = a.fees k b l in omega arith;
  }

  store_token-AmountsFit :
      (k : Bytes) (tx : InboundTx)
      → AmountsFit rest pending bnb
      → tx.fee.amount + rest < 2 ^ 255
      → AmountsFit rest (store k tx pending) bnb
  store_token-AmountsFit k tx a h = record {
    rest_fits = a.rest_fits;
    tokens = λ j t q. elim (load-store-some k j tx t pending q) [
      | inl e ↦ subst (λ (x : InboundTx). x.fee.amount + rest < 2 ^ 255) e h
      | inr before ↦ a.tokens j t before
    ];
    fees = a.fees;
  }

  store_fee-AmountsFit :
      (k : Bytes) (b : InboundTxBnb)
      → AmountsFit rest pending bnb
      → b.fee.amount + rest < 2 ^ 255
      → AmountsFit rest pending (store k b bnb)
  store_fee-AmountsFit k b a h = record {
    rest_fits = a.rest_fits;
    tokens = a.tokens;
    fees = λ j t q. elim (load-store-some k j b t bnb q) [
      | inl e ↦ subst (λ (x : InboundTxBnb). x.fee.amount + rest < 2 ^ 255) e h
      | inr before ↦ a.fees j t before
    ];
  }

  delete_token-AmountsFit :
      (k : Bytes) → AmountsFit rest pending bnb → AmountsFit rest (delete k pending) bnb
  delete_token-AmountsFit k a = record {
    rest_fits = a.rest_fits;
    tokens = λ j t q. a.tokens j t (load-delete-some k j t pending q);
    fees = a.fees;
  }

  delete_fee-AmountsFit :
      (k : Bytes) → AmountsFit rest pending bnb → AmountsFit rest pending (delete k bnb)
  delete_fee-AmountsFit k a = record {
    rest_fits = a.rest_fits;
    tokens = a.tokens;
    fees = λ j t q. a.fees j t (load-delete-some k j t bnb q);
  }

-- A payment whose amount is in the bound is taken without a panic, and the rest stays in the bound.
pub update-Amounts :
    (env : Env) (tx_id : Bytes) (amount n rest : ℕ) (pi : PubChainInstance)
    → Amounts (amount + rest) pi
    → Safe (λ o. Amounts rest o.1) (update_inbound_tx env tx_id amount n pi)
update-Amounts env tx_id amount n rest pi a =
    let less = fewer-AmountsFit rest pi.pending_inbounds pi.pending_inbounds_bnb amount a in
    let h = a.rest_fits in
    elim (Option-cases (load tx_id pi.pending_inbounds)) [
      | inl l ↦ rw (update_no_token env tx_id amount n pi (omega arith) l) (
          store_fee-AmountsFit rest pi.pending_inbounds pi.pending_inbounds_bnb tx_id
            (first_fee tx_id amount n) less h)
      | inr (tx, l) ↦
          let bound = a.tokens tx_id tx l in
          elim (Result-cases (verify_inbound_tx env (add_fee amount tx))) [
            | inr (e, v) ↦ rw (update_short env tx_id amount n pi tx e (omega arith) l v) (
                store_token-AmountsFit rest pi.pending_inbounds pi.pending_inbounds_bnb tx_id
                  (add_fee amount tx) less (omega arith))
            | inl (tt, v) ↦ rw (update_paid env tx_id amount n pi tx (omega arith) l v) (
                delete_token-AmountsFit rest pi.pending_inbounds pi.pending_inbounds_bnb tx_id less)
          ]
    ]

send-Amounts :
    (rest : ℕ) (req : InboundReq) (pi : PubChainInstance)
    → Amounts rest pi
    → Safe {A = Result (Unit {0}) × PubChainInstance}
        (λ o. Amounts rest o.1)
        (send_inbound req pi >>= λ sent. done (ok tt, sent))
unfolding send_inbound
send-Amounts rest req pi a = elim (Bool-cases (ltb (length pi.inbound_req_chan) req_cache_size)) [
  | inl room ↦ rw (room, send_inbound) a
  | inr full ↦ rw (full, send_inbound) tt
]

with_fee-Amounts :
    (env : Env) (rest : ℕ) (tx_id to : Bytes) (tx : InboundTx) (pi : PubChainInstance)
    → tx.fee.amount + rest < 2 ^ 255
    → Amounts rest pi
    → Safe (λ o. Amounts rest o.1) (process_with_fee env tx_id to tx pi)
with_fee-Amounts env rest tx_id to tx pi h a = elim (Result-cases (verify_inbound_tx env tx)) [
  | inr (e, v) ↦
      rw (with_fee_short env tx_id to tx pi e v)
        (store_token-AmountsFit rest pi.pending_inbounds pi.pending_inbounds_bnb tx_id tx a h)
  | inl (tt, v) ↦ elim (Result-cases (hex_decode tx_id)) [
    | inr (e, d) ↦ rw (with_fee_no_hex env tx_id to tx pi e v d) a
    | inl (bytes, d) ↦ rw (with_fee_paid env tx_id to tx pi bytes v d) (
        send-Amounts rest
          (new_account_inbound_req tx.address to tx.token bytes (int64_of tx.pub_block_height)) pi
          a)
  ]
]

-- A value that fits sdk.Int is taken without a panic.
pub process-Amounts :
    (env : Env) (rest : ℕ) (tx_id : Bytes) (height : ℕ) (sender to : Bytes) (value : ℕ)
    (addr : Bytes) (pi : PubChainInstance)
    → value < 2 ^ 255
    → Amounts rest pi
    → Safe (λ o. Amounts rest o.1) (process_inbound_tx env tx_id height sender to value addr pi)
process-Amounts env rest tx_id height sender to value addr pi fits a =
    elim (Option-cases (load tx_id pi.pending_inbounds)) [
      | inr (tx, l) ↦ rw (process_existed env tx_id height sender to value addr pi tx l) a
      | inl l ↦ elim (Bool-cases (env.address_text addr == pi.token_addr)) [
        | inr other ↦
            rw
              (process_wrong_token env tx_id height sender to value addr pi l (λ q.
                ground (arith, (string_key.same_iff (env.address_text addr) pi.token_addr).1 q)))
              a
        | inl same ↦
            let token = (string_key.same_iff (env.address_text addr) pi.token_addr).0 same in
            elim (Option-cases (load tx_id pi.pending_inbounds_bnb)) [
              | inl b ↦
                  rw (process_without_fee env tx_id height sender to value addr pi fits l token b) (
                    store_token-AmountsFit rest pi.pending_inbounds pi.pending_inbounds_bnb tx_id
                      (new_inbound_tx sender height value no_fee) a
                      (let h = a.rest_fits in omega arith))
              | inr (bnb, b) ↦
                  rw (process_after_fee env tx_id height sender to value addr pi bnb fits l token b)
                    (with_fee-Amounts env rest tx_id to (new_inbound_tx sender height value bnb.fee)
                      (record pi { pending_inbounds_bnb = delete tx_id pi.pending_inbounds_bnb })
                      (a.fees tx_id bnb b)
                      (delete_fee-AmountsFit rest pi.pending_inbounds pi.pending_inbounds_bnb tx_id
                        a))
            ]
      ]
    ]
