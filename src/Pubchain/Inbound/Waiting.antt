-- ===== src/Pubchain/Inbound/Waiting.antt =====
-- pubchain/tx_inbound.go: what the two maps of transactions that wait hold.
use oppy_bridge.Common.{
  ℕ, ◌^◌, ◌<◌, String, ◌≡◌, refl, ◌∙◌, ◌≢◌, ◌⊎◌, inl, inr, none, some, arith, ltb, ◌==◌, nat_key,
  string_key, bytes_key, Bool-cases, Option-cases, length,
}
use oppy_bridge.Common.Int.{int64_of}
use oppy_bridge.Common.Outcome.{Outcome, done, panics, blocked, ◌>>=◌, Ensures}
use oppy_bridge.Common.Result.{Result, ok, err}
use oppy_bridge.Config.{in_bound_denom_fee, in_bound_fee_min, req_cache_size}
use oppy_bridge.External.{Bytes, Env}
use oppy_bridge.Hex.{hex_decode}
use oppy_bridge.SyncMap.{
  SyncMap, load, store, delete, load-store-some, load-store_ne, load-delete-some, load-delete-none,
  load-delete_self,
}
use oppy_bridge.Pubchain.State.{
  InboundReq, InboundTx, InboundTxBnb, PubChainInstance, send_inbound, new_account_inbound_req,
}
use oppy_bridge.Pubchain.Inbound.{
  verify_inbound_tx, update_inbound_tx, process_with_fee, process_inbound_tx, new_inbound_tx,
  add_fee, first_fee,
}
use oppy_bridge.Pubchain.Inbound.Fee.{update_cases, verify_short}
use oppy_bridge.Pubchain.Inbound.Branches.{
  no_fee, process_too_big, process_existed, process_wrong_token, process_without_fee,
  process_after_fee, with_fee_short, with_fee_no_hex, with_fee_paid,
}

-- A token waits only while its fee does not satisfy Verify; a fee that waits for its token is in the
-- fee's denomination; and of one transaction the token or the fee may wait, never both.
pub record IsWaiting (env : Env) (pending : SyncMap Bytes InboundTx)
    (bnb : SyncMap Bytes InboundTxBnb) : Type 0 where
  pub short :
      (k : Bytes) (tx : InboundTx) → load k pending ≡ some tx → verify_inbound_tx env tx ≢ ok tt
  pub in_denom :
      (k : Bytes) (b : InboundTxBnb) → load k bnb ≡ some b → b.fee.denom ≡ in_bound_denom_fee
  pub apart : (k : Bytes) → (load k pending ≡ none) ⊎ (load k bnb ≡ none)

abbrev pub Waits : Env → PubChainInstance → Type 0
Waits env pi = IsWaiting env pi.pending_inbounds pi.pending_inbounds_bnb

-- The least fee is above 0.
abbrev pub FeeIsPositive : Env → Type 0
FeeIsPositive env = (min : ℕ) × (env.dec_from_str in_bound_fee_min ≡ ok min) × (0 < min)

Result-cases : (r : Result (Unit {0})) → (r ≡ ok tt) ⊎ ((e : String) × (r ≡ err e))
Result-cases (ok tt) = inl refl
Result-cases (err e) = inr (e, refl)

module _ (env : Env) (pending : SyncMap Bytes InboundTx) (bnb : SyncMap Bytes InboundTxBnb) where
  store_token :
      (k : Bytes) (tx : InboundTx)
      → IsWaiting env pending bnb
      → verify_inbound_tx env tx ≢ ok tt
      → load k bnb ≡ none
      → IsWaiting env (store k tx pending) bnb
  store_token k tx w v b = record {
    short = λ j t q. elim (load-store-some k j tx t pending q) [
      | inl e ↦ rw (← e) v
      | inr before ↦ w.short j t before
    ];
    in_denom = w.in_denom;
    apart = λ j. elim (Bool-cases (j == k)) [
      | inl same ↦ inr (rw ((bytes_key.same_iff j k).0 same) b)
      | inr other ↦ elim (w.apart j) [
        | inl p ↦
            inl
              (load-store_ne k j tx pending (λ e. ground (arith, (bytes_key.same_iff j k).1 e)) ∙ p)
        | inr p ↦ inr p
      ]
    ];
  }

  store_fee :
      (k : Bytes) (b : InboundTxBnb)
      → IsWaiting env pending bnb
      → b.fee.denom ≡ in_bound_denom_fee
      → load k pending ≡ none
      → IsWaiting env pending (store k b bnb)
  store_fee k b w d l = record {
    short = w.short;
    in_denom = λ j t q. elim (load-store-some k j b t bnb q) [
      | inl e ↦ rw (← e) d
      | inr before ↦ w.in_denom j t before
    ];
    apart = λ j. elim (Bool-cases (j == k)) [
      | inl same ↦ inl (rw ((bytes_key.same_iff j k).0 same) l)
      | inr other ↦ elim (w.apart j) [
        | inl p ↦ inl p
        | inr p ↦
            inr (load-store_ne k j b bnb (λ e. ground (arith, (bytes_key.same_iff j k).1 e)) ∙ p)
      ]
    ];
  }

  pub delete_token : (k : Bytes) → IsWaiting env pending bnb → IsWaiting env (delete k pending) bnb
  delete_token k w = record {
    short = λ j t q. w.short j t (load-delete-some k j t pending q);
    in_denom = w.in_denom;
    apart = λ j. elim (w.apart j) [ inl p ↦ inl (load-delete-none k j pending p) | inr p ↦ inr p ];
  }

  pub delete_fee : (k : Bytes) → IsWaiting env pending bnb → IsWaiting env pending (delete k bnb)
  delete_fee k w = record {
    short = w.short;
    in_denom = λ j t q. w.in_denom j t (load-delete-some k j t bnb q);
    apart = λ j. elim (w.apart j) [ inl p ↦ inl p | inr p ↦ inr (load-delete-none k j bnb p) ];
  }

no_fee_beside :
    (env : Env) (pending : SyncMap Bytes InboundTx) (bnb : SyncMap Bytes InboundTxBnb) (k : Bytes)
    (tx : InboundTx)
    → IsWaiting env pending bnb
    → load k pending ≡ some tx
    → load k bnb ≡ none
no_fee_beside env pending bnb k tx w l = elim (w.apart k) [ inl p ↦ cc | inr p ↦ p ]

err_ne_ok : (e : String) → ◌≢◌ {A = Result (Unit {0})} (err e) (ok tt)
err_ne_ok e q = cc

-- updateInboundTx keeps what the maps hold.
pub update-Waits :
    (env : Env) (tx_id : Bytes) (amount n : ℕ) (pi : PubChainInstance)
    → Waits env pi
    → Ensures (λ o. Waits env o.1) (update_inbound_tx env tx_id amount n pi)
update-Waits env tx_id amount n pi w =
    update_cases env tx_id amount n pi (Ensures (λ o. Waits env o.1)) tt
      (λ l.
        store_fee env pi.pending_inbounds pi.pending_inbounds_bnb tx_id (first_fee tx_id amount n) w
          refl l)
      (λ tx e l v.
        store_token env pi.pending_inbounds pi.pending_inbounds_bnb tx_id (add_fee amount tx) w
          (rw v (err_ne_ok e))
          (no_fee_beside env pi.pending_inbounds pi.pending_inbounds_bnb tx_id tx w l))
      (λ tx l v. delete_token env pi.pending_inbounds pi.pending_inbounds_bnb tx_id w)

-- The state that a call leaves, if it returns.
abbrev pub Leaves :
    (PubChainInstance → Type 0) → Outcome (Result (Unit {0}) × PubChainInstance) → Type 0
Leaves P (done (_, pi)) = P pi
Leaves P panics = Unit
Leaves P blocked = Unit

send-Waits :
    (env : Env) (req : InboundReq) (pi : PubChainInstance)
    → Waits env pi
    → Leaves (Waits env) (send_inbound req pi >>= λ sent. done (ok tt, sent))
unfolding send_inbound
send-Waits env req pi w = elim (Bool-cases (ltb (length pi.inbound_req_chan) req_cache_size)) [
  | inl room ↦ rw room w
  | inr full ↦ rw full tt
]

with_fee-Waits :
    (env : Env) (tx_id to : Bytes) (tx : InboundTx) (pi : PubChainInstance)
    → load tx_id pi.pending_inbounds_bnb ≡ none
    → Waits env pi
    → Leaves (Waits env) (process_with_fee env tx_id to tx pi)
with_fee-Waits env tx_id to tx pi b w = elim (Result-cases (verify_inbound_tx env tx)) [
  | inr (e, v) ↦ rw (with_fee_short env tx_id to tx pi e v) (
      store_token env pi.pending_inbounds pi.pending_inbounds_bnb tx_id tx w (rw v (err_ne_ok e)) b)
  | inl v ↦ decoded (hex_decode tx_id) refl v
]
  where
    decoded :
        (h : Result Bytes)
        → hex_decode tx_id ≡ h
        → verify_inbound_tx env tx ≡ ok tt
        → Leaves (Waits env) (process_with_fee env tx_id to tx pi)
    decoded (err e) h v = rw (with_fee_no_hex env tx_id to tx pi e v h) w
    decoded (ok bytes) h v = rw (with_fee_paid env tx_id to tx pi bytes v h) (
        send-Waits env
          (new_account_inbound_req tx.address to tx.token bytes (int64_of tx.pub_block_height)) pi
          w)

-- processInboundTx keeps what the maps hold.
pub process-Waits :
    (env : Env) (tx_id : Bytes) (height : ℕ) (sender to : Bytes) (value : ℕ) (addr : Bytes)
    (pi : PubChainInstance)
    → FeeIsPositive env
    → Waits env pi
    → Leaves (Waits env) (process_inbound_tx env tx_id height sender to value addr pi)
process-Waits env tx_id height sender to value addr pi (min, e, positive) w =
    elim (Option-cases (load tx_id pi.pending_inbounds)) [
      | inr (tx, l) ↦ rw (process_existed env tx_id height sender to value addr pi tx l) w
      | inl l ↦ elim (Bool-cases (env.address_text addr == pi.token_addr)) [
        | inr other ↦
            rw
              (process_wrong_token env tx_id height sender to value addr pi l (λ q.
                ground (arith, (string_key.same_iff (env.address_text addr) pi.token_addr).1 q)))
              w
        | inl same ↦
            let token = (string_key.same_iff (env.address_text addr) pi.token_addr).0 same in
            elim (Bool-cases (ltb value (2 ^ 255))) [
              | inr big ↦
                  rw (process_too_big env tx_id height sender to value addr pi l token big) tt
              | inl small ↦
                  let fits : value < 2 ^ 255 = ground arith in
                  elim (Option-cases (load tx_id pi.pending_inbounds_bnb)) [
                    | inl b ↦
                        rw
                          (process_without_fee env tx_id height sender to value addr pi fits l token
                            b)
                          (store_token env pi.pending_inbounds pi.pending_inbounds_bnb tx_id
                            (new_inbound_tx sender height value no_fee) w
                            (rw
                              (verify_short env (new_inbound_tx sender height value no_fee) min e
                                refl (ground arith))
                              (err_ne_ok _))
                            b)
                    | inr (bnb, b) ↦
                        rw
                          (process_after_fee env tx_id height sender to value addr pi bnb fits l
                            token b)
                          (with_fee-Waits env tx_id to (new_inbound_tx sender height value bnb.fee)
                            (record pi {
                              pending_inbounds_bnb = delete tx_id pi.pending_inbounds_bnb;
                            })
                            (load-delete_self tx_id pi.pending_inbounds_bnb)
                            (delete_fee env pi.pending_inbounds pi.pending_inbounds_bnb tx_id w))
                  ]
            ]
      ]
    ]
