-- ===== src/Pubchain/Inbound/Branches.antt =====
-- pubchain/tx_inbound.go: processInboundTx, branch by branch.
use oppy_bridge.Common.{
  ◌==◌, Bool-cases, Option-cases, inl, inr, ℕ, ◌<◌, String, ◌≡◌, ◌≢◌, none, some, [], ◌∷◌, ◌++◌,
  ◌^◌, ltb, false, refl, arith, nat_key, string_key, bytes_key, beq-ne, length,
}
use oppy_bridge.Common.Int.{int64_of}
use oppy_bridge.Common.Outcome.{Outcome, done, panics, ◌>>=◌}
use oppy_bridge.Common.SdkInt.{new_int, new_int_fits}
use oppy_bridge.Common.Result.{Result, ok, err, Result-cases}
use oppy_bridge.Config.{in_bound_denom_fee, req_cache_size}
use oppy_bridge.External.{Bytes, Coin, Env}
use oppy_bridge.Hex.{hex_decode}
use oppy_bridge.SyncMap.{SyncMap, load, store, delete}
use oppy_bridge.Pubchain.State.{
  InboundReq, InboundTx, InboundTxBnb, PubChainInstance, send_inbound, new_account_inbound_req,
}
use oppy_bridge.Pubchain.Inbound.{
  verify_inbound_tx, process_with_fee, process_inbound_tx, new_inbound_tx,
}

abbrev pub no_fee : Coin
no_fee = record { denom = in_bound_denom_fee; amount = 0 }

module _ (env : Env) (tx_id : Bytes) (height : ℕ) (sender to : Bytes) (value : ℕ) (addr : Bytes)
    (pi : PubChainInstance) where
  abbrev pub processed : Outcome (Result (Unit {0}) × PubChainInstance)
  processed = process_inbound_tx env tx_id height sender to value addr pi

  pub process_existed :
      (tx : InboundTx)
      → load tx_id pi.pending_inbounds ≡ some tx
      → processed ≡ done (err "tx existed", pi)
  unfolding process_inbound_tx
  process_existed tx l = ground arith

  pub process_wrong_token :
      load tx_id pi.pending_inbounds ≡ none
      → env.address_text addr ≢ pi.token_addr
      → processed ≡ done (err "incorrect top up token", pi)
  unfolding process_inbound_tx
  process_wrong_token l ne = ground (arith, beq-ne (env.address_text addr) pi.token_addr ne)

  pub process_too_big :
      load tx_id pi.pending_inbounds ≡ none
      → env.address_text addr ≡ pi.token_addr
      → ltb value (2 ^ 255) ≡ false
      → processed ≡ panics
  unfolding process_inbound_tx new_int
  process_too_big l e big =
      rw
        (
          l,
          (string_key.same_iff (env.address_text addr) pi.token_addr).1 e,
          big,
          process_inbound_tx,
          new_int,
        )
        refl

  pub process_without_fee :
      value < 2 ^ 255
      → load tx_id pi.pending_inbounds ≡ none
      → env.address_text addr ≡ pi.token_addr
      → load tx_id pi.pending_inbounds_bnb ≡ none
      → processed
        ≡ done (
          ok tt,
          record pi {
            pending_inbounds =
                store tx_id (new_inbound_tx sender height value no_fee) pi.pending_inbounds;
          },
        )
  unfolding process_inbound_tx
  process_without_fee fits l e b =
      rw
        (
          l,
          (string_key.same_iff (env.address_text addr) pi.token_addr).1 e,
          new_int_fits value fits,
          b,
          process_inbound_tx,
        )
        refl

  pub process_after_fee :
      (bnb : InboundTxBnb)
      → value < 2 ^ 255
      → load tx_id pi.pending_inbounds ≡ none
      → env.address_text addr ≡ pi.token_addr
      → load tx_id pi.pending_inbounds_bnb ≡ some bnb
      → processed
        ≡ process_with_fee env tx_id to
            (new_inbound_tx sender height value bnb.fee)
            (record pi { pending_inbounds_bnb = delete tx_id pi.pending_inbounds_bnb })
  unfolding process_inbound_tx
  process_after_fee bnb fits l e b =
      rw
        (
          l,
          (string_key.same_iff (env.address_text addr) pi.token_addr).1 e,
          new_int_fits value fits,
          b,
          process_inbound_tx,
        )
        refl

module _ (env : Env) (tx_id to : Bytes) (tx : InboundTx) (pi : PubChainInstance) where
  pub with_fee_short :
      (e : String)
      → verify_inbound_tx env tx ≡ err e
      → process_with_fee env tx_id to tx pi
        ≡ done (ok tt, record pi { pending_inbounds = store tx_id tx pi.pending_inbounds })
  unfolding process_with_fee
  with_fee_short e v = ground arith

  pub with_fee_no_hex :
      (e : String)
      → verify_inbound_tx env tx ≡ ok tt
      → hex_decode tx_id ≡ err e
      → process_with_fee env tx_id to tx pi ≡ done (ok tt, pi)
  unfolding process_with_fee
  with_fee_no_hex e v h = ground arith

  pub with_fee_paid :
      (tx_id_bytes : Bytes)
      → verify_inbound_tx env tx ≡ ok tt
      → hex_decode tx_id ≡ ok tx_id_bytes
      → process_with_fee env tx_id to tx pi ≡ (
          send_inbound
            (new_account_inbound_req tx.address to tx.token tx_id_bytes
              (int64_of tx.pub_block_height))
            pi
          >>= λ sent. done (ok tt, sent))
  unfolding process_with_fee
  with_fee_paid tx_id_bytes v h = ground arith

pub send_with_room :
    (req : InboundReq) (pi : PubChainInstance)
    → length pi.inbound_req_chan < req_cache_size
    → send_inbound req pi ≡ done (record pi { inbound_req_chan = pi.inbound_req_chan ++ req ∷ [] })
unfolding send_inbound
send_with_room req pi h = ground arith

-- What processInboundTx can do to the state: fail and leave it, panic on its value, change the two maps,
-- or send a request.
module _ {ℓ} (P : Outcome (Result (Unit {0}) × PubChainInstance) → Type ℓ) (env : Env)
    (tx_id : Bytes) (height : ℕ) (sender to : Bytes) (value : ℕ) (addr : Bytes)
    (pi : PubChainInstance) (fails : (e : String) → P (done (err e, pi)))
    (too_big : ltb value (2 ^ 255) ≡ false → P panics)
    (changes : (m : SyncMap Bytes InboundTx) (b : SyncMap Bytes InboundTxBnb)
      → P (done (ok tt, record pi { pending_inbounds = m; pending_inbounds_bnb = b })))
    (sends : (req : InboundReq) (b : SyncMap Bytes InboundTxBnb)
      → P (
          send_inbound req (record pi { pending_inbounds_bnb = b }) >>= λ sent.
          done (ok tt, sent))) where
  after_fee :
      (tx : InboundTx) (b : SyncMap Bytes InboundTxBnb)
      → P (process_with_fee env tx_id to tx (record pi { pending_inbounds_bnb = b }))
  after_fee tx b =
      let pi' = record pi { pending_inbounds_bnb = b } in
      elim (Result-cases (verify_inbound_tx env tx)) [
        | inr (e, v) ↦
            rw (with_fee_short env tx_id to tx pi' e v)
              (changes (store tx_id tx pi.pending_inbounds) b)
        | inl (tt, v) ↦ elim (Result-cases (hex_decode tx_id)) [
          | inr (e, h) ↦
              rw (with_fee_no_hex env tx_id to tx pi' e v h) (changes pi.pending_inbounds b)
          | inl (bytes, h) ↦ rw (with_fee_paid env tx_id to tx pi' bytes v h) (
              sends
                (new_account_inbound_req tx.address to tx.token bytes
                  (int64_of tx.pub_block_height))
                b)
        ]
      ]

  pub process_cases : P (process_inbound_tx env tx_id height sender to value addr pi)
  process_cases = elim (Option-cases (load tx_id pi.pending_inbounds)) [
    | inr (tx, l) ↦
        rw (process_existed env tx_id height sender to value addr pi tx l) (fails "tx existed")
    | inl l ↦ elim (Bool-cases (env.address_text addr == pi.token_addr)) [
      | inr other ↦
          rw
            (process_wrong_token env tx_id height sender to value addr pi l (λ q.
              ground (arith, (string_key.same_iff (env.address_text addr) pi.token_addr).1 q)))
            (fails "incorrect top up token")
      | inl same ↦
          let token = (string_key.same_iff (env.address_text addr) pi.token_addr).0 same in
          elim (Bool-cases (ltb value (2 ^ 255))) [
            | inr big ↦
                rw (process_too_big env tx_id height sender to value addr pi l token big)
                  (too_big big)
            | inl small ↦
                let fits : value < 2 ^ 255 = ground arith in
                elim (Option-cases (load tx_id pi.pending_inbounds_bnb)) [
                  | inl b ↦
                      rw
                        (process_without_fee env tx_id height sender to value addr pi fits l token
                          b)
                        (changes
                          (store tx_id (new_inbound_tx sender height value no_fee)
                            pi.pending_inbounds)
                          pi.pending_inbounds_bnb)
                  | inr (bnb, b) ↦
                      rw
                        (process_after_fee env tx_id height sender to value addr pi bnb fits l token
                          b)
                        (after_fee (new_inbound_tx sender height value bnb.fee)
                          (delete tx_id pi.pending_inbounds_bnb))
                ]
          ]
    ]
  ]
