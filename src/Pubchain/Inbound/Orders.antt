-- ===== src/Pubchain/Inbound/Orders.antt =====
-- pubchain/tx_inbound.go: a token and its fee may come in either order.
use oppy_bridge.Common.{
  ℕ, ◌^◌, ◌≤◌, ◌<◌, ◌≡◌, refl, ap, ◌∙◌, true, none, some, [], ◌∷◌, ◌++◌, arith, nat_key, string_key,
  bytes_key, length, All,
}
use oppy_bridge.Common.Int.{pos, int64_of}
use oppy_bridge.Common.Outcome.{done, ◌>>=◌}
use oppy_bridge.Common.Result.{ok}
use oppy_bridge.Config.{in_bound_denom, in_bound_denom_fee, in_bound_fee_min, req_cache_size}
use oppy_bridge.External.{Bytes, Coin, Env, Transaction}
use oppy_bridge.Hex.{hex_encode, hex_decode-hex_encode}
use oppy_bridge.SyncMap.{load, store, delete, load-store_self, load-delete_self}
use oppy_bridge.Pubchain.State.{
  InboundReq, PubChainInstance, new_account_inbound_req, add_inbound_item, inbound_hash,
  check_to_bridge,
}
use oppy_bridge.RetryPool.Max.{IsValid, add_item_appends}
use oppy_bridge.Pubchain.Blocks.{process_payment, add_account}
use oppy_bridge.Pubchain.Inbound.{
  verify_inbound_tx, update_inbound_tx, process_inbound_tx, new_inbound_tx, add_fee, first_fee,
}
use oppy_bridge.Pubchain.Inbound.Fee.{verify_enough, update_no_token, update_paid}
use oppy_bridge.Pubchain.Inbound.Branches.{
  no_fee, process_without_fee, process_after_fee, with_fee_paid, send_with_room,
}

abbrev fee_coin : ℕ → Coin
fee_coin fee = record { denom = in_bound_denom_fee; amount = fee }

-- The request to mint that stands in the retry pool after this one was put into it.
abbrev pub RetriedLast : Env → InboundReq → PubChainInstance → PubChainInstance → Type 0
RetriedLast env req before after =
    after.retry_inbound_req.entries
    ≡ before.retry_inbound_req.entries
      ++ (before.retry_inbound_req.next_pointer, (inbound_hash env req, req)) ∷ []

module _ (env : Env) (n : ℕ) (tx : Transaction) (hash dest : Bytes)
    (named : tx.payload ≡ some hash) where
  payment_updates :
      (pi : PubChainInstance)
      → check_to_bridge env dest pi ≡ true
      → process_payment env n tx dest pi
        ≡ (update_inbound_tx env (hex_encode hash) tx.value n pi >>= add_account env dest hash)
  unfolding process_payment
  payment_updates pi bridge = rw (bridge, named, process_payment) refl

-- Let a payment to a pool name a transaction of which neither the token nor a fee has come. Let the
-- transaction's token be the bridge's, the value and the fee fit sdk.Int, the fee reach the minimum, the
-- channel have room and the retry pool be valid. If the token comes first, it waits, and the payment then
-- puts a request to mint into the retry pool, for height 0, and leaves the channel. If the payment comes first,
-- its fee waits, and the token then puts the request into the channel, for the token's height, and the retry
-- pool stays. Both requests are of the same sender, the same coin and the transaction's bytes. In the end
-- neither the token nor the fee waits any longer.
pub either_order :
    (env : Env) (hash : Bytes) (height : ℕ) (sender to : Bytes) (value : ℕ) (addr dest : Bytes)
    (payment : Transaction) (n min : ℕ) (pi : PubChainInstance)
    → All (λ b. b < 256) hash
    → payment.payload ≡ some hash
    → check_to_bridge env dest pi ≡ true
    → env.dec_from_str in_bound_fee_min ≡ ok min
    → min ≤ payment.value
    → payment.value < 2 ^ 255
    → value < 2 ^ 255
    → env.address_text addr ≡ pi.token_addr
    → load (hex_encode hash) pi.pending_inbounds ≡ none
    → load (hex_encode hash) pi.pending_inbounds_bnb ≡ none
    → length pi.inbound_req_chan < req_cache_size
    → IsValid pi.retry_inbound_req
    → let tx_id = hex_encode hash in
      let coin : Coin = record { denom = in_bound_denom; amount = value } in
      ((p1 : PubChainInstance) × (p2 : PubChainInstance) × (process_inbound_tx env tx_id height
            sender to value addr pi
          ≡ done (ok tt, p1))
        × (process_payment env n payment dest p1 ≡ done p2)
        × RetriedLast env (new_account_inbound_req sender dest coin hash (pos 0)) pi p2
        × (p2.inbound_req_chan ≡ pi.inbound_req_chan)
        × (load tx_id p2.pending_inbounds ≡ none)
        × (load tx_id p2.pending_inbounds_bnb ≡ none))
      × ((q1 : PubChainInstance) × (q2 : PubChainInstance) × (process_payment env n payment dest pi
            ≡ done q1)
          × (process_inbound_tx env tx_id height sender to value addr q1 ≡ done (ok tt, q2))
          × (q2.inbound_req_chan
              ≡ pi.inbound_req_chan
                ++ new_account_inbound_req sender to coin hash (int64_of height) ∷ [])
          × (q2.retry_inbound_req ≡ pi.retry_inbound_req)
          × (load tx_id q2.pending_inbounds ≡ none)
          × (load tx_id q2.pending_inbounds_bnb ≡ none))
unfolding add_inbound_item check_to_bridge
either_order env hash height sender to value addr dest payment n min pi bytes named bridge e enough
      fee_fits fits token l b room valid =
    let tx_id = hex_encode hash in
    let fee = payment.value in
    let tx = new_inbound_tx sender height value (fee_coin fee) in
    let waiting = new_inbound_tx sender height value no_fee in
    let req = new_account_inbound_req sender dest tx.token hash (pos 0) in
    let p1 = record pi { pending_inbounds = store tx_id waiting pi.pending_inbounds } in
    let p1' = record p1 { pending_inbounds = delete tx_id p1.pending_inbounds } in
    let sum : add_fee fee waiting ≡ tx =
      ap (λ k. new_inbound_tx sender height value (fee_coin k)) (omega arith) in
    let verified : verify_inbound_tx env tx ≡ ok tt =
      verify_enough env tx min e refl (ground arith) in
    let q1 = record pi {
      pending_inbounds_bnb = store tx_id (first_fee tx_id fee n) pi.pending_inbounds_bnb;
    } in
    let q1' = record q1 { pending_inbounds_bnb = delete tx_id q1.pending_inbounds_bnb } in
    (
      (
        p1,
        add_inbound_item env req p1',
        process_without_fee env tx_id height sender to value addr pi fits l token b,
        payment_updates env n payment hash dest named p1 bridge
            ∙ ap (λ out. out >>= add_account env dest hash)
                (update_paid env tx_id fee n p1 waiting (omega arith)
                  (load-store_self tx_id waiting pi.pending_inbounds)
                  (ap (verify_inbound_tx env) sum ∙ verified)),
        (add_item_appends (inbound_hash env req) req pi.retry_inbound_req valid).0,
        refl,
        load-delete_self tx_id p1.pending_inbounds,
        b,
      ),
      (
        q1,
        record q1' {
          inbound_req_chan =
              pi.inbound_req_chan
              ++ new_account_inbound_req tx.address to tx.token hash (int64_of height) ∷ [];
        },
        payment_updates env n payment hash dest named pi bridge
            ∙ ap (λ out. out >>= add_account env dest hash)
                (update_no_token env tx_id fee n pi fee_fits l),
        process_after_fee env tx_id height sender to value addr q1 (first_fee tx_id fee n) fits l
              token (load-store_self tx_id (first_fee tx_id fee n) pi.pending_inbounds_bnb)
            ∙ with_fee_paid env tx_id to tx q1' hash verified (hex_decode-hex_encode hash bytes)
            ∙ ap (λ out. out >>= λ sent. done (ok tt, sent))
                (send_with_room
                  (new_account_inbound_req tx.address to tx.token hash (int64_of height)) q1' room),
        refl,
        refl,
        l,
        load-delete_self tx_id q1.pending_inbounds_bnb,
      ),
    )
