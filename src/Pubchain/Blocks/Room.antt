-- ===== src/Pubchain/Blocks/Room.antt =====
-- pubchain/tx_inbound.go: when processing a block returns. A send on the full channel would wait for the
-- loop that sends.
use oppy_bridge.Common.{
  ℕ, suc, ◌+◌, ◌≤◌, ◌<◌, ◌≡◌, refl, ap, ◌∙◌, Option, none, some, List, [], ◌∷◌, arith, nat_key,
  string_key, bytes_key, length, All, length-append,
}
use oppy_bridge.Common.Outcome.{Outcome, done, panics, blocked, ◌>>=◌, Safe}
use oppy_bridge.Common.Result.{Result, ok, err}
use oppy_bridge.Config.{req_cache_size}
use oppy_bridge.External.{Bytes, Env, Transaction}
use oppy_bridge.Hex.{hex_encode}
use oppy_bridge.Misc.BigInt.{uint64}
use oppy_bridge.Misc.RecoveryId.{recover_rec_id}
use oppy_bridge.Misc.Signature.Layout.{make_signature_reads_back}
use oppy_bridge.Pubchain.State.{
  InboundReq, InboundTx, PubChainInstance, add_inbound_item, send_inbound,
}
use oppy_bridge.Pubchain.Inbound.{update_inbound_tx}
use oppy_bridge.Pubchain.Inbound.Amounts.{Amounts}
use oppy_bridge.Pubchain.Inbound.Fee.{update_cases}
use oppy_bridge.Pubchain.Inbound.Branches.{process_cases, send_with_room}
use oppy_bridge.Pubchain.Blocks.{
  add_account, process_inbound_erc20, process_payment, then_payment, process_each_tx,
  process_each_block,
}
use oppy_bridge.Pubchain.Blocks.Cases.{signature_of, payment_cases, erc20_cases, to_cases, tx_cases}
use oppy_bridge.Pubchain.Blocks.Amounts.{Fits, total_value, tx-Safe}
use oppy_bridge.Pubchain.Blocks.Frame.{Frame}

-- The call does not block, and if it returns, at most `k` requests are in the channel.
abbrev Within : ℕ → Outcome (Result (Unit {0}) × PubChainInstance) → Type 0
Within k (done (_, pi)) = length pi.inbound_req_chan ≤ k
Within k panics = Unit
Within k blocked = ⊥

abbrev Returning {ℓ} : {A : Type ℓ} → (A → Type 0) → Outcome A → Type 0
Returning P (done a) = P a
Returning P panics = Unit
Returning P blocked = ⊥

abbrev WithinState : ℕ → Outcome PubChainInstance → Type 0
WithinState k (done pi) = length pi.inbound_req_chan ≤ k
WithinState k panics = Unit
WithinState k blocked = ⊥

module _ (k : ℕ) (env : Env) (number : ℕ) (tx : Transaction) (to : Bytes) where
  paid-WithinState :
      (tx_id : Bytes) (out : Outcome (Option InboundTx × PubChainInstance))
      → Returning (λ o. length o.1.inbound_req_chan ≤ k) out
      → WithinState k (out >>= add_account env to tx_id)
  unfolding add_inbound_item
  paid-WithinState tx_id (done (none, pi)) h = h
  paid-WithinState tx_id (done (some a, pi)) h = h
  paid-WithinState tx_id panics h = tt
  paid-WithinState tx_id blocked h = absurd h

  update-Returning :
      (tx_id : Bytes) (pi : PubChainInstance)
      → length pi.inbound_req_chan ≤ k
      → Returning
          (λ o. length o.1.inbound_req_chan ≤ k)
          (update_inbound_tx env tx_id tx.value number pi)
  update-Returning tx_id pi h =
      update_cases env tx_id tx.value number pi (Returning (λ o. length o.1.inbound_req_chan ≤ k))
        tt (λ l. h) (λ t e l v. h) (λ t l v. h)

  payment-WithinState :
      (pi : PubChainInstance)
      → length pi.inbound_req_chan ≤ k
      → WithinState k (process_payment env number tx to pi)
  payment-WithinState pi h = payment_cases (WithinState k) env number tx to pi h (λ tx_id.
      paid-WithinState tx_id (update_inbound_tx env (hex_encode tx_id) tx.value number pi)
        (update-Returning (hex_encode tx_id) pi h))

module _ (p : PubChainInstance) (env : Env) (number k : ℕ) (room : k < req_cache_size) where
  send-Within :
      (req : InboundReq) (pi : PubChainInstance)
      → length pi.inbound_req_chan ≤ k
      → Within (suc k) (send_inbound req pi >>= λ sent. done (ok tt, sent))
  send-Within req pi h =
      rw (send_with_room req pi (omega arith))
        (omega (arith, length-append pi.inbound_req_chan (req ∷ [])))

  then_payment-Within :
      (tx : Transaction) (to : Bytes) (out : Outcome (Result (Unit {0}) × PubChainInstance))
      → Within (suc k) out
      → WithinState (suc k) (out >>= then_payment env number tx to)
  then_payment-Within tx to (done (ok tt, pi)) w = payment-WithinState (suc k) env number tx to pi w
  then_payment-Within tx to (done (err e, pi)) w = w
  then_payment-Within tx to panics w = w
  then_payment-Within tx to blocked w = w

  erc20-Within :
      (tx : Transaction) (token to : Bytes) (amount : ℕ) (pi : PubChainInstance)
      → Fits env p tx
      → length pi.inbound_req_chan ≤ k
      → Within (suc k) (process_inbound_erc20 env tx token to amount number pi)
  erc20-Within tx token to amount pi fits h =
      let signed =
        make_signature_reads_back tx.sig_r tx.sig_s (recover_rec_id (uint64 tx.chain_id) tx.sig_v)
          fits.0 fits.1 in
      let s : signature_of tx ≡ done signed.0 = signed.1 in
      erc20_cases (Within (suc k)) env tx token to amount number pi (λ e. tt) (λ e. cc)
        (λ e. omega arith)
        (λ sender.
          process_cases (Within (suc k)) env (hex_encode tx.hash) number sender to amount token pi
            (λ e. omega arith) (λ big. tt) (λ m b. omega arith) (λ req b. send-Within req _ h))

  tx-Within :
      (check_each_tx : Bytes → Result ℕ) (tx : Transaction) (pi : PubChainInstance)
      → Fits env p tx
      → length pi.inbound_req_chan ≤ k
      → WithinState (suc k) (process_each_tx env check_each_tx number tx pi)
  tx-Within check_each_tx tx pi fits h =
      tx_cases (WithinState (suc k)) env number tx pi check_each_tx (omega arith) (λ to t.
        to_cases (WithinState (suc k)) env number tx pi to (omega arith)
          (payment-WithinState (suc k) env number tx to pi (omega arith))
          (λ to_addr amount c t b.
            then_payment-Within tx to (process_inbound_erc20 env tx to to_addr amount number pi)
              (erc20-Within tx to to_addr amount pi fits h)))

block_returns :
    (p : PubChainInstance) (env : Env) (check_each_tx : Bytes → Result ℕ) (number : ℕ)
    (txs : List Transaction) (pi : PubChainInstance)
    → All (Fits env p) txs
    → Frame p pi
    → Amounts (total_value txs) pi
    → length pi.inbound_req_chan + length txs ≤ req_cache_size
    → (pi' : PubChainInstance) × (process_each_block env check_each_tx number txs pi ≡ done pi')
      × (length pi'.inbound_req_chan ≤ length pi.inbound_req_chan + length txs)
unfolding process_each_block
block_returns p env check_each_tx number [] pi fits f a room = (pi, refl, omega arith)
block_returns p env check_each_tx number (tx ∷ txs) pi fits f a room =
    next (process_each_tx env check_each_tx number tx pi) refl
      (tx-Within p env number (length pi.inbound_req_chan) (omega arith) check_each_tx tx pi fits.0
        (omega arith))
      (tx-Safe p env number check_each_tx tx (total_value txs) pi fits.0 f a)
      (λ pi' h f' a'. block_returns p env check_each_tx number txs pi' fits.1 f' a' h)
  where
    next :
        (out : Outcome PubChainInstance)
        → process_each_tx env check_each_tx number tx pi ≡ out
        → WithinState (suc (length pi.inbound_req_chan)) out
        → Safe (λ pi'. Amounts (total_value txs) pi' × Frame p pi') out
        → ((pi' : PubChainInstance)
            → length pi'.inbound_req_chan + length txs ≤ req_cache_size
            → Frame p pi'
            → Amounts (total_value txs) pi'
            → (pi'' : PubChainInstance) × (process_each_block env check_each_tx number txs pi'
                ≡ done pi'')
              × (length pi''.inbound_req_chan ≤ length pi'.inbound_req_chan + length txs))
        → (pi'' : PubChainInstance) × (process_each_block env check_each_tx number (tx ∷ txs) pi
            ≡ done pi'')
          × (length pi''.inbound_req_chan ≤ length pi.inbound_req_chan + suc (length txs))
    next (done pi') e w (a', f') rest =
        let (pi'', r, l) = rest pi' (omega arith) f' a' in
        (pi'', ap (λ o. o >>= process_each_block env check_each_tx number txs) e ∙ r, omega arith)
    next panics e w s rest = absurd s
    next blocked e w s rest = absurd w

-- Let the channel have room for one request to each transaction of the block, the two values of every
-- transaction's signature fit 32 bytes, and the amounts fit sdk.Int: the one in the input of a
-- transaction to the bridge's token that names a pool, and each fee that waits with the values of all the
-- block's transactions added. Then processing the block returns: it does not panic, it does not block,
-- and the channel grows by at most one request to a transaction.
pub process_each_block_returns :
    (env : Env) (check_each_tx : Bytes → Result ℕ) (number : ℕ) (txs : List Transaction)
    (pi : PubChainInstance)
    → All (Fits env pi) txs
    → Amounts (total_value txs) pi
    → length pi.inbound_req_chan + length txs ≤ req_cache_size
    → (pi' : PubChainInstance) × (process_each_block env check_each_tx number txs pi ≡ done pi')
      × (length pi'.inbound_req_chan ≤ length pi.inbound_req_chan + length txs)
process_each_block_returns env check_each_tx number txs pi fits a room =
    block_returns pi env check_each_tx number txs pi fits (λ v. v, refl, refl, refl) a room
