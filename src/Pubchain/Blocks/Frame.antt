-- ===== src/Pubchain/Blocks/Frame.antt =====
-- pubchain/tx_inbound.go: what a block leaves alone. It touches neither the pools, nor the token, nor the
-- move-fund queue, and nothing at all while no pool is known.
use oppy_bridge.Common.{
  ℕ, ◌≡◌, inl, inr, Option, none, some, List, [], ◌∷◌, ltb, nat_key, string_key, bytes_key,
  Bool-cases, length,
}
use oppy_bridge.Common.Int.{pos}
use oppy_bridge.Common.Outcome.{done, Ensures, Ensures-then}
use oppy_bridge.Common.Result.{Result, ok, err}
use oppy_bridge.Config.{req_cache_size}
use oppy_bridge.External.{Bytes, Env, Transaction}
use oppy_bridge.Hex.{hex_encode}
use oppy_bridge.RetryPool.Max.{IsValid, add_item_appends}
use oppy_bridge.Pubchain.State.{
  InboundReq, InboundTx, PubChainInstance, new_account_inbound_req, add_inbound_item, inbound_hash,
  send_inbound,
}
use oppy_bridge.Pubchain.Inbound.{update_inbound_tx}
use oppy_bridge.Pubchain.Inbound.Fee.{update-Ensures}
use oppy_bridge.Pubchain.Inbound.Branches.{process_cases}
use oppy_bridge.Pubchain.Blocks.{
  add_account, process_inbound_erc20, process_payment, then_payment, process_each_tx,
  process_each_block,
}
use oppy_bridge.Pubchain.Blocks.Cases.{payment_cases, erc20_cases, to_cases, tx_cases}

-- The retry pool stays valid, and the pools, the token and the move-fund queue are those of the first state.
abbrev pub Frame : PubChainInstance → PubChainInstance → Type 0
Frame p pi =
    (IsValid p.retry_inbound_req → IsValid pi.retry_inbound_req)
    × (pi.move_fund_req ≡ p.move_fund_req)
    × (pi.last_two_pools ≡ p.last_two_pools)
    × (pi.token_addr ≡ p.token_addr)

module _ (p : PubChainInstance) where
  pub add-Frame :
      (env : Env) (req : InboundReq) (pi : PubChainInstance)
      → Frame p pi
      → Frame p (add_inbound_item env req pi)
  unfolding add_inbound_item
  add-Frame env req pi (v, m, l, t) =
      (λ w. (add_item_appends (inbound_hash env req) req pi.retry_inbound_req (v w)).2, m, l, t)

  add_account-Frame :
      (env : Env) (to tx_id : Bytes) (o : Option InboundTx × PubChainInstance)
      → Frame p o.1
      → Ensures (Frame p) (add_account env to tx_id o)
  add_account-Frame env to tx_id (none, pi) f = f
  add_account-Frame env to tx_id (some a, pi) f =
      add-Frame env (new_account_inbound_req a.address to a.token tx_id (pos 0)) pi f

  send-Frame :
      (req : InboundReq) (pi : PubChainInstance)
      → Frame p pi
      → Ensures (Frame p) (send_inbound req pi)
  unfolding send_inbound
  send-Frame req pi f = elim (Bool-cases (ltb (length pi.inbound_req_chan) req_cache_size)) [
    | inl t ↦ rw (t, send_inbound) f
    | inr t ↦ rw (t, send_inbound) tt
  ]

  module _ (env : Env) (number : ℕ) where
    payment-Frame :
        (tx : Transaction) (to : Bytes) (pi : PubChainInstance)
        → Frame p pi
        → Ensures (Frame p) (process_payment env number tx to pi)
    payment-Frame tx to pi f = payment_cases (Ensures (Frame p)) env number tx to pi f (λ tx_id.
        Ensures-then (λ o. Frame p o.1) (Frame p)
          (update_inbound_tx env (hex_encode tx_id) tx.value number pi) (add_account env to tx_id)
          (update-Ensures env (hex_encode tx_id) tx.value number pi (Frame p) (λ m b. f))
          (add_account-Frame env to tx_id))

    erc20-Frame :
        (tx : Transaction) (token to : Bytes) (amount : ℕ) (pi : PubChainInstance)
        → Frame p pi
        → Ensures (λ o. Frame p o.1) (process_inbound_erc20 env tx token to amount number pi)
    erc20-Frame tx token to amount pi f =
        erc20_cases (Ensures (λ o. Frame p o.1)) env tx token to amount number pi (λ e. tt)
          (λ e. tt) (λ e. f)
          (λ sender.
            process_cases (Ensures (λ o. Frame p o.1)) env (hex_encode tx.hash) number sender to
              amount token pi (λ e. f) (λ big. tt) (λ m b. f)
              (λ req b.
                Ensures-then (Frame p) (λ o. Frame p o.1)
                  (send_inbound req (record pi { pending_inbounds_bnb = b }))
                  (λ sent. done (ok tt, sent))
                  (send-Frame req (record pi { pending_inbounds_bnb = b }) f) (λ pi' f'. f')))

    pub tx-Frame :
        (check_each_tx : Bytes → Result ℕ) (tx : Transaction) (pi : PubChainInstance)
        → Frame p pi
        → Ensures (Frame p) (process_each_tx env check_each_tx number tx pi)
    tx-Frame check_each_tx tx pi f =
        tx_cases (Ensures (Frame p)) env number tx pi check_each_tx f (λ to t.
          to_cases (Ensures (Frame p)) env number tx pi to f (payment-Frame tx to pi f)
            (λ to_addr amount c t b.
              Ensures-then (λ o. Frame p o.1) (Frame p)
                (process_inbound_erc20 env tx to to_addr amount number pi)
                (then_payment env number tx to) (erc20-Frame tx to to_addr amount pi f)
                (pays tx to)))
      where
        pays :
            (tx : Transaction) (to : Bytes) (o : Result (Unit {0}) × PubChainInstance)
            → Frame p o.1
            → Ensures (Frame p) (then_payment env number tx to o)
        pays tx to (err e, pi') f' = f'
        pays tx to (ok _, pi') f' = payment-Frame tx to pi' f'

    pub block-Frame :
        (check_each_tx : Bytes → Result ℕ) (txs : List Transaction) (pi : PubChainInstance)
        → Frame p pi
        → Ensures (Frame p) (process_each_block env check_each_tx number txs pi)
    unfolding process_each_block
    block-Frame check_each_tx [] pi f = f
    block-Frame check_each_tx (tx ∷ txs) pi f =
        Ensures-then (Frame p) (Frame p) (process_each_tx env check_each_tx number tx pi)
          (process_each_block env check_each_tx number txs) (tx-Frame check_each_tx tx pi f)
          (λ pi' f'. block-Frame check_each_tx txs pi' f')
