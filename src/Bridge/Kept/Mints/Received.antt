-- ===== src/Bridge/Kept/Mints/Received.antt =====
-- pubchain/tx_inbound.go: processing a block only adds requests to mint.
use oppy_bridge.Common.{ℕ, subst, Option, none, some, List, [], ◌∷◌, nat_key, string_key, bytes_key}
use oppy_bridge.Common.Int.{pos}
use oppy_bridge.Common.Outcome.{Ensures, Ensures-bind, Ensures-last, Ensures-then}
use oppy_bridge.Common.Result.{Result, ok, err}
use oppy_bridge.External.{Bytes, Transaction, Env}
use oppy_bridge.Hex.{hex_encode}
use oppy_bridge.Pubchain.State.{InboundTx, PubChainInstance, new_account_inbound_req, send_inbound}
use oppy_bridge.Pubchain.Inbound.{update_inbound_tx}
use oppy_bridge.Pubchain.Inbound.Fee.{update-Ensures}
use oppy_bridge.Pubchain.Inbound.Branches.{process_cases}
use oppy_bridge.Pubchain.Blocks.{
  add_account, process_inbound_erc20, process_payment, then_payment, process_each_tx,
  process_each_block, process_new_block,
}
use oppy_bridge.Pubchain.Blocks.Cases.{payment_cases, erc20_cases, to_cases, tx_cases}
use oppy_bridge.Bridge.Kept.Mints.{Has, added-Has, sent-Has}

module _ (tx_id : Bytes) (n : ℕ) where
  module _ (env : Env) (number : ℕ) where
    account-Has :
        (to pay_id : Bytes) (o : Option InboundTx × PubChainInstance)
        → Has tx_id n o.1
        → Ensures (Has tx_id n) (add_account env to pay_id o)
    account-Has to pay_id (none, pi) h = h
    account-Has to pay_id (some a, pi) h =
        added-Has tx_id n env (new_account_inbound_req a.address to a.token pay_id (pos 0)) pi h

    payment-Has :
        (tx : Transaction) (to : Bytes) (pi : PubChainInstance)
        → Has tx_id n pi
        → Ensures (Has tx_id n) (process_payment env number tx to pi)
    payment-Has tx to pi h = payment_cases (Ensures (Has tx_id n)) env number tx to pi h (λ pay_id.
        Ensures-then (λ o. Has tx_id n o.1) (Has tx_id n)
          (update_inbound_tx env (hex_encode pay_id) tx.value number pi) (add_account env to pay_id)
          (update-Ensures env (hex_encode pay_id) tx.value number pi (Has tx_id n) (λ m b. h))
          (account-Has to pay_id))

    erc20-Has :
        (tx : Transaction) (token to : Bytes) (amount : ℕ) (pi : PubChainInstance)
        → Has tx_id n pi
        → Ensures (λ o. Has tx_id n o.1) (process_inbound_erc20 env tx token to amount number pi)
    erc20-Has tx token to amount pi h =
        erc20_cases (Ensures (λ o. Has tx_id n o.1)) env tx token to amount number pi (λ e. tt)
          (λ e. tt) (λ e. h)
          (λ sender.
            process_cases (Ensures (λ o. Has tx_id n o.1)) env (hex_encode tx.hash) number sender to
              amount token pi (λ e. h) (λ big. tt) (λ m b. h)
              (λ req b.
                let at = record pi { pending_inbounds_bnb = b } in
                Ensures-last (λ o. Has tx_id n o.1) (send_inbound req at) (λ sent. (ok tt, sent))
                  (λ sent e. subst (Ensures (Has tx_id n)) e (sent-Has tx_id n req at h))))

    tx-Has :
        (check_each_tx : Bytes → Result ℕ) (tx : Transaction) (pi : PubChainInstance)
        → Has tx_id n pi
        → Ensures (Has tx_id n) (process_each_tx env check_each_tx number tx pi)
    tx-Has check_each_tx tx pi h =
        tx_cases (Ensures (Has tx_id n)) env number tx pi check_each_tx h (λ to t.
          to_cases (Ensures (Has tx_id n)) env number tx pi to h (payment-Has tx to pi h)
            (λ to_addr amount c t b.
              Ensures-bind (Has tx_id n) (process_inbound_erc20 env tx to to_addr amount number pi)
                (then_payment env number tx to)
                (λ o e. pays tx to o (
                  subst (Ensures (λ o. Has tx_id n o.1)) e (erc20-Has tx to to_addr amount pi h)))))
      where
        pays :
            (tx : Transaction) (to : Bytes) (o : Result (Unit {0}) × PubChainInstance)
            → Has tx_id n o.1
            → Ensures (Has tx_id n) (then_payment env number tx to o)
        pays tx to (err e, pi') h' = h'
        pays tx to (ok _, pi') h' = payment-Has tx to pi' h'

    txs-Has :
        (check_each_tx : Bytes → Result ℕ) (txs : List Transaction) (pi : PubChainInstance)
        → Has tx_id n pi
        → Ensures (Has tx_id n) (process_each_block env check_each_tx number txs pi)
    unfolding process_each_block
    txs-Has check_each_tx [] pi h = h
    txs-Has check_each_tx (tx ∷ txs) pi h =
        Ensures-bind (Has tx_id n) (process_each_tx env check_each_tx number tx pi)
          (process_each_block env check_each_tx number txs)
          (λ pi' e.
            txs-Has check_each_tx txs pi'
              (subst (Ensures (Has tx_id n)) e (tx-Has check_each_tx tx pi h)))

    pub block-Has :
        (check_each_tx : Bytes → Result ℕ) (block : Result (List Transaction))
        (pi : PubChainInstance)
        → Has tx_id n pi
        → Ensures (λ o. Has tx_id n o.1) (process_new_block env check_each_tx number block pi)
    unfolding process_new_block
    block-Has check_each_tx (err e) pi h = h
    block-Has check_each_tx (ok txs) pi h =
        Ensures-last (λ o. Has tx_id n o.1) (process_each_block env check_each_tx number txs pi)
          (λ pi'. (ok tt, pi'))
          (λ pi' e. subst (Ensures (Has tx_id n)) e (txs-Has check_each_tx txs pi h))
