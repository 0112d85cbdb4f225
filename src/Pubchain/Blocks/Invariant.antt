-- ===== src/Pubchain/Blocks/Invariant.antt =====
-- pubchain/tx_inbound.go: what a block of the public chain leaves unchanged in the state.
use oppy_bridge.Common.{
  ℕ, ◌≡◌, subst, Option, none, some, List, [], ◌∷◌, nat_key, string_key, bytes_key,
}
use oppy_bridge.Common.Outcome.{Outcome, done, panics, blocked, ◌>>=◌, Ensures, Ensures-then}
use oppy_bridge.Common.Result.{Result, ok, err}
use oppy_bridge.External.{Bytes, Env, Transaction}
use oppy_bridge.Hex.{hex_encode}
use oppy_bridge.Pubchain.State.{InboundTx, PubChainInstance, add_inbound_item}
use oppy_bridge.Pubchain.Inbound.{update_inbound_tx}
use oppy_bridge.Pubchain.Inbound.Waiting.{Waits, FeeIsPositive, Leaves, update-Waits, process-Waits}
use oppy_bridge.Pubchain.Blocks.{
  add_account, process_inbound_erc20, process_payment, then_payment, process_to, process_each_tx,
  process_each_block,
}
use oppy_bridge.Pubchain.Blocks.Cases.{payment_cases, erc20_cases, to_cases, tx_cases}

add_account-Waits :
    (env : Env) (to tx_id : Bytes) (o : Option InboundTx × PubChainInstance)
    → Waits env o.1
    → Ensures (Waits env) (add_account env to tx_id o)
unfolding add_inbound_item
add_account-Waits env to tx_id (none, pi) w = w
add_account-Waits env to tx_id (some a, pi) w = w

module _ (env : Env) (positive : FeeIsPositive env) (number : ℕ) where
  payment-Waits :
      (tx : Transaction) (to : Bytes) (pi : PubChainInstance)
      → Waits env pi
      → Ensures (Waits env) (process_payment env number tx to pi)
  payment-Waits tx to pi w = payment_cases (Ensures (Waits env)) env number tx to pi w (λ tx_id.
      Ensures-then (λ o. Waits env o.1) (Waits env)
        (update_inbound_tx env (hex_encode tx_id) tx.value number pi) (add_account env to tx_id)
        (update-Waits env (hex_encode tx_id) tx.value number pi w) (add_account-Waits env to tx_id))

  then_payment-Waits :
      (tx : Transaction) (to : Bytes) (out : Outcome (Result (Unit {0}) × PubChainInstance))
      → Leaves (Waits env) out
      → Ensures (Waits env) (out >>= then_payment env number tx to)
  then_payment-Waits tx to (done (ok tt, pi)) w = payment-Waits tx to pi w
  then_payment-Waits tx to (done (err e, pi)) w = w
  then_payment-Waits tx to panics w = tt
  then_payment-Waits tx to blocked w = tt

  to-Waits :
      (tx : Transaction) (to : Bytes) (pi : PubChainInstance)
      → Waits env pi
      → Ensures (Waits env) (process_to env number tx to pi)
  to-Waits tx to pi w =
      to_cases (Ensures (Waits env)) env number tx pi to w (payment-Waits tx to pi w)
        λ to_addr amount c t b.
          then_payment-Waits tx to (process_inbound_erc20 env tx to to_addr amount number pi) (
            erc20_cases (Leaves (Waits env)) env tx to to_addr amount number pi (λ e. tt) (λ e. tt)
              (λ e. w)
              (λ sender.
                process-Waits env (hex_encode tx.hash) number sender to_addr amount to pi positive
                  w))

  tx-Waits :
      (check_each_tx : Bytes → Result ℕ) (tx : Transaction) (pi : PubChainInstance)
      → Waits env pi
      → Ensures (Waits env) (process_each_tx env check_each_tx number tx pi)
  tx-Waits check_each_tx tx pi w =
      tx_cases (Ensures (Waits env)) env number tx pi check_each_tx w (λ to t. to-Waits tx to pi w)

  block-Waits :
      (check_each_tx : Bytes → Result ℕ) (txs : List Transaction) (pi : PubChainInstance)
      → Waits env pi
      → Ensures (Waits env) (process_each_block env check_each_tx number txs pi)
  unfolding process_each_block
  block-Waits check_each_tx [] pi w = w
  block-Waits check_each_tx (tx ∷ txs) pi w =
      next (process_each_tx env check_each_tx number tx pi) (tx-Waits check_each_tx tx pi w)
        (block-Waits check_each_tx txs)
    where
      next :
          (out : Outcome PubChainInstance)
          → Ensures (Waits env) out
          → ((pi' : PubChainInstance)
              → Waits env pi'
              → Ensures (Waits env) (process_each_block env check_each_tx number txs pi'))
          → Ensures (Waits env) (out >>= process_each_block env check_each_tx number txs)
      next (done pi') w' rest = rest pi' w'
      next panics w' rest = tt
      next blocked w' rest = tt

-- Where the least fee is above 0, a block of any transactions, whatever their receipts, keeps this: a
-- token waits only while its fee does not satisfy Verify, a fee that waits is in the fee's denomination,
-- and of one transaction the token or the fee may wait, never both.
pub process_each_block-Waits :
    (env : Env) (check_each_tx : Bytes → Result ℕ) (number : ℕ) (txs : List Transaction)
    (pi pi' : PubChainInstance)
    → FeeIsPositive env
    → Waits env pi
    → process_each_block env check_each_tx number txs pi ≡ done pi'
    → Waits env pi'
process_each_block-Waits env check_each_tx number txs pi pi' positive w e =
    subst (Ensures (Waits env)) e (block-Waits env positive number check_each_tx txs pi w)
