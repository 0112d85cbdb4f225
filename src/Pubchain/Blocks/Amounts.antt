-- ===== src/Pubchain/Blocks/Amounts.antt =====
-- pubchain/tx_inbound.go: when processing a block does not panic. A signature value of more than 32 bytes
-- panics, and so does an amount or a sum of fees that does not fit sdk.Int.
use oppy_bridge.Common.{
  ℕ, ◌+◌, ◌^◌, ◌<◌, ◌≡◌, ◌∙◌, true, Option, none, some, List, [], ◌∷◌, nat_key, string_key,
  bytes_key, All,
}
use oppy_bridge.Common.Outcome.{done, Safe, Safe-bind, Safe-Ensures}
use oppy_bridge.Common.Result.{Result, ok, err}
use oppy_bridge.External.{Bytes, Env, Transaction}
use oppy_bridge.Hex.{hex_encode}
use oppy_bridge.Misc.BigInt.{uint64}
use oppy_bridge.Misc.RecoveryId.{recover_rec_id}
use oppy_bridge.Misc.Signature.Layout.{make_signature_reads_back}
use oppy_bridge.Pubchain.State.{InboundTx, PubChainInstance, add_inbound_item, check_to_bridge}
use oppy_bridge.Pubchain.Inbound.{update_inbound_tx}
use oppy_bridge.Pubchain.Inbound.Amounts.{
  Amounts, fewer-AmountsFit, update-Amounts, process-Amounts,
}
use oppy_bridge.Pubchain.Blocks.{
  add_account, check_erc20, payload_bytes, process_inbound_erc20, process_payment, then_payment,
  process_each_tx, process_each_block,
}
use oppy_bridge.Pubchain.Blocks.Cases.{signature_of, payment_cases, erc20_cases, to_cases, tx_cases}
use oppy_bridge.Pubchain.Blocks.Frame.{Frame, tx-Frame}

-- Both values of the signature fit 32 bytes, and if the input of a transaction to the bridge's token
-- names a pool, the amount in it fits sdk.Int.
abbrev pub Fits : Env → PubChainInstance → Transaction → Type 0
Fits env pi tx =
    (tx.sig_r < 2 ^ 256)
    × (tx.sig_s < 2 ^ 256)
    × ((to to_addr : Bytes) (amount : ℕ)
        → tx.to ≡ some to
        → env.address_text to ≡ pi.token_addr
        → check_erc20 env (payload_bytes tx.payload) ≡ ok (to_addr, amount)
        → check_to_bridge env to_addr pi ≡ true
        → amount < 2 ^ 255)

-- The values of the transactions together.
abbrev pub total_value : List Transaction → ℕ
total_value [] = 0
total_value (tx ∷ txs) = tx.value + total_value txs

same_bridge :
    (env : Env) (to : Bytes) (p pi : PubChainInstance)
    → pi.last_two_pools ≡ p.last_two_pools
    → check_to_bridge env to pi ≡ true
    → check_to_bridge env to p ≡ true
unfolding check_to_bridge
same_bridge env to p pi e h = rw (← e) h

add_account-Amounts :
    (env : Env) (rest : ℕ) (to tx_id : Bytes) (o : Option InboundTx × PubChainInstance)
    → Amounts rest o.1
    → Safe (Amounts rest) (add_account env to tx_id o)
unfolding add_inbound_item
add_account-Amounts env rest to tx_id (none, pi) a = a
add_account-Amounts env rest to tx_id (some t, pi) a = a

module _ (p : PubChainInstance) (env : Env) (number : ℕ) where
  payment-Amounts :
      (tx : Transaction) (rest : ℕ) (to : Bytes) (pi : PubChainInstance)
      → Amounts (tx.value + rest) pi
      → Safe (Amounts rest) (process_payment env number tx to pi)
  payment-Amounts tx rest to pi a =
      payment_cases (Safe (Amounts rest)) env number tx to pi
        (fewer-AmountsFit rest pi.pending_inbounds pi.pending_inbounds_bnb tx.value a)
        (λ tx_id.
          Safe-bind (λ o. Amounts rest o.1) (Amounts rest)
            (update_inbound_tx env (hex_encode tx_id) tx.value number pi) (add_account env to tx_id)
            (update-Amounts env (hex_encode tx_id) tx.value number rest pi a)
            (add_account-Amounts env rest to tx_id))

  erc20-Amounts :
      (tx : Transaction) (rest : ℕ) (token to : Bytes) (amount : ℕ) (pi : PubChainInstance)
      → Fits env p tx
      → amount < 2 ^ 255
      → Amounts rest pi
      → Safe (λ o. Amounts rest o.1) (process_inbound_erc20 env tx token to amount number pi)
  erc20-Amounts tx rest token to amount pi fits small a =
      let signed =
        make_signature_reads_back tx.sig_r tx.sig_s (recover_rec_id (uint64 tx.chain_id) tx.sig_v)
          fits.0 fits.1 in
      let s : signature_of tx ≡ done signed.0 = signed.1 in
      erc20_cases (Safe (λ o. Amounts rest o.1)) env tx token to amount number pi (λ e. cc)
        (λ e. tt) (λ e. a)
        (λ sender.
          process-Amounts env rest (hex_encode tx.hash) number sender to amount token pi small a)

  tx-Amounts :
      (check_each_tx : Bytes → Result ℕ) (tx : Transaction) (rest : ℕ) (pi : PubChainInstance)
      → Fits env p tx
      → Frame p pi
      → Amounts (tx.value + rest) pi
      → Safe (Amounts rest) (process_each_tx env check_each_tx number tx pi)
  tx-Amounts check_each_tx tx rest pi fits (_, _, pools, token) a =
      let less = fewer-AmountsFit rest pi.pending_inbounds pi.pending_inbounds_bnb tx.value a in
      tx_cases (Safe (Amounts rest)) env number tx pi check_each_tx less (λ to t.
        to_cases (Safe (Amounts rest)) env number tx pi to less (payment-Amounts tx rest to pi a)
          (λ to_addr amount c same b.
            Safe-bind (λ o. Amounts (tx.value + rest) o.1) (Amounts rest)
              (process_inbound_erc20 env tx to to_addr amount number pi)
              (then_payment env number tx to)
              (erc20-Amounts tx (tx.value + rest) to to_addr amount pi fits
                (fits.2 to to_addr amount t
                  ((string_key.same_iff (env.address_text to) pi.token_addr).0 same ∙ token) c
                  (same_bridge env to_addr p pi pools b))
                a)
              (pays to)))
    where
      pays :
          (to : Bytes) (o : Result (Unit {0}) × PubChainInstance)
          → Amounts (tx.value + rest) o.1
          → Safe (Amounts rest) (then_payment env number tx to o)
      pays to (err e, pi') a' =
          fewer-AmountsFit rest pi'.pending_inbounds pi'.pending_inbounds_bnb tx.value a'
      pays to (ok _, pi') a' = payment-Amounts tx rest to pi' a'

  -- One transaction: no panic, and what holds for the rest of the block.
  pub tx-Safe :
      (check_each_tx : Bytes → Result ℕ) (tx : Transaction) (rest : ℕ) (pi : PubChainInstance)
      → Fits env p tx
      → Frame p pi
      → Amounts (tx.value + rest) pi
      → Safe
          (λ pi'. Amounts rest pi' × Frame p pi')
          (process_each_tx env check_each_tx number tx pi)
  tx-Safe check_each_tx tx rest pi fits f a =
      Safe-Ensures (Amounts rest) (Frame p) (λ pi'. Amounts rest pi' × Frame p pi')
        (process_each_tx env check_each_tx number tx pi) (λ pi' a' f'. (a', f'))
        (tx-Amounts check_each_tx tx rest pi fits f a) (tx-Frame p env number check_each_tx tx pi f)

  pub block-Safe :
      (check_each_tx : Bytes → Result ℕ) (txs : List Transaction) (pi : PubChainInstance)
      → All (Fits env p) txs
      → Frame p pi
      → Amounts (total_value txs) pi
      → Safe (Frame p) (process_each_block env check_each_tx number txs pi)
  unfolding process_each_block
  block-Safe check_each_tx [] pi fits f a = f
  block-Safe check_each_tx (tx ∷ txs) pi fits f a =
      Safe-bind (λ pi'. Amounts (total_value txs) pi' × Frame p pi') (Frame p)
        (process_each_tx env check_each_tx number tx pi)
        (process_each_block env check_each_tx number txs)
        (tx-Safe check_each_tx tx (total_value txs) pi fits.0 f a)
        (λ pi' (a', f'). block-Safe check_each_tx txs pi' fits.1 f' a')
