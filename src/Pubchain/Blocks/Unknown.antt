-- ===== src/Pubchain/Blocks/Unknown.antt =====
-- pubchain/tx_inbound.go: while no pool is known, nothing is sent to the bridge, and a block changes nothing.
use oppy_bridge.Common.{
  ℕ, ◌≡◌, refl, ap, ◌∙◌, inl, inr, false, List, [], ◌∷◌, arith, ◌==◌, nat_key, string_key,
  bytes_key, Bool-cases,
}
use oppy_bridge.Common.Outcome.{done, ◌>>=◌}
use oppy_bridge.Common.Result.{Result, Result-cases}
use oppy_bridge.External.{Bytes, Env, Transaction}
use oppy_bridge.Pool.{no_pools}
use oppy_bridge.Pubchain.State.{PubChainInstance, check_to_bridge}
use oppy_bridge.Pubchain.Blocks.{
  check_erc20, payload_bytes, process_payment, process_to, process_each_tx, process_each_block,
}
use oppy_bridge.Pubchain.Blocks.Cases.{tx_cases}

module _ (env : Env) (pi : PubChainInstance) (n : pi.last_two_pools ≡ no_pools) where
  not_bridge : (to : Bytes) → check_to_bridge env to pi ≡ false
  unfolding check_to_bridge
  not_bridge to = ground arith

  no_payment :
      (number : ℕ) (tx : Transaction) (to : Bytes) → process_payment env number tx to pi ≡ done pi
  unfolding process_payment
  no_payment number tx to = ground (arith, not_bridge to)

  no_transfer :
      (number : ℕ) (tx : Transaction) (to : Bytes) → process_to env number tx to pi ≡ done pi
  unfolding process_to
  no_transfer number tx to = elim (Result-cases (check_erc20 env (payload_bytes tx.payload))) [
    | inr (e, c) ↦ rw (c, process_to) (no_payment number tx to)
    | inl ((to_addr, amount), c) ↦ elim (Bool-cases (env.address_text to == pi.token_addr)) [
      | inr other ↦ rw (c, other, process_to) refl
      | inl token ↦ rw (c, token, not_bridge to_addr, process_to) refl
    ]
  ]

  no_tx :
      (check_each_tx : Bytes → Result ℕ) (number : ℕ) (tx : Transaction)
      → process_each_tx env check_each_tx number tx pi ≡ done pi
  no_tx check_each_tx number tx =
      tx_cases (λ out. out ≡ done pi) env number tx pi check_each_tx refl
        (λ to t. no_transfer number tx to)

  pub no_block :
      (check_each_tx : Bytes → Result ℕ) (number : ℕ) (txs : List Transaction)
      → process_each_block env check_each_tx number txs pi ≡ done pi
  unfolding process_each_block
  no_block check_each_tx number [] = refl
  no_block check_each_tx number (tx ∷ txs) =
      ap (λ out. out >>= process_each_block env check_each_tx number txs)
        (no_tx check_each_tx number tx)
      ∙ no_block check_each_tx number txs
