-- ===== src/Pubchain/Blocks/Cases.antt =====
-- pubchain/tx_inbound.go: the ways in which the loop of processEachBlock treats a transaction.
use oppy_bridge.Common.{
  ℕ, String, ◌≡◌, inl, inr, true, some, ◌==◌, nat_key, string_key, bytes_key, Bool-cases,
  Option-cases,
}
use oppy_bridge.Common.Outcome.{Outcome, done, panics, blocked, Outcome-cases, ◌>>=◌}
use oppy_bridge.Common.Result.{Result, ok, err, Result-cases}
use oppy_bridge.External.{Bytes, Env, Transaction}
use oppy_bridge.Hex.{hex_encode}
use oppy_bridge.Misc.BigInt.{uint64}
use oppy_bridge.Misc.Keys.{eth_sign_pub_key_to_jolt_addr}
use oppy_bridge.Misc.RecoveryId.{recover_rec_id}
use oppy_bridge.Misc.Signature.{make_signature}
use oppy_bridge.Pubchain.State.{PubChainInstance, check_to_bridge}
use oppy_bridge.Pubchain.Inbound.{update_inbound_tx, process_inbound_tx}
use oppy_bridge.Pubchain.Blocks.{
  add_account, check_erc20, process_inbound_erc20, process_payment, payload_bytes, then_payment,
  process_to, process_each_tx,
}

-- The bytes of a transaction's signature.
abbrev pub signature_of : Transaction → Outcome Bytes
signature_of tx = make_signature tx.sig_r tx.sig_s (recover_rec_id (uint64 tx.chain_id) tx.sig_v)

module _ {ℓ} (P : Outcome PubChainInstance → Type ℓ) (env : Env) (number : ℕ)
    (tx : Transaction) where
  -- A payment leaves the state, or goes on to updateInboundTx.
  pub payment_cases :
      (to : Bytes) (pi : PubChainInstance)
      → P (done pi)
      → ((tx_id : Bytes)
          → P (
              update_inbound_tx env (hex_encode tx_id) tx.value number pi
              >>= add_account env to tx_id))
      → P (process_payment env number tx to pi)
  unfolding process_payment
  payment_cases to pi same updated = elim (Bool-cases (check_to_bridge env to pi)) [
    | inr other ↦ rw (other, process_payment) same
    | inl bridge ↦ elim (Option-cases tx.payload) [
      | inl e ↦ rw (bridge, e, process_payment) same
      | inr (tx_id, e) ↦ rw (bridge, e, process_payment) (updated tx_id)
    ]
  ]

module _ {ℓ} (P : Outcome (Result (Unit {0}) × PubChainInstance) → Type ℓ) where
  -- A transfer fails before it changes the state, or goes on to processInboundTx.
  pub erc20_cases :
      (env : Env) (tx : Transaction) (token to : Bytes) (amount height : ℕ) (pi : PubChainInstance)
      → (signature_of tx ≡ panics → P panics)
      → (signature_of tx ≡ blocked → P blocked)
      → ((e : String) → P (done (err e, pi)))
      → ((sender : Bytes)
          → P (process_inbound_tx env (hex_encode tx.hash) height sender to amount token pi))
      → P (process_inbound_erc20 env tx token to amount height pi)
  unfolding process_inbound_erc20
  erc20_cases env tx token to amount height pi on_panic on_block fails goes =
      elim (Outcome-cases (signature_of tx)) [
        | inr (inl p) ↦ rw (p, process_inbound_erc20) (on_panic p)
        | inr (inr b) ↦ rw (b, process_inbound_erc20) (on_block b)
        | inl (sig, s) ↦ elim (Result-cases (env.ecrecover (env.signer_hash tx) sig)) [
          | inr (e, r) ↦ rw (s, r, process_inbound_erc20) (fails e)
          | inl (key, r) ↦ elim (Result-cases (eth_sign_pub_key_to_jolt_addr env key)) [
            | inr (e, a) ↦ rw (s, r, a, process_inbound_erc20) (fails e)
            | inl (sender, a) ↦ rw (s, r, a, process_inbound_erc20) (goes sender)
          ]
        ]
      ]

module _ {ℓ} (P : Outcome PubChainInstance → Type ℓ) (env : Env) (number : ℕ) (tx : Transaction)
    (pi : PubChainInstance) where
  pub to_cases :
      (to : Bytes)
      → P (done pi)
      → P (process_payment env number tx to pi)
      → ((to_addr : Bytes) (amount : ℕ)
          → check_erc20 env (payload_bytes tx.payload) ≡ ok (to_addr, amount)
          → (env.address_text to == pi.token_addr) ≡ true
          → check_to_bridge env to_addr pi ≡ true
          → P (
              process_inbound_erc20 env tx to to_addr amount number pi
              >>= then_payment env number tx to))
      → P (process_to env number tx to pi)
  unfolding process_to
  to_cases to same pays transfers =
      elim (Result-cases (check_erc20 env (payload_bytes tx.payload))) [
        | inr (e, c) ↦ rw (c, process_to) pays
        | inl ((to_addr, amount), c) ↦ elim (Bool-cases (env.address_text to == pi.token_addr)) [
          | inr other ↦ rw (c, other, process_to) same
          | inl token ↦ elim (Bool-cases (check_to_bridge env to_addr pi)) [
            | inr stranger ↦ rw (c, token, stranger, process_to) same
            | inl bridge ↦
                rw (c, token, bridge, process_to) (transfers to_addr amount c token bridge)
          ]
        ]
      ]

  pub tx_cases :
      (check_each_tx : Bytes → Result ℕ)
      → P (done pi)
      → ((to : Bytes) → tx.to ≡ some to → P (process_to env number tx to pi))
      → P (process_each_tx env check_each_tx number tx pi)
  unfolding process_each_tx
  tx_cases check_each_tx same goes = elim (Option-cases tx.to) [
    | inl n ↦ rw (n, process_each_tx) same
    | inr (to, t) ↦ elim (Result-cases (check_each_tx tx.hash)) [
      | inr (e, c) ↦ rw (t, c, process_each_tx) same
      | inl (status, c) ↦ elim (Bool-cases (status == 1)) [
        | inl success ↦ rw (t, c, success, process_each_tx) (goes to t)
        | inr failed ↦ rw (t, c, failed, process_each_tx) same
      ]
    ]
  ]
