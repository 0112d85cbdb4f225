-- ===== src/Pubchain/Blocks.antt =====
-- pubchain/tx_inbound.go: what the bridge takes from the transactions of a block of the public chain.
pub mod Cases
pub mod Invariant
pub mod Room
pub mod Selector
pub mod Expiry
pub mod Frame
pub mod Amounts
pub mod Huge
pub mod Unknown
use oppy_bridge.Common.{
  ℕ, Bool, not, Option, none, some, List, [], ◌∷◌, ltb, if◌then◌else◌, ◌==◌, nat_key, string_key,
  bytes_key, length, drop,
}
use oppy_bridge.Common.Int.{pos, sub_u64}
use oppy_bridge.Common.Outcome.{Outcome, done, ◌>>=◌}
use oppy_bridge.Common.Result.{Result, ok, err}
use oppy_bridge.Config.{tx_timeout}
use oppy_bridge.External.{Bytes, Env, Transaction, AbiValue}
use oppy_bridge.Hex.{hex_encode}
use oppy_bridge.Misc.BigInt.{uint64}
use oppy_bridge.Misc.Keys.{eth_sign_pub_key_to_jolt_addr}
use oppy_bridge.Misc.RecoveryId.{recover_rec_id}
use oppy_bridge.Misc.Signature.{make_signature}
use oppy_bridge.SyncMap.{SyncMap, delete}
use oppy_bridge.Pubchain.State.{
  InboundTx, PubChainInstance, new_account_inbound_req, add_inbound_item, check_to_bridge,
}
use oppy_bridge.Pubchain.Inbound.{update_inbound_tx, process_inbound_tx}

transfer_params : List AbiValue → Result (Bytes × ℕ)
transfer_params (AbiValue.address to ∷ AbiValue.integer amount ∷ []) = ok (to, amount)
transfer_params (AbiValue.address to ∷ _ ∷ []) = err "not valid amount"
transfer_params (_ ∷ _ ∷ []) = err "not valid address"
transfer_params _ = err "invalid transfer parameter"

-- checkErc20: the first four bytes, which select the contract's method, are dropped.
unfoldable pub check_erc20 : Env → Bytes → Result (Bytes × ℕ)
unfolding transfer_params
check_erc20 env input =
    if env.has_transfer
    then if ltb (length input) 4
      then err "invalid data"
      else elim (env.unpack_transfer (drop 4 input)) [
        | err e ↦ err e
        | ok params ↦ transfer_params params
      ]
    else err "invalid method for decode"

-- ProcessInBoundERC20: the sender is the one whose key signed.
unfoldable pub process_inbound_erc20 :
    Env
    → Transaction
    → Bytes
    → Bytes
    → ℕ
    → ℕ
    → PubChainInstance
    → Outcome (Result (Unit {0}) × PubChainInstance)
process_inbound_erc20 env tx token_addr transfer_to amount block_height pi = do
  sig_bytes ← make_signature tx.sig_r tx.sig_s (recover_rec_id (uint64 tx.chain_id) tx.sig_v)
  elim (env.ecrecover (env.signer_hash tx) sig_bytes) [
    | err e ↦ done (err e, pi)
    | ok sig_public_key ↦ elim (eth_sign_pub_key_to_jolt_addr env sig_public_key) [
      | err e ↦ done (err e, pi)
      | ok transfer_from ↦
          process_inbound_tx env (hex_encode tx.hash) block_height transfer_from transfer_to amount
            token_addr pi
    ]
  ]

-- What the loop does with the account that updateInboundTx returns, if it returns one.
abbrev pub add_account :
    Env → Bytes → Bytes → Option InboundTx × PubChainInstance → Outcome PubChainInstance
add_account env to pay_tx_id (none, pi) = done pi
add_account env to pay_tx_id (some a, pi) =
    done (add_inbound_item env (new_account_inbound_req a.address to a.token pay_tx_id (pos 0)) pi)

-- The end of the loop of processEachBlock: a payment to the bridge names the transaction that it pays for.
unfoldable pub process_payment :
    Env → ℕ → Transaction → Bytes → PubChainInstance → Outcome PubChainInstance
process_payment env number tx to pi =
    if check_to_bridge env to pi
    then elim tx.payload [
      | none ↦ done pi
      | some pay_tx_id ↦
          (update_inbound_tx env (hex_encode pay_tx_id) tx.value number pi
            >>= add_account env to pay_tx_id)
    ]
    else done pi

abbrev pub payload_bytes : Option Bytes → Bytes
payload_bytes none = []
payload_bytes (some bytes) = bytes

abbrev pub then_payment :
    Env → ℕ → Transaction → Bytes → Result (Unit {0}) × PubChainInstance → Outcome PubChainInstance
then_payment env number tx to (err e, pi) = done pi
then_payment env number tx to (ok _, pi) = process_payment env number tx to pi

-- The body of the loop for a successful transaction to `to`.
unfoldable pub process_to :
    Env → ℕ → Transaction → Bytes → PubChainInstance → Outcome PubChainInstance
process_to env number tx to pi = elim (check_erc20 env (payload_bytes tx.payload)) [
  | err e ↦ process_payment env number tx to pi
  | ok (to_addr, amount) ↦
      if not (env.address_text to == pi.token_addr)
      then done pi
      else if not (check_to_bridge env to_addr pi)
      then done pi
      else (process_inbound_erc20 env tx to to_addr amount number pi
          >>= then_payment env number tx to)
]

-- checkEachTx gives a transaction's status, or the error of the query.
unfoldable pub process_each_tx :
    Env → (Bytes → Result ℕ) → ℕ → Transaction → PubChainInstance → Outcome PubChainInstance
process_each_tx env check_each_tx number tx pi = elim tx.to [
  | none ↦ done pi
  | some to ↦ elim (check_each_tx tx.hash) [
    | err e ↦ done pi
    | ok status ↦ if status == 1 then process_to env number tx to pi else done pi
  ]
]

-- processEachBlock
unfoldable pub process_each_block :
    Env → (Bytes → Result ℕ) → ℕ → List Transaction → PubChainInstance → Outcome PubChainInstance
process_each_block env check_each_tx number [] pi = done pi
process_each_block env check_each_tx number (tx ∷ txs) pi =
    process_each_tx env check_each_tx number tx pi
    >>= process_each_block env check_each_tx number txs

-- ProcessNewBlock, with what BlockByNumber returns.
unfoldable pub process_new_block :
    Env
    → (Bytes → Result ℕ)
    → ℕ
    → Result (List Transaction)
    → PubChainInstance
    → Outcome (Result (Unit {0}) × PubChainInstance)
process_new_block env check_each_tx number (err e) pi = done (err e, pi)
process_new_block env check_each_tx number (ok block) pi = do
  processed ← process_each_block env check_each_tx number block pi
  done (ok tt, processed)

-- Whether DeleteExpired takes an entry of this height; the difference wraps on uint64.
abbrev pub is_expired : ℕ → ℕ → Bool
is_expired current_height height = ltb tx_timeout (sub_u64 current_height height)

unfoldable pub expired_keys {ℓ} : {V : Type ℓ} → (V → ℕ) → ℕ → SyncMap Bytes V → List Bytes
expired_keys height_of current [] = []
expired_keys height_of current ((k, v) ∷ m) =
    let rest = expired_keys height_of current m in
    if is_expired current (height_of v) then k ∷ rest else rest

unfoldable pub delete_keys {ℓ} : {V : Type ℓ} → List Bytes → SyncMap Bytes V → SyncMap Bytes V
delete_keys [] m = m
delete_keys (k ∷ ks) m = delete_keys ks (delete k m)

-- DeleteExpired
unfoldable pub delete_expired : ℕ → PubChainInstance → PubChainInstance
delete_expired current pi = record pi {
  pending_inbounds =
      delete_keys (expired_keys (λ tx. tx.pub_block_height) current pi.pending_inbounds)
        pi.pending_inbounds;
  pending_inbounds_bnb =
      delete_keys (expired_keys (λ tx. tx.block_height) current pi.pending_inbounds_bnb)
        pi.pending_inbounds_bnb;
}
