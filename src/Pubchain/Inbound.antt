-- ===== src/Pubchain/Inbound.antt =====
-- pubchain/tx_inbound.go: a top-up is an ERC20 transfer to the bridge and a fee in the chain's own coin,
-- which arrive in either order and are joined by the id of the ERC20 transaction.
pub mod Fee
pub mod Branches
pub mod Orders
pub mod Waiting
pub mod Amounts
use oppy_bridge.Common.{
  ℕ, ◌+◌, not, Option, none, some, ltb, if◌then◌else◌, ◌==◌, nat_key, string_key, bytes_key,
}
use oppy_bridge.Common.Int.{int64_of}
use oppy_bridge.Common.Outcome.{Outcome, done, ◌>>=◌}
use oppy_bridge.Common.SdkInt.{new_int}
use oppy_bridge.Common.Result.{Result, ok, err}
use oppy_bridge.Config.{in_bound_denom, in_bound_denom_fee, in_bound_fee_min}
use oppy_bridge.External.{Bytes, Coin, Env}
use oppy_bridge.Hex.{hex_decode}
use oppy_bridge.SyncMap.{load, store, delete}
use oppy_bridge.Pubchain.State.{
  InboundTx, InboundTxBnb, PubChainInstance, new_account_inbound_req, send_inbound,
}

-- inboundTx.Verify; of an error's text the part that is fixed.
unfoldable pub verify_inbound_tx : Env → InboundTx → Result (Unit {0})
verify_inbound_tx env a =
    if not (a.fee.denom == in_bound_denom_fee)
    then err "invalid inbound fee denom"
    else elim (env.dec_from_str in_bound_fee_min) [
      | err e ↦ err "invalid minimal inbound fee"
      | ok amount ↦ if ltb a.fee.amount amount then err "the fee is not enough" else ok tt
    ]

-- A fee that comes before its token is stored by itself.
abbrev pub first_fee : Bytes → ℕ → ℕ → InboundTxBnb
first_fee tx_id amount block_num = record {
  block_height = block_num;
  tx_id = tx_id;
  fee = record { denom = in_bound_denom_fee; amount = amount };
}

abbrev pub add_fee : ℕ → InboundTx → InboundTx
add_fee amount tx = record tx {
  fee = record { denom = tx.fee.denom; amount = tx.fee.amount + amount };
}

-- updateInboundTx; NewIntFromBigInt panics on the amount, and Add on the sum of the
-- fees, if it does not fit sdk.Int.
unfoldable pub update_inbound_tx :
    Env → Bytes → ℕ → ℕ → PubChainInstance → Outcome (Option InboundTx × PubChainInstance)
update_inbound_tx env tx_id amount block_num pi = elim (load tx_id pi.pending_inbounds) [
  | none ↦ do
    fee ← new_int amount
    done (
      none,
      record pi {
        pending_inbounds_bnb = store tx_id (first_fee tx_id fee block_num) pi.pending_inbounds_bnb;
      },
    )
  | some tx ↦ do
    added ← new_int amount
    _ ← new_int (tx.fee.amount + added)
    elim (verify_inbound_tx env (add_fee added tx)) [
      | err e ↦ done (
        none,
        record pi { pending_inbounds = store tx_id (add_fee added tx) pi.pending_inbounds },
      )
      | ok _ ↦ done (
        some (add_fee added tx),
        record pi { pending_inbounds = delete tx_id pi.pending_inbounds },
      )
    ]
]

abbrev pub new_inbound_tx : Bytes → ℕ → ℕ → Coin → InboundTx
new_inbound_tx sender block_height value fee = record {
  address = sender;
  pub_block_height = block_height;
  token = record { denom = in_bound_denom; amount = value };
  fee = fee;
}

-- The part of processInboundTx for a token whose fee has come before.
unfoldable pub process_with_fee :
    Env
    → Bytes
    → Bytes
    → InboundTx
    → PubChainInstance
    → Outcome (Result (Unit {0}) × PubChainInstance)
process_with_fee env tx_id to tx pi = elim (verify_inbound_tx env tx) [
  | err e ↦ done (ok tt, record pi { pending_inbounds = store tx_id tx pi.pending_inbounds })
  | ok _ ↦ elim (hex_decode tx_id) [
    | err e ↦ done (ok tt, pi)
    | ok tx_id_bytes ↦ do
      sent ←
          send_inbound
            (new_account_inbound_req tx.address to tx.token tx_id_bytes
              (int64_of tx.pub_block_height))
            pi
      done (ok tt, sent)
  ]
]

-- processInboundTx; a value that does not fit sdk.Int panics.
unfoldable pub process_inbound_tx :
    Env
    → Bytes
    → ℕ
    → Bytes
    → Bytes
    → ℕ
    → Bytes
    → PubChainInstance
    → Outcome (Result (Unit {0}) × PubChainInstance)
process_inbound_tx env tx_id block_height sender to value addr pi =
    elim (load tx_id pi.pending_inbounds) [
      | some _ ↦ done (err "tx existed", pi)
      | none ↦
          if not (env.address_text addr == pi.token_addr)
          then done (err "incorrect top up token", pi)
          else (new_int value >>= λ amount. elim (load tx_id pi.pending_inbounds_bnb) [
            | none ↦
                let tx =
                  new_inbound_tx sender block_height amount
                    (record { denom = in_bound_denom_fee; amount = 0 }) in
                done (ok tt, record pi { pending_inbounds = store tx_id tx pi.pending_inbounds })
            | some bnb ↦
                process_with_fee env tx_id to (new_inbound_tx sender block_height amount bnb.fee)
                  (record pi { pending_inbounds_bnb = delete tx_id pi.pending_inbounds_bnb })
          ])
    ]
