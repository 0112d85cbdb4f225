-- ===== src/Pubchain/Sending.antt =====
-- pubchain/tx_send.go, and moveBnb, moveERC20Token, MoveFunds and CheckTxStatus of pubchain/tx_inbound.go:
-- how the bridge signs with the key server and pays on the public chain.
pub mod Signed
pub mod Retired
pub mod Returns
use oppy_bridge.Common.{
  ℕ, zero, suc, ◌+◌, ◌-◌, ◌*◌, ◌/◌, ◌%◌, ◌^◌, ◌≤◌, ◌<◌, String, ◌≡◌, refl, sym, ap, ◌∙◌, subst, ◌≢◌,
  ◌↔◌, ◌⊎◌, inl, inr, Bool, true, false, not, ◌&&◌, ◌||◌, Option, none, some, List, [], ◌∷◌, ◌++◌,
  map, arith, ltb, leb, nat_beq, if◌then◌else◌, Key, ◌==◌, nat_key, string_key, bytes_key,
  Bool-cases, Option-cases, beq_refl, beq-ne, length, take, drop, replicate, All, length-append,
}
use oppy_bridge.Common.Int.{ℤ}
use oppy_bridge.Common.Outcome.{Outcome, done, panics, ◌>>=◌}
use oppy_bridge.Common.SdkInt.{new_dec}
use oppy_bridge.Common.Result.{Result, ok, err}
use oppy_bridge.Config.{dust_bnb, gas_fee_ratio}
use oppy_bridge.External.{Bytes, Env}
use oppy_bridge.Misc.Signature.{TssSignature, serialize_sig}
use oppy_bridge.Pool.{PoolInfo}
use oppy_bridge.Pubchain.State.{PubChainInstance, get_pub_pool}

-- What the node of the public chain, the token's contract, go-ethereum's transactions and the key
-- server answer while one of the calls below runs.
pub record EthClient : Type 0 where
  pub network_id : Result ℕ
  pub suggest_gas_price : Result ℕ
  pub estimate_gas : Result ℕ
  -- tokenInstance.BalanceOf and EthClient.BalanceAt
  pub balance_of : Bytes → Result ℕ
  pub balance_at : Bytes → Result ℕ
  pub nonce_at : Bytes → Result ℕ
  -- tokenInstance.Transfer until it signs, of the sender, the receiver and the amount
  pub transfer : Bytes → Bytes → ℕ → Result Bytes
  -- NewTx of a LegacyTx: nonce, gas price, gas, receiver and value
  pub legacy_tx : ℕ → ℕ → ℕ → Bytes → ℕ → Bytes
  -- LatestSignerForChainID(chainID).Hash(tx).Bytes()
  pub sign_hash : ℕ → Bytes → Bytes
  -- tx.WithSignature(signer, signature)
  pub with_signature : ℕ → Bytes → Bytes → Result Bytes
  pub tx_hash : Bytes → Bytes
  pub send_transaction : Bytes → Result (Unit {0})
  -- the status of a transaction's receipt
  pub transaction_receipt : Bytes → Result ℕ
  -- KeySign, of a key, a message and a height: whether the status is Success, and the signatures
  pub key_sign : String → Bytes → ℤ → Result (Bool × List TssSignature)

module _ (env : Env) (client : EthClient) where
  -- tssSign from its test of the response on. A failed key signing is no error: it returns nil, nil.
  unfoldable pub read_response : Bool × List TssSignature → Outcome (Result Bytes)
  read_response (false, signatures) = done (ok [])
  read_response (true, signature ∷ []) = serialize_sig env signature true
  read_response (true, []) = done (err "more than 1 signature received")
  read_response (true, _ ∷ _ ∷ _) = done (err "more than 1 signature received")

  -- tssSign
  unfoldable pub tss_sign : Bytes → String → ℤ → Outcome (Result Bytes)
  tss_sign msg pk block_height = elim (client.key_sign pk msg block_height) [
    | err e ↦ done (err e)
    | ok response ↦ read_response response
  ]

  -- A transaction with the signature that tssSign returned, if that is one of 65 bytes.
  unfoldable pub attach : ℕ → Bytes → String → Result Bytes → Result Bytes
  attach chain_id tx text (err e) = err text
  attach chain_id tx text (ok signature) =
      if not (length signature == 65) then err text else client.with_signature chain_id tx signature

  -- composeTx: the function Signer of the options that it returns.
  unfoldable pub sign_tx : String → Bytes → ℕ → ℤ → Bytes → Bytes → Outcome (Result Bytes)
  sign_tx signer_pk sender chain_id block_height address tx =
      if not (address == sender) then done (err "the address is different from the sender") else do
        signature ← tss_sign (client.sign_hash chain_id tx) signer_pk block_height
        done (attach chain_id tx "fail to sign the tx" signature)

  -- common.Hash{}
  abbrev pub no_hash : Bytes
  no_hash = replicate 32 0

  -- The end of SendToken; the hash is returned also with an error of SendTransaction.
  unfoldable pub send_signed : Result Bytes → Bytes × Result (Unit {0})
  send_signed (err e) = (no_hash, err e)
  send_signed (ok ready_tx) = (client.tx_hash ready_tx, client.send_transaction ready_tx)

  -- The call of Transfer by SendToken, which signs by the options of composeTx.
  unfoldable pub transfer_as :
      String → Bytes → Bytes → ℕ → ℤ → ℕ → Outcome (Bytes × Result (Unit {0}))
  transfer_as signer_pk sender receiver amount block_height chain_id =
      elim (client.transfer sender receiver amount) [
        | err e ↦ done (no_hash, err e)
        | ok tx ↦ do
          ready_tx ← sign_tx signer_pk sender chain_id block_height sender tx
          done (send_signed ready_tx)
      ]

  -- SendToken; without a key it signs with the latest pool's, and panics where there is none.
  unfoldable pub send_token :
      String → Bytes → Bytes → ℕ → ℤ → PubChainInstance → Outcome (Bytes × Result (Unit {0}))
  send_token signer_pk sender receiver amount block_height pi = elim client.network_id [
    | err e ↦ done (no_hash, err e)
    | ok chain_id ↦
        if signer_pk == ""
        then elim (get_pub_pool pi).pool1 [
          | none ↦ panics
          | some last_pool ↦ transfer_as last_pool.pk sender receiver amount block_height chain_id
        ]
        else transfer_as signer_pk sender receiver amount block_height chain_id
  ]

  -- What ProcessOutBound and moveERC20Token make of SendToken's results.
  unfoldable pub sent_or_known : Bytes × Result (Unit {0}) → Result Bytes
  sent_or_known (tx_hash, ok _) = ok tx_hash
  sent_or_known (tx_hash, err e) = if e == "already known" then ok tx_hash else err e

  -- ProcessOutBound
  unfoldable pub process_out_bound :
      Bytes → Bytes → ℕ → ℤ → PubChainInstance → Outcome (Result Bytes)
  process_out_bound to_addr from_addr amount block_height pi = do
    sent ← send_token "" from_addr to_addr amount block_height pi
    done (sent_or_known sent)

  -- moveERC20Token
  unfoldable pub move_erc20_token :
      String → Bytes → Bytes → ℕ → ℤ → PubChainInstance → Outcome (Result Bytes)
  move_erc20_token sender_pk sender receiver balance block_height pi = do
    sent ← send_token sender_pk sender receiver balance block_height pi
    done (sent_or_known sent)

  -- The end of moveBnb: the signed transaction is sent; one that others have sent is no error.
  unfoldable pub send_bnb : Bytes → Result Bytes → Result Bytes
  send_bnb raw_tx (err e) = err e
  send_bnb raw_tx (ok tx) = elim (client.send_transaction tx) [
    | ok _ ↦ ok (client.tx_hash raw_tx)
    | err e ↦
        if e == "already known" || e == "replacement transaction underpriced"
        then ok (client.tx_hash raw_tx)
        else err e
  ]

  -- moveBnb once the gas is known: `fund` is what is left after one and a half times the gas fee.
  unfoldable pub move_fund : String → Bytes → ℕ → ℕ → ℤ → ℕ → ℕ → ℕ → Outcome (Result Bytes)
  move_fund sender_pk receiver fund nonce block_height chain_id gas_price gas_limit =
      elim (env.dec_from_str dust_bnb) [
        | err e ↦ panics
        | ok dust ↦
            if not (ltb dust fund)
            then done (ok [])
            else let raw_tx = client.legacy_tx nonce gas_price gas_limit receiver fund in
              (tss_sign (client.sign_hash chain_id raw_tx) sender_pk block_height >>= λ signature.
              done (
                send_bnb raw_tx
                  (attach chain_id raw_tx "fail to get the valid signature" signature)))
      ]

  -- moveBnb; `amount` less the fee may be below 0, and is then no more than the dust. The fee
  -- has to fit sdk.Dec.
  unfoldable pub move_bnb : String → Bytes → ℕ → ℕ → ℤ → Outcome (Result Bytes)
  move_bnb sender_pk receiver amount nonce block_height = elim client.network_id [
    | err e ↦ done (err e)
    | ok chain_id ↦ elim client.suggest_gas_price [
      | err e ↦ done (err e)
      | ok gas_price ↦ elim client.estimate_gas [
        | err e ↦ done (err e)
        | ok gas_limit ↦ elim (env.dec_from_str gas_fee_ratio) [
          | err e ↦ panics
          | ok ratio ↦ do
            cost ← new_dec (env.dec_mul (gas_price * gas_limit) ratio)
            move_fund sender_pk receiver (amount - cost) nonce block_height chain_id gas_price
                gas_limit
        ]
      ]
    ]
  ]

  -- What MoveFunds returns after a transfer of the coin.
  unfoldable pub coin_moved : Result Bytes → Bool × Result (Unit {0})
  coin_moved (err e) = (false, err e)
  coin_moved (ok tx_hash) = (false, ok tt)

  -- What MoveFunds returns after a transfer of the token.
  unfoldable pub token_moved : Result Bytes → Bool × Result (Unit {0})
  token_moved (err e) = (false, err "fail to transfer erc20 token")
  token_moved (ok tx_hash) = (false, ok tt)

  -- MoveFunds, with the balances: the token goes first, and the coin only once there is no token left.
  unfoldable pub move_balances :
      PoolInfo → Bytes → ℤ → ℕ → ℕ → PubChainInstance → Outcome (Bool × Result (Unit {0}))
  move_balances previous_pool receiver block_height balance balance_bnb pi =
      if ltb 0 balance
      then (move_erc20_token previous_pool.pk previous_pool.eth_address receiver balance
            block_height pi
          >>= λ moved. done (token_moved moved))
      else if ltb 0 balance_bnb
      then elim (client.nonce_at previous_pool.eth_address) [
        | err e ↦ done (false, err e)
        | ok nonce ↦ do
          moved ← move_bnb previous_pool.pk receiver balance_bnb nonce block_height
          done (coin_moved moved)
      ]
      else done (false, ok tt)

  -- MoveFunds: whether the account is empty, and an error.
  unfoldable pub move_pub_funds :
      PoolInfo → Bytes → ℤ → PubChainInstance → Outcome (Bool × Result (Unit {0}))
  move_pub_funds previous_pool receiver block_height pi =
      elim (client.balance_of previous_pool.eth_address) [
        | err e ↦ done (false, err e)
        | ok balance ↦ elim (client.balance_at previous_pool.eth_address) [
          | err e ↦ done (false, err e)
          | ok balance_bnb ↦ elim (env.dec_from_str dust_bnb) [
            | err e ↦ panics
            | ok dust ↦
                if balance == 0 && not (ltb dust balance_bnb)
                then done (true, ok tt)
                else move_balances previous_pool receiver block_height balance balance_bnb pi
          ]
        ]
      ]

  -- CheckTxStatus, with the receipt that its last try gets.
  unfoldable pub check_pub_tx_status : Bytes → Result (Unit {0})
  check_pub_tx_status tx_hash = elim (client.transaction_receipt tx_hash) [
    | err e ↦ err e
    | ok status ↦ if not (status == 1) then err "tx failed" else ok tt
  ]
