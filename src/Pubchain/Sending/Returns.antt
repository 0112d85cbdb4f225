-- ===== src/Pubchain/Sending/Returns.antt =====
-- pubchain/tx_send.go, tx_inbound.go: when the calls that pay on the public chain do not panic.
use oppy_bridge.Common.{
  ℕ, ◌-◌, ◌*◌, ◌^◌, ◌<◌, String, ◌≡◌, sym, subst, inl, inr, Bool, true, false, not, ◌&&◌, some,
  List, [], ◌∷◌, arith, ltb, if◌then◌else◌, ◌==◌, nat_key, string_key, bytes_key, Bool-cases, All,
}
use oppy_bridge.Common.Int.{ℤ}
use oppy_bridge.Common.Outcome.{Outcome, done, Returns, Returns-bind}
use oppy_bridge.Common.SdkInt.{new_dec_fits}
use oppy_bridge.Common.Result.{Result, ok, Result-cases}
use oppy_bridge.Config.{dust_bnb, gas_fee_ratio}
use oppy_bridge.External.{Bytes, Env}
use oppy_bridge.Misc.Signature.{TssSignature, serialize_sig}
use oppy_bridge.Pool.{PoolInfo}
use oppy_bridge.Pubchain.State.{PubChainInstance, get_pub_pool}
use oppy_bridge.Pubchain.Sending.{
  EthClient, read_response, tss_sign, attach, sign_tx, send_signed, transfer_as, send_token,
  sent_or_known, process_out_bound, move_erc20_token, send_bnb, move_fund, move_bnb, coin_moved,
  token_moved, move_balances, move_pub_funds,
}
use oppy_bridge.Pubchain.Sending.Signed.{token_fails, token_given, token_latest}
use oppy_bridge.Pubchain.Sending.Retired.{balances_known}

-- The two configured decimals are well formed, the product with the gas price that the node suggests fits
-- sdk.Dec, and the key server's signatures fit their bytes.
pub record IsAble (env : Env) (client : EthClient) : Type 0 where
  pub dust : ℕ
  pub dust_parses : env.dec_from_str dust_bnb ≡ ok dust
  pub ratio : ℕ
  pub ratio_parses : env.dec_from_str gas_fee_ratio ≡ ok ratio
  pub cost_fits :
      (price gas : ℕ)
      → client.suggest_gas_price ≡ ok price
      → client.estimate_gas ≡ ok gas
      → env.dec_mul (price * gas) ratio < 2 ^ 315
  pub signatures_fit :
      (pk : String) (msg : Bytes) (height : ℤ) (success : Bool) (signatures : List TssSignature)
      → client.key_sign pk msg height ≡ ok (success, signatures)
      → All (λ s. Returns (serialize_sig env s true)) signatures

module _ (env : Env) (client : EthClient) (able : IsAble env client) where
  read-Returns :
      (response : Bool × List TssSignature)
      → All (λ s. Returns (serialize_sig env s true)) response.1
      → Returns (read_response env client response)
  unfolding read_response
  read-Returns (false, l) h = tt
  read-Returns (true, []) h = tt
  read-Returns (true, s ∷ []) h = h.0
  read-Returns (true, s ∷ t ∷ l) h = tt

  sign-Returns :
      (msg : Bytes) (pk : String) (height : ℤ) → Returns (tss_sign env client msg pk height)
  unfolding tss_sign
  sign-Returns msg pk height = elim (Result-cases (client.key_sign pk msg height)) [
    | inr (e, k) ↦ rw (k, tss_sign) tt
    | inl (response, k) ↦
        rw (k, tss_sign)
          (read-Returns response (able.signatures_fit pk msg height response.0 response.1 k))
  ]

  sign_tx-Returns :
      (pk : String) (sender : Bytes) (chain_id : ℕ) (height : ℤ) (address tx : Bytes)
      → Returns (sign_tx env client pk sender chain_id height address tx)
  unfolding sign_tx
  sign_tx-Returns pk sender chain_id height address tx = elim (Bool-cases (address == sender)) [
    | inr f ↦ rw (f, sign_tx) tt
    | inl t ↦
        rw (t, sign_tx)
          (Returns-bind (tss_sign env client (client.sign_hash chain_id tx) pk height)
            (λ signature. done (attach env client chain_id tx "fail to sign the tx" signature))
            (sign-Returns (client.sign_hash chain_id tx) pk height) (λ a. tt))
  ]

  transfer-Returns :
      (pk : String) (sender receiver : Bytes) (amount : ℕ) (height : ℤ) (chain_id : ℕ)
      → Returns (transfer_as env client pk sender receiver amount height chain_id)
  unfolding transfer_as
  transfer-Returns pk sender receiver amount height chain_id =
      elim (Result-cases (client.transfer sender receiver amount)) [
        | inr (e, t) ↦ rw (t, transfer_as) tt
        | inl (tx, t) ↦
            rw (t, transfer_as)
              (Returns-bind (sign_tx env client pk sender chain_id height sender tx)
                (λ ready. done (send_signed env client ready))
                (sign_tx-Returns pk sender chain_id height sender tx) (λ a. tt))
      ]

  token-Returns :
      (pk : String) (sender receiver : Bytes) (amount : ℕ) (height : ℤ) (pi : PubChainInstance)
      (latest : PoolInfo)
      → (get_pub_pool pi).pool1 ≡ some latest
      → Returns (send_token env client pk sender receiver amount height pi)
  token-Returns pk sender receiver amount height pi latest l =
      elim (Result-cases client.network_id) [
        | inr (e, n) ↦
            subst Returns (sym (token_fails env client pk sender receiver amount height pi e n)) tt
        | inl (chain_id, n) ↦ elim (Bool-cases (pk == "")) [
          | inl t ↦
              subst Returns
                (sym (
                  token_latest env client pk sender receiver amount height chain_id pi n latest t
                    l))
                (transfer-Returns latest.pk sender receiver amount height chain_id)
          | inr f ↦
              subst Returns
                (sym (token_given env client pk sender receiver amount height chain_id pi n f))
                (transfer-Returns pk sender receiver amount height chain_id)
        ]
      ]

  fund-Returns :
      (pk : String) (receiver : Bytes) (fund nonce : ℕ) (height : ℤ) (chain_id price gas : ℕ)
      → Returns (move_fund env client pk receiver fund nonce height chain_id price gas)
  unfolding move_fund
  fund-Returns pk receiver fund nonce height chain_id price gas =
      elim (Bool-cases (ltb able.dust fund)) [
        | inr f ↦ rw (able.dust_parses, f, move_fund) tt
        | inl t ↦
            rw (able.dust_parses, t, move_fund)
              (Returns-bind
                (tss_sign env client
                  (client.sign_hash chain_id (client.legacy_tx nonce price gas receiver fund)) pk
                  height)
                (λ signature. done (
                  send_bnb env client (client.legacy_tx nonce price gas receiver fund) (
                    attach env client chain_id (client.legacy_tx nonce price gas receiver fund)
                      "fail to get the valid signature" signature)))
                (sign-Returns
                  (client.sign_hash chain_id (client.legacy_tx nonce price gas receiver fund)) pk
                  height)
                (λ a. tt))
      ]

  gas_known :
      (pk : String) (receiver : Bytes) (amount nonce : ℕ) (height : ℤ) (chain_id price gas : ℕ)
      → client.network_id ≡ ok chain_id
      → client.suggest_gas_price ≡ ok price
      → client.estimate_gas ≡ ok gas
      → move_bnb env client pk receiver amount nonce height
        ≡ move_fund env client pk receiver
            (amount - env.dec_mul (price * gas) able.ratio)
            nonce
            height
            chain_id
            price
            gas
  unfolding move_bnb
  gas_known pk receiver amount nonce height chain_id price gas n p g = ground (
    arith,
    able.ratio_parses,
    new_dec_fits (env.dec_mul (price * gas) able.ratio) (able.cost_fits price gas p g),
  )

  bnb-Returns :
      (pk : String) (receiver : Bytes) (amount nonce : ℕ) (height : ℤ)
      → Returns (move_bnb env client pk receiver amount nonce height)
  unfolding move_bnb
  bnb-Returns pk receiver amount nonce height = elim (Result-cases client.network_id) [
    | inr (e, n) ↦ rw (n, move_bnb) tt
    | inl (chain_id, n) ↦ elim (Result-cases client.suggest_gas_price) [
      | inr (e, p) ↦ rw (n, p, move_bnb) tt
      | inl (price, p) ↦ elim (Result-cases client.estimate_gas) [
        | inr (e, g) ↦ rw (n, p, g, move_bnb) tt
        | inl (gas, g) ↦
            subst Returns (sym (gas_known pk receiver amount nonce height chain_id price gas n p g))
              (fund-Returns pk receiver (amount - env.dec_mul (price * gas) able.ratio) nonce height
                chain_id price gas)
      ]
    ]
  ]

  -- The calls that the loop makes, where a latest pool is known.
  module _ (pi : PubChainInstance) (latest : PoolInfo)
      (l : (get_pub_pool pi).pool1 ≡ some latest) where
    balances-Returns :
        (pool : PoolInfo) (receiver : Bytes) (height : ℤ) (balance coin : ℕ)
        → Returns (move_balances env client pool receiver height balance coin pi)
    unfolding move_balances move_erc20_token
    balances-Returns pool receiver height balance coin = elim (Bool-cases (ltb 0 balance)) [
      | inl t ↦
          rw (t, move_balances)
            (Returns-bind
              (move_erc20_token env client pool.pk pool.eth_address receiver balance height pi)
              (λ moved. done (token_moved env client moved))
              (Returns-bind
                (send_token env client pool.pk pool.eth_address receiver balance height pi)
                (λ sent. done (sent_or_known env client sent))
                (token-Returns pool.pk pool.eth_address receiver balance height pi latest l)
                (λ a. tt))
              (λ a. tt))
      | inr f ↦ elim (Bool-cases (ltb 0 coin)) [
        | inr g ↦ rw (f, g, move_balances) tt
        | inl t ↦ elim (Result-cases (client.nonce_at pool.eth_address)) [
          | inr (e, n) ↦ rw (f, t, n, move_balances) tt
          | inl (nonce, n) ↦
              rw (f, t, n, move_balances)
                (Returns-bind (move_bnb env client pool.pk receiver coin nonce height)
                  (λ moved. done (coin_moved env client moved))
                  (bnb-Returns pool.pk receiver coin nonce height) (λ a. tt))
        ]
      ]
    ]

    pub funds-Returns :
        (pool : PoolInfo) (receiver : Bytes) (height : ℤ)
        → Returns (move_pub_funds env client pool receiver height pi)
    unfolding move_pub_funds
    funds-Returns pool receiver height = elim (Result-cases (client.balance_of pool.eth_address)) [
      | inr (e, b) ↦ rw (b, move_pub_funds) tt
      | inl (balance, b) ↦ elim (Result-cases (client.balance_at pool.eth_address)) [
        | inr (e, c) ↦ rw (b, c, move_pub_funds) tt
        | inl (coin, c) ↦
            subst Returns
              (sym (
                balances_known env client pool receiver height pi balance coin able.dust b c
                  able.dust_parses))
              (either (balance == 0 && not (ltb able.dust coin))
                (move_balances env client pool receiver height balance coin pi)
                (balances-Returns pool receiver height balance coin))
      ]
    ]
      where
        either :
            (t : Bool) (other : Outcome (Bool × Result (Unit {0})))
            → Returns other
            → Returns (if t then done (true, ok tt) else other)
        either true other r = tt
        either false other r = r

    pub out_bound-Returns :
        (to from : Bytes) (amount : ℕ) (height : ℤ)
        → Returns (process_out_bound env client to from amount height pi)
    unfolding process_out_bound
    out_bound-Returns to from amount height =
        Returns-bind (send_token env client "" from to amount height pi)
          (λ sent. done (sent_or_known env client sent))
          (token-Returns "" from to amount height pi latest l) (λ a. tt)
