-- ===== src/Pubchain/Sending/Retired.antt =====
-- pubchain/tx_inbound.go: the end of moving a retired pool's funds on the public chain.
use oppy_bridge.Common.{
  ℕ, ◌+◌, ◌-◌, ◌*◌, ◌^◌, ◌≤◌, ◌<◌, ◌≡◌, refl, ap, ◌∙◌, ◌↔◌, inl, inr, Bool, true, false, not, ◌&&◌,
  [], arith, ltb, if◌then◌else◌, ◌==◌, nat_key, string_key, bytes_key, Bool-cases,
}
use oppy_bridge.Common.Int.{ℤ}
use oppy_bridge.Common.Outcome.{Outcome, done, panics, blocked, ◌>>=◌}
use oppy_bridge.Common.SdkInt.{new_dec_fits}
use oppy_bridge.Common.Result.{Result, ok, err, Result-cases}
use oppy_bridge.Config.{dust_bnb, gas_fee_ratio}
use oppy_bridge.External.{Bytes, Env}
use oppy_bridge.Pool.{PoolInfo}
use oppy_bridge.Pubchain.State.{PubChainInstance}
use oppy_bridge.Pubchain.Sending.{
  EthClient, move_erc20_token, move_bnb, move_fund, coin_moved, token_moved, move_balances,
  move_pub_funds,
}

module _ (env : Env) (client : EthClient) (pool : PoolInfo) (receiver : Bytes) (height : ℤ)
    (pi : PubChainInstance) (balance coin dust : ℕ)
    (b : client.balance_of pool.eth_address ≡ ok balance)
    (c : client.balance_at pool.eth_address ≡ ok coin)
    (d : env.dec_from_str dust_bnb ≡ ok dust) where
  -- Whether MoveFunds calls the account empty.
  abbrev says_empty : Outcome (Bool × Result (Unit {0})) → Bool
  says_empty (done (empty, _)) = empty
  says_empty panics = false
  says_empty blocked = false

  pub balances_known : move_pub_funds env client pool receiver height pi ≡ (
      if balance == 0 && not (ltb dust coin)
      then done (true, ok tt)
      else move_balances env client pool receiver height balance coin pi)
  unfolding move_pub_funds
  balances_known = rw (b, c, d, move_pub_funds) refl

  token_says :
      (out : Outcome (Result Bytes))
      → says_empty (out >>= λ moved. done (token_moved env client moved)) ≡ false
  unfolding token_moved
  token_says (done (ok h)) = refl
  token_says (done (err e)) = refl
  token_says panics = refl
  token_says blocked = refl

  coin_says :
      (out : Outcome (Result Bytes))
      → says_empty (out >>= λ moved. done (coin_moved env client moved)) ≡ false
  unfolding coin_moved
  coin_says (done (ok h)) = refl
  coin_says (done (err e)) = refl
  coin_says panics = refl
  coin_says blocked = refl

  balances_say : says_empty (move_balances env client pool receiver height balance coin pi) ≡ false
  unfolding move_balances
  balances_say = elim (Bool-cases (ltb 0 balance)) [
    | inl t ↦
        rw (t, move_balances)
          (token_says
            (move_erc20_token env client pool.pk pool.eth_address receiver balance height pi))
    | inr f ↦ elim (Bool-cases (ltb 0 coin)) [
      | inr g ↦ rw (f, g, move_balances) refl
      | inl t ↦ elim (Result-cases (client.nonce_at pool.eth_address)) [
        | inr (e, n) ↦ rw (f, t, n, move_balances) refl
        | inl (nonce, n) ↦
            rw (f, t, n, move_balances)
              (coin_says (move_bnb env client pool.pk receiver coin nonce height))
      ]
    ]
  ]

  nothing_left : balance ≡ 0 → coin ≤ dust → (balance == 0 && not (ltb dust coin)) ≡ true
  nothing_left z l = ground arith

  -- Where the two balances and the dust are known, MoveFunds calls the account of a retired pool empty
  -- exactly if it holds none of the token and no more of the chain's own coin than the dust.
  pub move_pub_funds_empty :
      ((r : Result (Unit {0})) × (move_pub_funds env client pool receiver height pi
          ≡ done (true, r)))
      ↔ ((balance ≡ 0) × (coin ≤ dust))
  move_pub_funds_empty = (
    λ (r, e). elim (Bool-cases (balance == 0 && not (ltb dust coin))) [
      | inl t ↦ ground arith
      | inr f ↦ absurd (ground (arith, balances_known, balances_say, f, e))
    ],
    λ h. (
      ok tt,
      balances_known
          ∙ ap
              (λ t.
                if t
                then done (true, ok tt)
                else move_balances env client pool receiver height balance coin pi)
              (nothing_left h.0 h.1),
    ),
  )

  something_left : dust < coin → (balance == 0 && not (ltb dust coin)) ≡ false
  something_left l = ground arith

  moved_nothing : done (coin_moved env client (ok [])) ≡ done (false, ok tt)
  unfolding coin_moved
  moved_nothing = refl

  fund_dust :
      (fund nonce chain_id price gas : ℕ)
      → fund ≤ dust
      → move_fund env client pool.pk receiver fund nonce height chain_id price gas ≡ done (ok [])
  unfolding move_fund
  fund_dust fund nonce chain_id price gas h = ground arith

  bnb_known :
      (nonce chain_id price gas ratio : ℕ)
      → client.network_id ≡ ok chain_id
      → client.suggest_gas_price ≡ ok price
      → client.estimate_gas ≡ ok gas
      → env.dec_from_str gas_fee_ratio ≡ ok ratio
      → env.dec_mul (price * gas) ratio < 2 ^ 315
      → move_bnb env client pool.pk receiver coin nonce height
        ≡ move_fund env client pool.pk receiver
            (coin - env.dec_mul (price * gas) ratio)
            nonce
            height
            chain_id
            price
            gas
  unfolding move_bnb
  bnb_known nonce chain_id price gas ratio n p g r f =
      ground (arith, new_dec_fits (env.dec_mul (price * gas) ratio) f)

  coin_only :
      (nonce : ℕ)
      → balance ≡ 0
      → 0 < coin
      → client.nonce_at pool.eth_address ≡ ok nonce
      → move_balances env client pool receiver height balance coin pi ≡ (
          move_bnb env client pool.pk receiver coin nonce height >>= λ moved.
          done (coin_moved env client moved))
  unfolding move_balances
  coin_only nonce z l o = ground arith

  -- Where the account holds none of the token, and of the coin more than the dust, but no more than the
  -- dust beyond one and a half times the gas fee, which fits sdk.Dec, MoveFunds reports neither an error nor an empty account,
  -- whatever the key server and SendTransaction do: it sends nothing.
  pub move_pub_funds_leftover :
      (chain_id price gas ratio nonce : ℕ)
      → client.network_id ≡ ok chain_id
      → client.suggest_gas_price ≡ ok price
      → client.estimate_gas ≡ ok gas
      → env.dec_from_str gas_fee_ratio ≡ ok ratio
      → env.dec_mul (price * gas) ratio < 2 ^ 315
      → client.nonce_at pool.eth_address ≡ ok nonce
      → balance ≡ 0
      → dust < coin
      → coin ≤ dust + env.dec_mul (price * gas) ratio
      → move_pub_funds env client pool receiver height pi ≡ done (false, ok tt)
  move_pub_funds_leftover chain_id price gas ratio nonce n p g r f o z l h =
      balances_known
      ∙ ap
          (λ t.
            if t
            then done (true, ok tt)
            else move_balances env client pool receiver height balance coin pi)
          (something_left l)
      ∙ coin_only nonce z (omega arith) o
      ∙ ap (λ out. out >>= λ moved. done (coin_moved env client moved))
          (bnb_known nonce chain_id price gas ratio n p g r f
            ∙ fund_dust (coin - env.dec_mul (price * gas) ratio) nonce chain_id price gas
                (omega arith))
      ∙ moved_nothing
