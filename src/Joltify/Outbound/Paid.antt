-- ===== src/Joltify/Outbound/Paid.antt =====
-- joltifybridge/tx_outbound.go: for which messages processMsg queues a request, and which one.
use oppy_bridge.Common.{
  ap₂, ℕ, ◌≤◌, String, ◌≡◌, refl, sym, ◌∙◌, subst, ◌↔◌, ◌⊎◌, inl, inr, Bool, true, false, ◌&&◌,
  ◌||◌, none, some, List, [], ◌∷◌, arith, ltb, ◌==◌, nat_key, string_key, bytes_key, Bool-cases,
}
use oppy_bridge.Common.Int.{ℤ}
use oppy_bridge.Common.Result.{Result, ok, err, Result-cases}
use oppy_bridge.Config.{out_bound_denom, out_bound_denom_fee, out_bound_fee_out}
use oppy_bridge.External.{Bytes, Coin, Env}
use oppy_bridge.Hex.{hex_encode}
use oppy_bridge.Misc.Keys.{account_pub_key_to_eth_address}
use oppy_bridge.Joltify.State.{
  OutBoundReq, JoltifyChainInstance, new_outbound_req, add_outbound_item,
}
use oppy_bridge.Joltify.Outbound.{
  MsgSend, verify_outbound_tx, outbound_tx, process_demon_and_fee, fee_pair, parties, process_paid,
  process_msg,
}

or_iff : (x a b : Bytes) → ((x == a || x == b) ≡ true) ↔ ((x ≡ a) ⊎ (x ≡ b))
or_iff x a b = (
  λ e. ground (arith, bytes_key.same_iff x a, bytes_key.same_iff x b, e),
  λ h. ground (arith, bytes_key.same_iff x a, bytes_key.same_iff x b, h),
)

abbrev pub token_coin : ℕ → Coin
token_coin d = record { denom = out_bound_denom; amount = d }

abbrev pub fee_coin : ℕ → Coin
fee_coin f = record { denom = out_bound_denom_fee; amount = f }

-- Two coins, the token and the fee, in either order.
abbrev pub IsPair : List Coin → ℕ → ℕ → Type 0
IsPair amount d f =
    (amount ≡ token_coin d ∷ fee_coin f ∷ []) ⊎ (amount ≡ fee_coin f ∷ token_coin d ∷ [])

abbrev NoPair : List Coin → Type 0
NoPair amount = (d f : ℕ) → IsPair amount d f → ⊥

fee_pair-IsPair : (l : List Coin) (d f : ℕ) → IsPair l d f → fee_pair l ≡ ok (d, f)
unfolding fee_pair
fee_pair-IsPair l d f (inl e) = subst (λ m. fee_pair m ≡ ok (d, f)) (sym e) refl
fee_pair-IsPair l d f (inr e) = subst (λ m. fee_pair m ≡ ok (d, f)) (sym e) refl

abbrev Splits : List Coin → Type 0
Splits amount =
    ((d : ℕ) × (f : ℕ) × (fee_pair amount ≡ ok (d, f)) × IsPair amount d f)
    ⊎ ((e : String) × (fee_pair amount ≡ err e) × NoPair amount)

abbrev has_denoms : String → String → List Coin → Bool
has_denoms s t [] = false
has_denoms s t (_ ∷ []) = false
has_denoms s t (a ∷ b ∷ _) = a.denom == s && b.denom == t

and_parts : (x y : Bool) → (x && y) ≡ true → (x ≡ true) × (y ≡ true)
and_parts x y e = (ground (arith, e), ground (arith, e))

coins_of_denoms :
    (s t : String) (a b : Coin)
    → has_denoms s t (a ∷ b ∷ []) ≡ true
    → a ∷ b ∷ []
      ≡ record { denom = s; amount = a.amount } ∷ record { denom = t; amount = b.amount } ∷ []
coins_of_denoms s t a b e =
    let (x, y) = and_parts (a.denom == s) (b.denom == t) e in
    ap₂
      (λ u v.
        record { denom = u; amount = a.amount } ∷ record { denom = v; amount = b.amount } ∷ [])
      ((string_key.same_iff a.denom s).0 x) ((string_key.same_iff b.denom t).0 y)

-- The denominations of a pair, which the tests of processMsg read.
pair_denoms :
    (l : List Coin) (d f : ℕ)
    → IsPair l d f
    → (has_denoms out_bound_denom out_bound_denom_fee l ≡ true)
      ⊎ (has_denoms out_bound_denom_fee out_bound_denom l ≡ true)
pair_denoms l d f (inl e) =
    inl (subst (λ m. has_denoms out_bound_denom out_bound_denom_fee m ≡ true) (sym e) refl)
pair_denoms l d f (inr e) =
    inr (subst (λ m. has_denoms out_bound_denom_fee out_bound_denom m ≡ true) (sym e) refl)

and_comm : (x y : Bool) → (x && y) ≡ (y && x)
and_comm x y = ground arith

two_cases : (a b : Coin) → Splits (a ∷ b ∷ [])
unfolding fee_pair
two_cases a b = elim (Bool-cases (b.denom == out_bound_denom && a.denom == out_bound_denom_fee)) [
  | inl x ↦ inl (
    b.amount,
    a.amount,
    rw x,
    inr (
        coins_of_denoms out_bound_denom_fee out_bound_denom a b
          (and_comm (a.denom == out_bound_denom_fee) (b.denom == out_bound_denom) ∙ x)),
  )
  | inr x ↦ elim (Bool-cases (a.denom == out_bound_denom && b.denom == out_bound_denom_fee)) [
    | inl y ↦ inl (
      a.amount,
      b.amount,
      rw (x, y),
      inl (coins_of_denoms out_bound_denom out_bound_denom_fee a b y),
    )
    | inr y ↦ inr (
      "invalid fee pair",
      rw (x, y),
      λ d f p. ground (arith, pair_denoms (a ∷ b ∷ []) d f p, x, y),
    )
  ]
]

fee_pair_cases : (amount : List Coin) → Splits amount
unfolding fee_pair
fee_pair_cases [] = inr (_, refl, λ d f p. ground arith)
fee_pair_cases (a ∷ []) = inr (_, refl, λ d f p. ground arith)
fee_pair_cases (a ∷ b ∷ c ∷ l) = inr (_, refl, λ d f p. ground arith)
fee_pair_cases (a ∷ b ∷ []) = two_cases a b

fee_iff :
    (env : Env) (min : ℕ) (h : ℤ) (from : Bytes) (d f : ℕ)
    → env.dec_from_str out_bound_fee_out ≡ ok min
    → ((min ≤ f) × (process_demon_and_fee env h from d f ≡ some (outbound_tx env h from d f)))
      ⊎ ((min ≤ f → ⊥) × (process_demon_and_fee env h from d f ≡ none))
unfolding process_demon_and_fee verify_outbound_tx
fee_iff env min h from d f e = elim (Bool-cases (ltb f min)) [
  | inl short ↦ inr (λ l. ground arith, rw (e, short))
  | inr enough ↦ inl (ground arith, rw (e, enough))
]

module _ (env : Env) (query_account : String → Result Bytes) (min : ℕ)
    (least : env.dec_from_str out_bound_fee_out ≡ ok min) (height : ℤ) (a0 a1 cur_eth_addr : Bytes)
    (msg : MsgSend) (tx_hash : Bytes) (jc : JoltifyChainInstance) where
  -- `to` is the message's receiver, and `from` the address on the public chain of the key of its sender.
  abbrev pub Parties : Bytes → Bytes → Type 0
  Parties to from =
      (env.acc_address_from_bech32 msg.to_address ≡ ok to)
      × (pub_key : Bytes) × (key : Bytes) × (query_account msg.from_address ≡ ok pub_key)
      × (env.decompress_pubkey pub_key ≡ ok key)
      × (env.acc_address_from_hex (env.address_hex (env.pubkey_to_address key)) ≡ ok from)

  -- The message pays `d` of the token and a sufficient fee `f` to one of the two pools.
  abbrev pub Pays : Bytes → Bytes → ℕ → ℕ → Type 0
  Pays to from d f = Parties to from × ((to ≡ a0) ⊎ (to ≡ a1)) × IsPair msg.amount d f × (min ≤ f)

  -- The request for `d` of the token, to the sender's address on the public chain.
  abbrev pub payout : Bytes → ℕ → OutBoundReq
  payout from d =
      new_outbound_req (hex_encode tx_hash) (env.bytes_to_address from) cur_eth_addr (token_coin d)
        height

  abbrev pub Queues : Result (Unit {0}) × JoltifyChainInstance → Type 0
  Queues out =
      ((to : Bytes) × (from : Bytes) × (d : ℕ) × (f : ℕ) × Pays to from d f
        × (out ≡ (ok tt, add_outbound_item env (payout from d) jc)))
      ⊎ ((e : String) × (out ≡ (err e, jc)) × ((to from : Bytes) (d f : ℕ) → Pays to from d f → ⊥))

  parties_iff :
      (to from : Bytes) → (parties env query_account msg ≡ ok (to, from)) ↔ Parties to from
  unfolding parties account_pub_key_to_eth_address
  parties_iff to from = (λ q. found q, λ (t, pub_key, key, k, d, a). rw (t, k, d, a, parties) refl)
    where
      found : parties env query_account msg ≡ ok (to, from) → Parties to from
      found q = elim (Result-cases (env.acc_address_from_bech32 msg.to_address)) [
        | inr (e, bad) ↦ absurd (ground (arith, bad, q))
        | inl (t, r) ↦ elim (Result-cases (query_account msg.from_address)) [
          | inr (e, bad) ↦ absurd (ground (arith, r, bad, q))
          | inl (pub_key, k) ↦ elim (Result-cases (env.decompress_pubkey pub_key)) [
            | inr (e, bad) ↦ absurd (ground (arith, r, k, bad, q))
            | inl (key, d) ↦
                elim (Result-cases
                  (env.acc_address_from_hex (env.address_hex (env.pubkey_to_address key)))) [
                    | inr (e, bad) ↦ absurd (ground (arith, r, k, d, bad, q))
                    | inl (f, a) ↦
                        let both : ◌≡◌ {A = Result (Bytes × Bytes)} (ok (t, f)) (ok (to, from)) =
                          ground (arith, r, k, d, a, q) in
                        (ground (arith, r, both), pub_key, key, k, d, ground (arith, a, both))
                  ]
          ]
        ]
      ]

  -- Let the configured text stand for a minimal fee. A message pays a pool where its receiver is one of the
  -- two pools, the key that the node holds for its sender gives an address `from` on the public chain, and
  -- its coins are an amount of the token and a sufficient fee. Either the message pays a pool, processMsg
  -- succeeds, and the retry pool gains the request to pay the same amount of the token to `from`, from the
  -- latest pool; or the message does not pay a pool, processMsg returns an error, and the state stays as
  -- it was.
  pub process_msg_pays :
      Queues (process_msg env query_account height (a0, a1) cur_eth_addr msg tx_hash jc)
  unfolding process_msg process_paid
  process_msg_pays = elim (Result-cases (parties env query_account msg)) [
    | inr (e, q) ↦
        inr
          (e, rw (process_msg, q), λ to from d f p. ground (arith, q, (parties_iff to from).1 p.0))
    | inl ((to, from), q) ↦ elim (Bool-cases (to == a0 || to == a1)) [
      | inr other ↦ inr (
        "not a top up message to the pool",
        rw (process_msg, q, other),
        λ to' from' d f p.
            absurd (ground (arith, or_iff to' a0 a1, p.1, other, q, (parties_iff to' from').1 p.0)),
      )
      | inl pool ↦ elim (fee_pair_cases msg.amount) [
        | inr (e, r, unpaired) ↦ inr (
          e,
          rw (process_msg, process_paid, q, pool, r),
          λ to' from' d f p. let (r1, r2, pair, l) = p in unpaired d f pair,
        )
        | inl (d, f, r, pair) ↦ elim (fee_iff env min height from d f least) [
          | inl (l, t) ↦ inl (
            to,
            from,
            d,
            f,
            ((parties_iff to from).0 q, (or_iff to a0 a1).0 pool, pair, l),
            rw (process_msg, process_paid, q, pool, r, t),
          )
          | inr (short, t) ↦ inr (
            "not enough fee",
            rw (process_msg, process_paid, q, pool, r, t),
            λ to' from' d' f' p.
                let (r1, r2, pair', l) = p in
                absurd (ground (arith, r, fee_pair-IsPair msg.amount d' f' pair', short, l)),
          )
        ]
      ]
    ]
  ]
