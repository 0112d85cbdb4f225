-- ===== src/Pubchain/Blocks/Huge.antt =====
-- pubchain/tx_inbound.go: a call of the token that names a pool and an amount above the bound of sdk.Int.
use oppy_bridge.Common.{
  ℕ, ◌^◌, ◌≤◌, ◌<◌, ◌≡◌, refl, sym, ap, ◌∙◌, subst, ◌↔◌, inl, inr, true, false, none, some, arith,
  ltb, nat_key, string_key, bytes_key, Bool-cases, length,
}
use oppy_bridge.Common.Outcome.{Outcome, done, panics, blocked, ◌>>=◌, Safe, Safe-bind}
use oppy_bridge.Common.Result.{Result, ok, err}
use oppy_bridge.Config.{req_cache_size}
use oppy_bridge.External.{Bytes, Env, Transaction}
use oppy_bridge.Hex.{hex_encode}
use oppy_bridge.Misc.Keys.{eth_sign_pub_key_to_jolt_addr}
use oppy_bridge.SyncMap.{load}
use oppy_bridge.Pubchain.State.{InboundReq, PubChainInstance, check_to_bridge, send_inbound}
use oppy_bridge.Pubchain.Inbound.{process_inbound_tx}
use oppy_bridge.Pubchain.Inbound.Branches.{process_too_big, process_cases}
use oppy_bridge.Pubchain.Blocks.{
  check_erc20, payload_bytes, process_inbound_erc20, process_payment, then_payment, process_to,
  process_each_tx,
}
use oppy_bridge.Pubchain.Blocks.Cases.{signature_of}

send-Safe :
    (req : InboundReq) (pi : PubChainInstance)
    → Safe
        (λ (pi' : PubChainInstance). pi'.last_two_pools ≡ pi.last_two_pools)
        (send_inbound req pi)
unfolding send_inbound
send-Safe req pi = elim (Bool-cases (ltb (length pi.inbound_req_chan) req_cache_size)) [
  | inl room ↦ rw (room, send_inbound) refl
  | inr full ↦ rw (full, send_inbound) tt
]

module _ (env : Env) (number : ℕ) (tx : Transaction) (to to_addr : Bytes) (amount : ℕ)
    (sig key sender : Bytes) (pi : PubChainInstance) (signed : signature_of tx ≡ done sig)
    (recovered : env.ecrecover (env.signer_hash tx) sig ≡ ok key)
    (sent_by : eth_sign_pub_key_to_jolt_addr env key ≡ ok sender)
    (token : env.address_text to ≡ pi.token_addr)
    (new : load (hex_encode tx.hash) pi.pending_inbounds ≡ none) where
  goes_on :
      process_inbound_erc20 env tx to to_addr amount number pi
      ≡ process_inbound_tx env (hex_encode tx.hash) number sender to_addr amount to pi
  unfolding process_inbound_erc20
  goes_on = rw (signed, recovered, sent_by, process_inbound_erc20) refl

  small_enough :
      amount < 2 ^ 255
      → Safe
          (λ o. o.1.last_two_pools ≡ pi.last_two_pools)
          (process_inbound_erc20 env tx to to_addr amount number pi)
  small_enough small = subst (Safe (λ o. o.1.last_two_pools ≡ pi.last_two_pools)) (sym goes_on) (
      process_cases (Safe (λ o. o.1.last_two_pools ≡ pi.last_two_pools)) env (hex_encode tx.hash)
        number sender to_addr amount to pi (λ e. refl) (λ big. ground (arith, small, big))
        (λ m b. refl)
        (λ req b.
          Safe-bind (λ (pi' : PubChainInstance). pi'.last_two_pools ≡ pi.last_two_pools)
            (λ o. o.1.last_two_pools ≡ pi.last_two_pools)
            (send_inbound req (record pi { pending_inbounds_bnb = b })) (λ sent. done (ok tt, sent))
            (send-Safe req (record pi { pending_inbounds_bnb = b })) (λ pi' same. same)))

  too_big : 2 ^ 255 ≤ amount → process_inbound_erc20 env tx to to_addr amount number pi ≡ panics
  too_big big =
      goes_on
      ∙ process_too_big env (hex_encode tx.hash) number sender to_addr amount to pi new token
          (ground arith)

  module _ (other : check_to_bridge env to pi ≡ false) where
    no_payment :
        (o : Result (Unit {0}) × PubChainInstance)
        → o.1.last_two_pools ≡ pi.last_two_pools
        → then_payment env number tx to o ≡ done o.1
    unfolding process_payment check_to_bridge
    no_payment (err e, pi') same = refl
    no_payment (ok _, pi') same =
        let still : check_to_bridge env to pi' ≡ false = rw same other in
        rw (still, process_payment) refl

    never_panics :
        (out : Outcome (Result (Unit {0}) × PubChainInstance))
        → Safe (λ o. o.1.last_two_pools ≡ pi.last_two_pools) out
        → (out >>= then_payment env number tx to) ≡ panics
        → ⊥
    never_panics (done o) s e = absurd (ground (arith, no_payment o s, e))
    never_panics panics s e = s
    never_panics blocked s e = absurd (ground (arith, e))

reaches :
    (env : Env) (check_each_tx : Bytes → Result ℕ) (number : ℕ) (tx : Transaction) (to : Bytes)
    (pi : PubChainInstance)
    → tx.to ≡ some to
    → check_each_tx tx.hash ≡ ok 1
    → process_each_tx env check_each_tx number tx pi ≡ process_to env number tx to pi
unfolding process_each_tx
reaches env check_each_tx number tx to pi t status = ground (arith, t, status)

-- Take a successful transaction to the bridge's token, which is no pool, whose sender can be recovered,
-- whose input, of whatever method, names a pool and an amount, and which does not wait already. The loop of
-- processEachBlock panics at it exactly where the amount is 2^255 or more, as in an approval of the pool
-- for the greatest amount.
pub process_each_tx_panics :
    (env : Env) (check_each_tx : Bytes → Result ℕ) (number : ℕ) (tx : Transaction)
    (to to_addr : Bytes) (amount : ℕ) (sig key sender : Bytes) (pi : PubChainInstance)
    → tx.to ≡ some to
    → check_each_tx tx.hash ≡ ok 1
    → check_erc20 env (payload_bytes tx.payload) ≡ ok (to_addr, amount)
    → env.address_text to ≡ pi.token_addr
    → check_to_bridge env to_addr pi ≡ true
    → check_to_bridge env to pi ≡ false
    → signature_of tx ≡ done sig
    → env.ecrecover (env.signer_hash tx) sig ≡ ok key
    → eth_sign_pub_key_to_jolt_addr env key ≡ ok sender
    → load (hex_encode tx.hash) pi.pending_inbounds ≡ none
    → (process_each_tx env check_each_tx number tx pi ≡ panics) ↔ (2 ^ 255 ≤ amount)
unfolding process_to
process_each_tx_panics env check_each_tx number tx to to_addr amount sig key sender pi t status
      input token bridge other signed recovered sent_by new =
    let same = (string_key.same_iff (env.address_text to) pi.token_addr).1 token in
    let transfers : process_to env number tx to pi ≡ (
        process_inbound_erc20 env tx to to_addr amount number pi
        >>= then_payment env number tx to) =
      ground (arith, input, same, bridge) in
    let runs = reaches env check_each_tx number tx to pi t status ∙ transfers in
    (
      λ e. elim (Bool-cases (ltb amount (2 ^ 255))) [
        | inr big ↦ ground arith
        | inl small ↦ absurd (
            never_panics env number tx to to_addr amount sig key sender pi signed recovered sent_by
              token new other (process_inbound_erc20 env tx to to_addr amount number pi)
              (small_enough env number tx to to_addr amount sig key sender pi signed recovered
                sent_by token new (ground arith))
              (sym runs ∙ e))
      ],
      λ big.
          runs
          ∙ ap (λ out. out >>= then_payment env number tx to)
              (too_big env number tx to to_addr amount sig key sender pi signed recovered sent_by
                token new big),
    )
