-- ===== src/Pubchain/Inbound/Fee.antt =====
-- pubchain/tx_inbound.go: which fee Verify accepts, and how updateInboundTx adds one to a token that
-- waits.
use oppy_bridge.Common.{
  ℕ, ◌+◌, ◌^◌, ◌≤◌, ◌<◌, String, ◌≡◌, refl, ◌≢◌, ◌↔◌, inl, inr, true, false, Option, none, some,
  arith, ltb, if◌then◌else◌, ◌==◌, nat_key, string_key, bytes_key, Bool-cases, Option-cases,
}
use oppy_bridge.Common.Outcome.{Outcome, done, panics, Ensures}
use oppy_bridge.Common.SdkInt.{new_int, new_int_fits}
use oppy_bridge.Common.Result.{ok, err, Result-cases}
use oppy_bridge.Config.{in_bound_denom_fee, in_bound_fee_min}
use oppy_bridge.External.{Bytes, Env}
use oppy_bridge.SyncMap.{
  SyncMap, load, store, delete, load-store_self, load-store_ne, load-delete_self, load-delete_ne,
}
use oppy_bridge.Pubchain.State.{InboundTx, InboundTxBnb, PubChainInstance}
use oppy_bridge.Pubchain.Inbound.{verify_inbound_tx, update_inbound_tx, add_fee, first_fee}

-- Verify accepts a token exactly when its fee is in the fee's denomination and at least the minimum
-- that the configured text stands for.
pub verify_inbound_tx_iff :
    (env : Env) (tx : InboundTx) (min : ℕ)
    → env.dec_from_str in_bound_fee_min ≡ ok min
    → (verify_inbound_tx env tx ≡ ok tt)
      ↔ ((tx.fee.denom ≡ in_bound_denom_fee) × (min ≤ tx.fee.amount))
unfolding verify_inbound_tx
verify_inbound_tx_iff env tx min e = elim (Bool-cases (tx.fee.denom == in_bound_denom_fee)) [
  | inl same ↦
      rw (same, e)
        (
          λ h. ((string_key.same_iff tx.fee.denom in_bound_denom_fee).0 same, ground arith),
          λ h. ground arith,
        )
  | inr other ↦ rw other (
    λ h. cc,
    λ h. absurd (ground (arith, string_key.same_iff tx.fee.denom in_bound_denom_fee, h.0, other)),
  )
]

pub verify_short :
    (env : Env) (tx : InboundTx) (min : ℕ)
    → env.dec_from_str in_bound_fee_min ≡ ok min
    → tx.fee.denom ≡ in_bound_denom_fee
    → ltb tx.fee.amount min ≡ true
    → verify_inbound_tx env tx ≡ err "the fee is not enough"
unfolding verify_inbound_tx
verify_short env tx min e d h = rw ((string_key.same_iff tx.fee.denom in_bound_denom_fee).1 d, e, h)

pub verify_enough :
    (env : Env) (tx : InboundTx) (min : ℕ)
    → env.dec_from_str in_bound_fee_min ≡ ok min
    → tx.fee.denom ≡ in_bound_denom_fee
    → ltb tx.fee.amount min ≡ false
    → verify_inbound_tx env tx ≡ ok tt
unfolding verify_inbound_tx
verify_enough env tx min e d h =
    rw ((string_key.same_iff tx.fee.denom in_bound_denom_fee).1 d, e, h)

-- updateInboundTx, branch by branch.
module _ (env : Env) (tx_id : Bytes) (amount n : ℕ) (pi : PubChainInstance) where
  pub update_no_token :
      amount < 2 ^ 255
      → load tx_id pi.pending_inbounds ≡ none
      → update_inbound_tx env tx_id amount n pi
        ≡ done (
          none,
          record pi {
            pending_inbounds_bnb = store tx_id (first_fee tx_id amount n) pi.pending_inbounds_bnb;
          },
        )
  unfolding update_inbound_tx
  update_no_token fits l = rw (l, new_int_fits amount fits, update_inbound_tx) refl

  pub update_short :
      (tx : InboundTx) (e : String)
      → tx.fee.amount + amount < 2 ^ 255
      → load tx_id pi.pending_inbounds ≡ some tx
      → verify_inbound_tx env (add_fee amount tx) ≡ err e
      → update_inbound_tx env tx_id amount n pi
        ≡ done (
          none,
          record pi { pending_inbounds = store tx_id (add_fee amount tx) pi.pending_inbounds },
        )
  unfolding update_inbound_tx
  update_short tx e fits l v =
      rw
        (
          l,
          new_int_fits amount (omega arith),
          new_int_fits (tx.fee.amount + amount) fits,
          v,
          update_inbound_tx,
        )
        refl

  pub update_paid :
      (tx : InboundTx)
      → tx.fee.amount + amount < 2 ^ 255
      → load tx_id pi.pending_inbounds ≡ some tx
      → verify_inbound_tx env (add_fee amount tx) ≡ ok tt
      → update_inbound_tx env tx_id amount n pi
        ≡ done (
          some (add_fee amount tx),
          record pi { pending_inbounds = delete tx_id pi.pending_inbounds },
        )
  unfolding update_inbound_tx
  update_paid tx fits l v =
      rw
        (
          l,
          new_int_fits amount (omega arith),
          new_int_fits (tx.fee.amount + amount) fits,
          v,
          update_inbound_tx,
        )
        refl

  pub update_too_big :
      ltb amount (2 ^ 255) ≡ false → update_inbound_tx env tx_id amount n pi ≡ panics
  unfolding update_inbound_tx new_int
  update_too_big big = elim (Option-cases (load tx_id pi.pending_inbounds)) [
    | inl l ↦ rw (l, big, update_inbound_tx, new_int) refl
    | inr (tx, l) ↦ rw (l, big, update_inbound_tx, new_int) refl
  ]

  update_sum_too_big :
      (tx : InboundTx)
      → amount < 2 ^ 255
      → load tx_id pi.pending_inbounds ≡ some tx
      → ltb (tx.fee.amount + amount) (2 ^ 255) ≡ false
      → update_inbound_tx env tx_id amount n pi ≡ panics
  unfolding update_inbound_tx new_int
  update_sum_too_big tx fits l big =
      rw (l, new_int_fits amount fits, update_inbound_tx) (rw (big, new_int) refl)

  -- What updateInboundTx can do: panic, keep the fee, keep the sum with the token, or take the token out.
  pub update_cases {ℓ} :
      (P : Outcome (Option InboundTx × PubChainInstance) → Type ℓ)
      → P panics
      → (load tx_id pi.pending_inbounds ≡ none
          → P (
              done (
                none,
                record pi {
                  pending_inbounds_bnb =
                      store tx_id (first_fee tx_id amount n) pi.pending_inbounds_bnb;
                },
              )))
      → ((tx : InboundTx) (e : String)
          → load tx_id pi.pending_inbounds ≡ some tx
          → verify_inbound_tx env (add_fee amount tx) ≡ err e
          → P (
              done (
                none,
                record pi {
                  pending_inbounds = store tx_id (add_fee amount tx) pi.pending_inbounds;
                },
              )))
      → ((tx : InboundTx)
          → load tx_id pi.pending_inbounds ≡ some tx
          → verify_inbound_tx env (add_fee amount tx) ≡ ok tt
          → P (
              done (
                some (add_fee amount tx),
                record pi { pending_inbounds = delete tx_id pi.pending_inbounds },
              )))
      → P (update_inbound_tx env tx_id amount n pi)
  update_cases P too_big first short paid = elim (Bool-cases (ltb amount (2 ^ 255))) [
    | inr big ↦ rw (update_too_big big) too_big
    | inl small ↦
        let fits : amount < 2 ^ 255 = ground arith in
        elim (Option-cases (load tx_id pi.pending_inbounds)) [
          | inl l ↦ rw (update_no_token fits l) (first l)
          | inr (tx, l) ↦ elim (Bool-cases (ltb (tx.fee.amount + amount) (2 ^ 255))) [
            | inr big ↦ rw (update_sum_too_big tx fits l big) too_big
            | inl sum ↦
                let sum_fits : tx.fee.amount + amount < 2 ^ 255 = ground arith in
                elim (Result-cases (verify_inbound_tx env (add_fee amount tx))) [
                  | inr (e, v) ↦ rw (update_short tx e sum_fits l v) (short tx e l v)
                  | inl (tt, v) ↦ rw (update_paid tx sum_fits l v) (paid tx l v)
                ]
          ]
        ]
  ]

  -- What holds of the state after updateInboundTx, whatever the two maps.
  pub update-Ensures :
      (Q : PubChainInstance → Type 0)
      → ((m : SyncMap Bytes InboundTx) (b : SyncMap Bytes InboundTxBnb)
          → Q (record pi { pending_inbounds = m; pending_inbounds_bnb = b }))
      → Ensures (λ o. Q o.1) (update_inbound_tx env tx_id amount n pi)
  update-Ensures Q q =
      update_cases (Ensures (λ o. Q o.1)) tt (λ l. q _ _) (λ tx e l v. q _ _) (λ tx l v. q _ _)

-- A payment of `amount` for a token that waits, with a fee in the fee's denomination, and a sum of the
-- fees that fits sdk.Int. While the fees together stay below the minimum, the token goes on waiting with
-- their sum and nothing is returned. Once they reach it, the token comes out with the sum, and waits no
-- longer. No other token changes, nor do the fees that came before their tokens, the queues and the pools.
pub update_inbound_tx_sums :
    (env : Env) (tx_id : Bytes) (amount n min : ℕ) (tx : InboundTx) (pi : PubChainInstance)
    → env.dec_from_str in_bound_fee_min ≡ ok min
    → load tx_id pi.pending_inbounds ≡ some tx
    → tx.fee.denom ≡ in_bound_denom_fee
    → tx.fee.amount + amount < 2 ^ 255
    → let short = ltb (tx.fee.amount + amount) min in
      (out : Option InboundTx) × (pi' : PubChainInstance) × (update_inbound_tx env tx_id amount n pi
        ≡ done (out, pi'))
      × (out ≡ (if short then none else some (add_fee amount tx)))
      × (load tx_id pi'.pending_inbounds ≡ (if short then some (add_fee amount tx) else none))
      × ((k : Bytes) → k ≢ tx_id → load k pi'.pending_inbounds ≡ load k pi.pending_inbounds)
      × (pi' ≡ record pi { pending_inbounds = pi'.pending_inbounds })
update_inbound_tx_sums env tx_id amount n min tx pi e l d fits =
    elim (Bool-cases (ltb (tx.fee.amount + amount) min)) [
      | inl short ↦ rw short (
        none,
        record pi { pending_inbounds = store tx_id (add_fee amount tx) pi.pending_inbounds },
        update_short env tx_id amount n pi tx _ fits l
            (verify_short env (add_fee amount tx) min e d short),
        refl,
        load-store_self tx_id (add_fee amount tx) pi.pending_inbounds,
        λ k ne. load-store_ne tx_id k (add_fee amount tx) pi.pending_inbounds ne,
        refl,
      )
      | inr enough ↦ rw enough (
        some (add_fee amount tx),
        record pi { pending_inbounds = delete tx_id pi.pending_inbounds },
        update_paid env tx_id amount n pi tx fits l
            (verify_enough env (add_fee amount tx) min e d enough),
        refl,
        load-delete_self tx_id pi.pending_inbounds,
        λ k ne. load-delete_ne tx_id k pi.pending_inbounds ne,
        refl,
      )
    ]
