-- ===== src/Bridge/Kept/Mints.antt =====
-- pubchain/types.go, pubchain/tx_inbound.go: what AddItem, PopItem and a send on InboundReqChan do to the
-- requests to mint for one transaction.
pub mod Received
pub mod OnBlocks
pub mod OnRequests
pub mod OnOutbound
use oppy_bridge.Common.{
  ℕ, zero, suc, ◌+◌, ◌-◌, ◌*◌, ◌/◌, ◌%◌, ◌^◌, ◌≤◌, ◌<◌, String, ◌≡◌, refl, sym, ap, ◌∙◌, subst, ◌≢◌,
  ◌↔◌, ◌⊎◌, inl, inr, Bool, true, false, not, ◌&&◌, ◌||◌, Option, none, some, List, [], ◌∷◌, ◌++◌,
  map, arith, ltb, leb, nat_beq, if◌then◌else◌, Key, ◌==◌, nat_key, string_key, bytes_key,
  Bool-cases, Option-cases, beq_refl, beq-ne, length, take, drop, replicate, All, length-append,
}
use oppy_bridge.Common.Int.{ℤ}
use oppy_bridge.Common.Outcome.{Outcome, done, Ensures, Ensures-map}
use oppy_bridge.Config.{req_cache_size}
use oppy_bridge.External.{Bytes, Env}
use oppy_bridge.RetryPool.Max.{IsValid, requests, add_item_appends, pop_item_max}
use oppy_bridge.Pubchain.State.{
  InboundReq, PubChainInstance, set_item_height, inbound_hash, add_inbound_item, pop_inbound_item,
  send_inbound,
}
use oppy_bridge.Bridge.JoltBlock.{retry_inbound}
use oppy_bridge.Bridge.Kept.{one_mint, count, count-append, count_added, count_middle}

module _ (tx_id : Bytes) where
  -- The requests for the transaction that an instance of the public chain has.
  abbrev pub waiting_mints : PubChainInstance → ℕ
  waiting_mints pi =
      count (one_mint tx_id) pi.inbound_req_chan
      + count (one_mint tx_id) (requests pi.retry_inbound_req.entries)

  pub mint_added :
      (env : Env) (item : InboundReq) (pi : PubChainInstance)
      → IsValid pi.retry_inbound_req
      → waiting_mints (add_inbound_item env item pi) ≡ one_mint tx_id item + waiting_mints pi
  unfolding add_inbound_item
  mint_added env item pi v =
      let entry =
        ap (λ e. count (one_mint tx_id) (requests e))
          (add_item_appends (inbound_hash env item) item pi.retry_inbound_req v).0
        ∙ count_added (one_mint tx_id) pi.retry_inbound_req.entries
            pi.retry_inbound_req.next_pointer (inbound_hash env item) item in
      omega (arith, entry)

  -- The instance has that many, in a pool whose keys are distinct.
  abbrev pub Has : ℕ → PubChainInstance → Type 0
  Has n pi = (n ≤ waiting_mints pi) × IsValid pi.retry_inbound_req

  pub added-Has :
      (n : ℕ) (env : Env) (item : InboundReq) (pi : PubChainInstance)
      → Has n pi
      → Has n (add_inbound_item env item pi)
  unfolding add_inbound_item
  added-Has n env item pi (h, v) = (
    omega (arith, h, mint_added env item pi v),
    (add_item_appends (inbound_hash env item) item pi.retry_inbound_req v).2,
  )

  sent :
      (n : ℕ) (item : InboundReq) (pi : PubChainInstance)
      → n ≤ one_mint tx_id item + waiting_mints pi
      → Ensures
          (λ pi'. (n ≤ waiting_mints pi') × (pi'.retry_inbound_req ≡ pi.retry_inbound_req))
          (send_inbound item pi)
  unfolding send_inbound
  sent n item pi h = elim (Bool-cases (ltb (length pi.inbound_req_chan) req_cache_size)) [
    | inr full ↦ rw (full, send_inbound) tt
    | inl room ↦
        rw (room, send_inbound)
          (omega (arith, h, count-append (one_mint tx_id) pi.inbound_req_chan (item ∷ [])), refl)
  ]

  pub sent-Has :
      (n : ℕ) (item : InboundReq) (pi : PubChainInstance)
      → Has n pi
      → Ensures (Has n) (send_inbound item pi)
  sent-Has n item pi (h, v) =
      Ensures-map _ (Has n) (send_inbound item pi) (λ pi' o. (o.0, subst IsValid (sym o.1) v))
        (sent n item pi (omega (arith, h)))

  -- A retry moves one request from the pool to the channel.
  pub retry-waiting_mints :
      (n : ℕ) (height : ℤ) (pi : PubChainInstance)
      → Has n pi
      → Ensures (λ pi'. n ≤ waiting_mints pi') (retry_inbound height pi)
  unfolding retry_inbound pop_inbound_item
  retry-waiting_mints n height pi (h, v) = elim (pop_item_max pi.retry_inbound_req v) [
    | inl (e, _) ↦ rw (e, retry_inbound, pop_inbound_item) h
    | inr (ys, pointer, key, req, zs, at, e, _, _) ↦
        let popped = record pi {
          retry_inbound_req = record pi.retry_inbound_req { entries = ys ++ zs };
        } in
        let item = set_item_height height req in
        let moved : n ≤ one_mint tx_id item + waiting_mints popped = omega (
          arith,
          h,
          ap (λ l. count (one_mint tx_id) (requests l)) at,
          count_middle (one_mint tx_id) ys zs pointer key req,
        ) in
        rw (e, retry_inbound, pop_inbound_item)
          (Ensures-map _ (λ pi'. n ≤ waiting_mints pi') (send_inbound item popped) (λ pi' o. o.0)
            (sent n item popped moved))
  ]
