-- ===== src/Bridge/Kept/Retries.antt =====
-- joltifybridge/types.go: what AddItem and PopItem of RetryOutboundReq do to the requests for one transaction.
use oppy_bridge.Common.{
  ℕ, ◌+◌, ◌≡◌, refl, ap, ◌∙◌, inl, inr, [], ◌∷◌, ◌++◌, arith, ltb, nat_key, string_key, bytes_key,
  Bool-cases, length,
}
use oppy_bridge.Common.Outcome.{Ensures}
use oppy_bridge.Common.Int.{int64_of}
use oppy_bridge.Config.{req_cache_size}
use oppy_bridge.External.{Bytes, Env}
use oppy_bridge.RetryPool.Max.{IsValid, requests, add_item_appends, pop_item_max}
use oppy_bridge.Joltify.State.{
  OutBoundReq, JoltifyChainInstance, set_outbound_height, outbound_hash, add_outbound_item,
  pop_outbound_item, send_outbound,
}
use oppy_bridge.Bridge.PubBlock.{retry_outbound}
use oppy_bridge.Bridge.Kept.{one, count, count-append, count_added, count_middle}

module _ (tx_id : Bytes) where
  -- The requests for the transaction that an instance of the joltify chain has.
  abbrev pub waiting : JoltifyChainInstance → ℕ
  waiting jc =
      count (one tx_id) jc.outbound_req_chan
      + count (one tx_id) (requests jc.retry_outbound_req.entries)

  pub added :
      (env : Env) (item : OutBoundReq) (jc : JoltifyChainInstance)
      → IsValid jc.retry_outbound_req
      → count (one tx_id) (requests (add_outbound_item env item jc).retry_outbound_req.entries)
        ≡ one tx_id item + count (one tx_id) (requests jc.retry_outbound_req.entries)
  unfolding add_outbound_item
  added env item jc v =
      ap (λ e. count (one tx_id) (requests e))
        (add_item_appends (outbound_hash env item) item jc.retry_outbound_req v).0
      ∙ count_added (one tx_id) jc.retry_outbound_req.entries jc.retry_outbound_req.next_pointer
          (outbound_hash env item) item

  sent :
      (n : ℕ) (item : OutBoundReq) (jc : JoltifyChainInstance)
      → n ≡ one tx_id item + waiting jc
      → Ensures (λ jc'. n ≡ waiting jc') (send_outbound item jc)
  unfolding send_outbound
  sent n item jc e = elim (Bool-cases (ltb (length jc.outbound_req_chan) req_cache_size)) [
    | inr full ↦ rw (full, send_outbound) tt
    | inl room ↦
        rw (room, send_outbound)
          (omega (arith, e, count-append (one tx_id) jc.outbound_req_chan (item ∷ [])))
  ]

  -- A retry moves one request from the pool to the channel.
  pub retry_waiting :
      (number : ℕ) (jc : JoltifyChainInstance)
      → IsValid jc.retry_outbound_req
      → Ensures (λ jc'. waiting jc ≡ waiting jc') (retry_outbound number jc)
  unfolding retry_outbound pop_outbound_item
  retry_waiting number jc v = elim (pop_item_max jc.retry_outbound_req v) [
    | inl (e, _) ↦ rw (e, retry_outbound, pop_outbound_item) refl
    | inr (ys, pointer, h, req, zs, at, e, _, _) ↦
        rw (e, retry_outbound, pop_outbound_item)
          (sent (waiting jc) (set_outbound_height (int64_of number) req)
            (record jc { retry_outbound_req = record jc.retry_outbound_req { entries = ys ++ zs } })
            (omega (
              arith,
              ap (λ l. count (one tx_id) (requests l)) at,
              count_middle (one tx_id) ys zs pointer h req,
            )))
  ]
