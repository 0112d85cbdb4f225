-- ===== src/Bridge/Kept.antt =====
-- bridge/joltifyBridge.go: where a request may be between two events: in its channel, in its retry pool, or
-- with a goroutine that waits for its transaction.
pub mod OnJoltBlock
pub mod Retries
pub mod OnTransfers
pub mod OnInbound
pub mod OnRequests
pub mod OnBlocks
pub mod Mints
use mathlib.Core.List.{append-nil}
use oppy_bridge.Common.{
  ℕ, zero, suc, ◌+◌, ◌-◌, ◌*◌, ◌/◌, ◌%◌, ◌^◌, ◌≤◌, ◌<◌, String, ◌≡◌, refl, sym, ap, ◌∙◌, subst, ◌≢◌,
  ◌↔◌, ◌⊎◌, inl, inr, Bool, true, false, not, ◌&&◌, ◌||◌, Option, none, some, List, [], ◌∷◌, ◌++◌,
  map, arith, ltb, leb, nat_beq, if◌then◌else◌, Key, ◌==◌, nat_key, string_key, bytes_key,
  Bool-cases, Option-cases, beq_refl, beq-ne, length, take, drop, replicate, All, length-append,
}
use oppy_bridge.External.{Bytes}
use oppy_bridge.SyncMap.{SyncMap}
use oppy_bridge.RetryPool.{RetryPool}
use oppy_bridge.RetryPool.Max.{requests}
use oppy_bridge.Pubchain.State.{InboundReq}
use oppy_bridge.Joltify.State.{OutBoundReq}
use oppy_bridge.Bridge.{Bridge}

module _ {R : Type 0} (one : R → ℕ) where
  -- How many requests of a list count.
  abbrev pub count : List R → ℕ
  count [] = 0
  count (r ∷ l) = one r + count l

  pub count-append : (xs ys : List R) → count (xs ++ ys) ≡ count xs + count ys
  count-append [] ys = omega arith
  count-append (x ∷ xs) ys = omega (arith, count-append xs ys)

requests-append :
    {R : Type 0} (xs ys : SyncMap ℕ (ℕ × R)) → requests (xs ++ ys) ≡ requests xs ++ requests ys
requests-append [] ys = refl
requests-append ((p, (h, r)) ∷ xs) ys = ap (◌∷◌ r) (requests-append xs ys)

-- The requests that goroutines wait for.
abbrev pub checked_requests : {R C : Type 0} → List (R × C) → List R
checked_requests [] = []
checked_requests ((r, _) ∷ l) = r ∷ checked_requests l

checked-append :
    {R C : Type 0} (xs ys : List (R × C))
    → checked_requests (xs ++ ys) ≡ checked_requests xs ++ checked_requests ys
checked-append [] ys = refl
checked-append ((r, h) ∷ xs) ys = ap (◌∷◌ r) (checked-append xs ys)

module _ {R : Type 0} (one : R → ℕ) where
  count_among : (xs ys : List R) (r : R) → count one (xs ++ r ∷ ys) ≡ one r + count one (xs ++ ys)
  count_among [] ys r = refl
  count_among (x ∷ xs) ys r = omega (arith, count_among xs ys r)

  pub count_middle :
      (ys zs : SyncMap ℕ (ℕ × R)) (p h : ℕ) (r : R)
      → count one (requests (ys ++ (p, (h, r)) ∷ zs)) ≡ one r + count one (requests (ys ++ zs))
  count_middle ys zs p h r =
      ap (count one) (requests-append ys ((p, (h, r)) ∷ zs))
      ∙ count_among (requests ys) (requests zs) r
      ∙ ap (λ l. one r + count one l) (sym (requests-append ys zs))

  pub count_added :
      (e : SyncMap ℕ (ℕ × R)) (p h : ℕ) (r : R)
      → count one (requests (e ++ (p, (h, r)) ∷ [])) ≡ one r + count one (requests e)
  count_added e p h r =
      count_middle e [] p h r ∙ ap (λ l. one r + count one (requests l)) (append-nil e)

  pub count_checked :
      {C : Type 0} (before after : List (R × C)) (r : R) (c : C)
      → count one (checked_requests (before ++ (r, c) ∷ after))
        ≡ one r + count one (checked_requests (before ++ after))
  count_checked before after r c =
      ap (count one) (checked-append before ((r, c) ∷ after))
      ∙ count_among (checked_requests before) (checked_requests after) r
      ∙ ap (λ l. one r + count one l) (sym (checked-append before after))

  pub count_started :
      {C : Type 0} (checks : List (R × C)) (r : R) (c : C)
      → count one (checked_requests (checks ++ (r, c) ∷ []))
        ≡ one r + count one (checked_requests checks)
  count_started checks r c =
      count_checked checks [] r c
      ∙ ap (λ l. one r + count one (checked_requests l)) (append-nil checks)

  -- The requests of one direction that count, in the three places.
  abbrev pub held_in : {C : Type 0} → List R → RetryPool R → List (R × C) → ℕ
  held_in chan retries checks =
      count one chan + count one (requests retries.entries) + count one (checked_requests checks)

-- Whether a transfer to the public chain is for the transaction, as a number.
abbrev pub one : Bytes → OutBoundReq → ℕ
one tx_id r = if r.tx_id == tx_id then 1 else 0

-- Whether a request to mint is for the transaction, as a number.
abbrev pub one_mint : Bytes → InboundReq → ℕ
one_mint tx_id r = if r.tx_id == tx_id then 1 else 0

-- The transfers of a bridge for a transaction of the joltify chain.
abbrev pub held : Bytes → Bridge → ℕ
held tx_id b =
    held_in (one tx_id) b.jolt_chain.outbound_req_chan b.jolt_chain.retry_outbound_req
      b.outbound_checks

-- The requests to mint of a bridge for a transaction of the public chain.
abbrev pub held_mints : Bytes → Bridge → ℕ
held_mints tx_id b =
    held_in (one_mint tx_id) b.pi.inbound_req_chan b.pi.retry_inbound_req b.inbound_checks

-- A statement on the places of both directions.
abbrev pub Places : Type 1
Places =
    List InboundReq
    → RetryPool InboundReq
    → List (InboundReq × Option ℕ)
    → List OutBoundReq
    → RetryPool OutBoundReq
    → List (OutBoundReq × Bytes)
    → Type 0

abbrev pub At : Places → Bridge → Type 0
At Q b =
    Q b.pi.inbound_req_chan b.pi.retry_inbound_req b.inbound_checks b.jolt_chain.outbound_req_chan
      b.jolt_chain.retry_outbound_req b.outbound_checks
