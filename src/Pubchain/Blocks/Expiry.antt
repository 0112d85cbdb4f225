-- ===== src/Pubchain/Blocks/Expiry.antt =====
-- pubchain/tx_inbound.go: which transactions DeleteExpired takes out of a map.
use oppy_bridge.Common.{
  ap₂, ℕ, ◌+◌, ◌^◌, ◌≤◌, ◌<◌, ◌≡◌, refl, ap, ◌∙◌, subst, ◌≢◌, ◌↔◌, ◌⊎◌, inl, inr, Bool, true, false,
  ◌||◌, none, some, List, [], ◌∷◌, arith, if◌then◌else◌, ◌==◌, nat_key, string_key, bytes_key,
  Bool-cases, beq-ne, All,
}
use oppy_bridge.Common.Int.{sub_u64}
use oppy_bridge.External.{Bytes}
use oppy_bridge.SyncMap.{SyncMap, load, delete, load-delete}
use oppy_bridge.SyncMap.Distinct.{IsDistinct}
use oppy_bridge.Pubchain.State.{InboundTx, InboundTxBnb, PubChainInstance}
use oppy_bridge.Pubchain.Blocks.{is_expired, expired_keys, delete_keys, delete_expired}

-- An entry is deleted if it is more than 300 blocks old, and if it is above the current height: then the
-- difference wraps.
is_expired_age :
    (current height : ℕ)
    → current < 2 ^ 64
    → height < 2 ^ 64
    → (is_expired current height ≡ true)
      ↔ ((300 + height < current) ⊎ ((current < height) × (height + 300 < current + 2 ^ 64)))
unfolding sub_u64
is_expired_age current height hc hh = ground arith

abbrev contains : Bytes → List Bytes → Bool
contains k [] = false
contains k (j ∷ js) = j == k || contains k js

module _ {ℓ} {V : Type ℓ} where
  load-delete_keys :
      (k : Bytes) (ks : List Bytes) (m : SyncMap Bytes V)
      → load k (delete_keys ks m) ≡ (if contains k ks then none else load k m)
  unfolding delete_keys
  load-delete_keys k [] m = refl
  load-delete_keys k (j ∷ js) m =
      ground (arith, load-delete_keys k js (delete j m), load-delete j k m)

  module _ (height_of : V → ℕ) (current : ℕ) where
    contains-expired_absent :
        (k : Bytes) (m : SyncMap Bytes V)
        → All (λ e. e.0 ≢ k) m
        → contains k (expired_keys height_of current m) ≡ false
    unfolding expired_keys
    contains-expired_absent k [] h = refl
    contains-expired_absent k ((j, v) ∷ m) h =
        ground (arith, contains-expired_absent k m h.1, beq-ne j k h.0)

    -- Of an entry that the map has, its key is collected exactly when it is expired.
    contains-expired :
        (k : Bytes) (v : V) (m : SyncMap Bytes V)
        → IsDistinct m
        → load k m ≡ some v
        → contains k (expired_keys height_of current m) ≡ is_expired current (height_of v)
    unfolding expired_keys load
    contains-expired k v [] d l = cc
    contains-expired k v ((j, w) ∷ m) d l = elim (Bool-cases (j == k)) [
      | inl same ↦
          let e = (bytes_key.same_iff j k).0 same in
          let absent =
            contains-expired_absent k m (subst (λ i. All (λ (x : Bytes × V). x.0 ≢ i) m) e d.0) in
          ground (arith, absent, same)
      | inr other ↦ ground (arith, contains-expired k v m d.1, other)
    ]

    load-expired :
        (k : Bytes) (v : V) (m : SyncMap Bytes V)
        → IsDistinct m
        → load k m ≡ some v
        → load k (delete_keys (expired_keys height_of current m) m)
          ≡ (if is_expired current (height_of v) then none else some v)
    load-expired k v m d l =
        load-delete_keys k (expired_keys height_of current m) m
        ∙ ap₂ (λ b o. if b then none else o) (contains-expired k v m d l) l

    -- What a map that has the entry `k` of this height holds of it afterwards.
    abbrev pub Expires : Bytes → V → SyncMap Bytes V → SyncMap Bytes V → Type ℓ
    Expires k v m m' =
        (height_of v ≤ current → current ≤ height_of v + 300 → load k m' ≡ some v)
        × (300 + height_of v < current → load k m' ≡ none)
        × (current < height_of v → height_of v + 300 < current + 2 ^ 64 → load k m' ≡ none)

    Expires-load :
        (k : Bytes) (v : V) (m : SyncMap Bytes V)
        → IsDistinct m
        → load k m ≡ some v
        → current < 2 ^ 64
        → height_of v < 2 ^ 64
        → Expires k v m (delete_keys (expired_keys height_of current m) m)
    Expires-load k v m d l hc hv =
        let e = load-expired k v m d l in
        let age = is_expired_age current (height_of v) hc hv in
        (
          λ a b. ground (arith, e, age.0),
          λ a. e ∙ ap (λ b. if b then none else some v) (age.1 (inl a)),
          λ a b. e ∙ ap (λ b. if b then none else some v) (age.1 (inr (a, b))),
        )

-- DeleteExpired at a height, of a token that waits and of a fee that waits: what is at most 300 blocks old
-- stays, and what is older is deleted. What is above the current height, as after blocks of the chain
-- were replaced, is deleted too.
pub delete_expired_ages :
    (current : ℕ) (k j : Bytes) (tx : InboundTx) (bnb : InboundTxBnb) (pi : PubChainInstance)
    → current < 2 ^ 64
    → tx.pub_block_height < 2 ^ 64
    → bnb.block_height < 2 ^ 64
    → IsDistinct pi.pending_inbounds
    → IsDistinct pi.pending_inbounds_bnb
    → load k pi.pending_inbounds ≡ some tx
    → load j pi.pending_inbounds_bnb ≡ some bnb
    → let pi' = delete_expired current pi in
      Expires
        (λ (t : InboundTx). t.pub_block_height)
        current
        k
        tx
        pi.pending_inbounds
        pi'.pending_inbounds
      × Expires
          (λ (t : InboundTxBnb). t.block_height)
          current
          j
          bnb
          pi.pending_inbounds_bnb
          pi'.pending_inbounds_bnb
unfolding delete_expired
delete_expired_ages current k j tx bnb pi hc ht hb dp db lp lb = (
  Expires-load (λ (t : InboundTx). t.pub_block_height) current k tx pi.pending_inbounds dp lp hc ht,
  Expires-load (λ (t : InboundTxBnb). t.block_height) current j bnb pi.pending_inbounds_bnb db lb hc
      hb,
)
