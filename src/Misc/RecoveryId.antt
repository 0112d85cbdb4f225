-- ===== src/Misc/RecoveryId.antt =====
-- misc/helper.go: the recovery id, 0 or 1, from the v of a transaction's signature.
use oppy_bridge.Common.{
  ℕ, ◌+◌, ◌*◌, ◌%◌, ◌^◌, ◌<◌, ◌≡◌, Bool, true, not, ◌&&◌, ◌||◌, arith, if◌then◌else◌, ltb, ◌==◌,
  nat_key,
}
use oppy_bridge.Common.Int.{sub_u64}
use oppy_bridge.Misc.BigInt.{uint64}

-- BitLen() ≤ 8 says that v is below 256.
unfoldable pub is_protected_v : ℕ → Bool
is_protected_v v =
    if ltb v 256
    then not (uint64 v == 27) && not (uint64 v == 28) && not (uint64 v == 1) && not (uint64 v == 0)
    else true

-- The subtractions wrap on uint64.
unfoldable pub recover_rec_id : ℕ → ℕ → ℕ
unfolding is_protected_v sub_u64
recover_rec_id chain_id v =
    if uint64 v == 0 || uint64 v == 1
    then v
    else if is_protected_v v
    then sub_u64 (sub_u64 (uint64 v) 35) (2 * chain_id % 2 ^ 64)
    else sub_u64 (uint64 v) 27

-- A signature after EIP-155 has v = 35 + 2 * chain id + recovery id, and one before it has
-- v = 27 + recovery id or the recovery id itself: the id comes back from each form, for every chain
-- id that keeps the first form's v in 64 bits.
pub recover_rec_id_forms :
    (chain_id rec : ℕ)
    → 36 + 2 * chain_id < 2 ^ 64
    → rec < 2
    → (recover_rec_id chain_id (35 + 2 * chain_id + rec) ≡ rec)
      × (recover_rec_id chain_id (27 + rec) ≡ rec)
      × (recover_rec_id chain_id rec ≡ rec)
unfolding recover_rec_id
recover_rec_id_forms chain_id rec fits small = (ground arith, ground arith, ground arith)
