-- ===== src/MoveFundQueue.antt =====
-- moveFundReq (pubchain/tx_inbound.go, joltifybridge/types.go): the retired pools whose funds are to be
-- moved, by the height at which they were put in.
pub mod Min
pub mod Keeps
pub mod Order
use oppy_bridge.Common.{
  Bool, true, false, ◌&&◌, Option, none, some, [], ◌∷◌, arith, if◌then◌else◌, Key, nat_key,
  string_key, bytes_key,
}
use oppy_bridge.Common.Int.{ℤ, pos, sub64, leb_ℤ, ltb_ℤ, max_int64, int_key}
use oppy_bridge.Common.Outcome.{Outcome, done, panics}
use oppy_bridge.SyncMap.{SyncMap, load, store, delete}
use oppy_bridge.Config.{min_check_block_gap}

module _ {ℓ} {P : Type ℓ} where
  -- AddMoveFundItem: an entry at the same height is overwritten.
  unfoldable pub add_move_fund_item : P → ℤ → SyncMap ℤ P → SyncMap ℤ P
  add_move_fund_item pool height m = store height pool m

  -- The loop over the entries: the least height so far.
  unfoldable pub range_min : ℤ → SyncMap ℤ P → ℤ
  range_min min [] = min
  range_min min ((h, _) ∷ m) = range_min (if leb_ℤ h min then h else min) m

  -- LoadAndDelete at the least height, where the test passed; the type assertion panics on a nil.
  unfoldable pub pop_at : Bool → ℤ → SyncMap ℤ P → Outcome (Option (P × ℤ) × SyncMap ℤ P)
  pop_at false min m = done (none, m)
  pop_at true min m = elim (load min m) [
    | none ↦ panics
    | some pool ↦ done (some (pool, min), delete min m)
  ]

  -- PopMoveFundItem; `none` is the result nil, 0.
  unfoldable pub pop_move_fund_item : SyncMap ℤ P → Outcome (Option (P × ℤ) × SyncMap ℤ P)
  unfolding pop_at
  pop_move_fund_item m = let min = range_min max_int64 m in pop_at (ltb_ℤ min max_int64) min m

  -- PopMoveFundItemAfterBlock: only if more than MINCHECKBLOCKGAP blocks have passed.
  unfoldable pub pop_move_fund_item_after_block :
      ℤ → SyncMap ℤ P → Outcome (Option (P × ℤ) × SyncMap ℤ P)
  unfolding pop_at
  pop_move_fund_item_after_block current m =
      let min = range_min max_int64 m in
      pop_at (ltb_ℤ min max_int64 && ltb_ℤ min_check_block_gap (sub64 current min)) min m
