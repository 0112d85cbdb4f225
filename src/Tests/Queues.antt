-- ===== src/Tests/Queues.antt =====
-- The retry pool and the move-fund queue at concrete inputs.
use oppy_bridge.Common.{
  ℕ, ◌+◌, ◌≤◌, ◌<◌, ◌≡◌, ◌⊎◌, none, some, [], ◌∷◌, ◌++◌, arith, nat_key, string_key, bytes_key, All,
}
use oppy_bridge.Common.Int.{ℤ, pos, ◌+ℤ◌, ◌≤ℤ◌, max_int64, int_key}
use oppy_bridge.Common.Outcome.{done}
use oppy_bridge.SyncMap.{SyncMap}
use oppy_bridge.RetryPool.{RetryPool, add_item, pop_item, size}
use oppy_bridge.RetryPool.Max.{IsValid, add_item_appends, pop_item_max}
use oppy_bridge.MoveFundQueue.{pop_move_fund_item, pop_move_fund_item_after_block}
use oppy_bridge.MoveFundQueue.Order.{SameMap, SameOut, pops_same}
use oppy_bridge.SyncMap.{load}
use oppy_bridge.MoveFundQueue.Min.{Pops, pop_move_fund_item_min, pop_after_block_min}

-- Two requests, with keys 5 and 9.
abbrev pool : RetryPool ℕ
pool = record { next_pointer = 2; entries = (0, (5, 50)) ∷ (1, (9, 90)) ∷ [] }

pool-IsValid : IsValid pool
pool-IsValid = omega arith

add_item_appends_example :
    ((add_item 9 90 pool).entries ≡ pool.entries ++ (2, (9, 90)) ∷ [])
    × (size (add_item 9 90 pool) ≡ size pool + 1)
    × IsValid (add_item 9 90 pool)
add_item_appends_example = add_item_appends 9 90 pool pool-IsValid

pop_item_max_example :
    ((pop_item pool ≡ done (none, pool)) × All (λ e. e.1.0 ≤ 0) pool.entries)
    ⊎ ((ys : SyncMap ℕ (ℕ × ℕ)) × (pointer : ℕ) × (h : ℕ) × (req : ℕ) × (zs : SyncMap ℕ (ℕ × ℕ))
        × (pool.entries ≡ ys ++ (pointer, (h, req)) ∷ zs)
        × (pop_item pool ≡ done (some req, record pool { entries = ys ++ zs }))
        × (0 < h)
        × All (λ e. e.1.0 ≤ h) pool.entries)
pop_item_max_example = pop_item_max pool pool-IsValid

abbrev queue : SyncMap ℤ ℕ
queue = (pos 8, 80) ∷ (pos 3, 30) ∷ []

pop_move_fund_item_min_example :
    ((pop_move_fund_item queue ≡ done (none, queue)) × All (λ e. max_int64 ≤ℤ e.0) queue)
    ⊎ Pops queue (pop_move_fund_item queue)
pop_move_fund_item_min_example = pop_move_fund_item_min queue (((λ e. ground arith), tt), (tt, tt))

pop_after_block_min_example :
    ((pop_move_fund_item_after_block (pos 10) queue ≡ done (none, queue))
      × All (λ e. pos 10 ≤ℤ e.0 +ℤ pos 6) queue)
    ⊎ ((h : ℤ) × (q : ℕ) × (ys : SyncMap ℤ ℕ) × (zs : SyncMap ℤ ℕ) × (queue ≡ ys ++ (h, q) ∷ zs)
        × (pop_move_fund_item_after_block (pos 10) queue ≡ done (some (q, h), ys ++ zs))
        × All (λ e. h ≤ℤ e.0) queue
        × (h +ℤ pos 7 ≤ℤ pos 10))
pop_after_block_min_example =
    pop_after_block_min (pos 10) queue (((λ e. ground arith), tt), (tt, tt)) (omega arith)
      (omega arith)

-- The same queue, whose entries Range visits the other way round.
abbrev turned : SyncMap ℤ ℕ
turned = (pos 3, 30) ∷ (pos 8, 80) ∷ []

both_ways : SameMap queue turned
unfolding load
both_ways h = ground (arith, int_key.same_iff (pos 8) h, int_key.same_iff (pos 3) h)

pops_same_example :
    SameOut (pop_move_fund_item queue) (pop_move_fund_item turned)
    × SameOut
        (pop_move_fund_item_after_block (pos 10) queue)
        (pop_move_fund_item_after_block (pos 10) turned)
pops_same_example = pops_same (pos 10) queue turned both_ways
