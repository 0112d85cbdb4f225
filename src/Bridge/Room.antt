-- ===== src/Bridge/Room.antt =====
-- bridge/joltifyBridge.go: the two sends by which the loop could block itself, and what stays open.
pub mod OnJoltBlock
pub mod OnPubBlock
pub mod OnRequests
use oppy_bridge.Common.{
  ℕ, ◌≡◌, refl, sym, ap, ◌∙◌, inl, inr, Bool, true, false, Option, none, some, List, [], ◌∷◌, ◌++◌,
  arith, ltb, leb, ◌<◌, if◌then◌else◌, ◌==◌, ◌&&◌, length, Bool-cases, Option-cases, nat_key,
}
use oppy_bridge.Common.Int.{ℤ, int_key, sub64, ltb_ℤ, max_int64}
use oppy_bridge.Common.Outcome.{Outcome, done, panics, blocked, ◌>>=◌, Safe, Returns}
use oppy_bridge.Config.{req_cache_size, min_check_block_gap}
use oppy_bridge.SyncMap.{SyncMap, load, delete}
use oppy_bridge.RetryPool
use oppy_bridge.RetryPool.{RetryPool}
use oppy_bridge.MoveFundQueue

-- The call does not block.
abbrev pub Open {ℓ} : {A : Type ℓ} → Outcome A → Type 0
Open (done a) = Unit {0}
Open panics = Unit {0}
Open blocked = ⊥

pub Open-bind {ℓ κ} :
    {A : Type ℓ} {B : Type κ} (out : Outcome A) (f : A → Outcome B)
    → Open out
    → ((a : A) → out ≡ done a → Open (f a))
    → Open (out >>= f)
Open-bind (done a) f o g = g a refl
Open-bind panics f o g = tt
Open-bind blocked f o g = absurd o

pub Returns-Open {ℓ} : {A : Type ℓ} (out : Outcome A) → Returns out → Open out
Returns-Open (done a) r = tt
Returns-Open panics r = tt
Returns-Open blocked r = absurd r

-- A call that neither panics nor blocks returns.
pub Safe-Open {ℓ} :
    {A : Type ℓ} (P : A → Type 0) (out : Outcome A)
    → Safe P out
    → Open out
    → (a : A) × (out ≡ done a) × P a
Safe-Open P (done a) s o = (a, refl, s)
Safe-Open P panics s o = absurd s
Safe-Open P blocked s o = absurd o

module _ {ℓ} {R : Type ℓ} where
  pop_at-Open : (best : ℕ × ℕ) (p : RetryPool R) → Open (RetryPool.pop_at best p)
  unfolding RetryPool.pop_at
  pop_at-Open (pointer, max) p = elim (Bool-cases (ltb 0 max)) [
    | inr nothing ↦ rw (nothing, RetryPool.pop_at) tt
    | inl some' ↦ elim (Option-cases (load pointer p.entries)) [
      | inl absent ↦ rw (some', absent, RetryPool.pop_at) tt
      | inr (v, found) ↦ rw (some', found, RetryPool.pop_at) tt
    ]
  ]

  pub pop_item-Open : (p : RetryPool R) → Open (RetryPool.pop_item p)
  unfolding RetryPool.pop_item
  pop_item-Open p = pop_at-Open (RetryPool.range_max (0, 0) p.entries) p

module _ {ℓ} {P : Type ℓ} where
  move_at-Open : (t : Bool) (min : ℤ) (m : SyncMap ℤ P) → Open (MoveFundQueue.pop_at t min m)
  unfolding MoveFundQueue.pop_at
  move_at-Open false min m = tt
  move_at-Open true min m = elim (Option-cases (load min m)) [
    | inl absent ↦ rw (absent, MoveFundQueue.pop_at) tt
    | inr (v, found) ↦ rw (found, MoveFundQueue.pop_at) tt
  ]

  pub pop_after_block-Open :
      (current : ℤ) (m : SyncMap ℤ P)
      → Open (MoveFundQueue.pop_move_fund_item_after_block current m)
  unfolding MoveFundQueue.pop_move_fund_item_after_block
  pop_after_block-Open current m =
      let min = MoveFundQueue.range_min max_int64 m in
      move_at-Open (ltb_ℤ min max_int64 && ltb_ℤ min_check_block_gap (sub64 current min)) min m
