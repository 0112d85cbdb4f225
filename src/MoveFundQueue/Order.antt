-- ===== src/MoveFundQueue/Order.antt =====
-- pubchain/tx_inbound.go, joltifybridge/types.go: the pops of the move-fund queue do not depend on the
-- order in which Range visits the entries.
use oppy_bridge.Common.{
  ◌≡◌, refl, sym, ap, ◌∙◌, subst, inl, inr, Bool, true, false, ◌&&◌, Option, none, some, [], ◌∷◌,
  ◌++◌, arith, ◌==◌, nat_key, string_key, bytes_key, Bool-cases, Option-cases, beq_refl, All,
}
use oppy_bridge.Common.Int.{ℤ, sub64, ltb_ℤ, max_int64, int_key, pos, negsuc, ◌≤ℤ◌}
use oppy_bridge.Common.Outcome.{Outcome, done, panics}
use oppy_bridge.SyncMap.{SyncMap, load, delete, load-delete}
use oppy_bridge.MoveFundQueue.{
  range_min, pop_at, pop_move_fund_item, pop_move_fund_item_after_block,
}
use oppy_bridge.MoveFundQueue.Min.{Ends, range_min-Ends}

le_antisym : (a b : ℤ) → a ≤ℤ b → b ≤ℤ a → a ≡ b
le_antisym (pos a) (pos b) le ge = ap pos (omega arith)
le_antisym (pos a) (negsuc b) le ge = absurd (omega arith)
le_antisym (negsuc a) (pos b) le ge = absurd (omega arith)
le_antisym (negsuc a) (negsuc b) le ge = ap negsuc (omega arith)

module _ {ℓ} {P : Type ℓ} where
  -- Two lists of entries are the same map: Load gives the same at every height.
  abbrev pub SameMap : SyncMap ℤ P → SyncMap ℤ P → Type ℓ
  SameMap m m' = (h : ℤ) → load h m ≡ load h m'

  -- Two calls return the same, up to the order of the entries that are left.
  pub data SameOut
      : Outcome (Option (P × ℤ) × SyncMap ℤ P)
        → Outcome (Option (P × ℤ) × SyncMap ℤ P)
        → Type ℓ where
    both_done :
        (popped : Option (P × ℤ)) (m m' : SyncMap ℤ P)
        → SameMap m m'
        → SameOut (done (popped, m)) (done (popped, m'))
    both_panic : SameOut panics panics

  entry_loads :
      (h : ℤ) (q : P) (ys zs : SyncMap ℤ P) → (v : P) × (load h (ys ++ (h, q) ∷ zs) ≡ some v)
  unfolding load
  entry_loads h q [] zs = (q, rw (beq_refl h) refl)
  entry_loads h q ((j, w) ∷ ys) zs = elim (Bool-cases (j == h)) [
    | inl same ↦ (w, rw same refl)
    | inr other ↦ let (v, e) = entry_loads h q ys zs in (v, rw other e)
  ]

  load-All :
      (min h : ℤ) (v : P) (m : SyncMap ℤ P) → All (λ e. min ≤ℤ e.0) m → load h m ≡ some v → min ≤ℤ h
  unfolding load
  load-All min h v [] all e = absurd (ground arith)
  load-All min h v ((j, w) ∷ m) all e = elim (Bool-cases (j == h)) [
    | inl same ↦ subst (λ x. min ≤ℤ x) ((int_key.same_iff j h).0 same) all.0
    | inr other ↦ load-All min h v m all.1 (ground (arith, other, e))
  ]

  least :
      (m m' : SyncMap ℤ P) (a b : ℤ)
      → SameMap m m'
      → Ends max_int64 m a
      → Ends max_int64 m' b
      → a ≤ℤ b
  least m m' a b same (le, all, _) (_, _, inl e) = subst (λ x. a ≤ℤ x) (sym e) le
  least m m' a b same (le, all, _) (_, _, inr (ys, q, zs, e)) =
      let (v, found) = entry_loads b q ys zs in
      load-All a b v m all (same b ∙ ap (load b) e ∙ found)

  range_min_same :
      (m m' : SyncMap ℤ P) → SameMap m m' → range_min max_int64 m ≡ range_min max_int64 m'
  range_min_same m m' same =
      let a = range_min-Ends max_int64 m in
      let b = range_min-Ends max_int64 m' in
      le_antisym (range_min max_int64 m) (range_min max_int64 m')
        (least m m' (range_min max_int64 m) (range_min max_int64 m') same a b)
        (least m' m (range_min max_int64 m') (range_min max_int64 m) (λ h. sym (same h)) b a)

  delete_same : (h : ℤ) (m m' : SyncMap ℤ P) → SameMap m m' → SameMap (delete h m) (delete h m')
  delete_same h m m' same k = rw (load-delete h k m, load-delete h k m', same k) refl

  pop_at_same :
      (t : Bool) (h : ℤ) (m m' : SyncMap ℤ P)
      → SameMap m m'
      → SameOut (pop_at t h m) (pop_at t h m')
  unfolding pop_at
  pop_at_same false h m m' same = SameOut.both_done none m m' same
  pop_at_same true h m m' same = elim (Option-cases (load h m)) [
    | inl n ↦ rw (n, sym (same h) ∙ n, pop_at) SameOut.both_panic
    | inr (v, e) ↦
        rw (e, sym (same h) ∙ e, pop_at)
          (SameOut.both_done (some (v, h)) (delete h m) (delete h m') (delete_same h m m' same))
  ]

  -- Let two lists of entries, in whatever order, be the same map: Load gives the same at every height.
  -- Then both pops of the move-fund queue, the second at any height, take out the same pool at the same
  -- height of the one and of the other, or nil of both, and what they leave is the same map again.
  pub pops_same :
      (current : ℤ) (m m' : SyncMap ℤ P)
      → SameMap m m'
      → SameOut (pop_move_fund_item m) (pop_move_fund_item m')
        × SameOut
            (pop_move_fund_item_after_block current m)
            (pop_move_fund_item_after_block current m')
  unfolding pop_move_fund_item pop_move_fund_item_after_block
  pops_same current m m' same =
      let min = range_min max_int64 m in
      let least_same = range_min_same m m' same in
      (
        subst (λ h. SameOut (pop_move_fund_item m) (pop_at (ltb_ℤ h max_int64) h m')) least_same
            (pop_at_same (ltb_ℤ min max_int64) min m m' same),
        subst
            (λ h.
              SameOut (pop_move_fund_item_after_block current m)
                (pop_at (ltb_ℤ h max_int64 && ltb_ℤ (pos 6) (sub64 current h)) h m'))
            least_same
            (pop_at_same (ltb_ℤ min max_int64 && ltb_ℤ (pos 6) (sub64 current min)) min m m' same),
      )
