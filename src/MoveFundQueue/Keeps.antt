-- ===== src/MoveFundQueue/Keeps.antt =====
-- What the move-fund queue keeps: its heights stay distinct, so that a pop finds the entry it looks for.
use oppy_bridge.Common.{
  ap₂, middle_ne, ◌≡◌, sym, ap, ◌∙◌, subst, ◌≢◌, ◌⊎◌, inl, inr, ◌&&◌, Option, none, some, [], ◌++◌,
  nat_key, string_key, bytes_key, Bool-cases,
}
use oppy_bridge.Common.Int.{ℤ, sub64, ltb_ℤ, max_int64, int_key, pos}
use oppy_bridge.Common.Outcome.{Outcome, done}
use oppy_bridge.SyncMap.{SyncMap, delete}
use oppy_bridge.SyncMap.Distinct.{IsDistinct, delete_middle, delete-IsDistinct, store-IsDistinct}
use oppy_bridge.MoveFundQueue.{
  pop_at, pop_move_fund_item_after_block, range_min, add_move_fund_item,
}
use oppy_bridge.MoveFundQueue.Min.{pop_at-true, pop_at-false, range_min-Ends}

module _ {ℓ} {P : Type ℓ} where
  -- A pop leaves the queue, or takes an entry out and leaves distinct heights.
  abbrev pub PopKeeps : SyncMap ℤ P → Outcome (Option (P × ℤ) × SyncMap ℤ P) → Type ℓ
  PopKeeps m out =
      (out ≡ done (none, m))
      ⊎ ((e : P × ℤ) × (m' : SyncMap ℤ P) × (out ≡ done (some e, m')) × IsDistinct m' × (m ≢ []))

  pub pop-IsDistinct :
      (current : ℤ) (m : SyncMap ℤ P)
      → IsDistinct m
      → PopKeeps m (pop_move_fund_item_after_block current m)
  unfolding pop_move_fund_item_after_block
  pop-IsDistinct current m d =
      let min = range_min max_int64 m in
      elim (Bool-cases (ltb_ℤ min max_int64)) [
        | inr f ↦
            inl (
              ap (λ b. pop_at (b && ltb_ℤ (pos 6) (sub64 current min)) min m) f
              ∙ pop_at-false m min)
        | inl t ↦ elim (Bool-cases (ltb_ℤ (pos 6) (sub64 current min))) [
          | inr fresh ↦ inl (ap₂ (λ a b. pop_at (a && b) min m) t fresh ∙ pop_at-false m min)
          | inl old ↦
              let (q, ys, zs, e, out, all) = pop_at-true m min d (range_min-Ends max_int64 m) t in
              inr (
                (q, min),
                ys ++ zs,
                ap₂ (λ a b. pop_at (a && b) min m) t old ∙ out,
                subst IsDistinct
                    (ap (delete min) e ∙ delete_middle min q ys zs (subst IsDistinct e d))
                    (delete-IsDistinct min m d),
                λ n. middle_ne ys _ zs (sym e ∙ n),
              )
        ]
      ]

  pub add-IsDistinct :
      (p : P) (h : ℤ) (m : SyncMap ℤ P) → IsDistinct m → IsDistinct (add_move_fund_item p h m)
  unfolding add_move_fund_item
  add-IsDistinct p h m d = store-IsDistinct h p m d
