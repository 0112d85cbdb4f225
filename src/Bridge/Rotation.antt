-- ===== src/Bridge/Rotation.antt =====
-- bridge/joltifyBridge.go: how the two known pools follow the query, and when a retired pool's funds move.
use oppy_bridge.Common.{
  tests, ◌^◌, ◌≡◌, refl, sym, ap, ◌∙◌, subst, ◌⊎◌, inl, inr, true, false, none, some, [], ◌∷◌,
  arith, nat_key, string_key, bytes_key, Bool-cases, beq_refl,
}
use oppy_bridge.Common.Int.{
  ℤ, pos, int_key, ◌≤ℤ◌, ◌+ℤ◌, ◌-ℤ◌, +ℤ_parts, -ℤ_parts, sub64, add64, sub64_fits, add64_fits,
  eq_of_parts, ltb_ℤ, max_int64,
}
use oppy_bridge.Common.Outcome.{done}
use oppy_bridge.MoveFundQueue.{
  pop_move_fund_item_after_block, add_move_fund_item, range_min, pop_at,
}
use oppy_bridge.SyncMap.{store, load, delete}
use oppy_bridge.Bridge.JoltBlock.{move_height}

-- The heights at which blocks of a chain are.
abbrev pub IsBlockHeight : ℤ → Type 0
IsBlockHeight h = (pos 1 ≤ℤ h) × (h ≤ℤ pos (2 ^ 61))

pub move_height-before : (h : ℤ) → IsBlockHeight h → move_height h ≡ h -ℤ pos 1
move_height-before h b =
    let s =
      sub64_fits h (pos 6) (omega (arith, -ℤ_parts h (pos 6)), omega (arith, -ℤ_parts h (pos 6))) in
    let a = add64_fits (h -ℤ pos 6) (pos 5) (
      omega (arith, -ℤ_parts h (pos 6), +ℤ_parts (h -ℤ pos 6) (pos 5)),
      omega (arith, -ℤ_parts h (pos 6), +ℤ_parts (h -ℤ pos 6) (pos 5)),
    ) in
    ap (λ x. add64 x (pos 5)) s
    ∙ a
    ∙ eq_of_parts ((h -ℤ pos 6) +ℤ pos 5) (h -ℤ pos 1)
        (omega (arith, -ℤ_parts h (pos 6), +ℤ_parts (h -ℤ pos 6) (pos 5), -ℤ_parts h (pos 1)))

module _ {P : Type 0} (p : P) (k current : ℤ) (below : ltb_ℤ k max_int64 ≡ true) where
  alone_least : range_min max_int64 ((k, p) ∷ []) ≡ k
  unfolding range_min
  alone_least = ground arith

  alone_kept :
      ltb_ℤ (pos 6) (sub64 current k) ≡ false
      → pop_move_fund_item_after_block current ((k, p) ∷ []) ≡ done (none, (k, p) ∷ [])
  unfolding pop_move_fund_item_after_block pop_at
  alone_kept t = rw (pop_move_fund_item_after_block, alone_least, below, t) refl

  alone_deleted : delete k ((k, p) ∷ []) ≡ []
  unfolding delete
  alone_deleted = rw (delete, beq_refl k) refl

  alone_taken :
      ltb_ℤ (pos 6) (sub64 current k) ≡ true
      → pop_move_fund_item_after_block current ((k, p) ∷ []) ≡ done (some (p, k), [])
  unfolding pop_move_fund_item_after_block pop_at load delete
  alone_taken t =
      rw (pop_move_fund_item_after_block, alone_least, below, t, pop_at, beq_refl k)
        (ap (λ m. done (some (p, k), m)) alone_deleted)

-- A pool that is retired at height `h` goes into the queue at `h - 1`. Where the queue was empty, no
-- block up to `h + 5` takes it out, and every block after that does.
pub retired_waits :
    {P : Type 0} (p : P) (h current : ℤ)
    → IsBlockHeight h
    → IsBlockHeight current
    → ((current ≤ℤ h +ℤ pos 5)
        × (pop_move_fund_item_after_block current (add_move_fund_item p (move_height h) [])
            ≡ done (none, add_move_fund_item p (move_height h) [])))
      ⊎ ((h +ℤ pos 6 ≤ℤ current)
          × (pop_move_fund_item_after_block current (add_move_fund_item p (move_height h) [])
              ≡ done (some (p, h -ℤ pos 1), [])))
unfolding add_move_fund_item store
retired_waits p h current bh bc =
    let e = move_height-before h bh in
    let d = sub64_fits current (h -ℤ pos 1) (
      omega (arith, -ℤ_parts h (pos 1), -ℤ_parts current (h -ℤ pos 1)),
      omega (arith, -ℤ_parts h (pos 1), -ℤ_parts current (h -ℤ pos 1)),
    ) in
    elim (Bool-cases (ltb_ℤ (pos 6) (current -ℤ (h -ℤ pos 1)))) [
      | inr early ↦ inl (
        ground
            (arith, early, +ℤ_parts h (pos 5), -ℤ_parts h (pos 1), -ℤ_parts current (h -ℤ pos 1)),
        subst (λ k. pop_move_fund_item_after_block current ((k, p) ∷ []) ≡ done (none, (k, p) ∷ []))
            (sym e)
            (alone_kept p (h -ℤ pos 1) current (ground (arith, -ℤ_parts h (pos 1)))
              (ap (ltb_ℤ (pos 6)) d ∙ early)),
      )
      | inl late ↦ inr (
        omega (tests, late, +ℤ_parts h (pos 6), -ℤ_parts h (pos 1), -ℤ_parts current (h -ℤ pos 1)),
        ap (λ k. pop_move_fund_item_after_block current ((k, p) ∷ [])) e
            ∙ alone_taken p (h -ℤ pos 1) current (ground (arith, -ℤ_parts h (pos 1)))
                (ap (ltb_ℤ (pos 6)) d ∙ late),
      )
    ]
