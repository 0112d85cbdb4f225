-- ===== src/MoveFundQueue/Min.antt =====
-- What the two pops of the move-fund queue return, in whatever order Range visits the entries.
use oppy_bridge.Common.{
  ◌-◌, ◌^◌, ◌≡◌, refl, sym, ap, ◌∙◌, subst, ◌⊎◌, inl, inr, true, false, ◌&&◌, Option, none, some,
  [], ◌∷◌, ◌++◌, arith, if◌then◌else◌, nat_key, string_key, bytes_key, Bool-cases, All, ap₂, tests,
}
use oppy_bridge.Common.Int.{
  ℤ, pos, negsuc, sub64, sub64_fits, leb_ℤ, ltb_ℤ, max_int64, int_key, ◌≤ℤ◌, ◌-ℤ◌, ◌+ℤ◌, -ℤ_parts,
  +ℤ_parts,
}
use oppy_bridge.Common.Outcome.{Outcome, done}
use oppy_bridge.SyncMap.{SyncMap, load, delete}
use oppy_bridge.SyncMap.Distinct.{IsDistinct, load_middle, delete_middle, All-middle}
use oppy_bridge.MoveFundQueue.{
  range_min, pop_at, pop_move_fund_item, pop_move_fund_item_after_block,
}

-- The heights that a chain reaches: differences of two of them fit an int64.
abbrev pub IsHeight : ℤ → Type 0
IsHeight h = (negsuc (2 ^ 62 - 1) ≤ℤ h) × (h ≤ℤ pos (2 ^ 62 - 1))

pub sub64_height : (a b : ℤ) → IsHeight a → IsHeight b → sub64 a b ≡ a -ℤ b
sub64_height a b ha hb = sub64_fits a b (omega (arith, -ℤ_parts a b), omega (arith, -ℤ_parts a b))

is_old :
    (current min : ℤ)
    → IsHeight current
    → IsHeight min
    → ltb_ℤ (pos 6) (sub64 current min) ≡ true
    → min +ℤ pos 7 ≤ℤ current
is_old current min hc hm t =
    let t' : ltb_ℤ (pos 6) (current -ℤ min) ≡ true = rw (sub64_height current min hc hm) at t in
    omega (tests, -ℤ_parts current min, +ℤ_parts min (pos 7), t')

is_fresh :
    (current min : ℤ)
    → IsHeight current
    → IsHeight min
    → ltb_ℤ (pos 6) (sub64 current min) ≡ false
    → current ≤ℤ min +ℤ pos 6
is_fresh current min hc hm t =
    let t' : ltb_ℤ (pos 6) (current -ℤ min) ≡ false = rw (sub64_height current min hc hm) at t in
    ground (arith, -ℤ_parts current min, +ℤ_parts min (pos 6), t')

module _ {ℓ} {P : Type ℓ} where
  range_min_cons :
      (min h : ℤ) (q : P) (m : SyncMap ℤ P)
      → range_min min ((h, q) ∷ m) ≡ range_min (if leb_ℤ h min then h else min) m
  unfolding range_min
  range_min_cons min h q m = refl

  abbrev pub Found : SyncMap ℤ P → ℤ → Type ℓ
  Found m h = (ys : SyncMap ℤ P) × (q : P) × (zs : SyncMap ℤ P) × (m ≡ ys ++ (h, q) ∷ zs)

  -- The loop ends at a height that is at most every other one, and at an entry unless it found none
  -- below the value that it began with.
  abbrev pub Ends : ℤ → SyncMap ℤ P → ℤ → Type ℓ
  Ends min m out = (out ≤ℤ min) × All (λ e. out ≤ℤ e.0) m × ((out ≡ min) ⊎ (Found m out))

  Ends-cons :
      (min min' out h : ℤ) (q : P) (m : SyncMap ℤ P)
      → min' ≤ℤ min
      → min' ≤ℤ h
      → ((min' ≡ min) ⊎ (min' ≡ h))
      → Ends min' m out
      → Ends min ((h, q) ∷ m) out
  Ends-cons min min' out h q m l k c (i0, i1, i2) = (omega arith, (omega arith, i1), place c i2)
    where
      place :
          ((min' ≡ min) ⊎ (min' ≡ h))
          → ((out ≡ min') ⊎ (Found m out))
          → ((out ≡ min) ⊎ (Found ((h, q) ∷ m) out))
      place c (inr (ys, r, zs, e)) = inr ((h, q) ∷ ys, r, zs, ap (◌∷◌ (h, q)) e)
      place (inl e) (inl o) = inl (o ∙ e)
      place (inr e) (inl o) = inr (subst (Found ((h, q) ∷ m)) (sym (o ∙ e)) ([], q, m, refl))

  pub range_min-Ends : (min : ℤ) (m : SyncMap ℤ P) → Ends min m (range_min min m)
  range_min-Ends min [] = unfold range_min in (omega arith, tt, inl refl)
  range_min-Ends min ((h, q) ∷ m) =
      let min' = if leb_ℤ h min then h else min in
      subst (Ends min ((h, q) ∷ m)) (sym (range_min_cons min h q m)) (
        Ends-cons min min' (range_min min' m) h q m (ground arith) (ground arith) (ground arith)
          (range_min-Ends min' m))

  -- What a pop at the least height does: with the test failed the queue stays; with it passed, the
  -- entry of the least height comes out, and the others stay.
  abbrev pub PopsAt : SyncMap ℤ P → ℤ → Outcome (Option (P × ℤ) × SyncMap ℤ P) → Type ℓ
  PopsAt m h out =
      (q : P) × (ys : SyncMap ℤ P) × (zs : SyncMap ℤ P) × (m ≡ ys ++ (h, q) ∷ zs)
      × (out ≡ done (some (q, h), ys ++ zs))
      × All (λ e. h ≤ℤ e.0) m

  abbrev pub Pops : SyncMap ℤ P → Outcome (Option (P × ℤ) × SyncMap ℤ P) → Type ℓ
  Pops m out =
      (h : ℤ) × (q : P) × (ys : SyncMap ℤ P) × (zs : SyncMap ℤ P) × (m ≡ ys ++ (h, q) ∷ zs)
      × (out ≡ done (some (q, h), ys ++ zs))
      × All (λ e. h ≤ℤ e.0) m

  pop_at-some :
      (m rest : SyncMap ℤ P) (min : ℤ) (q : P)
      → load min m ≡ some q
      → delete min m ≡ rest
      → pop_at true min m ≡ done (some (q, min), rest)
  unfolding pop_at
  pop_at-some m rest min q l d = ground arith

  pub pop_at-true :
      (m : SyncMap ℤ P) (min : ℤ)
      → IsDistinct m
      → Ends max_int64 m min
      → ltb_ℤ min max_int64 ≡ true
      → PopsAt m min (pop_at true min m)
  unfolding pop_at
  pop_at-true m min d (le, all, inl e) t = absurd (ground arith)
  pop_at-true m min d (le, all, inr (ys, q, zs, e)) t =
      let d' = subst IsDistinct e d in
      (
        q,
        ys,
        zs,
        e,
        pop_at-some m (ys ++ zs) min q (ap (load min) e ∙ load_middle min q ys zs d')
            (ap (delete min) e ∙ delete_middle min q ys zs d'),
        all,
      )

  Ends-IsHeight :
      (m : SyncMap ℤ P) (min : ℤ)
      → Ends max_int64 m min
      → ltb_ℤ min max_int64 ≡ true
      → All (λ e. IsHeight e.0) m
      → IsHeight min
  Ends-IsHeight m min (le, all, inl e) t h = absurd (ground arith)
  Ends-IsHeight m min (le, all, inr (ys, q, zs, e)) t h =
      All-middle (λ (x : ℤ × P). IsHeight x.0) ys (min, q) zs
        (subst (All (λ (x : ℤ × P). IsHeight x.0)) e h)

  pub pop_at-false : (m : SyncMap ℤ P) (min : ℤ) → pop_at false min m ≡ done (none, m)
  unfolding pop_at
  pop_at-false m min = refl

  All-le : (a b : ℤ) (m : SyncMap ℤ P) → a ≤ℤ b → All (λ e. b ≤ℤ e.0) m → All (λ e. a ≤ℤ e.0) m
  All-le a b [] h all = tt
  All-le a b (e ∷ m) h all = (omega arith, All-le a b m h all.1)

  -- PopMoveFundItem takes out the entry of the least height, for every order in which Range may visit
  -- the entries. It returns nil, and leaves the queue, only if every height is at least the largest int64.
  pub pop_move_fund_item_min :
      (m : SyncMap ℤ P)
      → IsDistinct m
      → ((pop_move_fund_item m ≡ done (none, m)) × All (λ e. max_int64 ≤ℤ e.0) m)
        ⊎ Pops m (pop_move_fund_item m)
  unfolding pop_move_fund_item
  pop_move_fund_item_min m d =
      let min = range_min max_int64 m in
      let ends = range_min-Ends max_int64 m in
      elim (Bool-cases (ltb_ℤ min max_int64)) [
        | inl t ↦ inr (
            let (q, ys, zs, e, out, all) = pop_at-true m min d ends t in
            (min, q, ys, zs, e, ap (λ b. pop_at b min m) t ∙ out, all))
        | inr f ↦ inl (
          ap (λ b. pop_at b min m) f ∙ pop_at-false m min,
          All-le max_int64 min m (ground arith) ends.1,
        )
      ]

  All-waits :
      (current min : ℤ) (m : SyncMap ℤ P)
      → current ≤ℤ min +ℤ pos 6
      → All (λ e. min ≤ℤ e.0) m
      → All (λ e. current ≤ℤ e.0 +ℤ pos 6) m
  All-waits current min [] h all = tt
  All-waits current min (e ∷ m) h all =
      (omega (arith, +ℤ_parts min (pos 6), +ℤ_parts e.0 (pos 6)), All-waits current min m h all.1)

  All-max :
      (current : ℤ) (m : SyncMap ℤ P)
      → IsHeight current
      → All (λ e. max_int64 ≤ℤ e.0) m
      → All (λ e. current ≤ℤ e.0 +ℤ pos 6) m
  All-max current [] h all = tt
  All-max current (e ∷ m) h all = (omega (arith, +ℤ_parts e.0 (pos 6)), All-max current m h all.1)

  -- PopMoveFundItemAfterBlock, at a height and over entries whose heights stay within 2 ^ 62 of 0, for
  -- every order in which Range may visit the entries: either it returns nil and leaves the queue, and no
  -- entry is more than 6 blocks old, or it takes out the entry of the least height, which is.
  pub pop_after_block_min :
      (current : ℤ) (m : SyncMap ℤ P)
      → IsDistinct m
      → IsHeight current
      → All (λ e. IsHeight e.0) m
      → ((pop_move_fund_item_after_block current m ≡ done (none, m))
          × All (λ e. current ≤ℤ e.0 +ℤ pos 6) m)
        ⊎ ((h : ℤ) × (q : P) × (ys : SyncMap ℤ P) × (zs : SyncMap ℤ P) × (m ≡ ys ++ (h, q) ∷ zs)
            × (pop_move_fund_item_after_block current m ≡ done (some (q, h), ys ++ zs))
            × All (λ e. h ≤ℤ e.0) m
            × (h +ℤ pos 7 ≤ℤ current))
  unfolding pop_move_fund_item_after_block
  pop_after_block_min current m d hc hm =
      let min = range_min max_int64 m in
      let ends = range_min-Ends max_int64 m in
      elim (Bool-cases (ltb_ℤ min max_int64)) [
        | inl t ↦ elim (Bool-cases (ltb_ℤ (pos 6) (sub64 current min))) [
          | inl old ↦
              let (q, ys, zs, e, out, all) = pop_at-true m min d ends t in
              inr (
                min,
                q,
                ys,
                zs,
                e,
                ap₂ (λ a b. pop_at (a && b) min m) t old ∙ out,
                all,
                is_old current min hc (Ends-IsHeight m min ends t hm) old,
              )
          | inr fresh ↦ inl (
            ap₂ (λ a b. pop_at (a && b) min m) t fresh ∙ pop_at-false m min,
            All-waits current min m (is_fresh current min hc (Ends-IsHeight m min ends t hm) fresh)
                ends.1,
          )
        ]
        | inr f ↦ inl (
          ap (λ b. pop_at (b && ltb_ℤ (pos 6) (sub64 current min)) min m) f ∙ pop_at-false m min,
          All-max current m hc (All-le max_int64 min m (ground arith) ends.1),
        )
      ]
