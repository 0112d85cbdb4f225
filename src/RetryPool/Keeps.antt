-- ===== src/RetryPool/Keeps.antt =====
-- What PopItem keeps of a retry pool: it stays valid, so that the next pop finds the entry it looks for.
use oppy_bridge.Common.{
  middle_ne, ℕ, ◌<◌, ◌≡◌, sym, ap, ◌∙◌, subst, ◌≢◌, ◌⊎◌, inl, inr, Option, none, some, [], ◌∷◌,
  ◌++◌, nat_key, string_key, bytes_key, All,
}
use oppy_bridge.Common.Outcome.{Outcome, done}
use oppy_bridge.SyncMap.{SyncMap, delete}
use oppy_bridge.SyncMap.Distinct.{IsDistinct, delete_middle, delete-IsDistinct, delete-All}
use oppy_bridge.RetryPool.{RetryPool, pop_item}
use oppy_bridge.RetryPool.Max.{IsValid, pop_item_max}

module _ {ℓ} {R : Type ℓ} where
  -- A pop leaves the pool, or takes a request out and leaves a valid pool.
  abbrev pub PopKeeps : RetryPool R → Outcome (Option R × RetryPool R) → Type ℓ
  PopKeeps p out =
      (out ≡ done (none, p))
      ⊎ ((req : R) × (p' : RetryPool R) × (out ≡ done (some req, p'))
          × IsValid p'
          × (p.entries ≢ []))

  without-IsValid :
      (p : RetryPool R) (ys zs : SyncMap ℕ (ℕ × R)) (pointer : ℕ) (v : ℕ × R)
      → IsValid p
      → p.entries ≡ ys ++ (pointer, v) ∷ zs
      → IsValid (record p { entries = ys ++ zs })
  without-IsValid p ys zs pointer v valid e =
      let q =
        ap (delete pointer) e ∙ delete_middle pointer v ys zs (subst IsDistinct e valid.distinct) in
      record {
        distinct = subst IsDistinct q (delete-IsDistinct pointer p.entries valid.distinct);
        below =
            subst (All (λ e. e.0 < p.next_pointer)) q
              (delete-All (λ e. e.0 < p.next_pointer) pointer p.entries valid.below);
      }

  pub pop-IsValid : (p : RetryPool R) → IsValid p → PopKeeps p (pop_item p)
  pop-IsValid p valid = elim (pop_item_max p valid) [
    | inl (e, _) ↦ inl e
    | inr (ys, pointer, h, req, zs, e, out, _, _) ↦ inr (
      req,
      record p { entries = ys ++ zs },
      out,
      without-IsValid p ys zs pointer (h, req) valid e,
      λ n. middle_ne ys _ zs (sym e ∙ n),
    )
  ]
