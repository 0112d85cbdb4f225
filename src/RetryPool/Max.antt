-- ===== src/RetryPool/Max.antt =====
-- What AddItem, PopItem and Size of a retry pool do, in whatever order Range visits the entries.
use oppy_bridge.Common.{
  ℕ, zero, suc, ◌+◌, ◌≤◌, ◌<◌, ◌≡◌, refl, sym, ap, ◌∙◌, subst, ◌⊎◌, inl, inr, true, false, none,
  some, List, [], ◌∷◌, ◌++◌, arith, ltb, if◌then◌else◌, nat_key, string_key, bytes_key, Bool-cases,
  beq-ne, length, All, length-append,
}
use oppy_bridge.SyncMap.{SyncMap, load, store, delete}
use oppy_bridge.Common.Outcome.{done}
use oppy_bridge.SyncMap.Distinct.{
  IsDistinct, store-All, store-IsDistinct, load_middle, delete_middle,
}
use oppy_bridge.RetryPool.{RetryPool, add_item, range_max, pop_at, pop_item, size}

-- The pointers of the keys are distinct, and below the next one.
pub record IsValid {ℓ} {R : Type ℓ} (p : RetryPool R) : Type ℓ where
  pub distinct : IsDistinct p.entries
  pub below : All (λ e. e.0 < p.next_pointer) p.entries

-- The requests of a pool, in the order of the list.
abbrev pub requests {ℓ} : {R : Type ℓ} → SyncMap ℕ (ℕ × R) → List R
requests [] = []
requests ((_, (_, req)) ∷ m) = req ∷ requests m

All-suc {ℓ} :
    {R : Type ℓ} (n : ℕ) (m : SyncMap ℕ (ℕ × R)) → All (λ e. e.0 < n) m → All (λ e. e.0 < suc n) m
All-suc n [] h = tt
All-suc n (e ∷ m) h = (omega arith, All-suc n m h.1)

module _ {ℓ} {R : Type ℓ} where
  -- A key that no entry has goes to a new one at the end.
  store_new :
      (n : ℕ) (v : ℕ × R) (m : SyncMap ℕ (ℕ × R))
      → All (λ e. e.0 < n) m
      → store n v m ≡ m ++ (n, v) ∷ []
  unfolding store
  store_new n v [] b = refl
  store_new n v ((p, w) ∷ m) b =
      rw (beq-ne p n (omega arith)) (ap (◌∷◌ (p, w)) (store_new n v m b.1))

  -- AddItem always adds an entry, at a new pointer, also where the pool already holds the request: the
  -- size grows by one, and the entries that were there stay.
  pub add_item_appends :
      (h : ℕ) (req : R) (p : RetryPool R)
      → IsValid p
      → ((add_item h req p).entries ≡ p.entries ++ (p.next_pointer, (h, req)) ∷ [])
        × (size (add_item h req p) ≡ size p + 1)
        × IsValid (add_item h req p)
  unfolding add_item size
  add_item_appends h req p v =
      let e = store_new p.next_pointer (h, req) p.entries v.below in
      (
        e,
        ap length e ∙ length-append p.entries ((p.next_pointer, (h, req)) ∷ []),
        record {
          distinct = store-IsDistinct p.next_pointer (h, req) p.entries v.distinct;
          below =
              store-All (λ e. e.0 < suc p.next_pointer) p.next_pointer (h, req) p.entries
                (omega arith) (All-suc p.next_pointer p.entries v.below);
        },
      )

  -- An entry of the map with this pointer and this number.
  abbrev Found : SyncMap ℕ (ℕ × R) → ℕ × ℕ → Type ℓ
  Found m best =
      (ys : SyncMap ℕ (ℕ × R)) × (req : R) × (zs : SyncMap ℕ (ℕ × R)) × (m
        ≡ ys ++ (best.0, (best.1, req)) ∷ zs)

  Found-cons :
      (e : ℕ × (ℕ × R)) (m : SyncMap ℕ (ℕ × R)) (best : ℕ × ℕ) → Found m best → Found (e ∷ m) best
  Found-cons e m best (ys, req, zs, q) = (e ∷ ys, req, zs, ap (◌∷◌ e) q)

  range_max_more :
      (best : ℕ × ℕ) (p h : ℕ) (r : R) (m : SyncMap ℕ (ℕ × R))
      → ltb best.1 h ≡ true
      → range_max best ((p, (h, r)) ∷ m) ≡ range_max (p, h) m
  unfolding range_max
  range_max_more best p h r m e = ap (λ b. range_max (if b then (p, h) else best) m) e

  range_max_less :
      (best : ℕ × ℕ) (p h : ℕ) (r : R) (m : SyncMap ℕ (ℕ × R))
      → ltb best.1 h ≡ false
      → range_max best ((p, (h, r)) ∷ m) ≡ range_max best m
  unfolding range_max
  range_max_less best p h r m e = ap (λ b. range_max (if b then (p, h) else best) m) e

  -- The loop of PopItem ends at a number that no key exceeds, and at an entry unless it found none
  -- above the one that it began with.
  abbrev Ends : ℕ × ℕ → SyncMap ℕ (ℕ × R) → ℕ × ℕ → Type ℓ
  Ends best m out = (best.1 ≤ out.1) × All (λ e. e.1.0 ≤ out.1) m × ((out ≡ best) ⊎ (Found m out))

  Ends-cons :
      (best best' out : ℕ × ℕ) (e : ℕ × (ℕ × R)) (m : SyncMap ℕ (ℕ × R))
      → best.1 ≤ best'.1
      → e.1.0 ≤ best'.1
      → ((best' ≡ best) ⊎ (best' ≡ (e.0, e.1.0)))
      → Ends best' m out
      → Ends best (e ∷ m) out
  Ends-cons best best' out e m h k c (i0, i1, i2) = (omega arith, (omega arith, i1), place c i2)
    where
      place :
          ((best' ≡ best) ⊎ (best' ≡ (e.0, e.1.0)))
          → ((out ≡ best') ⊎ (Found m out))
          → ((out ≡ best) ⊎ (Found (e ∷ m) out))
      place c (inr f) = inr (Found-cons e m out f)
      place (inl q) (inl o) = inl (o ∙ q)
      place (inr q) (inl o) = inr (subst (Found (e ∷ m)) (sym (o ∙ q)) ([], e.1.1, m, refl))

  range_max-Ends : (best : ℕ × ℕ) (m : SyncMap ℕ (ℕ × R)) → Ends best m (range_max best m)
  range_max-Ends best [] = unfold range_max in (omega arith, tt, inl refl)
  range_max-Ends best ((p, (h, r)) ∷ m) = elim (Bool-cases (ltb best.1 h)) [
    | inl more ↦ subst (Ends best ((p, (h, r)) ∷ m)) (sym (range_max_more best p h r m more)) (
        Ends-cons best (p, h) (range_max (p, h) m) (p, (h, r)) m (ground arith) (omega arith)
          (inr refl) (range_max-Ends (p, h) m))
    | inr less ↦ subst (Ends best ((p, (h, r)) ∷ m)) (sym (range_max_less best p h r m less)) (
        Ends-cons best best (range_max best m) (p, (h, r)) m (omega arith) (ground arith) (inl refl)
          (range_max-Ends best m))
  ]

  pop_at_found :
      (n q h : ℕ) (req : R) (m rest : SyncMap ℕ (ℕ × R))
      → load q m ≡ some (suc h, req)
      → delete q m ≡ rest
      → pop_at (q, suc h) (record { next_pointer = n; entries = m })
        ≡ done (some req, record { next_pointer = n; entries = rest })
  unfolding pop_at
  pop_at_found n q h req m rest l d = rw (l, d) (ground arith)

  -- PopItem returns, for every order in which Range may visit the entries. Either every key is 0 and
  -- the pool stays as it is, or one entry with the greatest key, which is above 0, is taken out and its
  -- request returned.
  pub pop_item_max :
      (p : RetryPool R)
      → IsValid p
      → ((pop_item p ≡ done (none, p)) × All (λ e. e.1.0 ≤ 0) p.entries)
        ⊎ ((ys : SyncMap ℕ (ℕ × R)) × (pointer : ℕ) × (h : ℕ) × (req : R) × (zs : SyncMap ℕ (ℕ × R))
            × (p.entries ≡ ys ++ (pointer, (h, req)) ∷ zs)
            × (pop_item p ≡ done (some req, record p { entries = ys ++ zs }))
            × (0 < h)
            × All (λ e. e.1.0 ≤ h) p.entries)
  unfolding pop_item
  pop_item_max p v = split (range_max (0, 0) p.entries) refl (range_max-Ends (0, 0) p.entries)
    where
      split :
          (out : ℕ × ℕ)
          → range_max (0, 0) p.entries ≡ out
          → Ends (0, 0) p.entries out
          → ((pop_item p ≡ done (none, p)) × All (λ e. e.1.0 ≤ 0) p.entries)
            ⊎ ((ys : SyncMap ℕ (ℕ × R)) × (pointer : ℕ) × (h : ℕ) × (req : R) × (zs : SyncMap ℕ
                  (ℕ × R))
                × (p.entries ≡ ys ++ (pointer, (h, req)) ∷ zs)
                × (pop_item p ≡ done (some req, record p { entries = ys ++ zs }))
                × (0 < h)
                × All (λ e. e.1.0 ≤ h) p.entries)
      split (q, zero) e (a, b, c) = inl (ap (λ o. pop_at o p) e, b)
      split (q, suc h) e (a, b, inl c) = cc
      split (q, suc h) e (a, b, inr (ys, req, zs, f)) =
          let d = subst IsDistinct f v.distinct in
          inr (
            ys,
            q,
            suc h,
            req,
            zs,
            f,
            ap (λ o. pop_at o p) e
                ∙ pop_at_found p.next_pointer q h req p.entries (ys ++ zs)
                    (ap (load q) f ∙ load_middle q (suc h, req) ys zs d)
                    (ap (delete q) f ∙ delete_middle q (suc h, req) ys zs d),
            omega arith,
            b,
          )
