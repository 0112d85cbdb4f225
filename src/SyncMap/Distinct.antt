-- ===== src/SyncMap/Distinct.antt =====
-- A sync.Map has one entry to a key: what Load, Store and Delete do to the list of its entries.
use oppy_bridge.Common.{
  ◌≡◌, refl, ◌≢◌, inl, inr, some, List, [], ◌∷◌, ◌++◌, arith, Key, ◌==◌, beq_refl, beq-ne,
  Bool-cases, All, ap, sym, Bool,
}
use oppy_bridge.SyncMap.{SyncMap, load, store, delete}

pub All-middle {ℓ κ} :
    {A : Type ℓ} (P : A → Type κ) (xs : List A) (x : A) (ys : List A) → All P (xs ++ x ∷ ys) → P x
All-middle P [] x ys h = h.0
All-middle P (z ∷ xs) x ys h = All-middle P xs x ys h.1

module _ {ℓ κ} {K : Type ℓ} {V : Type κ} where
  abbrev pub IsDistinct : SyncMap K V → Type ℓ
  IsDistinct [] = Unit
  IsDistinct ((k, _) ∷ m) = All (λ e. e.0 ≢ k) m × IsDistinct m

module _ {ℓ κ} {K : Type ℓ} {V : Type κ} ⦃e : Key K⦄ where
  -- A property of every entry that was there, and of the one that is stored.
  pub store-All {μ} :
      (P : K × V → Type μ) (k : K) (v : V) (m : SyncMap K V)
      → P (k, v)
      → All P m
      → All P (store k v m)
  unfolding store
  store-All P k v [] p h = (p, tt)
  store-All P k v ((j, w) ∷ m) p h = elim (Bool-cases (j == k)) [
    | inl same ↦ rw same (p, h.1)
    | inr new ↦ rw new (h.0, store-All P k v m p h.1)
  ]

  pub delete-All {μ} : (P : K × V → Type μ) (k : K) (m : SyncMap K V) → All P m → All P (delete k m)
  unfolding delete
  delete-All P k [] h = tt
  delete-All P k ((j, w) ∷ m) h = elim (Bool-cases (j == k)) [
    | inl same ↦ rw same (delete-All P k m h.1)
    | inr other ↦ rw other (h.0, delete-All P k m h.1)
  ]

  pub store-IsDistinct : (k : K) (v : V) (m : SyncMap K V) → IsDistinct m → IsDistinct (store k v m)
  unfolding store
  store-IsDistinct k v [] h = (tt, tt)
  store-IsDistinct k v ((j, w) ∷ m) h = elim (Bool-cases (j == k)) [
    | inl same ↦ rw same (replace ((e.same_iff j k).0 same) h.0, h.1)
    | inr new ↦
        rw new
          (store-All (λ x. x.0 ≢ j) k v m (λ q. keys_differ new q) h.0, store-IsDistinct k v m h.1)
  ]
    where
      replace : j ≡ k → All (λ (x : K × V). x.0 ≢ j) m → All (λ (x : K × V). x.0 ≢ k) m
      replace q a = rw (← q) a

      keys_differ : (j == k) ≡ Bool.false → k ≡ j → ⊥
      keys_differ f q = ground (arith, f, beq_refl j)

  pub delete-IsDistinct : (k : K) (m : SyncMap K V) → IsDistinct m → IsDistinct (delete k m)
  unfolding delete
  delete-IsDistinct k [] h = tt
  delete-IsDistinct k ((j, w) ∷ m) h = elim (Bool-cases (j == k)) [
    | inl same ↦ rw same (delete-IsDistinct k m h.1)
    | inr other ↦ rw other (delete-All (λ x. x.0 ≢ j) k m h.0, delete-IsDistinct k m h.1)
  ]

  -- Deleting a key that no entry has changes nothing.
  delete_absent : (k : K) (m : SyncMap K V) → All (λ x. x.0 ≢ k) m → delete k m ≡ m
  unfolding delete
  delete_absent k [] h = refl
  delete_absent k ((j, w) ∷ m) h = rw (beq-ne j k h.0) (ap (◌∷◌ (j, w)) (delete_absent k m h.1))

  -- The entry that stands at a place in the list is the one that Load finds, and the one that
  -- Delete takes out.
  pub load_middle :
      (k : K) (v : V) (xs ys : SyncMap K V)
      → IsDistinct (xs ++ (k, v) ∷ ys)
      → load k (xs ++ (k, v) ∷ ys) ≡ some v
  unfolding load
  load_middle k v [] ys h = rw (beq_refl k)
  load_middle k v ((j, w) ∷ xs) ys h =
      let other = All-middle (λ (x : K × V). x.0 ≢ j) xs (k, v) ys h.0 in
      rw (beq-ne j k (λ q. other (sym q))) (load_middle k v xs ys h.1)

  pub delete_middle :
      (k : K) (v : V) (xs ys : SyncMap K V)
      → IsDistinct (xs ++ (k, v) ∷ ys)
      → delete k (xs ++ (k, v) ∷ ys) ≡ xs ++ ys
  unfolding delete
  delete_middle k v [] ys h = rw (beq_refl k) (delete_absent k ys h.0)
  delete_middle k v ((j, w) ∷ xs) ys h =
      let other = All-middle (λ (x : K × V). x.0 ≢ j) xs (k, v) ys h.0 in
      rw (beq-ne j k (λ q. other (sym q))) (ap (◌∷◌ (j, w)) (delete_middle k v xs ys h.1))
