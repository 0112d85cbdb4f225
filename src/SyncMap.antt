-- ===== src/SyncMap.antt =====
-- The Go runtime's sync.Map, as the bridge uses it (pubchain/types.go, joltifybridge/types.go): an
-- association list with one entry to a key. Range visits the entries in the list's order; Go fixes
-- none, so what the program computes by Range is stated for every list.
pub mod Distinct
use oppy_bridge.Common.{
  ◌⊎◌, inl, inr, Bool-cases, sym, beq_refl, beq-ne, ◌≢◌, ◌≡◌, refl, Option, none, some, List, [],
  ◌∷◌, arith, Key, ◌==◌, if◌then◌else◌,
}

abbrev pub SyncMap {ℓ κ} : Type ℓ → Type κ → Type (ℓ ⊔ κ)
SyncMap K V = List (K × V)

module _ {ℓ κ} {K : Type ℓ} {V : Type κ} ⦃e : Key K⦄ where
  -- Load
  unfoldable pub load : K → SyncMap K V → Option V
  load k [] = none
  load k ((j, v) ∷ m) = if j == k then some v else load k m

  -- Store
  unfoldable pub store : K → V → SyncMap K V → SyncMap K V
  store k v [] = (k, v) ∷ []
  store k v ((j, w) ∷ m) = if j == k then (k, v) ∷ m else (j, w) ∷ store k v m

  -- Delete
  unfoldable pub delete : K → SyncMap K V → SyncMap K V
  delete k [] = []
  delete k ((j, w) ∷ m) = if j == k then delete k m else (j, w) ∷ delete k m

  -- LoadAndDelete
  unfoldable pub load_and_delete : K → SyncMap K V → Option V × SyncMap K V
  load_and_delete k m = (load k m, delete k m)

  pub load-store :
      (k : K) (v : V) (m : SyncMap K V) (j : K)
      → load j (store k v m) ≡ (if k == j then some v else load j m)
  unfolding load store
  load-store k v [] j = refl
  load-store k v ((i, w) ∷ m) j =
      ground (arith, e.same_iff k j, e.same_iff i k, e.same_iff i j, load-store k v m j)

  pub load-delete :
      (k j : K) (m : SyncMap K V) → load j (delete k m) ≡ (if k == j then none else load j m)
  unfolding load delete
  load-delete k j [] = ground arith
  load-delete k j ((i, w) ∷ m) =
      ground (arith, e.same_iff k j, e.same_iff i k, e.same_iff i j, load-delete k j m)

  pub load-store_self : (k : K) (v : V) (m : SyncMap K V) → load k (store k v m) ≡ some v
  load-store_self k v m = rw (load-store k v m k, beq_refl k)

  pub load-store_ne : (k j : K) (v : V) (m : SyncMap K V) → j ≢ k → load j (store k v m) ≡ load j m
  load-store_ne k j v m h = rw (load-store k v m j, beq-ne k j (λ q. h (sym q)))

  pub load-delete_self : (k : K) (m : SyncMap K V) → load k (delete k m) ≡ none
  load-delete_self k m = rw (load-delete k k m, beq_refl k)

  pub load-delete_ne : (k j : K) (m : SyncMap K V) → j ≢ k → load j (delete k m) ≡ load j m
  load-delete_ne k j m h = rw (load-delete k j m, beq-ne k j (λ q. h (sym q)))

  -- What is found after a Store is what was stored, or was found before.
  pub load-store-some :
      (k j : K) (v w : V) (m : SyncMap K V)
      → load j (store k v m) ≡ some w
      → (v ≡ w) ⊎ (load j m ≡ some w)
  load-store-some k j v w m h = elim (Bool-cases (k == j)) [
    | inl same ↦ inl (ground (arith, load-store k v m j))
    | inr other ↦ inr (ground (arith, load-store k v m j))
  ]

  pub load-delete-some :
      (k j : K) (w : V) (m : SyncMap K V) → load j (delete k m) ≡ some w → load j m ≡ some w
  load-delete-some k j w m h = ground (arith, load-delete k j m)

  pub load-delete-none : (k j : K) (m : SyncMap K V) → load j m ≡ none → load j (delete k m) ≡ none
  load-delete-none k j m h = ground (arith, load-delete k j m)
