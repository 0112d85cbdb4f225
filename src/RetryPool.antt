-- ===== src/RetryPool.antt =====
-- RetryInboundReq and RetryOutboundReq (pubchain/types.go, joltifybridge/types.go). The key of an entry
-- is a pointer to a big.Int, which sync.Map compares as a pointer: every AddItem makes a new one.
pub mod Max
pub mod Keeps
use oppy_bridge.Common.{ℕ, suc, Option, none, some, [], ◌∷◌, if◌then◌else◌, ltb, length, nat_key}
use oppy_bridge.Common.Outcome.{Outcome, done, panics}
use oppy_bridge.SyncMap.{SyncMap, load, store, delete}

-- `entries` maps the pointer of a key to the number it points at and the request.
pub record RetryPool {ℓ} (R : Type ℓ) : Type ℓ where
  pub next_pointer : ℕ
  pub entries : SyncMap ℕ (ℕ × R)

module _ {ℓ} {R : Type ℓ} where
  abbrev pub empty : RetryPool R
  empty = record { next_pointer = 0; entries = [] }

  -- AddItem, of a request whose Hash().Big() is `h`.
  unfoldable pub add_item : ℕ → R → RetryPool R → RetryPool R
  add_item h req p = record {
    next_pointer = suc p.next_pointer;
    entries = store p.next_pointer (h, req) p.entries;
  }

  -- The loop of PopItem: the greatest key so far, as its pointer and its number.
  unfoldable pub range_max : ℕ × ℕ → SyncMap ℕ (ℕ × R) → ℕ × ℕ
  range_max best [] = best
  range_max best ((p, (h, _)) ∷ m) = range_max (if ltb best.1 h then (p, h) else best) m

  -- What PopItem does at the key that the loop ends with; the type assertion panics where
  -- LoadAndDelete finds nothing.
  unfoldable pub pop_at : ℕ × ℕ → RetryPool R → Outcome (Option R × RetryPool R)
  pop_at (pointer, max) p =
      if ltb 0 max
      then elim (load pointer p.entries) [
        | none ↦ panics
        | some (_, req) ↦ done (some req, record p { entries = delete pointer p.entries })
      ]
      else done (none, p)

  -- PopItem
  unfoldable pub pop_item : RetryPool R → Outcome (Option R × RetryPool R)
  unfolding pop_at
  pop_item p = pop_at (range_max (0, 0) p.entries) p

  -- Size
  unfoldable pub size : RetryPool R → ℕ
  size p = length p.entries
