-- ===== src/Misc/BigInt.antt =====
-- math/big as misc/helper.go uses it: Int.Bytes, Int.SetBytes, Uint64 and BitLen.
use oppy_bridge.Common.{
  nat_key, ℕ, zero, suc, ◌+◌, ◌*◌, ◌/◌, ◌%◌, ◌^◌, ◌≤◌, ◌<◌, ◌≡◌, refl, ap, ◌∙◌, [], ◌∷◌, ◌++◌,
  arith, length, if◌then◌else◌, ◌==◌, replicate, Bool-cases, inl, inr,
}
use native.Mathlib.Nat.{pow-suc}
use oppy_bridge.External.{Bytes}

-- The bytes of a number, without leading zeros, before `rest`; the fuel is at least the number.
big_bytes_from : ℕ → ℕ → Bytes → Bytes
big_bytes_from zero n rest = rest
big_bytes_from (suc f) n rest =
    let more = big_bytes_from f (n / 256) (n % 256 ∷ rest) in if n == 0 then rest else more

-- Int.Bytes: big endian, and no bytes for 0.
unfoldable pub big_bytes : ℕ → Bytes
unfolding big_bytes_from
big_bytes n = big_bytes_from n n []

set_bytes_from : ℕ → Bytes → ℕ
set_bytes_from acc [] = acc
set_bytes_from acc (b ∷ bs) = set_bytes_from (acc * 256 + b) bs

-- Int.SetBytes
unfoldable pub set_bytes : Bytes → ℕ
unfolding set_bytes_from
set_bytes = set_bytes_from 0

-- Int.Uint64: the low 64 bits.
abbrev pub uint64 : ℕ → ℕ
uint64 n = n % 2 ^ 64

set_bytes_from-big_bytes_from :
    (f n : ℕ) (rest : Bytes)
    → n ≤ f
    → set_bytes_from 0 (big_bytes_from f n rest) ≡ set_bytes_from n rest
unfolding big_bytes_from set_bytes_from
set_bytes_from-big_bytes_from zero n rest h = ap (λ k. set_bytes_from k rest) (omega arith)
set_bytes_from-big_bytes_from (suc f) n rest h = elim (Bool-cases (n == 0)) [
  | inl z ↦ rw z (ap (λ k. set_bytes_from k rest) (ground arith))
  | inr p ↦ rw p (
      set_bytes_from-big_bytes_from f (n / 256) (n % 256 ∷ rest) (ground arith)
      ∙ ap (λ k. set_bytes_from k rest) (omega arith))
]

-- SetBytes reads back what Bytes wrote.
pub set_bytes-big_bytes : (n : ℕ) → set_bytes (big_bytes n) ≡ n
unfolding set_bytes big_bytes
set_bytes-big_bytes n = set_bytes_from-big_bytes_from n n [] (omega arith)

-- Leading zeros do not count.
pub set_bytes-replicate : (k : ℕ) (bs : Bytes) → set_bytes (replicate k 0 ++ bs) ≡ set_bytes bs
unfolding set_bytes set_bytes_from
set_bytes-replicate zero bs = refl
set_bytes-replicate (suc k) bs = set_bytes-replicate k bs

length-big_bytes_from :
    (f n k : ℕ) (rest : Bytes) → n < 256 ^ k → length (big_bytes_from f n rest) ≤ k + length rest
unfolding big_bytes_from
length-big_bytes_from zero n k rest h = omega arith
length-big_bytes_from (suc f) n zero rest h = ground arith
length-big_bytes_from (suc f) n (suc k) rest h =
    let small : n / 256 < 256 ^ k = omega (arith, pow-suc 256 k) in
    ground (arith, length-big_bytes_from f (n / 256) k (n % 256 ∷ rest) small)

-- A number below 256 ^ k has at most k bytes.
pub length-big_bytes : (n k : ℕ) → n < 256 ^ k → length (big_bytes n) ≤ k
unfolding big_bytes
length-big_bytes n k h = omega (arith, length-big_bytes_from n n k [] h)
