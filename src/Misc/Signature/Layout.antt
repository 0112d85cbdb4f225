-- ===== src/Misc/Signature/Layout.antt =====
-- misc/helper.go: where R, S and the recovery id stand in the bytes of a signature.
use mathlib.Core.List.{append_assoc}
use oppy_bridge.Common.{
  ℕ, ◌+◌, ◌-◌, ◌%◌, ◌^◌, ◌≤◌, ◌<◌, ◌≡◌, refl, ap, ◌∙◌, false, [], ◌∷◌, ◌++◌, arith, length, ltb,
  replicate, take, drop, length-append, length-replicate, take-append, drop-append_add,
  take-append_at, take-replicate, drop-replicate, drop-append_at,
}
use oppy_bridge.Common.Outcome.{done}
use oppy_bridge.External.{Bytes}
use oppy_bridge.Misc.BigInt.{
  big_bytes, set_bytes, uint64, set_bytes-big_bytes, set_bytes-replicate, length-big_bytes,
}
use oppy_bridge.Misc.Signature.{copy_up_to, set_last, make_signature}

-- `b` at the right end of `n` bytes.
abbrev pub pad : ℕ → Bytes → Bytes
pad n b = replicate (n - length b) 0 ++ b

pub length-pad : (n : ℕ) (b : Bytes) → length b ≤ n → length (pad n b) ≡ n
length-pad n b h =
    omega (
      arith,
      length-append (replicate (n - length b) 0) b,
      length-replicate {A = ℕ} (n - length b) 0,
    )

-- A copy behind `xs` fills the next `n` bytes.
pub copy_up_to-pad :
    (n m stop : ℕ) (xs b : Bytes)
    → length b ≤ n
    → stop ≡ length xs + n
    → copy_up_to stop b (xs ++ replicate (n + m) 0) ≡ done (xs ++ pad n b ++ replicate m 0)
unfolding copy_up_to
copy_up_to-pad n m stop xs b h e =
    let start : stop - length b ≡ length xs + (n - length b) = omega arith in
    let fits : ltb stop (length b) ≡ false = ground arith in
    rw (fits, start, e)
      (rw
        (
          take-append xs (replicate (n + m) 0) (n - length b),
          drop-append_add xs (replicate (n + m) 0) n,
          drop-replicate {A = ℕ} n m 0,
          take-replicate {A = ℕ} (n - length b) (n + m) 0 (omega arith),
        )
        (simp append_assoc))

-- R, S and the low byte of v, in 32, 32 and 1 bytes.
abbrev pub layout : ℕ → ℕ → ℕ → Bytes
layout r s v = pad 32 (big_bytes r) ++ pad 32 (big_bytes s) ++ uint64 v % 256 ∷ []

pub set_bytes-pad : (n r : ℕ) → set_bytes (pad n (big_bytes r)) ≡ r
set_bytes-pad n r =
    set_bytes-replicate (n - length (big_bytes r)) (big_bytes r) ∙ set_bytes-big_bytes r

pub length-big_bytes32 : (r : ℕ) → r < 2 ^ 256 → length (big_bytes r) ≤ 32
length-big_bytes32 r h = length-big_bytes r 32 h

set_last-append : (xs : Bytes) (c b : ℕ) → length xs ≡ 64 → set_last (xs ++ c ∷ []) b ≡ xs ++ b ∷ []
unfolding set_last
set_last-append xs c b e =
    let past : 65 ≡ length xs + 1 = omega arith in
    let back : drop 65 (xs ++ c ∷ []) ≡ [] =
      ap (λ k. drop k (xs ++ c ∷ [])) past ∙ drop-append_add xs (c ∷ []) 1 in
    rw (take-append_at 64 xs (c ∷ []) e, back)

pub length-two_pads :
    (r s : ℕ)
    → r < 2 ^ 256
    → s < 2 ^ 256
    → length (pad 32 (big_bytes r) ++ pad 32 (big_bytes s)) ≡ 64
length-two_pads r s hr hs = omega (
  arith,
  length-append (pad 32 (big_bytes r)) (pad 32 (big_bytes s)),
  length-pad 32 (big_bytes r) (length-big_bytes32 r hr),
  length-pad 32 (big_bytes s) (length-big_bytes32 s hs),
)

make_signature-layout :
    (r s v : ℕ) → r < 2 ^ 256 → s < 2 ^ 256 → make_signature r s v ≡ done (layout r s v)
unfolding make_signature
make_signature-layout r s v hr hs =
    let wr = copy_up_to-pad 32 33 32 [] (big_bytes r) (length-big_bytes32 r hr) refl in
    let ws =
      copy_up_to-pad 32 1 64 (pad 32 (big_bytes r)) (big_bytes s) (length-big_bytes32 s hs)
        (omega (arith, length-pad 32 (big_bytes r) (length-big_bytes32 r hr))) in
    let last =
      set_last-append (pad 32 (big_bytes r) ++ pad 32 (big_bytes s)) 0 (uint64 v % 256)
        (length-two_pads r s hr hs) in
    rw (wr, ws) (ap done last)

-- The fields of a layout.
module _ (r s : ℕ) (rest : Bytes) (hr : r < 2 ^ 256) (hs : s < 2 ^ 256) where
  abbrev written : Bytes
  written = pad 32 (big_bytes r) ++ pad 32 (big_bytes s) ++ rest

  regroup : written ≡ pad 32 (big_bytes r) ++ (pad 32 (big_bytes s) ++ rest)
  regroup = append_assoc (pad 32 (big_bytes r)) (pad 32 (big_bytes s)) rest

  pub layout_r : set_bytes (take 32 written) ≡ r
  layout_r = rw regroup (
      ap set_bytes (
        take-append_at 32 (pad 32 (big_bytes r)) (pad 32 (big_bytes s) ++ rest)
          (length-pad 32 (big_bytes r) (length-big_bytes32 r hr)))
      ∙ set_bytes-pad 32 r)

  pub layout_s : set_bytes (take 32 (drop 32 written)) ≡ s
  layout_s =
      rw
        (
          regroup,
          drop-append_at 32 (pad 32 (big_bytes r)) (pad 32 (big_bytes s) ++ rest)
              (length-pad 32 (big_bytes r) (length-big_bytes32 r hr)),
        )
        (ap set_bytes (
            take-append_at 32 (pad 32 (big_bytes s)) rest
              (length-pad 32 (big_bytes s) (length-big_bytes32 s hs)))
          ∙ set_bytes-pad 32 s)

  pub layout_rest : drop 64 written ≡ rest
  layout_rest =
      drop-append_at 64 (pad 32 (big_bytes r) ++ pad 32 (big_bytes s)) rest
        (length-two_pads r s hr hs)

-- Of r and s below 2 ^ 256, MakeSignature returns bytes from which big-endian reading gives r (bytes 0
-- to 31) and s (bytes 32 to 63) back, followed by one byte, the low byte of v.
pub make_signature_reads_back :
    (r s v : ℕ)
    → r < 2 ^ 256
    → s < 2 ^ 256
    → (sig : Bytes) × (make_signature r s v ≡ done sig)
      × (set_bytes (take 32 sig) ≡ r)
      × (set_bytes (take 32 (drop 32 sig)) ≡ s)
      × (drop 64 sig ≡ uint64 v % 256 ∷ [])
make_signature_reads_back r s v hr hs =
    let rest : Bytes = uint64 v % 256 ∷ [] in
    (
      layout r s v,
      make_signature-layout r s v hr hs,
      layout_r r s rest hr hs,
      layout_s r s rest hr hs,
      layout_rest r s rest hr hs,
    )
