-- ===== src/Decimal/RoundTrip.antt =====
-- strconv: ParseInt on the text of FormatInt.
use oppy_bridge.Common.{
  ℕ, zero, suc, ◌+◌, ◌-◌, ◌*◌, ◌/◌, ◌%◌, ◌≤◌, ◌<◌, ◌≡◌, refl, sym, ap, ◌∙◌, inl, inr, true, false,
  [], ◌∷◌, ◌++◌, ltb, nat_key, arith, Bool-cases,
}
use oppy_bridge.Common.Int.{ℤ, pos, negsuc, IsInt64}
use oppy_bridge.Common.Result.{ok, ◌>>=◌}
use oppy_bridge.External.{Bytes}
use oppy_bridge.Decimal.{max_uint64, digits_of, format_int, scan, parse_uint, with_sign, parse_int}

scan-append : (n : ℕ) (xs ys : Bytes) → scan n (xs ++ ys) ≡ (scan n xs >>= λ m. scan m ys)
unfolding scan
scan-append n [] ys = refl
scan-append n (c ∷ xs) ys = ground (arith, scan-append (n * 10 + (c - b'0')) xs ys)

scan_digit :
    (n d : ℕ) → d < 10 → n * 10 + d ≤ max_uint64 → scan n ((b'0' + d) ∷ []) ≡ ok (n * 10 + d)
unfolding scan
scan_digit n d h k = ground arith

scan-digits : (f n : ℕ) → n < f → n ≤ max_uint64 → scan 0 (digits_of f n) ≡ ok n
unfolding digits_of
scan-digits zero n h k = absurd (omega arith)
scan-digits (suc f) n h k = elim (Bool-cases (ltb n 10)) [
  | inl small ↦ rw small (scan_digit 0 (n % 10) (omega arith) (omega arith) ∙ ap ok (ground arith))
  | inr large ↦ rw large (
      scan-append 0 (digits_of f (n / 10)) ((b'0' + n % 10) ∷ [])
      ∙ ap (λ r. r >>= λ m. scan m ((b'0' + n % 10) ∷ []))
          (scan-digits f (n / 10) (ground arith) (omega arith))
      ∙ scan_digit (n / 10) (n % 10) (omega arith) (omega arith)
      ∙ ap ok (omega arith))
]

-- The first byte is a digit.
digits_head :
    (f n : ℕ) → n < f → (c : ℕ) × (s : Bytes) × (digits_of f n ≡ c ∷ s) × (b'0' ≤ c) × (c ≤ b'9')
unfolding digits_of
digits_head zero n h = absurd (omega arith)
digits_head (suc f) n h = elim (Bool-cases (ltb n 10)) [
  | inl small ↦ (b'0' + n % 10, [], rw small, omega arith, omega arith)
  | inr large ↦
      let (c, s, e, lo, hi) = digits_head f (n / 10) (ground arith) in
      (c, s ++ (b'0' + n % 10) ∷ [], rw (large, e), lo, hi)
]

parse_uint-digits : (f n : ℕ) → n < f → n ≤ max_uint64 → parse_uint (digits_of f n) ≡ ok n
unfolding parse_uint
parse_uint-digits f n h k =
    let (c, s, e, _, _) = digits_head f n h in
    ap parse_uint e ∙ ap (scan 0) (sym e) ∙ scan-digits f n h k

parse_plain :
    (c : ℕ) (s : Bytes) → b'0' ≤ c → parse_int (c ∷ s) ≡ with_sign false (parse_uint (c ∷ s))
unfolding parse_int
parse_plain c s h = ground arith

parse_minus : (s : Bytes) → parse_int (b'-' ∷ s) ≡ with_sign true (parse_uint s)
unfolding parse_int
parse_minus s = refl

-- ParseInt reads every int64 back from the text that FormatInt prints.
pub parse_int-format_int : (z : ℤ) → IsInt64 z → parse_int (format_int z) ≡ ok z
unfolding format_int with_sign
parse_int-format_int (pos n) b =
    let (c, s, e, lo, hi) = digits_head (suc n) n (omega arith) in
    ap parse_int e
    ∙ parse_plain c s lo
    ∙ ap (λ t. with_sign false (parse_uint t)) (sym e)
    ∙ ap (with_sign false) (parse_uint-digits (suc n) n (omega arith) (omega arith))
    ∙ ground arith
parse_int-format_int (negsuc n) b =
    parse_minus (digits_of (suc (suc n)) (suc n))
    ∙ ap (with_sign true) (parse_uint-digits (suc (suc n)) (suc n) (omega arith) (omega arith))
    ∙ ground arith
