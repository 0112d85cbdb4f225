-- ===== src/Decimal.antt =====
-- strconv.FormatInt and strconv.ParseInt at the base 10 and 64 bits, as prepareTssPool and
-- HandleUpdateValidators of joltifybridge use them. A text is the list of its bytes.
pub mod RoundTrip
use oppy_bridge.Common.{
  ℕ, zero, suc, ◌+◌, ◌-◌, ◌*◌, ◌/◌, ◌%◌, ◌^◌, Bool, true, false, ◌||◌, List, [], ◌∷◌, ◌++◌, ltb,
  if◌then◌else◌, ◌==◌, nat_key,
}
use oppy_bridge.Common.Int.{ℤ, pos, negsuc}
use oppy_bridge.Common.Result.{Result, ok, err}
use oppy_bridge.External.{Bytes}

abbrev pub max_uint64 : ℕ
max_uint64 = 2 ^ 64 - 1

-- The digits, the last one by the remainder. The first argument is fuel, of which the number's
-- successor is enough.
unfoldable pub digits_of : ℕ → ℕ → Bytes
digits_of zero n = []
digits_of (suc f) n =
    let front = digits_of f (n / 10) in (if ltb n 10 then [] else front) ++ (b'0' + n % 10) ∷ []

unfoldable pub format_int : ℤ → Bytes
unfolding digits_of
format_int (pos n) = digits_of (suc n) n
format_int (negsuc n) = b'-' ∷ digits_of (suc (suc n)) (suc n)

-- The loop of ParseUint: a value past 64 bits is refused at its digit.
unfoldable pub scan : ℕ → Bytes → Result ℕ
scan n [] = ok n
scan n (c ∷ s) =
    if ltb c b'0' || ltb b'9' c
    then err "invalid syntax"
    else if ltb max_uint64 (n * 10 + (c - b'0'))
    then err "value out of range"
    else scan (n * 10 + (c - b'0')) s

unfoldable pub parse_uint : Bytes → Result ℕ
unfolding scan
parse_uint [] = err "invalid syntax"
parse_uint (c ∷ s) = scan 0 (c ∷ s)

abbrev pub negated : ℕ → ℤ
negated zero = pos 0
negated (suc n) = negsuc n

-- The bounds of an int64, once the sign is off.
unfoldable pub with_sign : Bool → Result ℕ → Result ℤ
with_sign neg (err e) = err e
with_sign true (ok un) = if ltb (2 ^ 63) un then err "value out of range" else ok (negated un)
with_sign false (ok un) = if ltb un (2 ^ 63) then ok (pos un) else err "value out of range"

unfoldable pub parse_int : Bytes → Result ℤ
unfolding parse_uint with_sign
parse_int [] = err "invalid syntax"
parse_int (c ∷ s) =
    if c == b'+'
    then with_sign false (parse_uint s)
    else if c == b'-'
    then with_sign true (parse_uint s)
    else with_sign false (parse_uint (c ∷ s))
