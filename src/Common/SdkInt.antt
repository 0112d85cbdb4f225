-- ===== src/Common/SdkInt.antt =====
-- The Cosmos SDK's Int and Dec: numbers of at most 255 and 315 bits, with a panic where a big integer, a
-- sum or a product is above.
use oppy_bridge.Common.{ℕ, ◌^◌, ◌<◌, ◌≡◌, ltb, if◌then◌else◌, lt→ltb}
use oppy_bridge.Common.Outcome.{Outcome, done, panics}

-- NewIntFromBigInt of a number that is not negative, and the check of a sum in Add.
unfoldable pub new_int : ℕ → Outcome ℕ
new_int n = if ltb n (2 ^ 255) then done n else panics

pub new_int_fits : (n : ℕ) → n < 2 ^ 255 → new_int n ≡ done n
unfolding new_int
new_int_fits n h = rw (lt→ltb n (2 ^ 255) h, new_int)

-- The check of a product in Dec's Mul, on the number that stands for it with its 18 places.
unfoldable pub new_dec : ℕ → Outcome ℕ
new_dec n = if ltb n (2 ^ 315) then done n else panics

pub new_dec_fits : (n : ℕ) → n < 2 ^ 315 → new_dec n ≡ done n
unfolding new_dec
new_dec_fits n h = rw (lt→ltb n (2 ^ 315) h, new_dec)
