-- ===== src/Hex.antt =====
-- encoding/hex, which names a transaction by the text of its hash (pubchain/tx_inbound.go).
use oppy_bridge.Common.{
  ℕ, ◌+◌, ◌-◌, ◌*◌, ◌/◌, ◌%◌, ◌<◌, ◌≡◌, refl, ◌&&◌, [], ◌∷◌, arith, leb, ltb, if◌then◌else◌, All,
}
use oppy_bridge.Common.Result.{Result, ok, err, ◌>>=◌}
use oppy_bridge.External.{Bytes}

hex_digit : ℕ → ℕ
hex_digit d = if ltb d 10 then b'0' + d else (b'a' + d) - 10

-- hex.EncodeToString
unfoldable pub hex_encode : Bytes → Bytes
unfolding hex_digit
hex_encode [] = []
hex_encode (b ∷ bs) = hex_digit (b / 16) ∷ hex_digit (b % 16) ∷ hex_encode bs

from_hex_digit : ℕ → Result ℕ
from_hex_digit c =
    if leb b'0' c && leb c b'9'
    then ok (c - b'0')
    else if leb b'a' c && leb c b'f'
    then ok (c + 10 - b'a')
    else if leb b'A' c && leb c b'F'
    then ok (c + 10 - b'A')
    else err "encoding/hex: invalid byte"

-- hex.DecodeString
unfoldable pub hex_decode : Bytes → Result Bytes
unfolding from_hex_digit
hex_decode [] = ok []
hex_decode (c ∷ []) = err "encoding/hex: odd length hex string"
hex_decode (c ∷ d ∷ cs) = do
  hi ← from_hex_digit c
  lo ← from_hex_digit d
  rest ← hex_decode cs
  ok ((hi * 16 + lo) ∷ rest)

from_hex_digit-hex_digit : (d : ℕ) → d < 16 → from_hex_digit (hex_digit d) ≡ ok d
unfolding from_hex_digit hex_digit
from_hex_digit-hex_digit d h = ground arith

-- Decoding takes the text of any bytes back to them.
pub hex_decode-hex_encode :
    (bs : Bytes) → All (λ b. b < 256) bs → hex_decode (hex_encode bs) ≡ ok bs
unfolding hex_decode hex_encode
hex_decode-hex_encode [] h = refl
hex_decode-hex_encode (b ∷ bs) h =
    rw
      (
        from_hex_digit-hex_digit (b / 16) (omega arith),
        from_hex_digit-hex_digit (b % 16) (omega arith),
        hex_decode-hex_encode bs h.1,
      )
      (ground arith)
