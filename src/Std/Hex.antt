-- ===== src/Std/Hex.antt =====
-- encoding/hex: `EncodeToString` with its lowercase digits, and `DecodeString`, which reads both
-- cases and answers with an error for an odd length or another digit.
use stream_hive.Common.{
  ℕ, ◌+◌, ◌-◌, ◌*◌, ◌/◌, ◌%◌, ◌<◌, ◌≡◌, refl, ◌&&◌, Option, none, some, [], ◌∷◌, arith, length, ltb,
  leb, if◌then◌else◌, All, Option-cases, inl, inr,
}
use stream_hive.Common.Bytes.{Bytes}

unfoldable pub hex_digit : ℕ → ℕ
hex_digit n = if ltb n 10 then b'0' + n else b'a' + (n - 10)

unfoldable pub encode_hex : Bytes → Bytes
unfolding hex_digit
encode_hex [] = []
encode_hex (b ∷ bs) = hex_digit (b / 16) ∷ hex_digit (b % 16) ∷ encode_hex bs

unfoldable pub hex_value : ℕ → Option ℕ
hex_value c =
    if leb b'0' c && leb c b'9'
    then some (c - b'0')
    else if leb b'a' c && leb c b'f'
    then some (c - b'a' + 10)
    else if leb b'A' c && leb c b'F'
    then some (c - b'A' + 10)
    else none

-- one byte in front of what the rest gives
abbrev with_byte : Option ℕ → Option ℕ → Option Bytes → Option Bytes
with_byte (some high) (some low) (some bs) = some ((high * 16 + low) ∷ bs)
with_byte (some high) (some low) none = none
with_byte (some high) none rest = none
with_byte none low rest = none

unfoldable pub decode_hex : Bytes → Option Bytes
unfolding hex_value
decode_hex [] = some []
decode_hex (c ∷ []) = none
decode_hex (c ∷ d ∷ cs) = with_byte (hex_value c) (hex_value d) (decode_hex cs)

hex_value-hex_digit : (n : ℕ) → n < 16 → hex_value (hex_digit n) ≡ some n
unfolding hex_value hex_digit
hex_value-hex_digit n h = ground arith

-- Bytes written as digits are read back.
pub decode_hex-encode_hex :
    (bs : Bytes) → All (λ b. b < 256) bs → decode_hex (encode_hex bs) ≡ some bs
unfolding decode_hex encode_hex
decode_hex-encode_hex [] h = refl
decode_hex-encode_hex (b ∷ bs) (small, h) =
    rw
      (
        hex_value-hex_digit (b / 16) (omega arith),
        hex_value-hex_digit (b % 16) (omega arith),
        decode_hex-encode_hex bs h,
      )
      (ground arith)

pub length-encode_hex : (bs : Bytes) → length (encode_hex bs) ≡ 2 * length bs
unfolding encode_hex
length-encode_hex [] = refl
length-encode_hex (b ∷ bs) = omega (arith, length-encode_hex bs)

-- Two digits are read for each byte.
pub length-decode_hex : (cs bs : Bytes) → decode_hex cs ≡ some bs → length cs ≡ 2 * length bs
unfolding decode_hex
length-decode_hex [] bs h = ground arith
length-decode_hex (c ∷ []) bs h = ground arith
length-decode_hex (c ∷ d ∷ cs) bs h = elim (Option-cases (decode_hex cs)) [
  | inl e ↦ absurd (ground arith)
  | inr (rest, e) ↦ ground (arith, length-decode_hex cs rest e)
]
