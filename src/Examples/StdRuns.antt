-- ===== src/Examples/StdRuns.antt =====
-- Runs of the checksum and of the UTF-8 scanner.
use stream_hive.Common.{◌≡◌, refl, some, none, [], ◌∷◌}
use stream_hive.Std.Crc32.{checksum}
use stream_hive.Std.Utf8.{runes}

-- the check value of CRC-32C: the checksum of "123456789"
checksum_vector :
    checksum (b'1' ∷ b'2' ∷ b'3' ∷ b'4' ∷ b'5' ∷ b'6' ∷ b'7' ∷ b'8' ∷ b'9' ∷ []) ≡ 0xe3069283
unfolding checksum
checksum_vector = refl

runes_of_two : runes (0x41 ∷ 0xe2 ∷ 0x82 ∷ 0xac ∷ []) ≡ some (0x41 ∷ 0x20ac ∷ [])
unfolding runes
runes_of_two = refl

surrogate_is_invalid : runes (0xed ∷ 0xa0 ∷ 0x80 ∷ []) ≡ none
unfolding runes
surrogate_is_invalid = refl
