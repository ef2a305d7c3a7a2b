-- ===== src/Std/Crc32.antt =====
-- hash/crc32 with the Castagnoli table (`crcTable` of internal/lifecycle/journal.go), bit by bit.
use Prim.Native.Nat.{bit_xor}
use stream_hive.Common.{ℕ, zero, suc, ◌/◌, ◌%◌, ◌^◌, ◌<◌, [], ◌∷◌, arith}
use stream_hive.Common.{◌==◌, if◌then◌else◌}
use stream_hive.Common.Bytes.{Bytes}

shift_bits : ℕ → ℕ → ℕ
shift_bits zero c = c
shift_bits (suc n) c = shift_bits n (if c % 2 == 1 then bit_xor (c / 2) 0x82f63b78 else c / 2)

update : ℕ → Bytes → ℕ
unfolding shift_bits
update c [] = c
update c (b ∷ bs) = update (shift_bits 8 (bit_xor c b)) bs

-- `crc32.Checksum(data, crcTable)`: a uint32
unfoldable pub checksum : Bytes → ℕ
unfolding update
checksum bs = bit_xor (update 0xffffffff bs) 0xffffffff % 2 ^ 32

pub checksum-lt : (bs : Bytes) → checksum bs < 2 ^ 32
unfolding checksum
checksum-lt bs = omega arith
