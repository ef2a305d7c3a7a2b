-- ===== src/Lifecycle/JournalFile/Header.antt =====
-- The journal header round trips.
use stream_hive.Common.{ℕ, ◌^◌, ◌<◌, ◌≡◌, refl, [], ok, arith, length, append-nil}
use stream_hive.Common.Bytes.{
  bytes_equal, put_uint64, uint64, put_uint32, uint32-put_uint32, uint64-append,
}
use stream_hive.Std.Crc32.{checksum, checksum-lt}
use stream_hive.Lifecycle.Version.{Version}
use stream_hive.Lifecycle.JournalFile.{header_front, encode_journal_header, decode_journal_header}

-- both words of a version are Go's uint64
pub record IsU64Version (v : Version) : Type 0 where
  pub epoch : v.epoch < 2 ^ 64
  pub sequence : v.sequence < 2 ^ 64

pub length-header : (v : Version) → length (encode_journal_header v) ≡ 28
unfolding encode_journal_header put_uint64 put_uint32
length-header v = refl

uint64-put_uint64 : (v : ℕ) → v < 2 ^ 64 → uint64 (put_uint64 v) ≡ v
uint64-put_uint64 v h = rw (append-nil) at (uint64-append v [] h)

-- `decodeJournalHeader` reads back the floor that `encodeJournalHeader` wrote.
pub decode-encode_journal_header :
    (floor : Version)
    → IsU64Version floor
    → decode_journal_header (encode_journal_header floor) ≡ ok floor
unfolding decode_journal_header encode_journal_header put_uint64 put_uint32 bytes_equal
decode-encode_journal_header floor h = ground (
  arith,
  uint32-put_uint32 (checksum (header_front floor)) (checksum-lt (header_front floor)),
  uint64-put_uint64 floor.epoch h.epoch,
  uint64-put_uint64 floor.sequence h.sequence,
)
