-- ===== src/Lifecycle/Envelope.antt =====
-- internal/lifecycle/journal.go: the checksummed envelope, 4 bytes of length, the payload, and 4
-- bytes of CRC-32C.
pub mod Laws
use stream_hive.Common.{
  ℕ, ◌+◌, ◌-◌, ◌^◌, Bool, ◌||◌, not, List, [], ◌∷◌, ◌++◌, ok, err, fail_if, ◌>>=◌, ◌>>◌, ltb, ◌==◌,
  length, take, drop,
}
use stream_hive.Common.Bytes.{Bytes, put_uint32, uint32}
use stream_hive.Std.Crc32.{checksum}
use stream_hive.Errors
use stream_hive.Errors.{Error, Fallible}

-- the bytes that `encodeEnvelope` fills in
unfoldable pub envelope : Bytes → Bytes
envelope payload = put_uint32 (length payload) ++ payload ++ put_uint32 (checksum payload)

unfoldable pub encode_envelope : Bytes → Fallible Bytes
unfolding envelope
encode_envelope payload = do
  fail_if (length payload == 0 || ltb (2 ^ 32 - 1) (length payload)) Error.record_too_large
  ok (envelope payload)

-- `decodeEnvelope`: the payload, and the offset behind the envelope
unfoldable pub decode_envelope : Bytes → ℕ → ℕ → Error → Error → Fallible (Bytes × ℕ)
decode_envelope bytes offset max corrupt mismatch = do
  fail_if (ltb (length bytes) offset || ltb (length bytes - offset) 4) corrupt
  let rest = drop offset bytes
  let size = uint32 (take 4 rest)
  fail_if (size == 0 || ltb max size) corrupt
  let total = 4 + size + 4
  fail_if (ltb (length bytes - offset) total) corrupt
  let payload = take size (drop 4 rest)
  let want = uint32 (take 4 (drop (4 + size) rest))
  fail_if (not (checksum payload == want)) mismatch
  ok (payload, offset + total)
