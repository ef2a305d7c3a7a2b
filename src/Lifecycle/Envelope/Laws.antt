-- ===== src/Lifecycle/Envelope/Laws.antt =====
-- Envelopes round trip, wherever they stand.
use stream_hive.Common.{
  ℕ, ◌+◌, ◌^◌, ◌≤◌, ◌<◌, ◌≡◌, ◌↔◌, ap, ◌∙◌, ◌++◌, ok, arith, length, take, drop, length-append,
  take-append, drop-append, append_assoc, drop-drop,
}
use stream_hive.Common.Bytes.{Bytes, put_uint32, uint32, length-put_uint32, uint32-put_uint32}
use stream_hive.Std.Crc32.{checksum, checksum-lt}
use stream_hive.Errors.{Error}
use stream_hive.Lifecycle.Envelope.{envelope, encode_envelope, decode_envelope}

pub length-envelope : (payload : Bytes) → length (envelope payload) ≡ length payload + 8
unfolding envelope put_uint32
length-envelope payload = omega (
  arith,
  length-append (put_uint32 (length payload)) (payload ++ put_uint32 (checksum payload)),
  length-append payload (put_uint32 (checksum payload)),
  length-put_uint32 (length payload),
  length-put_uint32 (checksum payload),
)

pub uint32-envelope :
    (payload : Bytes) → length payload < 2 ^ 32 → uint32 (envelope payload) ≡ length payload
unfolding envelope put_uint32 uint32
uint32-envelope payload small = uint32-put_uint32 (length payload) small

-- the three parts of an envelope that others follow
module _ (payload rest : Bytes) (small : length payload < 2 ^ 32) where
  pub envelope_size : uint32 (take 4 (envelope payload ++ rest)) ≡ length payload
  unfolding envelope put_uint32
  envelope_size = uint32-put_uint32 (length payload) small

  pub envelope_payload : take (length payload) (drop 4 (envelope payload ++ rest)) ≡ payload
  unfolding envelope put_uint32
  envelope_payload =
      ap (take (length payload)) (append_assoc payload (put_uint32 (checksum payload)) rest)
      ∙ take-append payload (put_uint32 (checksum payload) ++ rest)

  pub envelope-checksum :
      uint32 (take 4 (drop (4 + length payload) (envelope payload ++ rest))) ≡ checksum payload
  unfolding envelope put_uint32
  envelope-checksum =
      ap (λ (bs : Bytes). uint32 (take 4 bs)) tail
      ∙ uint32-put_uint32 (checksum payload) (checksum-lt payload)
    where
      tail :
          drop (4 + length payload) (envelope payload ++ rest)
          ≡ put_uint32 (checksum payload) ++ rest
      tail =
          drop-drop 4 (length payload) (envelope payload ++ rest)
          ∙ ap (drop (length payload)) (append_assoc payload (put_uint32 (checksum payload)) rest)
          ∙ drop-append payload (put_uint32 (checksum payload) ++ rest)

-- what `encodeEnvelope` accepts, and what it writes
pub encode_envelope_iff :
    (payload bytes : Bytes)
    → (encode_envelope payload ≡ ok bytes)
      ↔ ((0 < length payload) × (length payload < 2 ^ 32) × (bytes ≡ envelope payload))
unfolding encode_envelope
encode_envelope_iff payload bytes = ground arith

decode_at :
    (payload whole rest : Bytes) (offset max : ℕ) (corrupt mismatch : Error)
    → drop offset whole ≡ envelope payload ++ rest
    → length whole ≡ offset + length (envelope payload ++ rest)
    → 0 < length payload
    → length payload < 2 ^ 32
    → length payload ≤ max
    → decode_envelope whole offset max corrupt mismatch
      ≡ ok (payload, offset + length (envelope payload))
unfolding decode_envelope
decode_at payload whole rest offset max corrupt mismatch at long pos small fits = ground (
  arith,
  envelope_size payload rest small,
  envelope_payload payload rest small,
  envelope-checksum payload rest small,
  length-envelope payload,
  length-append (envelope payload) rest,
)

-- `decodeEnvelope` reads back the payload that `encodeEnvelope` wrote, at whatever offset the
-- envelope stands and whatever follows it, and returns the offset behind it.
pub decode_envelope-encode_envelope :
    (before payload bytes rest : Bytes) (max : ℕ) (corrupt mismatch : Error)
    → encode_envelope payload ≡ ok bytes
    → length payload ≤ max
    → decode_envelope (before ++ bytes ++ rest) (length before) max corrupt mismatch
      ≡ ok (payload, length before + length bytes)
decode_envelope-encode_envelope before payload bytes rest max corrupt mismatch written fits =
    let (pos, small, shape) = (encode_envelope_iff payload bytes).0 written in
    rw (shape, append_assoc)
      (decode_at payload _ rest (length before) max corrupt mismatch
        (drop-append before (envelope payload ++ rest))
        (length-append before (envelope payload ++ rest)) pos small fits)
