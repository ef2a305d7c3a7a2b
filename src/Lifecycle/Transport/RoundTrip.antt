-- ===== src/Lifecycle/Transport/RoundTrip.antt =====
-- A record crosses the wire to a peer that negotiated the capability, and to no other.
use stream_hive.Common.{◌≤◌, ◌≡◌, some, List, ok, err, arith, length, if◌then◌else◌}
use stream_hive.Common.Bytes.{Bytes, bytes_equal_iff}
use stream_hive.Std.Json.{Json}
use stream_hive.Std.Unicode.{Unicode}
use stream_hive.Errors.{Error}
use stream_hive.Lifecycle.Records.{Record, validate}
use stream_hive.Lifecycle.Transport.{
  TransportLimits, transport_normalized, RecordEnvelope, record_type, has_lifecycle_capability,
  encode_record, decode_record, decode_record_for_peer,
}

module _ ⦃u : Unicode⦄ ⦃json : Json Record⦄ ⦃envelopes : Json RecordEnvelope⦄ where
  -- What `EncodeRecord` wrote, `DecodeRecordForPeer` reads back as the same valid record for a peer
  -- that negotiated lifecycle.v1, and refuses for every other peer (if the envelope's JSON reads
  -- back).
  pub decode_record_for_peer-encode_record :
      (r : Record) (l : TransportLimits) (payload : Bytes) (capabilities : List Bytes)
      → envelopes.unmarshal (envelopes.marshal (record { kind = record_type; record_of = r }))
        ≡ some (record { kind = record_type; record_of = r })
      → encode_record r l ≡ ok payload
      → (decode_record_for_peer payload capabilities l
          ≡ (if has_lifecycle_capability capabilities then ok r else err Error.capability_required))
        × (validate r (transport_normalized l).record_limits ≡ ok tt)
        × (length payload ≤ (transport_normalized l).max_payload_bytes)
  unfolding encode_record decode_record_for_peer decode_record has_lifecycle_capability
  decode_record_for_peer-encode_record r l payload capabilities back h =
      (ground (arith, back, bytes_equal_iff record_type record_type), ground arith, ground arith)
