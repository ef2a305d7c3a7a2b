-- ===== src/Lifecycle/Transport.antt =====
-- internal/lifecycle/transport.go: the envelope of one record, and the capabilities of a peer.
pub mod RoundTrip
use stream_hive.Common.{
  ℕ, ◌*◌, ◌^◌, ◌||◌, Bool, true, false, Option, none, some, List, [], ◌∷◌, ok, err, fail_if, ◌>>=◌,
  ◌>>◌, not, length, ltb, if◌then◌else◌,
}
use stream_hive.Common.Bytes.{Bytes, bytes_equal}
use stream_hive.Std.Json.{Json, JsonFailure, first_value, second_value, bad_rest}
use stream_hive.Std.Unicode.{Unicode}
use stream_hive.Errors
use stream_hive.Errors.{Error, Fallible}
use stream_hive.Lifecycle.Records.{Limits, normalized, or_default, Record, validate}

-- "lifecycle.v1"
abbrev pub lifecycle_capability : Bytes
lifecycle_capability =
    b'l' ∷ b'i' ∷ b'f' ∷ b'e' ∷ b'c' ∷ b'y' ∷ b'c' ∷ b'l' ∷ b'e' ∷ b'.' ∷ b'v' ∷ b'1' ∷ []

-- "lifecycle.repair-reconcile.v1"
abbrev pub reconcile_capability : Bytes
reconcile_capability =
    b'l' ∷ b'i' ∷ b'f' ∷ b'e' ∷ b'c' ∷ b'y' ∷ b'c' ∷ b'l' ∷ b'e' ∷ b'.' ∷ b'r' ∷ b'e' ∷ b'p' ∷ b'a'
    ∷ b'i' ∷ b'r' ∷ b'-' ∷ b'r' ∷ b'e' ∷ b'c' ∷ b'o' ∷ b'n' ∷ b'c' ∷ b'i' ∷ b'l' ∷ b'e' ∷ b'.'
    ∷ b'v' ∷ b'1' ∷ []

-- "lifecycle.record"
abbrev pub record_type : Bytes
record_type =
    b'l' ∷ b'i' ∷ b'f' ∷ b'e' ∷ b'c' ∷ b'y' ∷ b'c' ∷ b'l' ∷ b'e' ∷ b'.' ∷ b'r' ∷ b'e' ∷ b'c' ∷ b'o'
    ∷ b'r' ∷ b'd' ∷ []

pub record TransportLimits : Type 0 where
  pub max_payload_bytes : ℕ
  pub record_limits : Limits

unfoldable pub transport_normalized : TransportLimits → TransportLimits
unfolding normalized
transport_normalized l = record {
  max_payload_bytes = or_default l.max_payload_bytes (128 * 2 ^ 10);
  record_limits = normalized l.record_limits;
}

pub record RecordEnvelope : Type 0 where
  pub kind : Bytes
  pub record_of : Record

-- the loop of both capability tests
unfoldable pub has_capability : Bytes → List Bytes → Bool
has_capability wanted [] = false
has_capability wanted (c ∷ cs) = bytes_equal c wanted || has_capability wanted cs

unfoldable pub has_lifecycle_capability : List Bytes → Bool
unfolding has_capability
has_lifecycle_capability cs = has_capability lifecycle_capability cs

unfoldable pub has_repair_reconciliation_capability : List Bytes → Bool
unfolding has_capability
has_repair_reconciliation_capability cs = has_capability reconcile_capability cs

-- the error for bytes that the decoder refuses
abbrev envelope_failure : JsonFailure → Error
envelope_failure first_value = Error.join Error.envelope_malformed Error.json
envelope_failure second_value = Error.join Error.envelope_malformed Error.envelope_trailing_data
envelope_failure bad_rest =
    Error.join (Error.join Error.envelope_malformed Error.envelope_trailing_data) Error.json

module _ ⦃u : Unicode⦄ ⦃json : Json Record⦄ ⦃envelopes : Json RecordEnvelope⦄ where
  unfoldable pub encode_record : Record → TransportLimits → Fallible Bytes
  unfolding transport_normalized
  encode_record r l = do
    let limits = transport_normalized l
    validate r limits.record_limits
    let payload = envelopes.marshal (record { kind = record_type; record_of = r })
    fail_if (ltb limits.max_payload_bytes (length payload)) Error.payload_too_large
    ok payload

  -- the strict decoder
  abbrev opened_envelope : Bytes → Fallible RecordEnvelope
  opened_envelope payload = elim (envelopes.unmarshal payload) [
    | some e ↦ ok e
    | none ↦ err (envelope_failure (envelopes.failure payload))
  ]

  abbrev malformed : Fallible Unit → Fallible Unit
  malformed (ok t) = ok t
  malformed (err e) = err (Error.join Error.envelope_malformed e)

  unfoldable pub decode_record : Bytes → TransportLimits → Fallible Record
  unfolding transport_normalized
  decode_record payload l = do
    let limits = transport_normalized l
    fail_if (ltb limits.max_payload_bytes (length payload)) Error.payload_too_large
    e ← opened_envelope payload
    fail_if (not (bytes_equal e.kind record_type)) Error.message_type
    malformed (validate e.record_of limits.record_limits)
    ok e.record_of

  unfoldable pub decode_record_for_peer : Bytes → List Bytes → TransportLimits → Fallible Record
  unfolding decode_record has_lifecycle_capability
  decode_record_for_peer payload capabilities l = do
    fail_if (not (has_lifecycle_capability capabilities)) Error.capability_required
    decode_record payload l
