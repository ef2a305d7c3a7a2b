-- ===== src/Examples/TransportRuns.antt =====
-- The theorem about the record envelope, at a concrete input.
use stream_hive.Common.{◌≡◌, refl, some, [], ◌∷◌, List, Option, none, ℕ, ok, take, drop}
use stream_hive.Common.Bytes.{Bytes}
use stream_hive.Std.Json.{Json, first_value}
use stream_hive.Std.Utf8.{runes}
use stream_hive.Lifecycle.Version.{is_zero, same_version}
use stream_hive.Lifecycle.Records.{
  Record, validate, validate_authority_id, is_printable, all_print, check_blob_key, normalized,
}
use stream_hive.Lifecycle.Transport.{
  TransportLimits, RecordEnvelope, record_type, transport_normalized, encode_record,
}
use stream_hive.Examples.Codec.{ascii, record_codec, put_text}
use stream_hive.Examples.Samples.{limits, first}

abbrev with_kind : Bytes → Option Record → Option RecordEnvelope
with_kind kind none = none
with_kind kind (some r) = some (record { kind = kind; record_of = r })

abbrev get_envelope : List ℕ → Option RecordEnvelope
get_envelope [] = none
get_envelope (n ∷ xs) = with_kind (take n xs) (record_codec.unmarshal (drop n xs))

instance abbrev envelope_codec : Json RecordEnvelope
envelope_codec = record {
  marshal = λ e. put_text e.kind (record_codec.marshal e.record_of);
  unmarshal = get_envelope;
  failure = λ bs. first_value;
}

abbrev wire : TransportLimits
wire = record { max_payload_bytes = 500; record_limits = limits }

abbrev payload : Bytes
payload = envelope_codec.marshal (record { kind = record_type; record_of = first })

sent : encode_record first wire ≡ ok payload
unfolding encode_record transport_normalized normalized validate validate_authority_id is_printable
    all_print runes check_blob_key is_zero same_version
sent = refl
