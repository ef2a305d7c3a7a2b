-- ===== src/Examples/ReplicationRuns.antt =====
-- The theorems about the messages of the replication protocol, at concrete inputs.
use stream_hive.Common.{
  ℕ, ◌≡◌, refl, ◌≤◌, ◌⊎◌, ◌↔◌, Option, none, some, List, [], ◌∷◌, ok, err, length, take-append,
  drop-append, ◌==◌, if◌then◌else◌, ◌>>=◌, ◌≢◌,
}
use stream_hive.Common.Bytes.{Bytes}
use stream_hive.Std.Json.{Json, first_value}
use stream_hive.Context.{background}
use stream_hive.Errors.{Error}
use stream_hive.Replication.Protocol.{
  MessageType, blob_put, blob_has, blob_get, blob_missing, blob_ack, other_type, Limits, Message,
  normalize_limits, encode_blob_put, encode_blob_has, encode_blob_missing, encode_blob_get,
  encode_blob_ack, decode, apply,
}
use stream_hive.Replication.Protocol.Laws.{Within, IsKey, decode_iff, decode-encode, apply-cases}
use stream_hive.Examples.Codec.{put_text}
use stream_hive.Examples.Texts.{front, rest_of, put_texts, get_texts, get_texts-put_texts}
use stream_hive.Examples.Replica.{toy_hash, list_tree, blobs}
use stream_hive.Storage.Memory.{memory_blobs}

abbrev put_type : MessageType → List ℕ
put_type blob_put = 0 ∷ []
put_type blob_has = 1 ∷ []
put_type blob_get = 2 ∷ []
put_type blob_missing = 3 ∷ []
put_type blob_ack = 4 ∷ []
put_type (other_type t) = 5 ∷ t

abbrev get_type : List ℕ → MessageType
get_type [] = blob_put
get_type (k ∷ t) =
    if k == 0
    then blob_put
    else if k == 1
    then blob_has
    else if k == 2
    then blob_get
    else if k == 3
    then blob_missing
    else if k == 4
    then blob_ack
    else other_type t

get_type-put_type : (k : MessageType) → get_type (put_type k) ≡ k
get_type-put_type blob_put = refl
get_type-put_type blob_has = refl
get_type-put_type blob_get = refl
get_type-put_type blob_missing = refl
get_type-put_type blob_ack = refl
get_type-put_type (other_type t) = refl

abbrev get_message : List ℕ → Option Message
get_message [] = none
get_message (n ∷ xs) =
    let a = rest_of xs in
    let b = rest_of a in
    some (record {
      kind = get_type (front xs);
      key = front a;
      keys = get_texts n (rest_of b);
      content = front b;
    })

instance abbrev pub message_codec : Json Message
message_codec = record {
  marshal = λ m.
      length m.keys
      ∷ put_text (put_type m.kind) (put_text m.key (put_text m.content (put_texts m.keys)));
  unmarshal = get_message;
  failure = λ bs. first_value;
}

message_codec_back : (m : Message) → message_codec.unmarshal (message_codec.marshal m) ≡ some m
message_codec_back m =
    simp (take-append, drop-append, get_texts-put_texts m.keys, get_type-put_type m.kind)

abbrev pub wire : Limits
wire = record { max_key_bytes = 4; max_keys = 2; max_data_bytes = 0; max_repair_bytes = 0 }

abbrev key : Bytes
key = b'k' ∷ []

abbrev value : Bytes
value = b'v' ∷ []

abbrev message : Message
message = record { kind = blob_put; key = key; keys = []; content = value }

abbrev payload : Bytes
payload = message_codec.marshal message

decode_iff_example :
    (decode payload wire ≡ ok message)
    ↔ ((message_codec.unmarshal payload ≡ some message) × Within (normalize_limits wire) message)
decode_iff_example = decode_iff payload wire message

decode-encode_example :
    ((do payload ← encode_blob_put key value wire; decode payload wire) ≡ (do
      _ ← encode_blob_put key value wire
      ok (record { kind = blob_put; key = key; keys = []; content = value })))
    × ((do payload ← encode_blob_has (key ∷ []) wire; decode payload wire) ≡ (do
      _ ← encode_blob_has (key ∷ []) wire
      ok (record { kind = blob_has; key = []; keys = key ∷ []; content = [] })))
    × ((do payload ← encode_blob_missing (key ∷ []) wire; decode payload wire) ≡ (do
      _ ← encode_blob_missing (key ∷ []) wire
      ok (record { kind = blob_missing; key = []; keys = key ∷ []; content = [] })))
    × ((do payload ← encode_blob_get key wire; decode payload wire) ≡ (do
      _ ← encode_blob_get key wire
      ok (record { kind = blob_get; key = key; keys = []; content = [] })))
    × ((do payload ← encode_blob_ack key wire; decode payload wire) ≡ (do
      _ ← encode_blob_ack key wire
      ok (record { kind = blob_ack; key = key; keys = []; content = [] })))
decode-encode_example = decode-encode wire key value (key ∷ []) (
  message_codec_back _,
  (
    message_codec_back _,
    (message_codec_back _, (message_codec_back _, (message_codec_back _, tt))),
  ),
)

apply-cases_example :
    ((e : Error) × (apply none background (some blobs) payload wire ≡ (err e, some blobs)))
    ⊎ ((m : Message) × (message_codec.unmarshal payload ≡ some m)
        × (m.kind ≡ blob_put)
        × IsKey (normalize_limits wire) m.key
        × (length m.content ≤ (normalize_limits wire).max_data_bytes)
        × ((length m.key ≢ 32) ⊎ (toy_hash.sum m.content ≡ m.key))
        × (apply none background (some blobs) payload wire ≡ (
          (memory_blobs.put background m.key m.content blobs).0,
          some (memory_blobs.put background m.key m.content blobs).1,
        )))
apply-cases_example = apply-cases none background blobs payload wire
