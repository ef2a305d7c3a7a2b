-- ===== src/Replication/Protocol.antt =====
-- replication/protocol.go: the messages about blobs, their limits, and the application of a blob that
-- a peer sent. A limit of zero stands for any that is not positive.
pub mod Laws
use stream_hive.Common.{
  ℕ, ◌+◌, ◌*◌, ◌^◌, Bool, true, false, Option, none, some, List, [], ◌∷◌, ok, err, check, fail_if,
  ◌>>=◌, ◌>>◌, length, ltb, ◌==◌, if◌then◌else◌,
}
use stream_hive.Common.Bytes.{Bytes}
use stream_hive.Std.Json.{Json}
use stream_hive.Std.Sha256.{Sha256}
use stream_hive.Context.{Ctx}
use stream_hive.Errors
use stream_hive.Errors.{Error, Fallible}
use stream_hive.Storage.Blobs.{BlobStore}
use stream_hive.Storage.Hash.{validate_sha256_key, verify_sha256_key}

-- the field `type`: the five types, and any other string
pub data MessageType : Type 0 where
  blob_put blob_has blob_get blob_missing blob_ack : MessageType
  other_type : Bytes → MessageType

pub record Limits : Type 0 where
  pub max_key_bytes : ℕ
  pub max_keys : ℕ
  pub max_data_bytes : ℕ
  pub max_repair_bytes : ℕ

-- a nil slice is the empty one
pub record Message : Type 0 where
  pub kind : MessageType
  pub key : Bytes
  pub keys : List Bytes
  pub content : Bytes

abbrev positive_or : ℕ → ℕ → ℕ
positive_or value default = if value == 0 then default else value

unfoldable pub normalize_limits : Limits → Limits
normalize_limits l = record {
  max_key_bytes = positive_or l.max_key_bytes 512;
  max_keys = positive_or l.max_keys 4096;
  max_data_bytes = positive_or l.max_data_bytes (4 * 2 ^ 20);
  max_repair_bytes = positive_or l.max_repair_bytes (64 * 2 ^ 20);
}

unfoldable pub validate_key : Bytes → Limits → Fallible Unit
validate_key key l = do
  fail_if (length key == 0) Error.message_key_empty
  fail_if (ltb l.max_key_bytes (length key)) Error.message_key_too_large

-- the loop of `validateKeys`
unfoldable pub validate_each : List Bytes → Limits → Fallible Unit
unfolding validate_key
validate_each [] l = ok tt
validate_each (k ∷ ks) l = do validate_key k l; validate_each ks l

unfoldable pub validate_keys : List Bytes → Limits → Fallible Unit
unfolding validate_each
validate_keys keys l = do
  fail_if (length keys == 0) Error.message_keys_empty
  fail_if (ltb l.max_keys (length keys)) Error.too_many_keys
  validate_each keys l

unfoldable pub validate_blob_put : Message → Limits → Fallible Unit
unfolding validate_key
validate_blob_put m l = do
  validate_key m.key l
  fail_if (ltb l.max_data_bytes (length m.content)) Error.data_too_large

-- the switch of `Decode`
unfoldable pub validate_message : Message → Limits → Fallible Unit
unfolding validate_blob_put validate_keys
validate_message m l = elim m.kind [
  | blob_put ↦ validate_blob_put m l
  | blob_get ↦ validate_key m.key l
  | blob_ack ↦ validate_key m.key l
  | blob_has ↦ validate_keys m.keys l
  | blob_missing ↦ validate_keys m.keys l
  | other_type t ↦ err Error.unknown_message_type
]

abbrev pub key_message : MessageType → Bytes → Message
key_message kind key = record { kind = kind; key = key; keys = []; content = [] }

module _ ⦃messages : Json Message⦄ where
  unfoldable pub encode_blob_put : Bytes → Bytes → Limits → Fallible Bytes
  unfolding validate_blob_put normalize_limits
  encode_blob_put key content l = do
    let m : Message = record { kind = blob_put; key = key; keys = []; content = content }
    validate_blob_put m (normalize_limits l)
    ok (messages.marshal m)

  unfoldable pub encode_key_list_message : MessageType → List Bytes → Limits → Fallible Bytes
  unfolding validate_keys normalize_limits
  encode_key_list_message kind keys l = do
    let m : Message = record { kind = kind; key = []; keys = keys; content = [] }
    validate_keys m.keys (normalize_limits l)
    ok (messages.marshal m)

  unfoldable pub encode_blob_has : List Bytes → Limits → Fallible Bytes
  unfolding encode_key_list_message
  encode_blob_has keys l = encode_key_list_message blob_has keys l

  unfoldable pub encode_blob_missing : List Bytes → Limits → Fallible Bytes
  unfolding encode_key_list_message
  encode_blob_missing keys l = encode_key_list_message blob_missing keys l

  unfoldable pub encode_blob_get : Bytes → Limits → Fallible Bytes
  unfolding validate_key normalize_limits
  encode_blob_get key l = do
    validate_key key (normalize_limits l)
    ok (messages.marshal (key_message blob_get key))

  unfoldable pub encode_blob_ack : Bytes → Limits → Fallible Bytes
  unfolding validate_key normalize_limits
  encode_blob_ack key l = do
    validate_key key (normalize_limits l)
    ok (messages.marshal (key_message blob_ack key))

  abbrev parsed : Option Message → Fallible Message
  parsed (some m) = ok m
  parsed none = err (Error.wrap Error.json)

  -- the copies of the slices are the identity on values
  unfoldable pub decode : Bytes → Limits → Fallible Message
  unfolding validate_message normalize_limits
  decode payload l = do
    m ← parsed (messages.unmarshal payload)
    validate_message m (normalize_limits l)
    ok m

-- only a key of 32 bytes is a content key
unfoldable pub verify_content_key : ⦃sha : Sha256⦄ → Bytes → Bytes → Fallible Unit
unfolding validate_sha256_key
verify_content_key key content = elim (validate_sha256_key key) [
  | err _ ↦ ok tt
  | ok _ ↦ verify_sha256_key key content
]

abbrev is_put : MessageType → Bool
is_put blob_put = true
is_put _ = false

-- `Apply` up to the `Put`
unfoldable pub apply_checks :
    ⦃sha : Sha256⦄ → ⦃messages : Json Message⦄ → Bytes → Limits → Fallible Message
unfolding decode verify_content_key
apply_checks payload l = do
  m ← decode payload l
  if is_put m.kind then (do verify_content_key m.key m.content; ok m) else err Error.not_applicable

module _ {S : Type 0} ⦃blob : BlobStore S⦄ ⦃sha : Sha256⦄ ⦃messages : Json Message⦄ where
  -- a nil store is none
  unfoldable pub apply : Option Error → Ctx → Option S → Bytes → Limits → Fallible Unit × Option S
  unfolding apply_checks
  apply entry put none payload l = (do check entry; err Error.nil_store, none)
  apply entry put (some s) payload l = elim (do check entry; apply_checks payload l) [
    | err e ↦ (err e, some s)
    | ok m ↦ let stored = blob.put put m.key m.content s in (stored.0, some stored.1)
  ]
