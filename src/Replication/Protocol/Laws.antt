-- ===== src/Replication/Protocol/Laws.antt =====
-- The limits hold of every message that is sent or taken, and a content key of what is stored.
use stream_hive.Common.{
  ◌<◌, ◌≤◌, ◌≡◌, ◌↔◌, refl, ap, subst, ◌∙◌, ◌⊎◌, inl, inr, Bool, true, false, Option, some, List,
  [], ◌∷◌, ok, err, arith, All, length, check, ◌>>◌, ◌>>=◌, Result-cases, Option-cases, Bool-cases,
  ◌≢◌, ◌==◌,
}
use stream_hive.Common.Bytes.{Bytes}
use stream_hive.Std.Json.{Json}
use stream_hive.Std.Sha256.{Sha256}
use stream_hive.Context.{Ctx}
use stream_hive.Errors.{Error, Fallible}
use stream_hive.Storage.Blobs.{BlobStore}
use stream_hive.Storage.Hash.{validate_sha256_key, verify_sha256_key_iff}
use stream_hive.Replication.Protocol.{
  MessageType, blob_put, blob_has, blob_get, blob_missing, blob_ack, other_type, Limits, Message,
  normalize_limits, validate_key, validate_each, validate_keys, validate_blob_put, validate_message,
  key_message, encode_blob_put, encode_key_list_message, encode_blob_has, encode_blob_missing,
  encode_blob_get, encode_blob_ack, decode, verify_content_key, apply_checks, apply,
}

-- a key within the limits
abbrev pub IsKey : Limits → Bytes → Type 0
IsKey l k = (0 < length k) × (length k ≤ l.max_key_bytes)

-- a message within the limits, by its type
abbrev pub Within : Limits → Message → Type 0
Within l m = elim m.kind [
  | blob_put ↦ IsKey l m.key × (length m.content ≤ l.max_data_bytes)
  | blob_get ↦ IsKey l m.key
  | blob_ack ↦ IsKey l m.key
  | blob_has ↦ (0 < length m.keys) × (length m.keys ≤ l.max_keys) × All (IsKey l) m.keys
  | blob_missing ↦ (0 < length m.keys) × (length m.keys ≤ l.max_keys) × All (IsKey l) m.keys
  | other_type t ↦ ◌≡◌ {A = Bool} true false
]

validate_key_iff : (k : Bytes) (l : Limits) → (validate_key k l ≡ ok tt) ↔ IsKey l k
unfolding validate_key
validate_key_iff k l = ground arith

validate_each_iff : (ks : List Bytes) (l : Limits) → (validate_each ks l ≡ ok tt) ↔ All (IsKey l) ks
unfolding validate_each
validate_each_iff [] l = (λ h. tt, λ h. refl)
validate_each_iff (k ∷ ks) l = ground (arith, validate_key_iff k l, validate_each_iff ks l)

validate_keys_iff :
    (ks : List Bytes) (l : Limits)
    → (validate_keys ks l ≡ ok tt) ↔ ((0 < length ks) × (length ks ≤ l.max_keys) × All (IsKey l) ks)
unfolding validate_keys
validate_keys_iff ks l = ground (arith, validate_each_iff ks l)

validate_message_iff : (m : Message) (l : Limits) → (validate_message m l ≡ ok tt) ↔ Within l m
unfolding validate_message validate_blob_put
validate_message_iff m l = go m.kind refl
  where
    go : (k : MessageType) → m.kind ≡ k → (validate_message m l ≡ ok tt) ↔ Within l m
    go blob_put e = ground (arith, validate_key_iff m.key l)
    go blob_get e = ground (arith, validate_key_iff m.key l)
    go blob_ack e = ground (arith, validate_key_iff m.key l)
    go blob_has e = ground (arith, validate_keys_iff m.keys l)
    go blob_missing e = ground (arith, validate_keys_iff m.keys l)
    go (other_type t) e = ground arith

module _ ⦃messages : Json Message⦄ where
  -- `Decode` accepts exactly the payloads whose JSON is a message of a known type within the limits: a
  -- key that is not empty and not too long, data that is not too long, or at least one key, not too
  -- many, and each of them like that; a limit that is not positive stands for its default.
  pub decode_iff :
      (payload : Bytes) (l : Limits) (m : Message)
      → (decode payload l ≡ ok m)
        ↔ ((messages.unmarshal payload ≡ some m) × Within (normalize_limits l) m)
  unfolding decode
  decode_iff payload l m = elim (Option-cases (messages.unmarshal payload)) [
    | inl e ↦ ground arith
    | inr (found, e) ↦ ground (
      arith,
      validate_message_iff found (normalize_limits l),
      validate_message_iff m (normalize_limits l),
    )
  ]

  decode_marshalled :
      (l : Limits) (m : Message)
      → messages.unmarshal (messages.marshal m) ≡ some m
      → Within (normalize_limits l) m
      → decode (messages.marshal m) l ≡ ok m
  decode_marshalled l m back within = (decode_iff (messages.marshal m) l m).1 (back, within)

  -- the JSON of the message reads back
  abbrev pub IsReadBack : Message → Type 0
  IsReadBack m = messages.unmarshal (messages.marshal m) ≡ some m

  -- the messages of the five encoders
  abbrev pub encoded : Bytes → Bytes → List Bytes → List Message
  encoded key content keys =
      record { kind = blob_put; key = key; keys = []; content = content }
      ∷ record { kind = blob_has; key = []; keys = keys; content = [] }
      ∷ record { kind = blob_missing; key = []; keys = keys; content = [] }
      ∷ key_message blob_get key
      ∷ key_message blob_ack key
      ∷ []

  -- each encoder alone, when it makes a payload
  decode_encoded :
      (l : Limits) (key content : Bytes) (keys : List Bytes) (payload : Bytes)
      → All IsReadBack (encoded key content keys)
      → (encode_blob_put key content l ≡ ok payload
          → decode payload l
            ≡ ok (record { kind = blob_put; key = key; keys = []; content = content }))
        × (encode_blob_has keys l ≡ ok payload
            → decode payload l
              ≡ ok (record { kind = blob_has; key = []; keys = keys; content = [] }))
        × (encode_blob_missing keys l ≡ ok payload
            → decode payload l
              ≡ ok (record { kind = blob_missing; key = []; keys = keys; content = [] }))
        × (encode_blob_get key l ≡ ok payload → decode payload l ≡ ok (key_message blob_get key))
        × (encode_blob_ack key l ≡ ok payload → decode payload l ≡ ok (key_message blob_ack key))
  unfolding encode_blob_put encode_blob_has encode_blob_missing encode_key_list_message
      encode_blob_get encode_blob_ack validate_blob_put
  decode_encoded l key content keys payload back =
      let limits = normalize_limits l in
      let key_ok = validate_key_iff key limits in
      let keys_ok = validate_keys_iff keys limits in
      let put : Message = record { kind = blob_put; key = key; keys = []; content = content } in
      let list = λ (kind : MessageType).
        let m : Message = record { kind = kind; key = []; keys = keys; content = [] } in m in
      (
        λ h. ground (arith, key_ok, decode_marshalled l put back.0),
        λ h. ground (arith, keys_ok, decode_marshalled l (list blob_has) back.1.0),
        λ h. ground (arith, keys_ok, decode_marshalled l (list blob_missing) back.1.1.0),
        λ h. ground (arith, key_ok, decode_marshalled l (key_message blob_get key) back.1.1.1.0),
        λ h. ground (arith, key_ok, decode_marshalled l (key_message blob_ack key) back.1.1.1.1.0),
      )

  decoded_next :
      (made : Fallible Bytes) (l : Limits) (m : Message)
      → ((payload : Bytes) → made ≡ ok payload → decode payload l ≡ ok m)
      → (do payload ← made; decode payload l) ≡ (do _ ← made; ok m)
  decoded_next (err e) l m h = refl
  decoded_next (ok payload) l m h = h payload refl

  -- What each of the five encoders makes, if it does not fail, `Decode` reads back under the same
  -- limits as the message that was meant (if the JSON of these five messages reads back).
  pub decode-encode :
      (l : Limits) (key content : Bytes) (keys : List Bytes)
      → All IsReadBack (encoded key content keys)
      → ((do payload ← encode_blob_put key content l; decode payload l) ≡ (do
        _ ← encode_blob_put key content l
        ok (record { kind = blob_put; key = key; keys = []; content = content })))
        × ((do payload ← encode_blob_has keys l; decode payload l) ≡ (do
          _ ← encode_blob_has keys l
          ok (record { kind = blob_has; key = []; keys = keys; content = [] })))
        × ((do payload ← encode_blob_missing keys l; decode payload l) ≡ (do
          _ ← encode_blob_missing keys l
          ok (record { kind = blob_missing; key = []; keys = keys; content = [] })))
        × ((do payload ← encode_blob_get key l; decode payload l)
            ≡ (do _ ← encode_blob_get key l; ok (key_message blob_get key)))
        × ((do payload ← encode_blob_ack key l; decode payload l)
            ≡ (do _ ← encode_blob_ack key l; ok (key_message blob_ack key)))
  decode-encode l key content keys back =
      let each = λ (payload : Bytes). decode_encoded l key content keys payload back in
      (
        decoded_next (encode_blob_put key content l) l _ (λ p. (each p).0),
        decoded_next (encode_blob_has keys l) l _ (λ p. (each p).1),
        decoded_next (encode_blob_missing keys l) l _ (λ p. (each p).2),
        decoded_next (encode_blob_get key l) l _ (λ p. (each p).3),
        decoded_next (encode_blob_ack key l) l _ (λ p. (each p).4),
      )

  verify_content_key_ok :
      ⦃sha : Sha256⦄
      → (key content : Bytes) → verify_content_key key content ≡ ok tt
      → length key ≡ 32
      → sha.sum content ≡ key
  unfolding verify_content_key validate_sha256_key
  verify_content_key_ok key content h long = ground (arith, verify_sha256_key_iff key content)

  put-Within :
      (l : Limits) (m : Message)
      → m.kind ≡ blob_put
      → Within l m
      → IsKey l m.key × (length m.content ≤ l.max_data_bytes)
  put-Within l m e h = ground arith

  apply_checks_ok :
      ⦃sha : Sha256⦄
      → (payload : Bytes) → (l : Limits) → (m : Message) → apply_checks payload l ≡ ok m
      → (messages.unmarshal payload ≡ some m)
        × (m.kind ≡ blob_put)
        × IsKey (normalize_limits l) m.key
        × (length m.content ≤ (normalize_limits l).max_data_bytes)
        × (length m.key ≡ 32 → sha.sum m.content ≡ m.key)
  unfolding apply_checks
  apply_checks_ok ⦃sha⦄ payload l m h = elim (Result-cases (decode payload l)) [
    | inr (e, bad) ↦ absurd (ground arith)
    | inl (found, read) ↦ elim (Result-cases (verify_content_key found.key found.content)) [
      | inr (e, bad) ↦ absurd (ground arith)
      | inl (_, verified) ↦
          let same : found ≡ m = ground arith in
          let kind : m.kind ≡ blob_put = ground arith in
          let (parsed, within) = (decode_iff payload l found).0 read in
          let (key, small) =
            put-Within (normalize_limits l) m kind
              (subst (Within (normalize_limits l)) same within) in
          (
            parsed ∙ ap some same,
            kind,
            key,
            small,
            subst (λ (x : Message). length x.key ≡ 32 → sha.sum x.content ≡ x.key) same
                (verify_content_key_ok found.key found.content verified),
          )
    ]
  ]

  -- `Apply` on a store fails and leaves the store as it was, or hands exactly one blob to the store's
  -- `Put` and gives its answer: that of a put message within the limits, with the digest of its
  -- data as the key where the key has 32 bytes.
  pub apply-cases :
      {S : Type 0}
      → ⦃blob : BlobStore S⦄ → ⦃sha : Sha256⦄ → (entry : Option Error) → (put : Ctx) → (s : S)
      → (payload : Bytes) → (l : Limits)
      → ((e : Error) × (apply entry put (some s) payload l ≡ (err e, some s)))
        ⊎ ((m : Message) × (messages.unmarshal payload ≡ some m)
            × (m.kind ≡ blob_put)
            × IsKey (normalize_limits l) m.key
            × (length m.content ≤ (normalize_limits l).max_data_bytes)
            × ((length m.key ≢ 32) ⊎ (sha.sum m.content ≡ m.key))
            × (apply entry put (some s) payload l
                ≡ ((blob.put put m.key m.content s).0, some (blob.put put m.key m.content s).1)))
  unfolding apply
  apply-cases entry put s payload l = elim (Result-cases (do check entry; apply_checks payload l)) [
    | inr (e, bad) ↦ inl (e, ground arith)
    | inl (m, good) ↦
        let (parsed, kind, key, small, digest) = apply_checks_ok payload l m (ground arith) in
        inr (
          m,
          parsed,
          kind,
          key,
          small,
          elim (Bool-cases (length m.key == 32)) [
            | inl whole ↦ inr (digest (ground arith))
            | inr short ↦ inl (ground arith)
          ],
          ground arith,
        )
  ]
