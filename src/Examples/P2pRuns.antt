-- ===== src/Examples/P2pRuns.antt =====
-- The theorems about frames and peer authentication, at concrete inputs.
use stream_hive.Common.{
  ℕ, ◌≡◌, refl, ◌≤◌, ◌<◌, true, false, ◌||◌, ◌&&◌, not, Option, none, some, List, [], ◌∷◌, ◌++◌, ok,
  err, arith, length, take, take-append, drop-append, ltb, ◌==◌, if◌then◌else◌,
}
use stream_hive.Common.Bytes.{Bytes, bytes_equal, bytes_less, put_uint32, uint32}
use stream_hive.Common.Sorting.{sort, place}
use stream_hive.Std.Json.{Json, first_value}
use stream_hive.Errors.{Error}
use stream_hive.Lifecycle.Transport.{lifecycle_capability}
use stream_hive.P2p.Frame.{
  frame_magic, frame_max, frame_header, write_frame, read_full, read_payload, read_frame,
}
use stream_hive.P2p.Frame.RoundTrip.{frame, read_frame-write_frame}
use stream_hive.P2p.Frame.Truncated.{read_frame_sound, read_frame-take}
use stream_hive.P2p.Handshake.{
  AuthType, peer_auth, peer_auth_ok, peer_auth_reject, other_type, PeerAuthMessage, has_unprintable,
  handshake_version, is_among, is_known, check_capability, capability_loop, normalize_capabilities,
  encode_peer_auth, marshal_peer_auth_message, validate_peer_auth_payload,
}
use stream_hive.P2p.Handshake.Known.{Normal, normalize_capabilities_sound}
use stream_hive.P2p.Handshake.Laws.{admitted, validate_peer_auth_payload-encode_peer_auth}
use stream_hive.Examples.Codec.{put_text}
use stream_hive.Examples.Texts.{front, rest_of, put_texts, get_texts, get_texts-put_texts}

abbrev hello : Bytes
hello = b'h' ∷ b'i' ∷ []

hello_written : (write_frame none none hello 10).0 ≡ ok tt
unfolding write_frame frame_max
hello_written = refl

read_frame-write_frame_example :
    read_frame 1 ((write_frame none none hello 10).1 ++ (b'x' ∷ [])) ≡ (
      if ltb (frame_max 1) (length hello)
      then (err Error.frame_too_large, hello ++ (b'x' ∷ []))
      else (ok hello, b'x' ∷ []))
read_frame-write_frame_example =
    read_frame-write_frame 10 1 hello (b'x' ∷ []) (omega arith) hello_written

hello_read : read_frame 10 (frame hello ++ (b'x' ∷ [])) ≡ (ok hello, b'x' ∷ [])
unfolding read_frame read_full read_payload frame_max frame_header put_uint32 uint32 bytes_equal
hello_read = refl

read_frame_sound_example :
    (length hello ≤ frame_max 10)
    × (prefix : Bytes) × (length prefix ≡ 4)
    × (uint32 prefix ≡ length hello)
    × (frame hello ++ (b'x' ∷ []) ≡ frame_magic ++ (prefix ++ (hello ++ (b'x' ∷ []))))
read_frame_sound_example =
    read_frame_sound 10 (frame hello ++ (b'x' ∷ [])) hello (b'x' ∷ []) hello_read

hello_fits : length hello ≤ frame_max 10
unfolding frame_max
hello_fits = omega arith

hello_short : 9 < length (frame hello)
unfolding frame_header put_uint32
hello_short = omega arith

read_frame-take_example :
    (read_frame 10 (take 9 (frame hello))).0
    ≡ err (if 9 == 0 || (9 == 4 || 9 == 8) then Error.eof else Error.unexpected_eof)
read_frame-take_example = read_frame-take 10 9 hello (omega arith) hello_fits hello_short

abbrev declared : List Bytes
declared = (b'z' ∷ []) ∷ lifecycle_capability ∷ []

abbrev known : List Bytes
known = lifecycle_capability ∷ []

declared_normal : normalize_capabilities declared false ≡ ok known
unfolding normalize_capabilities capability_loop check_capability is_known is_among bytes_equal
    has_unprintable sort place bytes_less
declared_normal = refl

normalize_capabilities_sound_example :
    Normal known
    × ((c : Bytes) → is_among c known ≡ (is_known c && is_among c declared))
    × ((c : Bytes) → (false && (is_among c declared && not (is_known c))) ≡ false)
    × (length declared ≤ 16)
    × (normalize_capabilities known false ≡ ok known)
normalize_capabilities_sound_example =
    normalize_capabilities_sound declared known false declared_normal

-- a codec for the messages of peer authentication, each text behind its length
abbrev put_type : AuthType → List ℕ
put_type peer_auth = 0 ∷ []
put_type peer_auth_ok = 1 ∷ []
put_type peer_auth_reject = 2 ∷ []
put_type (other_type t) = 3 ∷ t

abbrev get_type : List ℕ → AuthType
get_type [] = peer_auth
get_type (k ∷ t) =
    if k == 0
    then peer_auth
    else if k == 1
    then peer_auth_ok
    else if k == 2
    then peer_auth_reject
    else other_type t

get_type-put_type : (k : AuthType) → get_type (put_type k) ≡ k
get_type-put_type peer_auth = refl
get_type-put_type peer_auth_ok = refl
get_type-put_type peer_auth_reject = refl
get_type-put_type (other_type t) = refl

abbrev get_auth : List ℕ → Option PeerAuthMessage
get_auth [] = none
get_auth (n ∷ xs) =
    let a = rest_of xs in
    let b = rest_of a in
    let c = rest_of b in
    let d = rest_of c in
    some (record {
      kind = get_type (front xs);
      version = front a;
      token = front b;
      identity = front c;
      failure = front d;
      capabilities = get_texts n (rest_of d);
    })

instance abbrev auth_codec : Json PeerAuthMessage
auth_codec = record {
  marshal = λ m.
      length m.capabilities
      ∷ put_text (put_type m.kind) (
          put_text m.version (
            put_text m.token
              (put_text m.identity (put_text m.failure (put_texts m.capabilities)))));
  unmarshal = get_auth;
  failure = λ bs. first_value;
}

auth_codec_back : (m : PeerAuthMessage) → auth_codec.unmarshal (auth_codec.marshal m) ≡ some m
auth_codec_back m =
    simp (take-append, drop-append, get_texts-put_texts m.capabilities, get_type-put_type m.kind)

abbrev me : Bytes
me = b'm' ∷ b'e' ∷ []

abbrev secret : Bytes
secret = b's' ∷ []

known_normal : normalize_capabilities known true ≡ ok known
unfolding normalize_capabilities capability_loop check_capability is_known is_among bytes_equal
    has_unprintable sort place bytes_less
known_normal = refl

abbrev auth_payload : Bytes
auth_payload = auth_codec.marshal (record {
  kind = peer_auth;
  version = handshake_version;
  token = secret;
  identity = me;
  failure = [];
  capabilities = known;
})

auth_encoded : encode_peer_auth secret me known ≡ ok auth_payload
unfolding encode_peer_auth marshal_peer_auth_message normalize_capabilities capability_loop
    check_capability is_known is_among bytes_equal has_unprintable sort place bytes_less
auth_encoded = refl

validate_peer_auth_payload-encode_peer_auth_example :
    validate_peer_auth_payload auth_payload secret (me ∷ []) ≡ (
      if bytes_equal secret secret
      then admitted me known (me ∷ [])
      else err Error.peer_auth_rejected)
validate_peer_auth_payload-encode_peer_auth_example =
    validate_peer_auth_payload-encode_peer_auth secret me secret known known (me ∷ []) auth_payload
      known_normal (auth_codec_back _) auth_encoded
