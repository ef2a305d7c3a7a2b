-- ===== src/P2p/Handshake.antt =====
-- p2p/handshake.go: the messages of peer authentication, and how a peer checks those that it gets.
pub mod Known
pub mod Laws
use stream_hive.Common.{
  ℕ, ◌+◌, Bool, true, false, ◌||◌, ◌&&◌, not, Option, none, some, List, [], ◌∷◌, ok, err, check,
  fail_if, ◌>>=◌, ◌>>◌, length, ltb, ◌==◌, if◌then◌else◌,
}
use stream_hive.Common.Bytes.{Bytes, bytes_equal, bytes_less}
use stream_hive.Common.Sorting.{sort}
use stream_hive.Std.Json.{Json}
use stream_hive.Errors
use stream_hive.Errors.{Error, Fallible}
use stream_hive.Lifecycle.Transport.{lifecycle_capability, reconcile_capability}

-- the field `type`: the three types, and any other string
pub data AuthType : Type 0 where
  peer_auth peer_auth_ok peer_auth_reject : AuthType
  other_type : Bytes → AuthType

-- "streamhive/1"
abbrev pub handshake_version : Bytes
handshake_version =
    b's' ∷ b't' ∷ b'r' ∷ b'e' ∷ b'a' ∷ b'm' ∷ b'h' ∷ b'i' ∷ b'v' ∷ b'e' ∷ b'/' ∷ b'1' ∷ []

-- "unauthorized"
abbrev pub unauthorized : Bytes
unauthorized =
    b'u' ∷ b'n' ∷ b'a' ∷ b'u' ∷ b't' ∷ b'h' ∷ b'o' ∷ b'r' ∷ b'i' ∷ b'z' ∷ b'e' ∷ b'd' ∷ []

pub record PeerAuthMessage : Type 0 where
  pub kind : AuthType
  pub version : Bytes
  pub token : Bytes
  pub identity : Bytes
  pub failure : Bytes
  pub capabilities : List Bytes

-- `b < 0x21 || b > 0x7e` for some byte
unfoldable pub has_unprintable : Bytes → Bool
has_unprintable [] = false
has_unprintable (b ∷ bs) = (ltb b 33 || ltb 126 b) || has_unprintable bs

-- `seen[capability]`, or `identity == allowedIdentity` for some of a list
unfoldable pub is_among : Bytes → List Bytes → Bool
is_among c [] = false
is_among c (x ∷ xs) = bytes_equal c x || is_among c xs

unfoldable pub is_known : Bytes → Bool
is_known c = bytes_equal c lifecycle_capability || bytes_equal c reconcile_capability

-- the checks of one capability, with those seen so far and their bytes
unfoldable pub check_capability : Bool → List Bytes → ℕ → Bytes → Fallible Unit
unfolding has_unprintable is_among is_known
check_capability reject_unknown seen total c = do
  fail_if (ltb 64 (length c)) Error.capability_too_large
  fail_if (ltb 512 (total + length c)) Error.capabilities_too_large
  fail_if (length c == 0) Error.capability_invalid
  fail_if (has_unprintable c) Error.capability_invalid
  fail_if (is_among c seen) Error.capability_duplicate
  fail_if (not (is_known c) && reject_unknown) Error.capability_unknown

-- `normalized = append(normalized, capability)` in front of what the rest of the loop gives
abbrev pub with_known : Bytes → Fallible (List Bytes) → Fallible (List Bytes)
with_known c (ok cs) = ok (if is_known c then c ∷ cs else cs)
with_known c (err e) = err e

unfoldable pub capability_loop : Bool → List Bytes → ℕ → List Bytes → Fallible (List Bytes)
unfolding check_capability
capability_loop reject_unknown seen total [] = ok []
capability_loop reject_unknown seen total (c ∷ cs) = do
  check_capability reject_unknown seen total c
  with_known c (capability_loop reject_unknown (c ∷ seen) (total + length c) cs)

unfoldable pub normalize_capabilities : List Bytes → Bool → Fallible (List Bytes)
unfolding capability_loop
normalize_capabilities capabilities reject_unknown = do
  fail_if (ltb 16 (length capabilities)) Error.capabilities_too_many
  normalized ← capability_loop reject_unknown [] 0 capabilities
  ok (sort bytes_less normalized)

unfoldable pub validate_peer_identity : Bytes → Fallible Unit
unfolding has_unprintable
validate_peer_identity identity = if length identity == 0 then ok tt else (do
  fail_if (ltb 128 (length identity)) Error.peer_auth_identity_invalid
  fail_if (has_unprintable identity) Error.peer_auth_identity_invalid)

unfoldable pub validate_peer_auth_allowlist : List Bytes → Fallible Unit
unfolding validate_peer_identity
validate_peer_auth_allowlist [] = ok tt
validate_peer_auth_allowlist (identity ∷ rest) = do
  fail_if (length identity == 0) Error.peer_auth_identity_invalid
  validate_peer_identity identity
  validate_peer_auth_allowlist rest

-- `json.Unmarshal`, with its error
abbrev pub auth_decoded : Option PeerAuthMessage → Fallible PeerAuthMessage
auth_decoded (some m) = ok m
auth_decoded none = err (Error.join Error.peer_auth_failed Error.json)

abbrev pub is_auth : AuthType → Bool
is_auth peer_auth = true
is_auth _ = false

module _ ⦃messages : Json PeerAuthMessage⦄ where
  unfoldable pub marshal_peer_auth_message : PeerAuthMessage → Fallible Bytes
  marshal_peer_auth_message m = do
    let payload = messages.marshal m
    fail_if (ltb 4096 (length payload)) Error.peer_auth_payload_too_large
    ok payload

  unfoldable pub encode_peer_auth : Bytes → Bytes → List Bytes → Fallible Bytes
  unfolding normalize_capabilities marshal_peer_auth_message
  encode_peer_auth token identity capabilities = do
    normalized ← normalize_capabilities capabilities true
    marshal_peer_auth_message (record {
      kind = peer_auth;
      version = handshake_version;
      token = token;
      identity = identity;
      failure = [];
      capabilities = normalized;
    })

  unfoldable pub encode_peer_auth_ok : Bytes → List Bytes → Fallible Bytes
  unfolding normalize_capabilities marshal_peer_auth_message
  encode_peer_auth_ok identity capabilities = do
    normalized ← normalize_capabilities capabilities true
    marshal_peer_auth_message (record {
      kind = peer_auth_ok;
      version = handshake_version;
      token = [];
      identity = identity;
      failure = [];
      capabilities = normalized;
    })

  unfoldable pub encode_peer_auth_reject : Fallible Bytes
  unfolding marshal_peer_auth_message
  encode_peer_auth_reject = marshal_peer_auth_message (record {
    kind = peer_auth_reject;
    version = handshake_version;
    token = [];
    identity = [];
    failure = unauthorized;
    capabilities = [];
  })

  -- `validatePeerAuthPayload`: the identity and the capabilities
  unfoldable pub validate_peer_auth_payload :
      Bytes → Bytes → List Bytes → Fallible (Bytes × List Bytes)
  unfolding validate_peer_identity is_among normalize_capabilities
  validate_peer_auth_payload payload token allowed = do
    fail_if (ltb 4096 (length payload)) Error.peer_auth_payload_too_large
    m ← auth_decoded (messages.unmarshal payload)
    fail_if (not (is_auth m.kind) || not (bytes_equal m.version handshake_version))
        Error.peer_auth_failed
    fail_if (not (bytes_equal m.token token)) Error.peer_auth_rejected
    validate_peer_identity m.identity
    fail_if (ltb 0 (length allowed) && not (is_among m.identity allowed))
        Error.peer_auth_identity_not_allowed
    capabilities ← normalize_capabilities m.capabilities false
    ok (m.identity, capabilities)

  unfoldable pub validate_peer_auth_ack : Bytes → Fallible (Bytes × List Bytes)
  unfolding validate_peer_identity normalize_capabilities
  validate_peer_auth_ack payload = do
    fail_if (ltb 4096 (length payload)) Error.peer_auth_payload_too_large
    m ← auth_decoded (messages.unmarshal payload)
    fail_if (not (bytes_equal m.version handshake_version)) Error.peer_auth_failed
    elim m.kind [
      | peer_auth_ok ↦ (do
        validate_peer_identity m.identity
        capabilities ← normalize_capabilities m.capabilities false
        ok (m.identity, capabilities))
      | peer_auth_reject ↦ err Error.peer_auth_rejected
      | peer_auth ↦ err Error.peer_auth_failed
      | other_type t ↦ err Error.peer_auth_failed
    ]
