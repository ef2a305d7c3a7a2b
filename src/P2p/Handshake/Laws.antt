-- ===== src/P2p/Handshake/Laws.antt =====
-- A peer is authenticated by the token, and learns the identity and the capabilities of the other.
use stream_hive.Common.{
  ◌≡◌, true, ◌&&◌, not, some, List, [], ok, err, arith, length, fail_if, ◌>>◌, if◌then◌else◌, ltb,
}
use stream_hive.Common.Bytes.{Bytes, bytes_equal, bytes_equal_iff}
use stream_hive.Std.Json.{Json}
use stream_hive.Errors.{Error, Fallible}
use stream_hive.P2p.Handshake.{
  PeerAuthMessage, peer_auth, peer_auth_ok, handshake_version, is_among, normalize_capabilities,
  validate_peer_identity, marshal_peer_auth_message, encode_peer_auth, encode_peer_auth_ok,
  validate_peer_auth_payload, validate_peer_auth_ack,
}
use stream_hive.P2p.Handshake.Known.{normalize_capabilities_sound}

-- what a peer makes of the other's identity and capabilities
abbrev pub admitted : Bytes → List Bytes → List Bytes → Fallible (Bytes × List Bytes)
admitted identity capabilities allowed = do
  validate_peer_identity identity
  fail_if (ltb 0 (length allowed) && not (is_among identity allowed))
      Error.peer_auth_identity_not_allowed
  ok (identity, capabilities)

-- the messages of `encodePeerAuth` and of `encodePeerAuthOK`
abbrev pub auth_message : Bytes → Bytes → List Bytes → PeerAuthMessage
auth_message token identity capabilities = record {
  kind = peer_auth;
  version = handshake_version;
  token = token;
  identity = identity;
  failure = [];
  capabilities = capabilities;
}

abbrev pub ok_message : Bytes → List Bytes → PeerAuthMessage
ok_message identity capabilities = record {
  kind = peer_auth_ok;
  version = handshake_version;
  token = [];
  identity = identity;
  failure = [];
  capabilities = capabilities;
}

module _ ⦃messages : Json PeerAuthMessage⦄ where
  -- the JSON of the message reads back, as it does where its strings are valid UTF-8
  abbrev pub IsReadBack : PeerAuthMessage → Type 0
  IsReadBack m = messages.unmarshal (messages.marshal m) ≡ some m

  -- A payload that `encodePeerAuth` made for a token is refused by a peer with another token,
  -- whatever else it holds. A peer with the same token refuses an invalid identity, and one that is
  -- not on its allowlist if it has any, and else admits the identity with the capabilities that the
  -- payload declares (if the JSON of the one message reads back, which that of a token or an identity
  -- that is not valid UTF-8 does not).
  pub validate_peer_auth_payload-encode_peer_auth :
      (token identity other : Bytes) (declared capabilities allowed : List Bytes) (payload : Bytes)
      → normalize_capabilities declared true ≡ ok capabilities
      → IsReadBack (auth_message token identity capabilities)
      → encode_peer_auth token identity declared ≡ ok payload
      → validate_peer_auth_payload payload other allowed ≡ (
          if bytes_equal token other
          then admitted identity capabilities allowed
          else err Error.peer_auth_rejected)
  unfolding encode_peer_auth marshal_peer_auth_message validate_peer_auth_payload
  validate_peer_auth_payload-encode_peer_auth token identity other declared capabilities allowed
        payload normal back h =
      let (_, _, _, _, again) = normalize_capabilities_sound declared capabilities true normal in
      ground (arith, back, again, bytes_equal_iff handshake_version handshake_version)

  -- The acknowledgement that `encodePeerAuthOK` made is accepted with its identity, if that is
  -- valid, and its capabilities.
  pub validate_peer_auth_ack-encode_peer_auth_ok :
      (identity : Bytes) (declared capabilities : List Bytes) (payload : Bytes)
      → normalize_capabilities declared true ≡ ok capabilities
      → IsReadBack (ok_message identity capabilities)
      → encode_peer_auth_ok identity declared ≡ ok payload
      → validate_peer_auth_ack payload
        ≡ (do validate_peer_identity identity; ok (identity, capabilities))
  unfolding encode_peer_auth_ok marshal_peer_auth_message validate_peer_auth_ack
  validate_peer_auth_ack-encode_peer_auth_ok identity declared capabilities payload normal back h =
      let (_, _, _, _, again) = normalize_capabilities_sound declared capabilities true normal in
      ground (arith, back, again, bytes_equal_iff handshake_version handshake_version)
