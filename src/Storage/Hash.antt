-- ===== src/Storage/Hash.antt =====
-- storage/hash.go: keys that are the SHA-256 digest of their data.
use stream_hive.Common.{
  ◌≡◌, ◌↔◌, Option, none, some, ok, err, fail_if, ◌>>=◌, ◌>>◌, not, length, ◌==◌, arith,
  Option-cases, inl, inr,
}
use stream_hive.Common.Bytes.{Bytes, bytes_equal, bytes_equal_iff}
use stream_hive.Std.Hex.{encode_hex, decode_hex, length-decode_hex}
use stream_hive.Std.Sha256.{Sha256}
use stream_hive.Errors.{Error, Fallible}

unfoldable pub validate_sha256_key : Bytes → Fallible Unit
validate_sha256_key key = fail_if (not (length key == 32)) Error.invalid_sha256_key

abbrev hex_decoded : Option Bytes → Fallible Bytes
hex_decoded (some key) = ok key
hex_decoded none = err Error.invalid_sha256_hex_key

unfoldable pub parse_sha256_key_hex : Bytes → Fallible Bytes
unfolding validate_sha256_key
parse_sha256_key_hex s = do
  fail_if (not (length s == 64)) Error.invalid_sha256_hex_key
  key ← hex_decoded (decode_hex s)
  validate_sha256_key key
  ok key

module _ ⦃sha : Sha256⦄ where
  unfoldable pub sha256_key : Bytes → Bytes
  sha256_key bs = sha.sum bs

  unfoldable pub sha256_key_hex : Bytes → Bytes
  sha256_key_hex bs = encode_hex (sha.sum bs)

  unfoldable pub verify_sha256_key : Bytes → Bytes → Fallible Unit
  unfolding validate_sha256_key sha256_key
  verify_sha256_key key bs = do
    validate_sha256_key key
    fail_if (not (bytes_equal key (sha256_key bs))) Error.sha256_mismatch

  -- what `VerifySHA256Key` accepts
  pub verify_sha256_key_iff :
      (key bs : Bytes)
      → (verify_sha256_key key bs ≡ ok tt) ↔ ((length key ≡ 32) × (key ≡ sha.sum bs))
  unfolding verify_sha256_key
  verify_sha256_key_iff key bs = ground (arith, bytes_equal_iff key (sha.sum bs))

-- `ParseSHA256KeyHex` accepts exactly 64 hexadecimal digits, and gives the 32 bytes that they spell.
pub parse_sha256_key_hex_iff :
    (s key : Bytes)
    → (parse_sha256_key_hex s ≡ ok key) ↔ ((length s ≡ 64) × (decode_hex s ≡ some key))
unfolding parse_sha256_key_hex
parse_sha256_key_hex_iff s key = elim (Option-cases (decode_hex s)) [
  | inl e ↦ ground arith
  | inr (found, e) ↦ ground (arith, length-decode_hex s found)
]
