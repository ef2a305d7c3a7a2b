-- ===== src/Lifecycle/Records.antt =====
-- internal/lifecycle/model.go: limits, records, and their validation. `clone` copies slices and
-- is the identity on values.
pub mod Laws
use stream_hive.Common.{
  ℕ, zero, suc, ◌+◌, ◌*◌, ◌^◌, ◌≡◌, Bool, true, false, ◌&&◌, ◌||◌, not, Option, none, some, List,
  [], ◌∷◌, ok, err, fail_if, ◌>>=◌, ◌>>◌, ltb, ◌==◌, if◌then◌else◌, length,
}
use stream_hive.Common.Bytes.{Bytes, bytes_equal}
use stream_hive.Std.Utf8.{runes}
use stream_hive.Std.Unicode.{Unicode}
use stream_hive.Std.Json.{Json}
use stream_hive.Errors
use stream_hive.Errors.{Error, Fallible}
use stream_hive.Lifecycle.Version.{Version, same_version, is_zero}

pub record Limits : Type 0 where
  pub max_namespace_bytes : ℕ
  pub max_logical_key_bytes : ℕ
  pub max_authority_id_bytes : ℕ
  pub max_record_bytes : ℕ
  pub max_checkpoint_bytes : ℕ

-- `if n <= 0 { n = default }`; 0 stands for every limit that is not positive
abbrev pub or_default : ℕ → ℕ → ℕ
or_default n d = if n == 0 then d else n

unfoldable pub normalized : Limits → Limits
normalized l = record {
  max_namespace_bytes = or_default l.max_namespace_bytes 128;
  max_logical_key_bytes = or_default l.max_logical_key_bytes 1024;
  max_authority_id_bytes = or_default l.max_authority_id_bytes 128;
  max_record_bytes = or_default l.max_record_bytes (64 * 2 ^ 10);
  max_checkpoint_bytes = or_default l.max_checkpoint_bytes (64 * 2 ^ 20);
}

-- `LifecycleState` is a string type, so a decoded record may hold any text.
pub data LifecycleState : Type 0 where
  present deleted : LifecycleState
  other : Bytes → LifecycleState

pub record Record : Type 0 where
  pub namespace : Bytes
  pub logical_key : Bytes
  pub state : LifecycleState
  pub blob_key : Bytes
  pub version : Version
  pub authority_id : Bytes

unfoldable pub same_state : LifecycleState → LifecycleState → Bool
same_state present present = true
same_state deleted deleted = true
same_state (other a) (other b) = bytes_equal a b
same_state _ _ = false

unfoldable pub equal : Record → Record → Bool
equal r s =
    bytes_equal r.namespace s.namespace
    && (bytes_equal r.logical_key s.logical_key
        && (same_state r.state s.state
            && (bytes_equal r.blob_key s.blob_key
                && (same_version r.version s.version
                    && bytes_equal r.authority_id s.authority_id))))

unfoldable pub body_equal : Record → Record → Bool
body_equal r s =
    same_state r.state s.state
    && (bytes_equal r.blob_key s.blob_key && bytes_equal r.authority_id s.authority_id)

-- the checks of the `switch r.State`
unfoldable pub check_blob_key : LifecycleState → Bytes → Fallible Unit
check_blob_key present k = fail_if (not (length k == 32)) Error.invalid_blob_key
check_blob_key deleted k = fail_if (not (length k == 0)) Error.invalid_blob_key
check_blob_key (other s) k = err Error.invalid_state

-- `validateLookup`
unfoldable pub validate_lookup : Limits → Bytes → Bytes → Fallible Unit
unfolding normalized
validate_lookup l namespace key = do
  fail_if (length namespace == 0) Error.namespace_empty
  fail_if (ltb (normalized l).max_namespace_bytes (length namespace)) Error.namespace_too_large
  fail_if (length key == 0) Error.logical_key_empty
  fail_if (ltb (normalized l).max_logical_key_bytes (length key)) Error.logical_key_too_large

module _ ⦃u : Unicode⦄ where
  -- `for _, character := range s { if !unicode.IsPrint(character) { … } }`
  unfoldable pub all_print : List ℕ → Bool
  all_print [] = true
  all_print (r ∷ rs) = u.is_print r && all_print rs

  -- `utf8.ValidString(s)` and every rune printable
  unfoldable pub is_printable : Bytes → Bool
  unfolding all_print
  is_printable s = elim (runes s) [ none ↦ false | some rs ↦ all_print rs ]

  unfoldable pub validate_authority_id : Bytes → Limits → Fallible Unit
  unfolding normalized
  validate_authority_id authority_id limits = do
    fail_if (length authority_id == 0) Error.authority_empty
    fail_if (ltb (normalized limits).max_authority_id_bytes (length authority_id))
        Error.authority_too_large
    fail_if (not (is_printable authority_id)) Error.authority_not_printable

  unfoldable pub validate : ⦃j : Json Record⦄ → Record → Limits → Fallible Unit
  unfolding normalized check_blob_key
  validate ⦃j⦄ r l = do
    let limits = normalized l
    fail_if (length r.namespace == 0) Error.namespace_empty
    fail_if (ltb limits.max_namespace_bytes (length r.namespace)) Error.namespace_too_large
    fail_if (length r.logical_key == 0) Error.logical_key_empty
    fail_if (ltb limits.max_logical_key_bytes (length r.logical_key)) Error.logical_key_too_large
    validate_authority_id r.authority_id limits
    fail_if (is_zero r.version) Error.zero_version
    check_blob_key r.state r.blob_key
    fail_if (ltb limits.max_record_bytes (length (j.marshal r))) Error.record_too_large
