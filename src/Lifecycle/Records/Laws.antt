-- ===== src/Lifecycle/Records/Laws.antt =====
-- What a record that passes `Validate` satisfies, and what `equal` decides.
use stream_hive.Common.{ℕ, ◌≤◌, ◌<◌, ◌≡◌, ◌↔◌, ◌⊎◌, true, false, ok, arith, length, ◌^◌, All}
use stream_hive.Common.Bytes.{Bytes, bytes_equal_iff}
use stream_hive.Std.Unicode.{Unicode}
use stream_hive.Std.Json.{Json, ReadsBack}
use stream_hive.Lifecycle.Version.{is_zero}
use stream_hive.Lifecycle.Version.Order.{same_version_iff}
use stream_hive.Lifecycle.Records.{
  Limits, normalized, LifecycleState, present, deleted, other, Record, same_state, equal,
  body_equal, check_blob_key, validate_authority_id, is_printable, validate,
}

pub same_state_iff : (a b : LifecycleState) → (same_state a b ≡ true) ↔ (a ≡ b)
unfolding same_state
same_state_iff (other a) (other b) = ground (arith, bytes_equal_iff a b)
same_state_iff present present = ground arith
same_state_iff present deleted = ground arith
same_state_iff present (other b) = ground arith
same_state_iff deleted present = ground arith
same_state_iff deleted deleted = ground arith
same_state_iff deleted (other b) = ground arith
same_state_iff (other a) present = ground arith
same_state_iff (other a) deleted = ground arith

pub body_equal_iff :
    (r s : Record)
    → (body_equal r s ≡ true)
      ↔ ((r.state ≡ s.state) × (r.blob_key ≡ s.blob_key) × (r.authority_id ≡ s.authority_id))
unfolding body_equal
body_equal_iff r s = ground (
  arith,
  same_state_iff r.state s.state,
  bytes_equal_iff r.blob_key s.blob_key,
  bytes_equal_iff r.authority_id s.authority_id,
)

pub equal_iff : (r s : Record) → (equal r s ≡ true) ↔ (r ≡ s)
unfolding equal
equal_iff r s = ground (
  arith,
  bytes_equal_iff r.namespace s.namespace,
  bytes_equal_iff r.logical_key s.logical_key,
  same_state_iff r.state s.state,
  bytes_equal_iff r.blob_key s.blob_key,
  same_version_iff r.version s.version,
  bytes_equal_iff r.authority_id s.authority_id,
)

pub normalized_idem : (l : Limits) → normalized (normalized l) ≡ normalized l
unfolding normalized
normalized_idem l = ground arith

abbrev pub IsByte : ℕ → Type 0
IsByte b = b < 256

-- the ranges of the Go types that a `Record` is made of
pub record InRange (r : Record) : Type 0 where
  pub epoch : r.version.epoch < 2 ^ 64
  pub sequence : r.version.sequence < 2 ^ 64
  pub namespace : All IsByte r.namespace
  pub logical_key : All IsByte r.logical_key
  pub blob_key : All IsByte r.blob_key
  pub authority_id : All IsByte r.authority_id

-- What the journal needs of encoding/json: a valid record is read back as it was written, and
-- the text of a struct is not empty.
pub record RecordJson ⦃u : Unicode⦄ ⦃j : Json Record⦄ (l : Limits) : Type 0 where
  pub reads_back : ReadsBack j (λ r. (validate r l ≡ ok tt) × InRange r)
  pub not_empty : (r : Record) → 0 < length (j.marshal r)

module _ ⦃u : Unicode⦄ ⦃j : Json Record⦄ where
  -- what the fields of a valid record satisfy under the limits `l`
  pub record IsValidRecord (r : Record) (l : Limits) : Type 0 where
    pub namespace_pos : 0 < length r.namespace
    pub namespace_le : length r.namespace ≤ (normalized l).max_namespace_bytes
    pub key_pos : 0 < length r.logical_key
    pub key_le : length r.logical_key ≤ (normalized l).max_logical_key_bytes
    pub authority_pos : 0 < length r.authority_id
    pub authority_le : length r.authority_id ≤ (normalized l).max_authority_id_bytes
    pub authority_print : is_printable r.authority_id ≡ true
    pub version_set : is_zero r.version ≡ false
    pub blob_key_fits :
        ((r.state ≡ present) × (length r.blob_key ≡ 32))
        ⊎ ((r.state ≡ deleted) × (length r.blob_key ≡ 0))
    pub encoded_le : length (j.marshal r) ≤ (normalized l).max_record_bytes

  check_blob_key_iff :
      (s : LifecycleState) (k : Bytes)
      → (check_blob_key s k ≡ ok tt)
        ↔ (((s ≡ present) × (length k ≡ 32)) ⊎ ((s ≡ deleted) × (length k ≡ 0)))
  unfolding check_blob_key
  check_blob_key_iff present k = ground arith
  check_blob_key_iff deleted k = ground arith
  check_blob_key_iff (other s) k = ground arith

  -- `Validate` accepts exactly the records whose fields satisfy `IsValidRecord`.
  pub validate_iff : (r : Record) (l : Limits) → (validate r l ≡ ok tt) ↔ IsValidRecord r l
  unfolding validate validate_authority_id
  validate_iff r l = (
    λ h. ground (arith, check_blob_key_iff r.state r.blob_key, normalized_idem l),
    λ v. ground (arith, check_blob_key_iff r.state r.blob_key, normalized_idem l),
  )
