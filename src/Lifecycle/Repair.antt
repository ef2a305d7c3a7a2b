-- ===== src/Lifecycle/Repair.antt =====
-- internal/lifecycle/repair.go: the batches that repair a peer from the tail of the journal. Nil
-- journals are not modelled.
pub mod Batches
pub mod Planning
pub mod Delivery
use stream_hive.Common.{
  ℕ, ◌+◌, ◌*◌, ◌^◌, ◌||◌, Bool, true, false, Option, none, some, List, [], ◌∷◌, ◌++◌, ok, err,
  check, fail_if, ◌>>=◌, ◌>>◌, not, length, ltb, ◌==◌, if◌then◌else◌,
}
use stream_hive.Common.Bytes.{Bytes, bytes_equal}
use stream_hive.Std.Json.{Json, strictly}
use stream_hive.Std.Unicode.{Unicode}
use stream_hive.Context.{Ctx, later}
use stream_hive.Errors
use stream_hive.Errors.{Error, Fallible}
use stream_hive.Lifecycle.Version.{Version, newer, older, same_version}
use stream_hive.Lifecycle.Records.{Limits, normalized, or_default, Record, validate}
use stream_hive.Lifecycle.Checkpoints.{Checkpoint, normalize_checkpoint}
use stream_hive.Lifecycle.JournalFile.{last_version}
use stream_hive.Lifecycle.Journal.Files.{Journal, ensure_open}

pub record RepairLimits : Type 0 where
  pub record_limits : Limits
  pub max_records : ℕ
  pub max_logical_key_bytes : ℕ
  pub max_metadata_bytes : ℕ
  pub max_frame_bytes : ℕ

unfoldable pub repair_normalized : RepairLimits → RepairLimits
unfolding normalized
repair_normalized l = record {
  record_limits = normalized l.record_limits;
  max_records = or_default l.max_records 128;
  max_logical_key_bytes = or_default l.max_logical_key_bytes (64 * 2 ^ 10);
  max_metadata_bytes = or_default l.max_metadata_bytes (64 * 2 ^ 10);
  max_frame_bytes = or_default l.max_frame_bytes (128 * 2 ^ 10);
}

-- The field `type` is a string: the three message types, the empty string, and any other.
pub data MessageType : Type 0 where
  unset batch_type snapshot_type ack_type : MessageType
  other_type : Bytes → MessageType

pub record RepairBatch : Type 0 where
  pub kind : MessageType
  pub from : Version
  pub to : Version
  pub more : Bool
  pub records : List Record

pub record RepairSnapshot : Type 0 where
  pub kind : MessageType
  pub watermark : Version
  pub records : List Record

pub record RepairAck : Type 0 where
  pub kind : MessageType
  pub watermark : Version

pub data RepairDelivery : Type 0 where
  ready_delivery duplicate_delivery : RepairDelivery

abbrev pub is_batch : MessageType → Bool
is_batch batch_type = true
is_batch _ = false

abbrev pub is_snapshot : MessageType → Bool
is_snapshot snapshot_type = true
is_snapshot _ = false

-- `if batch.Type == "" { batch.Type = … }`
abbrev pub or_type : MessageType → MessageType → MessageType
or_type unset default = default
or_type t default = t

-- the records of the journal that are newer than `from`
unfoldable pub newer_records : Version → List Record → List Record
newer_records from [] = []
newer_records from (r ∷ rs) =
    let rest = newer_records from rs in if newer r.version from then r ∷ rest else rest

module _ ⦃u : Unicode⦄ ⦃json : Json Record⦄ where
  -- The loop of `validateRepairBatch`, with the bytes counted so far: the version behind it.
  unfoldable pub check_batch : RepairLimits → Version → ℕ → ℕ → List Record → Fallible Version
  check_batch l previous logical metadata [] = ok previous
  check_batch l previous logical metadata (r ∷ rs) = do
    fail_if (not (newer r.version previous)) Error.repair_order
    validate r l.record_limits
    let logical' = logical + (length r.namespace + length r.logical_key)
    let metadata' = metadata + length (json.marshal r)
    fail_if (ltb l.max_logical_key_bytes logical' || ltb l.max_metadata_bytes metadata')
        Error.repair_limit
    check_batch l r.version logical' metadata' rs

  unfoldable pub validate_batch : RepairBatch → RepairLimits → Fallible Unit
  unfolding check_batch
  validate_batch b l = do
    fail_if (ltb l.max_records (length b.records)) Error.repair_limit
    previous ← check_batch l b.from 0 0 b.records
    fail_if (not (same_version b.to previous)) Error.repair_watermark_mismatch

  -- the loop of `normalizeRepairSnapshot` over the counted bytes
  unfoldable pub check_counts : RepairLimits → ℕ → ℕ → List Record → Fallible Unit
  check_counts l logical metadata [] = ok tt
  check_counts l logical metadata (r ∷ rs) = do
    let logical' = logical + (length r.namespace + length r.logical_key)
    let metadata' = metadata + length (json.marshal r)
    fail_if (ltb l.max_logical_key_bytes logical' || ltb l.max_metadata_bytes metadata')
        Error.repair_limit
    check_counts l logical' metadata' rs

  unfoldable pub normalize_repair_snapshot : RepairSnapshot → RepairLimits → Fallible RepairSnapshot
  unfolding check_counts
  normalize_repair_snapshot s l = do
    checkpoint ←
        normalize_checkpoint (record { watermark = s.watermark; records = s.records })
          l.record_limits
    fail_if (ltb l.max_records (length checkpoint.records)) Error.repair_limit
    check_counts l 0 0 checkpoint.records
    ok (record { kind = snapshot_type; watermark = s.watermark; records = checkpoint.records })

  -- `RepairBatch.Delivery`
  unfoldable pub delivery : RepairBatch → Version → RepairLimits → Fallible RepairDelivery
  unfolding repair_normalized
  delivery b expected l = do
    validate_batch b (repair_normalized l)
    if not (newer b.to expected)
        then ok duplicate_delivery
        else if same_version b.from expected
        then ok ready_delivery
        else err Error.repair_watermark_mismatch

abbrev pub decode_repair_envelope : {A : Type 0} ⦃values : Json A⦄ → Bytes → Fallible A
decode_repair_envelope payload =
    strictly Error.repair_malformed
      (Error.join Error.repair_malformed Error.repair_watermark_mismatch) payload

module _ ⦃u : Unicode⦄ ⦃json : Json Record⦄ ⦃batches : Json RepairBatch⦄ where
  unfoldable pub encode_batch : RepairBatch → RepairLimits → Fallible Bytes
  unfolding repair_normalized
  encode_batch b l = do
    let limits = repair_normalized l
    let b' : RepairBatch = record b { kind = or_type b.kind batch_type }
    fail_if (not (is_batch b'.kind)) Error.repair_message_type
    validate_batch b' limits
    let payload = batches.marshal b'
    fail_if (ltb limits.max_frame_bytes (length payload)) Error.repair_frame_too_large
    ok payload

  unfoldable pub decode_batch : Bytes → RepairLimits → Fallible RepairBatch
  unfolding repair_normalized
  decode_batch payload l = do
    let limits = repair_normalized l
    fail_if (ltb limits.max_frame_bytes (length payload)) Error.repair_frame_too_large
    b ← decode_repair_envelope payload
    fail_if (not (is_batch b.kind)) Error.repair_message_type
    validate_batch b limits
    ok b

  -- the batch of a candidate, out of `total` remaining records
  abbrev pub batch_of : Version → ℕ → List Record → RepairBatch
  batch_of from total candidate = record {
    kind = batch_type;
    from = from;
    to = last_version from candidate;
    more = ltb (length candidate) total;
    records = candidate;
  }

  -- the loop over the remaining records, with what was selected so far
  unfoldable pub select :
      RepairLimits → Version → ℕ → List Record → List Record → Fallible (List Record)
  unfolding encode_batch
  select l from total selected [] = ok selected
  select l from total selected (r ∷ rs) =
      let candidate = selected ++ r ∷ [] in
      let batch : RepairBatch = record {
        kind = batch_type;
        from = from;
        to = r.version;
        more = ltb (length candidate) total;
        records = candidate;
      } in
      let rest = select l from total candidate rs in
      elim (do validate_batch batch l; encode_batch batch l) [
        | err e ↦ if length selected == 0 then err e else ok selected
        | ok _ ↦ rest
      ]

  -- `Journal.RepairBatch`
  unfoldable pub repair_batch : Ctx → Version → RepairLimits → Journal → Fallible RepairBatch
  unfolding select
  repair_batch ctx from limits j = do
    check (ctx 0)
    let l = repair_normalized limits
    ensure_open j
    fail_if (older from j.floor) Error.peer_behind_watermark
    let remaining = newer_records from j.records
    selected ← select l from (length remaining) [] remaining
    let batch = batch_of from (length remaining) selected
    payload ← encode_batch batch l
    ok batch
