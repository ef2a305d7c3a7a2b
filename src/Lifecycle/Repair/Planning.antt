-- ===== src/Lifecycle/Repair/Planning.antt =====
-- internal/lifecycle/repair.go: `PlanRepair`, snapshots, acknowledgements and frames; and the
-- `RepairCoordinator` of watermark.go.
pub mod Plans
use stream_hive.Common.{
  ℕ, ◌+◌, ◌&&◌, Bool, true, false, Option, none, some, List, [], ◌∷◌, ok, err, check, fail_if,
  ◌>>=◌, ◌>>◌, not, length, ltb, ◌==◌, if◌then◌else◌,
}
use stream_hive.Common.Bytes.{Bytes}
use stream_hive.Std.Json.{Json, strictly}
use stream_hive.Std.Unicode.{Unicode}
use stream_hive.Context.{Ctx, later}
use stream_hive.Errors
use stream_hive.Errors.{Error, Fallible}
use stream_hive.Lifecycle.Version.{Version, newer, older, same_version, is_zero}
use stream_hive.Lifecycle.Records.{Record}
use stream_hive.Lifecycle.Checkpoints.{Checkpoint}
use stream_hive.Lifecycle.Journal.Files.{Journal, AtomicIo}
use stream_hive.Lifecycle.Transport.{has_lifecycle_capability}
use stream_hive.Lifecycle.Watermarks.{
  WatermarkBook, WatermarkState, watermark, validate_peer, acknowledge, reconcile,
}
use stream_hive.Lifecycle.Repair.{
  decode_repair_envelope, RepairLimits, repair_normalized, MessageType, unset, batch_type,
  snapshot_type, ack_type, other_type, RepairBatch, RepairSnapshot, RepairAck, is_batch,
  is_snapshot, or_type, normalize_repair_snapshot, encode_batch, decode_batch, repair_batch,
}

abbrev is_ack : MessageType → Bool
is_ack ack_type = true
is_ack _ = false

abbrev is_unset : MessageType → Bool
is_unset unset = true
is_unset _ = false

-- `frame.Type == "" || frame.Type == t`, by the test for `t`
abbrev fits_type : Bool → MessageType → Bool
fits_type same t = if is_unset t then true else same

pub data RepairPlanMode : Type 0 where
  journal_plan snapshot_plan : RepairPlanMode

pub record RepairPlan : Type 0 where
  pub mode : RepairPlanMode
  pub from : Version
  pub to : Version
  pub more : Bool
  pub payload : Bytes

pub record RepairFrame : Type 0 where
  pub kind : MessageType
  pub batch : Option RepairBatch
  pub snapshot : Option RepairSnapshot
  pub ack : Option RepairAck

abbrev pub decode_repair_type : ⦃kinds : Json MessageType⦄ → Bytes → Fallible MessageType
decode_repair_type payload = do
  kind ← strictly {A = MessageType} Error.repair_malformed Error.repair_malformed payload
  fail_if (is_unset kind) Error.repair_malformed
  ok kind

module _ ⦃acks : Json RepairAck⦄ where
  unfoldable pub encode_ack : RepairAck → RepairLimits → Fallible Bytes
  encode_ack a l = do
    let limits = repair_normalized l
    let a' : RepairAck = record a { kind = or_type a.kind ack_type }
    fail_if (not (is_ack a'.kind)) Error.repair_message_type
    let payload = acks.marshal a'
    fail_if (ltb limits.max_frame_bytes (length payload)) Error.repair_frame_too_large
    ok payload

  unfoldable pub decode_ack : Bytes → RepairLimits → Fallible RepairAck
  decode_ack payload l = do
    let limits = repair_normalized l
    fail_if (ltb limits.max_frame_bytes (length payload)) Error.repair_frame_too_large
    a ← decode_repair_envelope payload
    fail_if (not (is_ack a.kind)) Error.repair_message_type
    ok a

module _ ⦃u : Unicode⦄ ⦃json : Json Record⦄ ⦃snapshots : Json RepairSnapshot⦄ where
  unfoldable pub encode_snapshot : RepairSnapshot → RepairLimits → Fallible Bytes
  encode_snapshot s l = do
    let limits = repair_normalized l
    let s' : RepairSnapshot = record s { kind = or_type s.kind snapshot_type }
    fail_if (not (is_snapshot s'.kind)) Error.repair_message_type
    clean ← normalize_repair_snapshot s' limits
    let payload = snapshots.marshal clean
    fail_if (ltb limits.max_frame_bytes (length payload)) Error.repair_frame_too_large
    ok payload

  unfoldable pub decode_snapshot : Bytes → RepairLimits → Fallible RepairSnapshot
  decode_snapshot payload l = do
    let limits = repair_normalized l
    fail_if (ltb limits.max_frame_bytes (length payload)) Error.repair_frame_too_large
    s ← decode_repair_envelope payload
    fail_if (not (is_snapshot s.kind)) Error.repair_message_type
    normalize_repair_snapshot s limits

module _ ⦃u : Unicode⦄ ⦃json : Json Record⦄ ⦃batches : Json RepairBatch⦄
    ⦃snapshots : Json RepairSnapshot⦄ where
  -- the branch of `PlanRepair` for a peer behind the floor
  unfoldable pub plan_snapshot :
      Version → Version → Option Checkpoint → RepairLimits → Fallible RepairPlan
  unfolding encode_snapshot
  plan_snapshot from floor none l = err Error.repair_snapshot_required
  plan_snapshot from floor (some checkpoint) l = do
    fail_if (not (same_version checkpoint.watermark floor)) Error.repair_snapshot_watermark
    payload ←
        encode_snapshot
          (record {
            kind = snapshot_type;
            watermark = checkpoint.watermark;
            records = checkpoint.records;
          })
          l
    ok (record { mode = snapshot_plan; from = from; to = floor; more = false; payload = payload })

  -- its branch for a peer that the journal's tail repairs
  unfoldable pub plan_tail : Ctx → Version → Journal → RepairLimits → Fallible RepairPlan
  plan_tail ctx from j l = do
    batch ← repair_batch ctx from l j
    payload ← encode_batch batch l
    ok (record {
      mode = journal_plan;
      from = batch.from;
      to = batch.to;
      more = batch.more;
      payload = payload;
    })

  unfoldable pub plan_repair :
      Ctx → Journal → Version → Option Checkpoint → RepairLimits → Fallible RepairPlan
  unfolding plan_snapshot plan_tail
  plan_repair ctx j from checkpoint limits = do
    check (ctx 0)
    let l = repair_normalized limits
    if older from j.floor
        then plan_snapshot from j.floor checkpoint l
        else plan_tail (later 1 ctx) from j l

  module _ ⦃acks : Json RepairAck⦄ where
    unfoldable pub encode_frame : RepairFrame → RepairLimits → Fallible Bytes
    unfolding encode_snapshot encode_ack
    encode_frame f l = elim f.batch [
      | some b ↦ elim f.snapshot [
        | some _ ↦ err Error.repair_malformed
        | none ↦ elim f.ack [
          | some _ ↦ err Error.repair_malformed
          | none ↦ (do
            fail_if (not (fits_type (is_batch f.kind) f.kind)) Error.repair_message_type
            encode_batch b l)
        ]
      ]
      | none ↦ elim f.snapshot [
        | some s ↦ elim f.ack [
          | some _ ↦ err Error.repair_malformed
          | none ↦ (do
            fail_if (not (fits_type (is_snapshot f.kind) f.kind)) Error.repair_message_type
            encode_snapshot s l)
        ]
        | none ↦ elim f.ack [
          | some a ↦ (do
            fail_if (not (fits_type (is_ack f.kind) f.kind)) Error.repair_message_type
            encode_ack a l)
          | none ↦ err Error.repair_malformed
        ]
      ]
    ]

    -- `kinds` reads the field `type` of a payload and skips the others, as `decodeRepairType` does;
    -- an empty type is malformed.
    unfoldable pub decode_frame :
        ⦃kinds : Json MessageType⦄ → Bytes → RepairLimits → Fallible RepairFrame
    unfolding decode_snapshot decode_ack
    decode_frame ⦃kinds⦄ payload limits =
        let l = repair_normalized limits in
        let read : Fallible MessageType = (do
          fail_if (ltb l.max_frame_bytes (length payload)) Error.repair_frame_too_large
          decode_repair_type payload) in
        elim read [
          | err e ↦ err e
          | ok kind ↦ elim kind [
            | batch_type ↦ (do
              b ← decode_batch payload l
              ok (record { kind = batch_type; batch = some b; snapshot = none; ack = none }))
            | snapshot_type ↦ (do
              s ← decode_snapshot payload l
              ok (record { kind = snapshot_type; batch = none; snapshot = some s; ack = none }))
            | ack_type ↦ (do
              a ← decode_ack payload l
              ok (record { kind = ack_type; batch = none; snapshot = none; ack = some a }))
            | unset ↦ err Error.repair_message_type
            | other_type t ↦ err Error.repair_message_type
          ]
        ]

-- `RepairCoordinator`: a journal, the book of its peers, and the limits
module _ ⦃u : Unicode⦄ ⦃state : Json WatermarkState⦄ where
  -- the checks of `Acknowledge` and `Reconcile`
  unfoldable pub coordinator_checks :
      Ctx → Bytes → Version → Journal → WatermarkBook → Fallible Unit
  coordinator_checks ctx peer version j b = do
    check (ctx 0)
    validate_peer peer b
    fail_if (not (is_zero version) && newer version j.last) Error.repair_acknowledgement

  unfoldable pub coordinator_acknowledge :
      Ctx
      → AtomicIo
      → Bytes
      → Version
      → Journal
      → WatermarkBook
      → Option Bytes
      → Fallible Unit × WatermarkBook × Option Bytes
  unfolding coordinator_checks
  coordinator_acknowledge ctx io peer version j b file =
      elim (coordinator_checks ctx peer version j b) [
        | err e ↦ (err e, b, file)
        | ok _ ↦ acknowledge (later 1 ctx) io peer version b file
      ]

  unfoldable pub coordinator_reconcile :
      Ctx
      → AtomicIo
      → Bytes
      → Version
      → Journal
      → WatermarkBook
      → Option Bytes
      → Fallible Unit × WatermarkBook × Option Bytes
  unfolding coordinator_checks
  coordinator_reconcile ctx io peer version j b file =
      elim (coordinator_checks ctx peer version j b) [
        | err e ↦ (err e, b, file)
        | ok _ ↦ reconcile (later 1 ctx) io peer version b file
      ]

  unfoldable pub coordinator_plan :
      ⦃json : Json Record⦄
      → ⦃batches : Json RepairBatch⦄ → ⦃snapshots : Json RepairSnapshot⦄ → Ctx
      → Bytes
      → Option Checkpoint
      → Journal
      → WatermarkBook
      → RepairLimits
      → Fallible RepairPlan
  unfolding plan_repair
  coordinator_plan ctx peer snapshot j b l = do
    check (ctx 0)
    validate_peer peer b
    plan_repair (later 1 ctx) j (watermark peer b) snapshot l

-- `DecodeRepairFrameForPeer`
unfoldable pub decode_frame_for_peer :
    ⦃u : Unicode⦄
    → ⦃json : Json Record⦄ → ⦃batches : Json RepairBatch⦄ → ⦃snapshots : Json RepairSnapshot⦄
    → ⦃acks : Json RepairAck⦄ → ⦃kinds : Json MessageType⦄ → Bytes
    → List Bytes
    → RepairLimits
    → Fallible RepairFrame
unfolding decode_frame
decode_frame_for_peer payload capabilities l = do
  fail_if (not (has_lifecycle_capability capabilities)) Error.capability_required
  decode_frame payload l
