-- ===== src/Lifecycle/Session.antt =====
-- internal/lifecycle/session.go: `RepairSession`, which plans, sends, receives, applies and
-- acknowledges repair frames for one peer. The coordinator and the applier of a session share one
-- journal, as the runtime builds them. `Handle` and `Run` are called from two goroutines: `Handle`
-- is one function, and `Run` gives way to the others where it waits.
pub mod Acknowledged
pub mod Frames
pub mod Sending
use stream_hive.Common.{
  ℕ, suc, Bool, true, false, ◌&&◌, Option, none, some, List, [], ◌∷◌, ◌++◌, ok, err, check, fail_if,
  ◌>>=◌, ◌>>◌, not, length, ltb, ◌==◌, if◌then◌else◌,
}
use stream_hive.Common.Bytes.{Bytes}
use stream_hive.Std.Json.{Json}
use stream_hive.Std.Unicode.{Unicode}
use stream_hive.Std.Sha256.{Sha256}
use stream_hive.Context.{Ctx}
use stream_hive.Errors
use stream_hive.Errors.{Error, Fallible}
use stream_hive.Storage.Blobs.{BlobStore}
use stream_hive.Lifecycle.Version.{Version, newer, older, is_zero}
use stream_hive.Lifecycle.Records.{Record}
use stream_hive.Lifecycle.Checkpoints.{Checkpoint}
use stream_hive.Lifecycle.Journal.Files.{Journal, Disk, AtomicIo}
use stream_hive.Lifecycle.Transport.{has_lifecycle_capability}
use stream_hive.Lifecycle.Watermarks.{WatermarkBook, WatermarkState, watermark, validate_peer}
use stream_hive.Lifecycle.Repair.{
  RepairLimits, MessageType, ack_type, RepairBatch, RepairSnapshot, RepairAck, ready_delivery,
  duplicate_delivery, delivery,
}
use stream_hive.Lifecycle.Repair.Planning.{
  RepairPlan, RepairFrame, encode_ack, coordinator_acknowledge, coordinator_reconcile,
  coordinator_plan, decode_frame_for_peer,
}
use stream_hive.Lifecycle.Applier.{Applier, ApplyIo, SnapshotIo, applier_apply, applier_snapshot}

-- what a session is constructed with: its options, the limits of its coordinator, and the
-- capabilities of its peer. `applier` says whether it has an applier.
pub record RepairSession : Type 0 where
  pub capabilities : List Bytes
  pub limits : RepairLimits
  pub applier : Bool
  pub peer_id : Bytes
  pub snapshot : Option Checkpoint
  pub checkpoint_path : Bytes
  pub max_frame_bytes : ℕ
  pub reconcile_peer : Bool

-- what the calls of a session change: the applier with the journal, their files, the watermark book
-- and its file, the flags, the two channels of capacity one, and the frames that were written
pub record World (S : Type 0) : Type 0 where
  pub applier : Applier S
  pub disk : Disk
  pub book : WatermarkBook
  pub book_file : Option Bytes
  pub hello_received : Bool
  pub hello_notify : Bool
  pub ack_notify : Bool
  pub sent : List Bytes

-- `maxFrameBytes` of `NewRepairSession`, with DefaultMaxRepairFrameBytes
unfoldable pub frame_limit : ℕ → RepairLimits → ℕ
frame_limit option l =
    if ltb 0 option then option else if ltb 0 l.max_frame_bytes then l.max_frame_bytes else 131072

-- `NewRepairSession` for a session that has a peer and a coordinator
unfoldable pub new_repair_session :
    ⦃u : Unicode⦄ → WatermarkBook → RepairSession → Fallible RepairSession
unfolding frame_limit
new_repair_session book s = do
  validate_peer s.peer_id book
  ok (record s { max_frame_bytes = frame_limit s.max_frame_bytes s.limits })

unfoldable pub require_capability : RepairSession → Fallible Unit
require_capability s =
    fail_if (not (has_lifecycle_capability s.capabilities)) Error.capability_required

-- the answers to the acknowledgement of a watermark: of the context and the disk to the
-- coordinator, of the context to `writeAck`, and of the peer to `WriteFrame`
pub record AckIo : Type 0 where
  pub acknowledge : Ctx
  pub file : AtomicIo
  pub context : Option Error
  pub write : Option Error

-- the answers to `Handle`; `apply k` are those to the k-th record
pub record HandleIo : Type 0 where
  pub entry : Option Error
  pub apply : ℕ → ApplyIo
  pub snapshot : SnapshotIo
  pub ack : AckIo

-- `writeAck` up to the write
unfoldable pub ack_payload :
    ⦃acks : Json RepairAck⦄ → AckIo → Version → RepairSession → Fallible Bytes
ack_payload io v s = do
  check io.context
  encode_ack (record { kind = ack_type; watermark = v }) s.limits

module _ ⦃u : Unicode⦄ ⦃json : Json Record⦄ ⦃acks : Json RepairAck⦄ ⦃batches : Json RepairBatch⦄
    ⦃snapshots : Json RepairSnapshot⦄ ⦃kinds : Json MessageType⦄ where
  -- `Handle` up to the switch
  unfoldable pub handle_checks : HandleIo → Bytes → RepairSession → Fallible RepairFrame
  unfolding require_capability
  handle_checks io payload s = do
    check io.entry
    require_capability s
    decode_frame_for_peer payload s.capabilities s.limits

module _ {S : Type 0} ⦃blob : BlobStore S⦄ ⦃sha : Sha256⦄ ⦃u : Unicode⦄ ⦃json : Json Record⦄ where
  -- the loop of `handleBatch` over the records
  unfoldable pub apply_batch :
      (ℕ → ApplyIo) → List Bytes → List Record → Applier S → Disk → Fallible Unit × Applier S × Disk
  apply_batch io capabilities [] a d = (ok tt, a, d)
  apply_batch io capabilities (r ∷ rs) a d =
      let first = applier_apply (io 0) capabilities r none a d in
      let rest = apply_batch (λ k. io (suc k)) capabilities rs first.1 first.2 in
      elim first.0 [ err e ↦ (err e, first.1, first.2) | ok _ ↦ rest ]

module _ {S : Type 0} ⦃acks : Json RepairAck⦄ where
  -- `WriteFrame` of the peer
  unfoldable pub write_frame : Option Error → Bytes → World S → Fallible Unit × World S
  write_frame (some e) payload w = (err e, w)
  write_frame none payload w = (ok tt, record w { sent = w.sent ++ payload ∷ [] })

  unfoldable pub write_ack : AckIo → Version → RepairSession → World S → Fallible Unit × World S
  unfolding ack_payload write_frame
  write_ack io v s w = elim (ack_payload io v s) [
    | err e ↦ (err e, w)
    | ok payload ↦ write_frame io.write payload w
  ]

  module _ ⦃u : Unicode⦄ ⦃states : Json WatermarkState⦄ where
    -- `s.coordinator.Acknowledge(ctx, s.peerID, v)`
    unfoldable pub acknowledge_peer :
        AckIo → Version → RepairSession → World S → Fallible Unit × World S
    acknowledge_peer io v s w =
        let after =
          coordinator_acknowledge io.acknowledge io.file s.peer_id v w.applier.journal w.book
            w.book_file in
        (after.0, record w { book = after.1; book_file = after.2 })

    -- the end of both handlers: the watermark is persisted, then acknowledged to the peer
    unfoldable pub settle : AckIo → Version → RepairSession → World S → Fallible Unit × World S
    unfolding acknowledge_peer write_ack
    settle io v s w =
        let marked = acknowledge_peer io v s w in
        let answered = write_ack io v s marked.1 in
        elim marked.0 [ err e ↦ (err e, marked.1) | ok _ ↦ answered ]

    -- the branch of `Handle` for an acknowledgement
    unfoldable pub handle_ack : AckIo → Version → RepairSession → World S → Fallible Unit × World S
    unfolding acknowledge_peer
    handle_ack io v s w =
        let greeted : World S = record w { hello_received = true; hello_notify = true } in
        let moved =
          coordinator_reconcile io.acknowledge io.file s.peer_id v w.applier.journal w.book
            w.book_file in
        let marked = acknowledge_peer io v s w in
        if s.reconcile_peer && not w.hello_received
        then (if is_zero w.applier.journal.last
            then (ok tt, greeted)
            else (moved.0, record greeted { book = moved.1; book_file = moved.2 }))
        else elim marked.0 [
          | err e ↦ (err e, marked.1)
          | ok _ ↦ (ok tt, record marked.1 { ack_notify = true })
        ]

    module _ ⦃blob : BlobStore S⦄ ⦃sha : Sha256⦄ ⦃json : Json Record⦄ where
      unfoldable pub handle_batch :
          HandleIo → RepairBatch → RepairSession → World S → Fallible Unit × World S
      unfolding apply_batch settle
      handle_batch io b s w =
          let expected = watermark s.peer_id w.book in
          let loop = apply_batch io.apply s.capabilities b.records w.applier w.disk in
          let after : World S = record w { applier = loop.1; disk = loop.2 } in
          let settled = settle io.ack b.to s after in
          elim (do
            fail_if (not s.applier) Error.nil_repair_session_applier
            delivery b expected s.limits) [
              | err e ↦ (err e, w)
              | ok kind ↦ elim kind [
                | duplicate_delivery ↦ write_ack io.ack expected s w
                | ready_delivery ↦ elim loop.0 [ err e ↦ (err e, after) | ok _ ↦ settled ]
              ]
            ]

      module _ ⦃c : Json Checkpoint⦄ (clean : Bytes → Bytes) where
        unfoldable pub handle_snapshot :
            HandleIo → RepairSnapshot → RepairSession → World S → Fallible Unit × World S
        unfolding settle
        handle_snapshot io snapshot s w =
            let expected = watermark s.peer_id w.book in
            let checkpoint : Checkpoint = record {
              watermark = snapshot.watermark;
              records = snapshot.records;
            } in
            let installed =
              applier_snapshot clean io.snapshot s.capabilities checkpoint s.checkpoint_path
                w.applier w.disk in
            let after : World S = record w { applier = installed.1; disk = installed.2 } in
            let settled = settle io.ack snapshot.watermark s after in
            elim s.applier [
              | false ↦ (err Error.nil_repair_session_applier, w)
              | true ↦
                  if not (newer snapshot.watermark expected)
                  then write_ack io.ack expected s w
                  else elim installed.0 [ err e ↦ (err e, after) | ok _ ↦ settled ]
            ]

        module _ ⦃batches : Json RepairBatch⦄ ⦃snapshots : Json RepairSnapshot⦄
            ⦃kinds : Json MessageType⦄ where
          unfoldable pub handle_frame :
              HandleIo → RepairFrame → RepairSession → World S → Fallible Unit × World S
          unfolding handle_ack handle_batch handle_snapshot
          handle_frame io frame s w = elim frame.ack [
            | some a ↦ handle_ack io.ack a.watermark s w
            | none ↦ elim frame.batch [
              | some b ↦ handle_batch io b s w
              | none ↦ elim frame.snapshot [
                | some snapshot ↦ handle_snapshot io snapshot s w
                | none ↦ (err Error.repair_malformed, w)
              ]
            ]
          ]

          unfoldable pub handle :
              HandleIo → Bytes → RepairSession → World S → Fallible Unit × World S
          unfolding handle_checks handle_frame
          handle io payload s w = elim (handle_checks io payload s) [
            | err e ↦ (err e, w)
            | ok frame ↦ handle_frame io frame s w
          ]
