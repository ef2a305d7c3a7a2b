-- ===== src/Lifecycle/Session/Frames.antt =====
-- internal/lifecycle/session.go: what each kind of frame does to a session.
use stream_hive.Common.{
  ◌≡◌, ◌≢◌, refl, ◌⊎◌, inl, inr, true, false, ◌&&◌, not, none, some, ◌∷◌, [], ◌++◌, ok, err, arith,
  Result-cases, Bool-cases, Option-cases,
}
use stream_hive.Common.Bytes.{Bytes}
use stream_hive.Std.Json.{Json}
use stream_hive.Std.Unicode.{Unicode}
use stream_hive.Std.Sha256.{Sha256}
use stream_hive.Context.{later}
use stream_hive.Errors.{Error}
use stream_hive.Storage.Blobs.{BlobStore}
use stream_hive.Lifecycle.Version.{Version, newer}
use stream_hive.Lifecycle.Version.Order.{newer_irrefl}
use stream_hive.Lifecycle.Records.{Record}
use stream_hive.Lifecycle.Checkpoints.{Checkpoint, normalize_checkpoint}
use stream_hive.Lifecycle.JournalFile.Header.{IsU64Version}
use stream_hive.Lifecycle.Journal.Append.Durability.{IsConsistent}
use stream_hive.Lifecycle.Applier.{applier_snapshot}
use stream_hive.Lifecycle.Applier.Snapshots.{SharesLimits, StartsAt, applier_snapshot-cases}
use stream_hive.Lifecycle.Watermarks.{WatermarkState, watermark}
use stream_hive.Lifecycle.Watermarks.Book.{acknowledge_monotone}
use stream_hive.Lifecycle.Repair.{
  RepairLimits, repair_normalized, validate_batch, RepairBatch, RepairSnapshot, RepairAck,
  MessageType, duplicate_delivery, delivery, ack_type,
}
use stream_hive.Lifecycle.Repair.Planning.{
  RepairFrame, encode_ack, coordinator_checks, coordinator_acknowledge,
}
use stream_hive.Lifecycle.Session.{
  World, RepairSession, AckIo, HandleIo, ack_payload, write_frame, write_ack, acknowledge_peer,
  settle, handle_ack, apply_batch, handle_batch, handle_snapshot, handle_frame,
}
use stream_hive.Lifecycle.Session.Acknowledged.{
  settle_sent, peer_sent, peer_watermark, newer-nonzero,
}

delivery_old :
    ⦃u : Unicode⦄
    → ⦃json : Json Record⦄ → (b : RepairBatch) (expected : Version) (l : RepairLimits)
    → newer b.to expected ≡ false
    → ((e : Error) × (delivery b expected l ≡ err e))
      ⊎ (delivery b expected l ≡ ok duplicate_delivery)
unfolding delivery
delivery_old b expected l h = elim (Result-cases (validate_batch b (repair_normalized l))) [
  | inr (e, bad) ↦ inl (e, ground arith)
  | inl (_, good) ↦ inr (ground arith)
]

module _ {S : Type 0} ⦃acks : Json RepairAck⦄ where
  -- a write changes the frames alone
  write_ack_keeps :
      (io : AckIo) (v : Version) (s : RepairSession) (w : World S)
      → ((write_ack io v s w).1.applier ≡ w.applier)
        × ((write_ack io v s w).1.disk ≡ w.disk)
        × ((write_ack io v s w).1.book ≡ w.book)
        × ((write_ack io v s w).1.book_file ≡ w.book_file)
  unfolding write_ack write_frame
  write_ack_keeps io v s w = elim (Result-cases (ack_payload io v s)) [
    | inr (e, bad) ↦ ground arith
    | inl (payload, good) ↦ ground arith
  ]

module _ {S : Type 0} ⦃acks : Json RepairAck⦄ ⦃u : Unicode⦄ ⦃states : Json WatermarkState⦄ where
  -- no watermark goes back
  abbrev Forward : World S → World S → Type 0
  Forward w after = (q : Bytes) → newer (watermark q w.book) (watermark q after.book) ≡ false

  peer-Forward :
      (io : AckIo) (v : Version) (s : RepairSession) (w : World S)
      → Forward w (acknowledge_peer io v s w).1
  unfolding acknowledge_peer coordinator_acknowledge
  peer-Forward io v s w q =
      elim (Result-cases (coordinator_checks io.acknowledge s.peer_id v w.applier.journal w.book)) [
        | inr (e, bad) ↦ ground (arith, newer_irrefl (watermark q w.book))
        | inl (_, good) ↦ ground (
          arith,
          acknowledge_monotone (later 1 io.acknowledge) io.file s.peer_id v w.book w.book_file q,
        )
      ]

  write_ack-Forward :
      (io : AckIo) (v : Version) (s : RepairSession) (w : World S)
      → Forward w (write_ack io v s w).1
  write_ack-Forward io v s w q =
      let (_, _, same, _) = write_ack_keeps io v s w in rw same (newer_irrefl (watermark q w.book))

  settle-Forward :
      (io : AckIo) (v : Version) (s : RepairSession) (w : World S) → Forward w (settle io v s w).1
  unfolding settle
  settle-Forward io v s w q =
      let marked = acknowledge_peer io v s w in
      let (_, _, same, _) = write_ack_keeps io v s marked.1 in
      elim (Result-cases marked.0) [
        | inr (e, bad) ↦ ground (arith, peer-Forward io v s w q)
        | inl (_, good) ↦ ground (arith, same, peer-Forward io v s w q)
      ]

  handle_ack-Forward :
      (io : AckIo) (v : Version) (s : RepairSession) (w : World S)
      → (s.reconcile_peer && not w.hello_received) ≡ false
      → Forward w (handle_ack io v s w).1
  unfolding handle_ack
  handle_ack-Forward io v s w late q = elim (Result-cases (acknowledge_peer io v s w).0) [
    | inr (e, bad) ↦ ground (arith, peer-Forward io v s w q)
    | inl (_, good) ↦ ground (arith, peer-Forward io v s w q)
  ]

module _ {S : Type 0} ⦃acks : Json RepairAck⦄ ⦃u : Unicode⦄ ⦃states : Json WatermarkState⦄
    ⦃blob : BlobStore S⦄ ⦃sha : Sha256⦄ ⦃json : Json Record⦄ where
  handle_batch-Forward :
      (io : HandleIo) (b : RepairBatch) (s : RepairSession) (w : World S)
      → Forward w (handle_batch io b s w).1
  unfolding handle_batch
  handle_batch-Forward io b s w q =
      let expected = watermark s.peer_id w.book in
      let loop = apply_batch io.apply s.capabilities b.records w.applier w.disk in
      let after : World S = record w { applier = loop.1; disk = loop.2 } in
      ground (
        arith,
        newer_irrefl (watermark q w.book),
        write_ack-Forward io.ack expected s w q,
        settle-Forward io.ack b.to s after q,
      )

  -- A batch that ends no later than the peer's watermark changes neither the records, the journal
  -- and its file, nor the watermarks and theirs, whatever `Handle` answers.
  pub handle_batch_duplicate :
      (io : HandleIo) (b : RepairBatch) (s : RepairSession) (w : World S)
      → newer b.to (watermark s.peer_id w.book) ≡ false
      → ((handle_batch io b s w).1.applier ≡ w.applier)
        × ((handle_batch io b s w).1.disk ≡ w.disk)
        × ((handle_batch io b s w).1.book ≡ w.book)
        × ((handle_batch io b s w).1.book_file ≡ w.book_file)
  unfolding handle_batch
  handle_batch_duplicate io b s w old =
      let expected = watermark s.peer_id w.book in
      let kept = write_ack_keeps io.ack expected s w in
      elim (Bool-cases s.applier) [
        | inr missing ↦ ground arith
        | inl has ↦ elim (delivery_old b expected s.limits old) [
          | inr dup ↦ ground (arith, kept)
          | inl (e, bad) ↦ ground arith
        ]
      ]

  module _ ⦃c : Json Checkpoint⦄ (clean : Bytes → Bytes) where
    handle_snapshot-Forward :
        (io : HandleIo) (snapshot : RepairSnapshot) (s : RepairSession) (w : World S)
        → Forward w (handle_snapshot clean io snapshot s w).1
    unfolding handle_snapshot
    handle_snapshot-Forward io snapshot s w q =
        let expected = watermark s.peer_id w.book in
        let checkpoint : Checkpoint = record {
          watermark = snapshot.watermark;
          records = snapshot.records;
        } in
        let installed =
          applier_snapshot clean io.snapshot s.capabilities checkpoint s.checkpoint_path w.applier
            w.disk in
        let after : World S = record w { applier = installed.1; disk = installed.2 } in
        ground (
          arith,
          newer_irrefl (watermark q w.book),
          write_ack-Forward io.ack expected s w q,
          settle-Forward io.ack snapshot.watermark s after q,
        )

    snapshot_installed :
        (io : HandleIo) (snapshot : RepairSnapshot) (s : RepairSession) (w : World S)
        → newer snapshot.watermark (watermark s.peer_id w.book) ≡ true
        → (handle_snapshot clean io snapshot s w).1.sent ≢ w.sent
        → let checkpoint : Checkpoint = record {
          watermark = snapshot.watermark;
          records = snapshot.records;
        } in
          let installed =
            applier_snapshot clean io.snapshot s.capabilities checkpoint s.checkpoint_path w.applier
              w.disk in
          let after : World S = record w { applier = installed.1; disk = installed.2 } in
          (installed.0 ≡ ok tt)
          × (handle_snapshot clean io snapshot s w ≡ settle io.ack snapshot.watermark s after)
    unfolding handle_snapshot
    snapshot_installed io snapshot s w fresh changed =
        let checkpoint : Checkpoint = record {
          watermark = snapshot.watermark;
          records = snapshot.records;
        } in
        let installed =
          applier_snapshot clean io.snapshot s.capabilities checkpoint s.checkpoint_path w.applier
            w.disk in
        elim (Bool-cases s.applier) [
          | inr missing ↦ absurd (changed (ground arith))
          | inl has ↦ elim (Result-cases installed.0) [
            | inr (e, bad) ↦ absurd (changed (ground arith))
            | inl (_, good) ↦ (good, ground arith)
          ]
        ]

    -- What answers a snapshot that is newer than the peer's watermark by a frame: the frame
    -- acknowledges the snapshot, the state and the journal start at it, as after a restart from the
    -- checkpoint's file, and the peer's watermark in the book is that of the snapshot.
    pub handle_snapshot-StartsAt :
        (io : HandleIo) (snapshot : RepairSnapshot) (s : RepairSession) (w : World S)
        → SharesLimits clean w.applier
        → IsConsistent w.applier.journal w.disk
        → IsU64Version snapshot.watermark
        → ((normal : Checkpoint)
            → normalize_checkpoint
                (record { watermark = snapshot.watermark; records = snapshot.records })
                w.applier.limits
              ≡ ok normal
            → c.unmarshal (c.marshal normal) ≡ some normal)
        → newer snapshot.watermark (watermark s.peer_id w.book) ≡ true
        → (handle_snapshot clean io snapshot s w).1.sent ≢ w.sent
        → let after = (handle_snapshot clean io snapshot s w).1 in
          (normal : Checkpoint) × (bytes : Bytes) × (payload : Bytes) × StartsAt clean
            (record { watermark = snapshot.watermark; records = snapshot.records })
            normal
            bytes
            s.checkpoint_path
            io.snapshot
            w.applier
            after.applier
            after.disk
          × (watermark s.peer_id after.book ≡ snapshot.watermark)
          × (encode_ack (record { kind = ack_type; watermark = snapshot.watermark }) s.limits
              ≡ ok payload)
          × (after.sent ≡ w.sent ++ payload ∷ [])
    handle_snapshot-StartsAt io snapshot s w shared consistent word back fresh changed =
        let checkpoint : Checkpoint = record {
          watermark = snapshot.watermark;
          records = snapshot.records;
        } in
        let installed =
          applier_snapshot clean io.snapshot s.capabilities checkpoint s.checkpoint_path w.applier
            w.disk in
        let after : World S = record w { applier = installed.1; disk = installed.2 } in
        let (done, shape) = snapshot_installed io snapshot s w fresh changed in
        let (good, payload, encoded, written) =
          settle_sent io.ack snapshot.watermark s after
            (λ same. changed (ground (arith, same, shape))) in
        let (_, applier, disk) = peer_sent io.ack snapshot.watermark s after in
        elim (applier_snapshot-cases clean io.snapshot s.capabilities checkpoint s.checkpoint_path
          w.applier w.disk shared consistent word back) [
            | inl (e, bad, _) ↦ absurd (ground arith)
            | inr (_, normal, bytes, starts) ↦
                rw (shape, written, applier, disk)
                  (
                    normal,
                    bytes,
                    payload,
                    starts,
                    peer_watermark io.ack snapshot.watermark s after
                        (newer-nonzero snapshot.watermark (watermark s.peer_id w.book) fresh) good,
                    unfold ack_payload in ground arith,
                    refl,
                  )
          ]

    module _ ⦃batches : Json RepairBatch⦄ ⦃snapshots : Json RepairSnapshot⦄
        ⦃kinds : Json MessageType⦄ where
      -- Whatever frame comes and whatever the session answers, no peer's watermark goes back, unless
      -- the frame is an acknowledgement in front of the hello of a session that reconciles.
      pub handle_frame-Forward :
          (io : HandleIo) (frame : RepairFrame) (s : RepairSession) (w : World S) (q : Bytes)
          → (frame.ack ≡ none) ⊎ ((s.reconcile_peer && not w.hello_received) ≡ false)
          → newer (watermark q w.book) (watermark q (handle_frame clean io frame s w).1.book)
            ≡ false
      unfolding handle_frame
      handle_frame-Forward io frame s w q late = elim (Option-cases frame.ack) [
        | inr (a, e) ↦ elim late [
          | inl no_ack ↦ absurd (ground arith)
          | inr past ↦ ground (arith, handle_ack-Forward io.ack a.watermark s w past q)
        ]
        | inl no_ack ↦ elim (Option-cases frame.batch) [
          | inr (b, e) ↦ ground (arith, handle_batch-Forward io b s w q)
          | inl no_batch ↦ elim (Option-cases frame.snapshot) [
            | inr (x, e) ↦ ground (arith, handle_snapshot-Forward io x s w q)
            | inl nothing ↦ ground (arith, newer_irrefl (watermark q w.book))
          ]
        ]
      ]
