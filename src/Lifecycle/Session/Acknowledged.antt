-- ===== src/Lifecycle/Session/Acknowledged.antt =====
-- internal/lifecycle/session.go: what stands behind an acknowledgement that a session sends.
use stream_hive.Common.{
  ℕ, suc, ◌≡◌, ◌≢◌, refl, sym, ◌⊎◌, inl, inr, true, false, none, List, [], ◌∷◌, ◌++◌, ok, err,
  arith, All, subst, Result-cases, Bool-cases, Option-cases,
}
use stream_hive.Common.Bytes.{Bytes, bytes_equal_iff}
use stream_hive.Std.Json.{Json}
use stream_hive.Std.Unicode.{Unicode}
use stream_hive.Std.Sha256.{Sha256}
use stream_hive.Context.{later}
use stream_hive.Errors.{Error, Fallible}
use stream_hive.Storage.Blobs.{BlobStore}
use stream_hive.Lifecycle.Version.{Version, newer, is_zero, compare}
use stream_hive.Lifecycle.Records.{Record}
use stream_hive.Lifecycle.Records.Laws.{InRange}
use stream_hive.Lifecycle.Store.{Store, ApplyResult}
use stream_hive.Lifecycle.Journal.Files.{Disk}
use stream_hive.Lifecycle.Journal.Append.Durability.{IsConsistent}
use stream_hive.Lifecycle.Applier.{Applier, ApplyIo, applier_apply}
use stream_hive.Lifecycle.Applier.Recovery.{Replays, applier_apply-Replays}
use stream_hive.Lifecycle.Applier.Holding.{
  Holds, Holds-applier_apply, applier_apply-Holds, applier_apply-IsConsistent,
}
use stream_hive.Lifecycle.Watermarks.{WatermarkState, watermark, acknowledge}
use stream_hive.Lifecycle.Watermarks.Book.{acknowledge_sets}
use stream_hive.Lifecycle.Repair.{
  RepairLimits, repair_normalized, validate_batch, RepairBatch, RepairAck, ready_delivery, delivery,
  ack_type,
}
use stream_hive.Lifecycle.Repair.Planning.{encode_ack, coordinator_checks, coordinator_acknowledge}
use stream_hive.Lifecycle.Session.{
  World, RepairSession, AckIo, HandleIo, ack_payload, write_ack, acknowledge_peer, settle,
  apply_batch, handle_batch,
}

module _ {S : Type 0} ⦃blob : BlobStore S⦄ ⦃sha : Sha256⦄ ⦃u : Unicode⦄ ⦃json : Json Record⦄ where
  -- the loop behind its first record
  apply_batch_next :
      (io : ℕ → ApplyIo) (capabilities : List Bytes) (r : Record) (rs : List Record) (a : Applier S)
      (d : Disk) (result : ApplyResult)
      → (applier_apply (io 0) capabilities r none a d).0 ≡ ok result
      → apply_batch io capabilities (r ∷ rs) a d
        ≡ apply_batch
            (λ k. io (suc k))
            capabilities
            rs
            (applier_apply (io 0) capabilities r none a d).1
            (applier_apply (io 0) capabilities r none a d).2
  unfolding apply_batch
  apply_batch_next io capabilities r rs a d result h = ground arith

  apply_batch_stop :
      (io : ℕ → ApplyIo) (capabilities : List Bytes) (r : Record) (rs : List Record) (a : Applier S)
      (d : Disk) (e : Error)
      → (applier_apply (io 0) capabilities r none a d).0 ≡ err e
      → apply_batch io capabilities (r ∷ rs) a d ≡ (
        err e,
        (applier_apply (io 0) capabilities r none a d).1,
        (applier_apply (io 0) capabilities r none a d).2,
      )
  unfolding apply_batch
  apply_batch_stop io capabilities r rs a d e h = ground arith

  -- what every `Apply` keeps, the loop keeps
  apply_batch_keeps :
      (P : Applier S → Type 0)
      → ((io : ApplyIo) (capabilities : List Bytes) (r : Record) (a : Applier S) (d : Disk)
          → P a
          → P (applier_apply io capabilities r none a d).1)
      → (io : ℕ → ApplyIo) (capabilities : List Bytes) (rs : List Record) (a : Applier S) (d : Disk)
      → P a
      → P (apply_batch io capabilities rs a d).1
  apply_batch_keeps P keep io capabilities [] a d h = unfold apply_batch in h
  apply_batch_keeps P keep io capabilities (r ∷ rs) a d h =
      let first = applier_apply (io 0) capabilities r none a d in
      let one : P first.1 = keep (io 0) capabilities r a d h in
      elim (Result-cases first.0) [
        | inr (e, bad) ↦ rw (apply_batch_stop io capabilities r rs a d e bad) one
        | inl (result, good) ↦
            rw (apply_batch_next io capabilities r rs a d result good)
              (apply_batch_keeps P keep (λ k. io (suc k)) capabilities rs first.1 first.2 one)
      ]

  -- after a batch that was applied whole, the state holds each of its records or a newer one, and
  -- the journal agrees with its file
  apply_batch_whole :
      (io : ℕ → ApplyIo) (capabilities : List Bytes) (rs : List Record) (a : Applier S) (d : Disk)
      → IsConsistent a.journal d
      → All InRange rs
      → (apply_batch io capabilities rs a d).0 ≡ ok tt
      → All (Holds (apply_batch io capabilities rs a d).1.state) rs
        × IsConsistent
            (apply_batch io capabilities rs a d).1.journal
            (apply_batch io capabilities rs a d).2
  apply_batch_whole io capabilities [] a d c range h = (tt, unfold apply_batch in c)
  apply_batch_whole io capabilities (r ∷ rs) a d c range h =
      let first = applier_apply (io 0) capabilities r none a d in
      elim (Result-cases first.0) [
        | inr (e, bad) ↦ absurd (ground (arith, apply_batch_stop io capabilities r rs a d e bad))
        | inl (result, good) ↦
            let next = apply_batch_next io capabilities r rs a d result good in
            let (rest, consistent) =
              apply_batch_whole (λ k. io (suc k)) capabilities rs first.1 first.2
                (applier_apply-IsConsistent (io 0) capabilities r a d result c range.0 good) range.1
                (rw next at h) in
            subst
              (λ (x : Fallible Unit × Applier S × Disk).
                All (Holds x.1.state) (r ∷ rs) × IsConsistent x.1.journal x.2)
              (sym next)
              (
                (
                  apply_batch_keeps (λ (x : Applier S). Holds x.state r)
                      (λ io' caps t x y. Holds-applier_apply io' caps r t x y) (λ k. io (suc k))
                      capabilities rs first.1 first.2
                      (applier_apply-Holds (io 0) capabilities r a d result good),
                  rest,
                ),
                consistent,
              )
      ]

module _ {S : Type 0} ⦃acks : Json RepairAck⦄ ⦃u : Unicode⦄ ⦃states : Json WatermarkState⦄ where
  -- a frame is written, or nothing is
  write_ack_sent :
      (io : AckIo) (v : Version) (s : RepairSession) (w : World S)
      → ((write_ack io v s w).1 ≡ w)
        ⊎ ((payload : Bytes) × (ack_payload io v s ≡ ok payload)
            × (write_ack io v s w ≡ (ok tt, record w { sent = w.sent ++ payload ∷ [] })))
  unfolding write_ack
  write_ack_sent io v s w = elim (Result-cases (ack_payload io v s)) [
    | inr (e, bad) ↦ inl (ground arith)
    | inl (payload, good) ↦ elim (Option-cases io.write) [
      | inl fine ↦ inr (payload, good, ground arith)
      | inr (e, failed) ↦ inl (ground arith)
    ]
  ]

  -- the acknowledgement changes the book and its file alone
  pub peer_sent :
      (io : AckIo) (v : Version) (s : RepairSession) (w : World S)
      → ((acknowledge_peer io v s w).1.sent ≡ w.sent)
        × ((acknowledge_peer io v s w).1.applier ≡ w.applier)
        × ((acknowledge_peer io v s w).1.disk ≡ w.disk)
  unfolding acknowledge_peer
  peer_sent io v s w = (refl, refl, refl)

  -- `settle` writes an acknowledgement only behind a successful `Acknowledge`
  pub settle_sent :
      (io : AckIo) (v : Version) (s : RepairSession) (w : World S)
      → (settle io v s w).1.sent ≢ w.sent
      → ((acknowledge_peer io v s w).0 ≡ ok tt)
        × (payload : Bytes) × (ack_payload io v s ≡ ok payload)
        × (settle io v s w
            ≡ (ok tt, record (acknowledge_peer io v s w).1 { sent = w.sent ++ payload ∷ [] }))
  unfolding settle
  settle_sent io v s w changed =
      let marked = acknowledge_peer io v s w in
      let (same, _, _) = peer_sent io v s w in
      elim (Result-cases marked.0) [
        | inr (e, bad) ↦ absurd (changed (ground (arith, same)))
        | inl (_, good) ↦ elim (write_ack_sent io v s marked.1) [
          | inl unsent ↦ absurd (changed (ground (arith, same)))
          | inr (payload, encoded, written) ↦ (good, payload, encoded, ground (arith, same))
        ]
      ]

  -- a successful acknowledgement of a version that is not zero is the peer's watermark
  pub peer_watermark :
      (io : AckIo) (v : Version) (s : RepairSession) (w : World S)
      → is_zero v ≡ false
      → (acknowledge_peer io v s w).0 ≡ ok tt
      → watermark s.peer_id (acknowledge_peer io v s w).1.book ≡ v
  unfolding acknowledge_peer coordinator_acknowledge
  peer_watermark io v s w nonzero done =
      elim (Result-cases (coordinator_checks io.acknowledge s.peer_id v w.applier.journal w.book)) [
        | inr (e, bad) ↦ absurd (ground arith)
        | inl (_, good) ↦
            let answer : (acknowledge (later 1 io.acknowledge) io.file s.peer_id v w.book
                  w.book_file).0
                ≡ ok tt =
              ground arith in
            let (_, sets) =
              acknowledge_sets (later 1 io.acknowledge) io.file s.peer_id v w.book w.book_file
                nonzero answer in
            ground (arith, sets s.peer_id, bytes_equal_iff s.peer_id s.peer_id)
      ]

delivery_ready :
    ⦃u : Unicode⦄
    → ⦃json : Json Record⦄ → (b : RepairBatch) (expected : Version) (l : RepairLimits)
    → delivery b expected l ≡ ok ready_delivery
    → newer b.to expected ≡ true
unfolding delivery
delivery_ready b expected l h = elim (Result-cases (validate_batch b (repair_normalized l))) [
  | inr (e, bad) ↦ absurd (ground arith)
  | inl (_, good) ↦ ground arith
]

pub newer-nonzero : (v w : Version) → newer v w ≡ true → is_zero v ≡ false
unfolding newer is_zero compare
newer-nonzero v w h = ground arith

module _ {S : Type 0} ⦃acks : Json RepairAck⦄ ⦃u : Unicode⦄ ⦃states : Json WatermarkState⦄
    ⦃blob : BlobStore S⦄ ⦃sha : Sha256⦄ ⦃json : Json Record⦄ where
  -- what stands behind the acknowledgement of a batch
  pub record Acknowledged (b : RepairBatch) (s : RepairSession) (base : Store)
      (before after : World S) : Type 0 where
    pub holds : All (Holds after.applier.state) b.records
    pub consistent_after : IsConsistent after.applier.journal after.disk
    pub replays : Replays base after.applier
    pub marked : watermark s.peer_id after.book ≡ b.to
    pub answer :
        (payload : Bytes) × (encode_ack (record { kind = ack_type; watermark = b.to }) s.limits
          ≡ ok payload)
        × (after.sent ≡ before.sent ++ payload ∷ [])

  handle_batch_ready :
      (io : HandleIo) (b : RepairBatch) (s : RepairSession) (w : World S)
      → delivery b (watermark s.peer_id w.book) s.limits ≡ ok ready_delivery
      → (handle_batch io b s w).1.sent ≢ w.sent
      → let loop = apply_batch io.apply s.capabilities b.records w.applier w.disk in
        let applied : World S = record w { applier = loop.1; disk = loop.2 } in
        (loop.0 ≡ ok tt) × (handle_batch io b s w ≡ settle io.ack b.to s applied)
  unfolding handle_batch
  handle_batch_ready io b s w ready changed =
      let loop = apply_batch io.apply s.capabilities b.records w.applier w.disk in
      elim (Bool-cases s.applier) [
        | inr missing ↦ absurd (changed (ground arith))
        | inl has ↦ elim (Result-cases loop.0) [
          | inr (e, bad) ↦ absurd (changed (ground arith))
          | inl (_, good) ↦ (good, ground arith)
        ]
      ]

  -- When a session answers a batch that its watermark is ready for by writing a frame: that frame
  -- acknowledges the end of the batch; under the key of each record of the batch the state holds a
  -- newer record, or one with its version and its body; the journal agrees with its file and
  -- replays to the state; and the peer's watermark in the book is the end of the batch.
  pub handle_batch-Acknowledged :
      (io : HandleIo) (b : RepairBatch) (s : RepairSession) (w : World S) (base : Store)
      → IsConsistent w.applier.journal w.disk
      → All InRange b.records
      → Replays base w.applier
      → delivery b (watermark s.peer_id w.book) s.limits ≡ ok ready_delivery
      → (handle_batch io b s w).1.sent ≢ w.sent
      → Acknowledged b s base w (handle_batch io b s w).1
  handle_batch-Acknowledged io b s w base c range replays ready changed =
      let loop = apply_batch io.apply s.capabilities b.records w.applier w.disk in
      let applied : World S = record w { applier = loop.1; disk = loop.2 } in
      let (done, shape) = handle_batch_ready io b s w ready changed in
      let (good, payload, encoded, written) =
        settle_sent io.ack b.to s applied (λ same. changed (ground (arith, same, shape))) in
      let (_, applier, disk) = peer_sent io.ack b.to s applied in
      let (holds, consistent) =
        apply_batch_whole io.apply s.capabilities b.records w.applier w.disk c range done in
      rw (shape, written)
        (record {
          holds = rw applier holds;
          consistent_after = rw (applier, disk) consistent;
          replays = rw applier (
              apply_batch_keeps (Replays base)
                (λ io' caps r a d h. applier_apply-Replays io' caps r none a d base h) io.apply
                s.capabilities b.records w.applier w.disk replays);
          marked =
              peer_watermark io.ack b.to s applied
                (newer-nonzero b.to (watermark s.peer_id w.book)
                  (delivery_ready b (watermark s.peer_id w.book) s.limits ready))
                good;
          answer = (payload, unfold ack_payload in ground arith, refl);
        })
