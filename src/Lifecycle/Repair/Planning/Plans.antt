-- ===== src/Lifecycle/Repair/Planning/Plans.antt =====
-- What a repair plan promises the peer, and that acknowledgements stay within the journal.
use stream_hive.Common.{
  ◌≡◌, false, Option, some, List, ◌++◌, ok, arith, length, ltb, Result-cases, inl, inr, Bool-cases,
  ◌⊎◌, ◌==◌,
}
use stream_hive.Common.Bytes.{Bytes}
use stream_hive.Common.Maps.{bytes_key, lookup-insert, lookup-delete}
use stream_hive.Std.Json.{Json}
use stream_hive.Std.Unicode.{Unicode}
use stream_hive.Context.{Ctx, later}
use stream_hive.Lifecycle.Version.{Version, zero_version, newer, older, compare}
use stream_hive.Lifecycle.Version.Order.{is_zero_iff}
use stream_hive.Lifecycle.Records.{Record}
use stream_hive.Lifecycle.Checkpoints.{Checkpoint}
use stream_hive.Lifecycle.Journal.Files.{Journal, AtomicIo}
use stream_hive.Lifecycle.Watermarks.{
  WatermarkBook, WatermarkState, watermark, acknowledge, reconcile, write_through,
}
use stream_hive.Lifecycle.Repair.{
  RepairLimits, repair_normalized, RepairBatch, RepairSnapshot, newer_records, delivery,
  ready_delivery, encode_batch, decode_batch, repair_batch,
}
use stream_hive.Lifecycle.Repair.Batches.{repair_batch_sound}
use stream_hive.Lifecycle.Repair.Delivery.{
  decode_batch-encode_batch, repair_batch_kind, delivery-repair_batch,
}
use stream_hive.Lifecycle.Repair.Planning.{
  RepairPlan, journal_plan, plan_tail, plan_repair, coordinator_checks, coordinator_acknowledge,
  coordinator_reconcile,
}

module _ ⦃u : Unicode⦄ ⦃json : Json Record⦄ ⦃batches : Json RepairBatch⦄
    ⦃snapshots : Json RepairSnapshot⦄ where
  -- A peer that is not behind the journal's floor is planned a batch of the tail: the payload
  -- decodes to it, it holds the next records that are newer than the peer's watermark, and it is
  -- ready for the peer if it holds any (if the JSON of that one batch reads back).
  pub plan_repair-decode_batch :
      (ctx : Ctx) (j : Journal) (from : Version) (checkpoint : Option Checkpoint) (l : RepairLimits)
      (p : RepairPlan)
      → ((b : RepairBatch)
          → repair_batch (later 1 ctx) from (repair_normalized l) j ≡ ok b
          → batches.unmarshal (batches.marshal b) ≡ some b)
      → older from j.floor ≡ false
      → plan_repair ctx j from checkpoint l ≡ ok p
      → (b : RepairBatch) × (rest : List Record) × (p.mode ≡ journal_plan)
        × (decode_batch p.payload (repair_normalized l) ≡ ok b)
        × (newer_records from j.records ≡ b.records ++ rest)
        × (p.to ≡ b.to)
        × (p.more ≡ ltb 0 (length rest))
        × ((length b.records ≡ 0) ⊎ (delivery b from (repair_normalized l) ≡ ok ready_delivery))
  unfolding plan_repair plan_tail
  plan_repair-decode_batch ctx j from checkpoint l p back ahead h =
      let limits = repair_normalized l in
      elim (Result-cases (repair_batch (later 1 ctx) from limits j)) [
        | inr (e, bad) ↦ absurd (ground arith)
        | inl (b, made) ↦ elim (Result-cases (encode_batch b limits)) [
          | inr (e, bad) ↦ absurd (ground arith)
          | inl (payload, encoded) ↦
              let kind = repair_batch_kind (later 1 ctx) from limits j b made in
              let (rest, parts, _, _, more, _, _, _) =
                repair_batch_sound (later 1 ctx) from limits j b made in
              let read = decode_batch-encode_batch b limits payload kind (back b made) encoded in
              (
                b,
                rest,
                ground arith,
                ground (arith, read),
                parts,
                ground arith,
                ground (arith, more),
                elim (Bool-cases (length b.records == 0)) [
                  | inl empty ↦ inl (ground arith)
                  | inr full ↦
                      inr
                        (delivery-repair_batch (later 1 ctx) from limits j b made (ground arith)).0
                ],
              )
        ]
      ]

module _ ⦃u : Unicode⦄ ⦃state : Json WatermarkState⦄ where
  -- no peer's watermark is beyond the journal
  abbrev pub WithinJournal : Journal → WatermarkBook → Type 0
  WithinJournal j b = (q : Bytes) → newer (watermark q b) j.last ≡ false

  not_newer_zero : (v : Version) → newer zero_version v ≡ false
  unfolding newer compare
  not_newer_zero v = ground arith

  -- Where no peer's watermark is beyond the journal's last version, none is after the coordinator's
  -- `Acknowledge` or `Reconcile`, whatever they answer.
  pub coordinator-WithinJournal :
      (ctx : Ctx) (io : AtomicIo) (peer : Bytes) (version : Version) (j : Journal)
      (b : WatermarkBook) (file : Option Bytes)
      → WithinJournal j b
      → WithinJournal j (coordinator_acknowledge ctx io peer version j b file).1
        × WithinJournal j (coordinator_reconcile ctx io peer version j b file).1
  unfolding coordinator_acknowledge coordinator_reconcile coordinator_checks acknowledge reconcile
      write_through watermark
  coordinator-WithinJournal ctx io peer version j b file within = (
    λ q. ground (
      arith,
      within q,
      lookup-insert peer q version b.watermarks,
      not_newer_zero j.last,
      is_zero_iff version,
    ),
    λ q. ground (
      arith,
      within q,
      lookup-insert peer q version b.watermarks,
      lookup-delete peer q b.watermarks,
      not_newer_zero j.last,
      is_zero_iff version,
    ),
  )
