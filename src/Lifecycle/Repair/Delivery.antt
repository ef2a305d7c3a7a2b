-- ===== src/Lifecycle/Repair/Delivery.antt =====
-- A batch that `RepairBatch` gives crosses the wire and is ready at the peer it was made for.
use stream_hive.Common.{
  ℕ, ◌+◌, ◌≤◌, ◌<◌, ◌≡◌, refl, sym, ap, ◌∙◌, subst, true, some, List, [], ◌∷◌, ok, arith, length,
  Result-cases, inl, inr,
}
use stream_hive.Common.Bytes.{Bytes}
use stream_hive.Std.Json.{Json}
use stream_hive.Std.Unicode.{Unicode}
use stream_hive.Context.{Ctx}
use stream_hive.Lifecycle.Version.{Version, newer}
use stream_hive.Lifecycle.Version.Order.{same_version_iff, newer_trans, newer_irrefl}
use stream_hive.Lifecycle.Records.{Record}
use stream_hive.Lifecycle.Records.Laws.{normalized_idem}
use stream_hive.Lifecycle.Journal.Files.{Journal}
use stream_hive.Lifecycle.Repair.{
  RepairLimits, repair_normalized, RepairBatch, ready_delivery, duplicate_delivery, newer_records,
  batch_type, check_batch, validate_batch, delivery, encode_batch, decode_batch, repair_batch,
  or_type, select, batch_of,
}
use stream_hive.Lifecycle.Repair.Batches.{repair_batch_sound}

repair_normalized_idem :
    (l : RepairLimits) → repair_normalized (repair_normalized l) ≡ repair_normalized l
unfolding repair_normalized
repair_normalized_idem l = ground (arith, normalized_idem l.record_limits)

module _ ⦃u : Unicode⦄ ⦃json : Json Record⦄ where
  check_batch-newer :
      (l : RepairLimits) (v w : Version) (a b : ℕ) (r : Record) (rs : List Record)
      → check_batch l v a b (r ∷ rs) ≡ ok w
      → newer w v ≡ true
  unfolding check_batch
  check_batch-newer l v w a b r [] h = ground arith
  check_batch-newer l v w a b r (s ∷ rs) h =
      newer_trans w r.version v
        (check_batch-newer l r.version w (a + (length r.namespace + length r.logical_key))
          (b + length (json.marshal r)) s rs (ground arith))
        (ground arith)

  validate_batch-newer :
      (b : RepairBatch) (l : RepairLimits)
      → validate_batch b l ≡ ok tt
      → 0 < length b.records
      → newer b.to b.from ≡ true
  unfolding validate_batch
  validate_batch-newer b l h pos = go b.records refl
    where
      go : (rs : List Record) → b.records ≡ rs → newer b.to b.from ≡ true
      go [] e = absurd (omega (arith, ap length e))
      go (r ∷ rs) e = elim (Result-cases (check_batch l b.from 0 0 b.records)) [
        | inr (x, bad) ↦ absurd (ground arith)
        | inl (w, good) ↦ ground (
          arith,
          same_version_iff b.to w,
          check_batch-newer l b.from w 0 0 r rs (ap (check_batch l b.from 0 0) (sym e) ∙ good),
        )
      ]

module _ ⦃u : Unicode⦄ ⦃json : Json Record⦄ ⦃batches : Json RepairBatch⦄ where
  encode_batch_ok :
      (b : RepairBatch) (l : RepairLimits) (payload : Bytes)
      → b.kind ≡ batch_type
      → encode_batch b l ≡ ok payload
      → (payload ≡ batches.marshal b)
        × (validate_batch b (repair_normalized l) ≡ ok tt)
        × (length payload ≤ (repair_normalized l).max_frame_bytes)
  unfolding encode_batch
  encode_batch_ok b l payload kind h =
      let same : record b { kind = or_type b.kind batch_type } ≡ b = ground arith in
      ground (arith, same)

  -- `DecodeRepairBatch` reads back what `EncodeRepairBatch` wrote (if the batch's JSON reads back).
  pub decode_batch-encode_batch :
      (b : RepairBatch) (l : RepairLimits) (payload : Bytes)
      → b.kind ≡ batch_type
      → batches.unmarshal (batches.marshal b) ≡ some b
      → encode_batch b l ≡ ok payload
      → decode_batch payload l ≡ ok b
  unfolding decode_batch
  decode_batch-encode_batch b l payload kind back h =
      let (shape, valid, fits) = encode_batch_ok b l payload kind h in ground arith

  pub repair_batch_kind :
      (ctx : Ctx) (from : Version) (l : RepairLimits) (j : Journal) (b : RepairBatch)
      → repair_batch ctx from l j ≡ ok b
      → b.kind ≡ batch_type
  unfolding repair_batch
  repair_batch_kind ctx from l j b h =
      let limits = repair_normalized l in
      let remaining = newer_records from j.records in
      elim (Result-cases (select limits from (length remaining) [] remaining)) [
        | inr (e, bad) ↦ absurd (ground arith)
        | inl (selected, good) ↦
            elim (Result-cases (encode_batch (batch_of from (length remaining) selected) limits)) [
              | inr (e, bad) ↦ absurd (ground arith)
              | inl (payload, encoded) ↦ ground arith
            ]
      ]

  -- A batch with records that `RepairBatch` made for a peer's watermark is ready at that watermark,
  -- and a duplicate at its own end; it ends at a newer version than the watermark.
  pub delivery-repair_batch :
      (ctx : Ctx) (from : Version) (l : RepairLimits) (j : Journal) (b : RepairBatch)
      → repair_batch ctx from l j ≡ ok b
      → 0 < length b.records
      → (delivery b from l ≡ ok ready_delivery)
        × (delivery b b.to l ≡ ok duplicate_delivery)
        × (newer b.to from ≡ true)
  unfolding delivery
  delivery-repair_batch ctx from l j b h pos =
      let (rest, _, start, _, _, _, (payload, encoded), _) = repair_batch_sound ctx from l j b h in
      let (_, valid, _) =
        encode_batch_ok b (repair_normalized l) payload (repair_batch_kind ctx from l j b h)
          encoded in
      let valid' : validate_batch b (repair_normalized l) ≡ ok tt =
        subst (λ (m : RepairLimits). validate_batch b m ≡ ok tt) (repair_normalized_idem l) valid in
      let forward = validate_batch-newer b (repair_normalized l) valid' pos in
      (
        ground (arith, same_version_iff b.from from, start, forward, valid'),
        ground (arith, newer_irrefl b.to, valid'),
        subst (λ (v : Version). newer b.to v ≡ true) start forward,
      )
