-- ===== src/Examples/RepairRuns.antt =====
-- The theorems about repair, at concrete inputs.
use stream_hive.Common.{
  ◌<◌, ◌≡◌, ◌⊎◌, refl, true, false, none, some, List, [], ◌∷◌, ◌++◌, ok, err, arith, length, ltb,
}
use stream_hive.Context.{background}
use stream_hive.Errors.{Error}
use stream_hive.Lifecycle.Records.{Record}
use stream_hive.Lifecycle.JournalFile.{last_version}
use stream_hive.Lifecycle.Repair.{
  RepairLimits, RepairBatch, batch_type, ready_delivery, repair_normalized, newer_records, delivery,
  encode_batch, decode_batch, repair_batch,
}
use stream_hive.Lifecycle.Repair.Batches.{Ascends, rounds, rounds-newer_records}
use stream_hive.Lifecycle.Repair.Planning.{RepairPlan, journal_plan, plan_repair}
use stream_hive.Lifecycle.Repair.Planning.Plans.{plan_repair-decode_batch, WithinJournal}
use stream_hive.Lifecycle.Watermarks.{WatermarkBook}
use stream_hive.Examples.Codec.{ascii, record_codec}
use stream_hive.Examples.StateCodec.{watermark_codec}
use stream_hive.Examples.RepairCodec.{batch_codec, batch_codec_back, snapshot_codec}
use stream_hive.Examples.Samples.{limits, first, at, floor, journal}
use stream_hive.Common.Bytes.{bytes_equal}
use stream_hive.Lifecycle.Version.{newer, compare, older, is_zero, same_version}
use stream_hive.Lifecycle.Records.{
  is_printable, all_print, validate, validate_authority_id, check_blob_key, normalized,
}
use stream_hive.Std.Utf8.{runes}
use stream_hive.Common.Maps.{lookup}
use stream_hive.Lifecycle.Journal.Files.{ensure_open}
use stream_hive.Lifecycle.Watermarks.{watermark}
use stream_hive.Lifecycle.Repair.{check_batch, validate_batch, select}
use stream_hive.Lifecycle.Repair.Planning.{plan_tail}

-- one record in a batch
abbrev small : RepairLimits
small = record {
  record_limits = limits;
  max_records = 1;
  max_logical_key_bytes = 100;
  max_metadata_bytes = 1000;
  max_frame_bytes = 1000;
}

abbrev batch : RepairBatch
batch = record { kind = batch_type; from = floor; to = at 1 1; more = true; records = first ∷ [] }

batch_made : repair_batch background floor small journal ≡ ok batch
unfolding repair_batch bytes_equal newer compare older is_zero same_version is_printable all_print
    validate validate_authority_id check_blob_key normalized runes lookup last_version ensure_open
    watermark repair_normalized check_batch validate_batch encode_batch select newer_records
    plan_tail
batch_made = refl

journal-Ascends : Ascends floor journal.records
unfolding bytes_equal newer compare older is_zero same_version is_printable all_print validate
    validate_authority_id check_blob_key normalized runes lookup last_version ensure_open watermark
    repair_normalized check_batch validate_batch encode_batch select newer_records plan_tail
journal-Ascends = (refl, (refl, tt))

three_left : length (newer_records floor journal.records) < 3
unfolding bytes_equal newer compare older is_zero same_version is_printable all_print validate
    validate_authority_id check_blob_key normalized runes lookup last_version ensure_open watermark
    repair_normalized check_batch validate_batch encode_batch select newer_records plan_tail
three_left = omega arith

rounds-newer_records_example :
    ((e : Error) × (rounds 3 floor small journal ≡ some (err e)))
    ⊎ (rounds 3 floor small journal ≡ some (ok (newer_records floor journal.records)))
rounds-newer_records_example =
    rounds-newer_records 3 floor floor small journal journal-Ascends three_left

abbrev plan : RepairPlan
plan = record {
  mode = journal_plan;
  from = floor;
  to = at 1 1;
  more = true;
  payload = batch_codec.marshal batch;
}

planned : plan_repair background journal floor none small ≡ ok plan
unfolding plan_repair repair_batch bytes_equal newer compare older is_zero same_version is_printable
    all_print validate validate_authority_id check_blob_key normalized runes lookup last_version
    ensure_open watermark repair_normalized check_batch validate_batch encode_batch select
    newer_records plan_tail
planned = refl

not_behind : older floor journal.floor ≡ false
unfolding bytes_equal newer compare older is_zero same_version is_printable all_print validate
    validate_authority_id check_blob_key normalized runes lookup last_version ensure_open watermark
    repair_normalized check_batch validate_batch encode_batch select newer_records plan_tail
not_behind = refl

plan_repair-decode_batch_example :
    (b : RepairBatch) × (rest : List Record) × (plan.mode ≡ journal_plan)
    × (decode_batch plan.payload (repair_normalized small) ≡ ok b)
    × (newer_records floor journal.records ≡ b.records ++ rest)
    × (plan.to ≡ b.to)
    × (plan.more ≡ ltb 0 (length rest))
    × ((length b.records ≡ 0) ⊎ (delivery b floor (repair_normalized small) ≡ ok ready_delivery))
plan_repair-decode_batch_example =
    plan_repair-decode_batch background journal floor none small plan (λ b made. batch_codec_back b)
      not_behind planned

abbrev empty_book : WatermarkBook
empty_book = record {
  path = b'w' ∷ [];
  max_peers = 2;
  max_peer_id = 8;
  max_bytes = 1000;
  watermarks = [];
}

empty-WithinJournal : WithinJournal journal empty_book
unfolding bytes_equal newer compare older is_zero same_version is_printable all_print validate
    validate_authority_id check_blob_key normalized runes lookup last_version ensure_open watermark
    repair_normalized check_batch validate_batch encode_batch select newer_records plan_tail
empty-WithinJournal = λ q. refl
