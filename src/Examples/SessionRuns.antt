-- ===== src/Examples/SessionRuns.antt =====
-- The theorems about the repair session, at concrete inputs.
use stream_hive.Common.{
  inl, ◌≡◌, ◌⊎◌, ◌<◌, err, ◌≢◌, refl, ap, sym, ◌∙◌, true, false, none, some, List, [], ◌∷◌, ◌++◌,
  ok, arith, length,
}
use stream_hive.Common.Bytes.{Bytes}
use stream_hive.Lifecycle.Version.{newer, older}
use stream_hive.Lifecycle.Checkpoints.{Checkpoint, normalize_checkpoint}
use stream_hive.Lifecycle.Repair.{
  RepairBatch, RepairSnapshot, batch_type, snapshot_type, ack_type, ready_delivery, delivery,
  newer_records, repair_normalized,
}
use stream_hive.Std.Json.{Json, first_value}
use stream_hive.Context.{background}
use stream_hive.Lifecycle.Repair.{MessageType}
use stream_hive.Lifecycle.Repair.Planning.{RepairFrame, encode_ack}
use stream_hive.Lifecycle.Watermarks.{watermark}
use stream_hive.Storage.Memory.{MemoryStore, memory_blobs}
use stream_hive.Lifecycle.Session.{World, handle_batch, handle_snapshot, handle_frame}
use stream_hive.Lifecycle.Session.Acknowledged.{Acknowledged, handle_batch-Acknowledged}
use stream_hive.Lifecycle.Session.Frames.{handle_snapshot-StartsAt, handle_frame-Forward}
use stream_hive.Lifecycle.Session.Sending.{RunIo, run}
use stream_hive.Lifecycle.Repair.Batches.{Ascends}
use stream_hive.Lifecycle.Session.Sending.Completion.{ready, IsPrompt, run-newer_records}
use stream_hive.Lifecycle.Applier.Snapshots.{StartsAt}
use stream_hive.Lifecycle.Journal.Append.{append}
use stream_hive.Examples.Codec.{ascii, record_codec, checkpoint_codec}
use stream_hive.Examples.RepairCodec.{batch_codec, snapshot_codec}
use stream_hive.Examples.StateCodec.{watermark_codec}
use stream_hive.Examples.Samples.{
  second, third, third-InRange, at, journal-IsConsistent, empty_store,
}
use stream_hive.Examples.ApplierRuns.{clean, shares, remote, remote_back, applier-Replays}
use stream_hive.Examples.Replica.{
  toy_hash, list_tree, ack_codec, session, book, world, ack_fine, handle_fine, batch,
}
use stream_hive.Common.Bytes.{bytes_equal, bytes_less, put_uint32, put_uint64}
use stream_hive.Common.Maps.{delete, insert, lookup}
use stream_hive.Common.Sorting.{place, sort}
use stream_hive.Errors.{Error, errors_is}
use stream_hive.Lifecycle.Applier.{
  applier_apply, applier_snapshot, apply_checks, blob_checks, blob_data, commit, ensure_all,
  ensure_blob, ensure_present, snapshot_checks,
}
use stream_hive.Lifecycle.Checkpoints.{
  check_records, encode_checkpoint, has_duplicate, normalize_checkpoint_records, save_bytes,
  save_checkpoint,
}
use stream_hive.Lifecycle.Envelope.{encode_envelope, envelope}
use stream_hive.Lifecycle.Journal.Append.{append_checks, publish}
use stream_hive.Lifecycle.Journal.Compaction.{install_checks, install_snapshot}
use stream_hive.Lifecycle.Journal.Files.{atomic_prepare, atomic_write, ensure_open}
use stream_hive.Lifecycle.Journal.Rewrite.{
  replace_file, rewrite, rewrite_entries, rewrite_prepare, take_over,
}
use stream_hive.Lifecycle.JournalFile.{encode_journal_header, header_front, last_version}
use stream_hive.Lifecycle.Records.{
  all_print, body_equal, check_blob_key, is_printable, normalized, same_state, validate,
  validate_authority_id,
}
use stream_hive.Lifecycle.Repair.{
  check_batch, check_counts, encode_batch, normalize_repair_snapshot, repair_batch, select,
  validate_batch,
}
use stream_hive.Lifecycle.Repair.Planning.{
  coordinator_acknowledge, coordinator_checks, coordinator_plan, encode_snapshot, plan_repair,
  plan_snapshot, plan_tail,
}
use stream_hive.Lifecycle.Session.{
  ack_payload, acknowledge_peer, apply_batch, require_capability, settle, write_ack, write_frame,
}
use stream_hive.Lifecycle.Session.Sending.{
  before, run_loop, send_checks, send_next, startup, wait_ack, wait_hello, wait_plan,
}
use stream_hive.Lifecycle.StateFile.{persist, state_bytes}
use stream_hive.Lifecycle.Store.{
  apply, classify, classify_record, record_less, replace_loop, replace_snapshot, store_outcome,
}
use stream_hive.Lifecycle.Store.Keys.{logical_key_of, same_key}
use stream_hive.Lifecycle.Transport.{has_capability, has_lifecycle_capability}
use stream_hive.Lifecycle.Version.{compare, compares_equal, is_zero, same_version}
use stream_hive.Lifecycle.Watermarks.{
  acknowledge, entry_checks, no_room, validate_peer, write_through,
}
use stream_hive.Std.Utf8.{runes}
use stream_hive.Storage.Hash.{sha256_key, validate_sha256_key, verify_sha256_key}
use stream_hive.Storage.Memory.{get, key_string}

batch_ready :
    delivery batch (watermark session.peer_id world.book) session.limits ≡ ok ready_delivery
unfolding delivery validate_batch newer compare validate validate_authority_id is_printable runes
    is_zero watermark lookup bytes_equal
batch_ready = refl

ack_payload_bytes : (handle_batch handle_fine batch session world).1.sent ≡ (1 ∷ 3 ∷ []) ∷ []
unfolding get key_string lookup handle_batch delivery same_version validate_batch check_batch
    validate check_blob_key validate_authority_id normalized is_printable runes all_print is_zero
    newer compare repair_normalized settle write_ack write_frame ack_payload watermark encode_ack
    acknowledge_peer coordinator_acknowledge coordinator_checks validate_peer acknowledge insert
    delete entry_checks write_through persist atomic_write atomic_prepare state_bytes
    encode_envelope envelope put_uint32 older compares_equal no_room apply_batch applier_apply
    commit apply logical_key_of store_outcome classify_record body_equal same_state bytes_equal
    ensure_present ensure_blob blob_checks verify_sha256_key validate_sha256_key sha256_key
    blob_data errors_is apply_checks classify has_lifecycle_capability has_capability same_key
    append append_checks ensure_open encode_journal_header put_uint64 publish
ack_payload_bytes = refl

one_more : {A : Type 0} → (x : A) → (xs : List A) → x ∷ xs ≢ []
one_more x xs e = ground (arith, ap length e)

batch_sent : (handle_batch handle_fine batch session world).1.sent ≢ world.sent
batch_sent e = one_more (1 ∷ 3 ∷ []) [] (sym ack_payload_bytes ∙ e)

handle_batch-Acknowledged_example :
    Acknowledged batch session empty_store world (handle_batch handle_fine batch session world).1
handle_batch-Acknowledged_example =
    handle_batch-Acknowledged handle_fine batch session world empty_store journal-IsConsistent
      (third-InRange, tt) applier-Replays batch_ready batch_sent

abbrev snapshot : RepairSnapshot
snapshot = record { kind = snapshot_type; watermark = at 1 3; records = third ∷ second ∷ [] }

snapshot_newer : newer snapshot.watermark (watermark session.peer_id world.book) ≡ true
unfolding newer compare watermark lookup bytes_equal
snapshot_newer = refl

snapshot_answer :
    (handle_snapshot clean handle_fine snapshot session world).1.sent ≡ (1 ∷ 3 ∷ []) ∷ []
unfolding get key_string lookup handle_snapshot settle write_ack write_frame ack_payload watermark
    encode_ack newer compare repair_normalized normalized acknowledge_peer coordinator_acknowledge
    coordinator_checks is_zero same_version validate_peer is_printable runes all_print acknowledge
    insert delete entry_checks write_through persist atomic_write atomic_prepare state_bytes
    encode_envelope envelope put_uint32 older compares_equal no_room ensure_open put_uint64 place
    errors_is blob_checks blob_data ensure_all ensure_blob ensure_present snapshot_checks
    encode_checkpoint save_bytes save_checkpoint replace_file rewrite rewrite_entries
    rewrite_prepare take_over encode_journal_header header_front last_version check_blob_key
    logical_key_of same_key replace_loop replace_snapshot has_capability sha256_key
    validate_sha256_key bytes_equal applier_snapshot has_lifecycle_capability normalize_checkpoint
    normalize_checkpoint_records check_records validate validate_authority_id has_duplicate sort
    record_less bytes_less same_state verify_sha256_key install_snapshot install_checks
snapshot_answer = refl

snapshot_sent : (handle_snapshot clean handle_fine snapshot session world).1.sent ≢ world.sent
snapshot_sent e = one_more (1 ∷ 3 ∷ []) [] (sym snapshot_answer ∙ e)

handle_snapshot-StartsAt_example :
    let after = (handle_snapshot clean handle_fine snapshot session world).1 in
    (normal : Checkpoint) × (bytes : Bytes) × (payload : Bytes) × StartsAt clean remote normal bytes
      session.checkpoint_path handle_fine.snapshot world.applier after.applier after.disk
    × (watermark session.peer_id after.book ≡ snapshot.watermark)
    × (encode_ack (record { kind = ack_type; watermark = snapshot.watermark }) session.limits
        ≡ ok payload)
    × (after.sent ≡ world.sent ++ payload ∷ [])
handle_snapshot-StartsAt_example =
    handle_snapshot-StartsAt clean handle_fine snapshot session world shares journal-IsConsistent
      (omega arith) remote_back snapshot_newer snapshot_sent

-- the peer is one record behind
abbrev start : World (MemoryStore (List Bytes))
start = record world { book = record book { watermarks = (b'x' ∷ [], at 1 1) ∷ [] } }

abbrev last_batch : RepairBatch
last_batch = record {
  kind = batch_type;
  from = at 1 1;
  to = at 1 2;
  more = false;
  records = second ∷ [];
}

abbrev finished : World (MemoryStore (List Bytes))
finished = record world { sent = batch_codec.marshal last_batch ∷ [] }

-- the peer's acknowledgement comes while the session waits
abbrev run_fine : RunIo (MemoryStore (List Bytes))
run_fine = record {
  hello = ack_fine;
  turns = λ k w. (none, w);
  before_repair = none;
  rounds = λ k. record {
    send = record { entry = none; plan = background; write = none };
    turns = λ k w. (none, record w { book = book });
  };
}

run_ends : run 1 1 run_fine session start ≡ some (ok tt, finished)
unfolding run startup wait_hello write_ack write_frame ack_payload watermark lookup encode_ack newer
    compare repair_normalized normalized is_zero same_version run_loop wait_plan wait_ack older
    send_next send_checks require_capability has_lifecycle_capability has_capability bytes_equal
    coordinator_plan plan_repair plan_snapshot encode_snapshot normalize_repair_snapshot
    normalize_checkpoint check_counts plan_tail repair_batch newer_records last_version select
    encode_batch validate_batch check_batch validate check_blob_key validate_authority_id
    is_printable runes all_print ensure_open validate_peer before
run_ends = refl

start-Ascends : Ascends (at 1 0) (ready run_fine session start).applier.journal.records
unfolding before startup newer compare
start-Ascends = (refl, (refl, tt))

start_ahead :
    older
      (watermark session.peer_id (ready run_fine session start).book)
      (ready run_fine session start).applier.journal.floor
    ≡ false
unfolding older compare watermark lookup before startup bytes_equal
start_ahead = refl

start-IsPrompt : IsPrompt 2 1 run_fine.rounds session (ready run_fine session start)
unfolding run startup wait_hello write_ack write_frame ack_payload watermark lookup encode_ack newer
    compare repair_normalized normalized is_zero same_version run_loop wait_plan wait_ack older
    send_next send_checks require_capability has_lifecycle_capability has_capability bytes_equal
    coordinator_plan plan_repair plan_snapshot encode_snapshot normalize_repair_snapshot
    normalize_checkpoint check_counts plan_tail repair_batch newer_records last_version select
    encode_batch validate_batch check_batch validate check_blob_key validate_authority_id
    is_printable runes all_print ensure_open validate_peer before IsPrompt
start-IsPrompt = (refl, (refl, tt))

start_few :
    length (
      newer_records
        (watermark session.peer_id (ready run_fine session start).book)
        (ready run_fine session start).applier.journal.records)
    < 2
unfolding newer_records before startup newer compare watermark lookup bytes_equal
start_few = omega arith

run-newer_records_example :
    ((e : Error) × (after : World (MemoryStore (List Bytes))) × (run 2 1 run_fine session start
        ≡ some (err e, after)))
    ⊎ ((after : World (MemoryStore (List Bytes))) × (run 2 1 run_fine session start
          ≡ some (ok tt, after))
        × (after.applier.journal ≡ (ready run_fine session start).applier.journal)
        × (newer_records
              (watermark session.peer_id after.book)
              (ready run_fine session start).applier.journal.records
            ≡ []))
run-newer_records_example =
    run-newer_records 2 1 run_fine session start (at 1 0) start-Ascends start_ahead start-IsPrompt
      start_few

abbrev frame : RepairFrame
frame = record { kind = batch_type; batch = some batch; snapshot = none; ack = none }

instance abbrev kind_codec : Json MessageType
kind_codec = record { marshal = λ k. []; unmarshal = λ bs. none; failure = λ bs. first_value }

handle_frame-Forward_example :
    newer
      (watermark (b'x' ∷ []) world.book)
      (watermark (b'x' ∷ []) (handle_frame clean handle_fine frame session world).1.book)
    ≡ false
handle_frame-Forward_example =
    handle_frame-Forward clean handle_fine frame session world (b'x' ∷ []) (inl refl)
