-- ===== src/Examples/CompactionRuns.antt =====
-- The theorems about checkpoints, compaction and the installation of snapshots, at concrete inputs.
use stream_hive.Common.{◌≡◌, refl, ok, err, [], ◌∷◌, some, none, arith, length}
use stream_hive.Common.Bytes.{Bytes}
use stream_hive.Context.{background}
use stream_hive.Lifecycle.Records.{Record, validate, validate_authority_id, is_printable}
use stream_hive.Lifecycle.Checkpoints.{
  Checkpoint, normalize_checkpoint, save_bytes, load_checkpoint,
}
use stream_hive.Lifecycle.Journal.Files.{atomic_fine}
use stream_hive.Lifecycle.Journal.Rewrite.{rewrite_fine}
use stream_hive.Lifecycle.Journal.Compaction.{CompactionRequest, CompactIo, compact}
use stream_hive.Examples.Codec.{ascii, record_codec, checkpoint_codec}
use stream_hive.Examples.Samples.{
  limits, first, second, third, at, floor, disk, journal, journal-IsConsistent,
}
use stream_hive.Lifecycle.Journal.Compaction.{
  compact_checks, check_peers, compaction_base, apply_base, apply_prefix,
}
use stream_hive.Lifecycle.Journal.Files.{ensure_open, atomic_prepare, atomic_write}
use stream_hive.Common.Bytes.{bytes_equal, bytes_less, put_uint32, put_uint64}
use stream_hive.Lifecycle.Version.{newer, compare, older, is_zero, same_version}
use stream_hive.Lifecycle.Checkpoints.{
  normalize_checkpoint, normalize_checkpoint_records, check_records, has_duplicate,
  encode_checkpoint, records_equal,
}
use stream_hive.Common.Sorting.{sort, place}
use stream_hive.Lifecycle.Records.{
  validate, validate_authority_id, is_printable, all_print, body_equal, check_blob_key, equal,
  normalized, same_state,
}
use stream_hive.Common.Maps.{insert, lookup}
use stream_hive.Lifecycle.Envelope.{encode_envelope, envelope}
use stream_hive.Lifecycle.Journal.Rewrite.{
  replace_file, rewrite, rewrite_entries, rewrite_prepare, take_over,
}
use stream_hive.Lifecycle.JournalFile.{encode_journal_header, header_front, last_version}
use stream_hive.Lifecycle.Store.Keys.{logical_key_of, same_key}
use stream_hive.Lifecycle.Store.{
  apply, classify_record, new_store, record_less, snapshot, store_outcome,
}
use stream_hive.Std.Utf8.{runes}
use stream_hive.Common.{List, ◌⊎◌, ◌++◌, drop, true}
use stream_hive.Lifecycle.Watermarks.{WatermarkBook, watermark}
use stream_hive.Lifecycle.Membership.{MembershipBook}
use stream_hive.Errors.{Error}
use stream_hive.Lifecycle.Store.{Store}
use stream_hive.Lifecycle.Checkpoints.{load_fine, save_checkpoint}
use stream_hive.Lifecycle.Checkpoints.Laws.{load_checkpoint-save_bytes}
use stream_hive.Lifecycle.JournalFile.Loop.{entries_bytes}
use stream_hive.Lifecycle.Journal.Rewrite.{RewriteIo}
use stream_hive.Lifecycle.Journal.Compaction.{install_snapshot, install_checks}
use stream_hive.Lifecycle.Journal.Compaction.Safety.{Compacted, compact_keeps, compact_order}

abbrev clean : Bytes → Bytes
clean path = path

abbrev request : CompactionRequest
request = record {
  checkpoint_path = b'c' ∷ [];
  watermark = at 1 1;
  records = first ∷ [];
  base = some (record { watermark = floor; records = [] });
  peer_watermarks = at 1 2 ∷ [];
}

abbrev fine : CompactIo
fine = record { checkpoint = atomic_fine; journal = rewrite_fine; close = none }

compacted : (compact clean background fine request journal disk).0 ≡ ok tt
unfolding compact compact_checks ensure_open bytes_equal newer compare check_peers older
    compaction_base normalize_checkpoint normalize_checkpoint_records is_zero check_records
    has_duplicate sort validate validate_authority_id is_printable bytes_less put_uint32 put_uint64
    insert lookup place encode_checkpoint records_equal encode_envelope envelope apply_base
    apply_prefix atomic_prepare atomic_write replace_file rewrite rewrite_entries rewrite_prepare
    take_over encode_journal_header header_front last_version all_print body_equal check_blob_key
    equal normalized same_state logical_key_of same_key apply classify_record new_store record_less
    snapshot store_outcome same_version runes
compacted = refl

compact_keeps_example :
    (base : Checkpoint) × (start : Store) × (state : Store) × (prefix : List Record)
    × (bytes : Bytes) × Compacted request journal
        (compact clean background fine request journal disk)
        base
        start
        state
        prefix
        bytes
compact_keeps_example =
    compact_keeps clean background fine request journal disk journal-IsConsistent (omega arith)
      compacted

-- a membership whose only member acknowledged more than the watermark
abbrev book : WatermarkBook
book = record {
  path = b'w' ∷ [];
  max_peers = 2;
  max_peer_id = 8;
  max_bytes = 1000;
  watermarks = (b'x' ∷ [], at 1 2) ∷ [];
}

abbrev members : MembershipBook
members = record {
  path = b'm' ∷ [];
  max_peers = 3;
  max_peer_id = 8;
  max_bytes = 1000;
  configured = true;
  members = (b'x' ∷ []) ∷ [];
}

compact_order_example :
    ((compact clean background fine request journal disk).2.journal ≡ disk.journal)
    ⊎ ((bytes : Bytes) × (prefix : List Record) × (compact_checks clean background request journal
          ≡ ok (bytes, prefix))
        × ((compact clean background fine request journal disk).2.checkpoint ≡ some bytes)
        × ((compact clean background fine request journal disk).2.journal
            ≡ encode_journal_header request.watermark
              ++ entries_bytes (drop (length prefix) journal.records)))
compact_order_example =
    compact_order clean background fine request journal disk journal-IsConsistent

-- the rename of the checkpoint fails
abbrev stuck : CompactIo
stuck = record {
  checkpoint = record atomic_fine { rename = some (Error.os 13) };
  journal = rewrite_fine;
  close = none;
}

not_compacted : (compact clean background stuck request journal disk).0 ≡ err (Error.os 13)
unfolding compact compact_checks ensure_open bytes_equal newer compare check_peers older
    compaction_base normalize_checkpoint normalize_checkpoint_records is_zero check_records
    has_duplicate sort validate validate_authority_id is_printable bytes_less put_uint32 put_uint64
    insert lookup place encode_checkpoint records_equal encode_envelope envelope apply_base
    apply_prefix atomic_prepare atomic_write replace_file rewrite rewrite_entries rewrite_prepare
    take_over encode_journal_header header_front last_version all_print body_equal check_blob_key
    equal normalized same_state logical_key_of same_key apply classify_record new_store record_less
    snapshot store_outcome same_version runes
not_compacted = refl

abbrev remote : Checkpoint
remote = record { watermark = at 1 3; records = third ∷ second ∷ [] }

abbrev remote_normal : Checkpoint
remote_normal = record { watermark = at 1 3; records = second ∷ third ∷ [] }

install_done : (install_snapshot clean background fine (b'c' ∷ []) remote journal disk).0 ≡ ok tt
unfolding install_snapshot install_checks save_checkpoint save_bytes compact_checks ensure_open
    bytes_equal newer compare check_peers older compaction_base normalize_checkpoint
    normalize_checkpoint_records is_zero check_records has_duplicate sort validate
    validate_authority_id is_printable bytes_less put_uint32 put_uint64 insert lookup place
    encode_checkpoint records_equal encode_envelope envelope apply_base apply_prefix atomic_prepare
    atomic_write replace_file rewrite rewrite_entries rewrite_prepare take_over
    encode_journal_header header_front last_version all_print body_equal check_blob_key equal
    normalized same_state logical_key_of same_key apply classify_record new_store record_less
    snapshot store_outcome same_version runes
install_done = refl

abbrev remote_bytes : Bytes
remote_bytes = envelope (checkpoint_codec.marshal remote_normal)

remote_saved : save_bytes (b'c' ∷ []) remote limits ≡ ok remote_bytes
unfolding save_bytes compact_checks ensure_open bytes_equal newer compare check_peers older
    compaction_base normalize_checkpoint normalize_checkpoint_records is_zero check_records
    has_duplicate sort validate validate_authority_id is_printable bytes_less put_uint32 put_uint64
    insert lookup place encode_checkpoint records_equal encode_envelope envelope apply_base
    apply_prefix atomic_prepare atomic_write replace_file rewrite rewrite_entries rewrite_prepare
    take_over encode_journal_header header_front last_version all_print body_equal check_blob_key
    equal normalized same_state logical_key_of same_key apply classify_record new_store record_less
    snapshot store_outcome same_version runes
remote_saved = refl

remote_normalized : normalize_checkpoint remote limits ≡ ok remote_normal
unfolding compact_checks ensure_open bytes_equal newer compare check_peers older compaction_base
    normalize_checkpoint normalize_checkpoint_records is_zero check_records has_duplicate sort
    validate validate_authority_id is_printable bytes_less put_uint32 put_uint64 insert lookup place
    encode_checkpoint records_equal encode_envelope envelope apply_base apply_prefix atomic_prepare
    atomic_write replace_file rewrite rewrite_entries rewrite_prepare take_over
    encode_journal_header header_front last_version all_print body_equal check_blob_key equal
    normalized same_state logical_key_of same_key apply classify_record new_store record_less
    snapshot store_outcome same_version runes
remote_normalized = refl

load_checkpoint-save_bytes_example :
    load_checkpoint background load_fine (b'c' ∷ []) limits remote_bytes ≡ ok remote_normal
load_checkpoint-save_bytes_example =
    load_checkpoint-save_bytes (b'c' ∷ []) remote_bytes remote remote_normal limits remote_saved
      remote_normalized refl

records_normalized :
    normalize_checkpoint_records remote.records (at 1 3) limits ≡ ok remote_normal.records
unfolding compact_checks ensure_open bytes_equal newer compare check_peers older compaction_base
    normalize_checkpoint normalize_checkpoint_records is_zero check_records has_duplicate sort
    validate validate_authority_id is_printable bytes_less put_uint32 put_uint64 insert lookup place
    encode_checkpoint records_equal encode_envelope envelope apply_base apply_prefix atomic_prepare
    atomic_write replace_file rewrite rewrite_entries rewrite_prepare take_over
    encode_journal_header header_front last_version all_print body_equal check_blob_key equal
    normalized same_state logical_key_of same_key apply classify_record new_store record_less
    snapshot store_outcome same_version runes
records_normalized = refl

abbrev unsynced : RewriteIo
unsynced = record rewrite_fine { directory = some (Error.os 5) }

abbrev rewritten_file : Bytes
rewritten_file = encode_journal_header (at 1 1) ++ entries_bytes (second ∷ [])

file_prepared :
    rewrite_prepare background unsynced (at 1 1) (second ∷ []) journal ≡ ok rewritten_file
unfolding compact_checks ensure_open bytes_equal newer compare check_peers older compaction_base
    normalize_checkpoint normalize_checkpoint_records is_zero check_records has_duplicate sort
    validate validate_authority_id is_printable bytes_less put_uint32 put_uint64 insert lookup place
    encode_checkpoint records_equal encode_envelope envelope apply_base apply_prefix atomic_prepare
    atomic_write replace_file rewrite rewrite_entries rewrite_prepare take_over
    encode_journal_header header_front last_version all_print body_equal check_blob_key equal
    normalized same_state logical_key_of same_key apply classify_record new_store record_less
    snapshot store_outcome same_version runes
file_prepared = refl
