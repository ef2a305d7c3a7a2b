-- ===== src/Examples/ApplierRuns.antt =====
-- The theorems about the applier, at concrete inputs.
use stream_hive.Common.{
  ◌≡◌, ◌⊎◌, refl, ap, sym, subst, ◌∙◌, false, none, some, [], ◌∷◌, ◌++◌, ok, err, arith,
}
use stream_hive.Common.Bytes.{Bytes, bytes_equal, bytes_less, put_uint32, put_uint64}
use stream_hive.Common.Maps.{insert, lookup}
use stream_hive.Common.Sorting.{sort, place}
use stream_hive.Std.Utf8.{runes}
use stream_hive.Context.{background}
use stream_hive.Errors.{Error, Fallible, errors_is}
use stream_hive.Storage.Memory.{memory_blobs, get, key_string}
use stream_hive.Storage.Hash.{verify_sha256_key, validate_sha256_key, sha256_key}
use stream_hive.Lifecycle.Version.{newer, compare, older, is_zero, same_version}
use stream_hive.Lifecycle.Checkpoints.{
  Checkpoint, normalize_checkpoint, normalize_checkpoint_records, check_records, has_duplicate,
}
use stream_hive.Lifecycle.Records.{
  present, same_state, validate, validate_authority_id, is_printable, all_print, body_equal,
  check_blob_key, normalized,
}
use stream_hive.Lifecycle.Envelope.{encode_envelope, envelope}
use stream_hive.Lifecycle.Store.Keys.{logical_key_of, same_key}
use stream_hive.Lifecycle.Store.{
  applied, apply, classify, classify_record, store_outcome, record_less,
}
use stream_hive.Lifecycle.JournalFile.{encode_journal_header}
use stream_hive.Lifecycle.Journal.Files.{ensure_open}
use stream_hive.Lifecycle.Journal.Open.{open_fine, open_journal}
use stream_hive.Lifecycle.Journal.Append.{replay_loop, append, append_checks, append_to, publish}
use stream_hive.Lifecycle.Journal.Append.Reopening.{recovery_of}
use stream_hive.Lifecycle.Transport.{lifecycle_capability, has_lifecycle_capability}
use stream_hive.Lifecycle.Applier.{
  applier_apply, applier_snapshot, blob_data, blob_checks, ensure_blob, ensure_present,
  apply_checks, commit,
}
use stream_hive.Lifecycle.Applier.Recovery.{Replays, replay_apply, applier_apply-Replays}
use stream_hive.Lifecycle.Applier.Durability.{IsBacked, applier_apply_restart}
use stream_hive.Lifecycle.Applier.Snapshots.{SharesLimits, StartsAt, applier_snapshot-cases}
use stream_hive.Examples.Codec.{ascii, record_codec, record_codec_laws, checkpoint_codec}
use stream_hive.Examples.Samples.{
  limits, second, third, third-InRange, at, journal, disk, journal-IsConsistent, options,
  Reopens-sample, empty_store,
}
use stream_hive.Examples.Replica.{toy_hash, list_tree, applier, apply_fine, snapshot_fine}

pub applier-Replays : Replays empty_store applier
unfolding replay_loop replay_apply apply validate validate_authority_id is_printable all_print runes
    is_zero check_blob_key logical_key_of lookup insert same_key bytes_equal compare newer
    body_equal same_state classify_record store_outcome normalized
applier-Replays = refl

applier_apply-Replays_example :
    Replays empty_store
      (applier_apply apply_fine (lifecycle_capability ∷ []) third none applier disk).1
applier_apply-Replays_example =
    applier_apply-Replays apply_fine (lifecycle_capability ∷ []) third none applier disk empty_store
      applier-Replays

done :
    (applier_apply apply_fine (lifecycle_capability ∷ []) third none applier disk).0
    ≡ ok (record { outcome = applied; version = at 1 3 })
unfolding apply validate validate_authority_id is_printable all_print runes is_zero check_blob_key
    logical_key_of lookup insert same_key bytes_equal compare newer body_equal same_state
    classify_record store_outcome classify applier_apply apply_checks commit ensure_present
    ensure_blob blob_checks blob_data errors_is verify_sha256_key validate_sha256_key sha256_key get
    key_string append append_checks append_to publish ensure_open encode_envelope envelope
    put_uint32 put_uint64 has_lifecycle_capability normalized encode_journal_header
done = refl

applier_apply_restart_example :
    let after = applier_apply apply_fine (lifecycle_capability ∷ []) third none applier disk in
    (open_journal (b'j' ∷ []) options open_fine after.2.journal
      ≡ (ok (after.1.journal, recovery_of false after.1.journal), after.2.journal))
    × (after.1.journal.records ≡ journal.records ++ third ∷ [])
    × (replay_loop replay_apply background after.1.journal.records empty_store
        ≡ (ok tt, after.1.state))
    × ((same_state third.state present ≡ false)
        ⊎ IsBacked apply_fine.get apply_fine.put third.blob_key none applier.blobs)
applier_apply_restart_example =
    applier_apply_restart apply_fine (lifecycle_capability ∷ []) third none applier disk empty_store
      (record { outcome = applied; version = at 1 3 }) (b'j' ∷ []) options journal-IsConsistent
      third-InRange (record_codec_laws limits) Reopens-sample applier-Replays done refl

abbrev pub clean : Bytes → Bytes
clean path = path

pub shares : SharesLimits clean applier
unfolding normalized
shares = (refl, refl)

abbrev pub remote : Checkpoint
remote = record { watermark = at 1 3; records = third ∷ second ∷ [] }

abbrev remote_normal : Checkpoint
remote_normal = record { watermark = at 1 3; records = second ∷ third ∷ [] }

normal_made : normalize_checkpoint remote limits ≡ ok remote_normal
unfolding normalize_checkpoint normalize_checkpoint_records check_records has_duplicate sort place
    record_less validate validate_authority_id is_printable all_print runes is_zero check_blob_key
    bytes_less bytes_equal compare newer older normalized same_version same_key logical_key_of
normal_made = refl

-- the checkpoint of a result that is one
abbrev made : Fallible Checkpoint → Checkpoint
made (ok normal) = normal
made (err e) = remote

pub remote_back :
    (normal : Checkpoint)
    → normalize_checkpoint remote limits ≡ ok normal
    → checkpoint_codec.unmarshal (checkpoint_codec.marshal normal) ≡ some normal
remote_back normal h =
    subst (λ (n : Checkpoint). checkpoint_codec.unmarshal (checkpoint_codec.marshal n) ≡ some n)
      (ap made (sym normal_made ∙ h)) refl

applier_snapshot-cases_example :
    let after =
      applier_snapshot clean snapshot_fine
        (lifecycle_capability ∷ [])
        remote
        (b'c' ∷ [])
        applier
        disk in
    ((e : Error) × (after.0 ≡ err e) × (after.1.state ≡ applier.state))
    ⊎ ((after.0 ≡ ok tt)
        × (normal : Checkpoint) × (bytes : Bytes) × StartsAt clean remote normal bytes
            (b'c' ∷ [])
            snapshot_fine
            applier
            after.1
            after.2)
applier_snapshot-cases_example =
    applier_snapshot-cases clean snapshot_fine (lifecycle_capability ∷ []) remote (b'c' ∷ [])
      applier disk shares journal-IsConsistent (omega arith) remote_back
