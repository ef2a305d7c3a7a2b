-- ===== src/Examples/JournalRuns.antt =====
-- The theorems about envelopes and the journal, at concrete inputs.
use stream_hive.Common.{
  ◌≤◌, ◌≡◌, refl, ap, [], ◌∷◌, ◌++◌, some, none, ok, err, arith, Result, length, take, ◌⊎◌, true,
}
use stream_hive.Common.Bytes.{Bytes, put_uint32, put_uint64}
use stream_hive.Context.{background}
use stream_hive.Errors.{Error}
use stream_hive.Lifecycle.Envelope.{envelope, encode_envelope}
use stream_hive.Lifecycle.Version.{newer, compare}
use stream_hive.Lifecycle.JournalFile.{Parsed, parse_journal, encode_journal_header}
use stream_hive.Lifecycle.JournalFile.Entries.{entry_bytes}
use stream_hive.Lifecycle.JournalFile.Recovery.{parse_journal-entries}
use stream_hive.Lifecycle.JournalFile.Loop.{entries_bytes, IsTorn, is_cut}
use stream_hive.Lifecycle.JournalFile.Soundness.{IsLog, parse_journal_sound}
use stream_hive.Lifecycle.Journal.Files.{Journal, Disk, ensure_open}
use stream_hive.Lifecycle.Journal.Open.{open_fine, open_journal}
use stream_hive.Lifecycle.Journal.Append.{AppendIo, append_fine, append, append_checks, append_to}
use stream_hive.Lifecycle.Journal.Append.Reopening.{recovery_of, open_journal-torn}
use stream_hive.Lifecycle.Journal.Append.Failures.{
  IsTorn-take, append_crash, append_retry_after_sync_error,
}
use stream_hive.Examples.Codec.{ascii, record_codec, record_codec_laws}
use stream_hive.Examples.Samples.{
  limits, third, third_valid, third-InRange, floor, disk, journal, floor-IsU64Version,
  limits-AreJournalLimits, Follow-sample, journal-IsConsistent, options, Reopens-sample,
}

-- the first nine bytes of the entry of `third`
abbrev torn : Bytes
torn = take 9 (entry_bytes third)

torn-IsTorn : IsTorn limits torn
unfolding envelope put_uint32
torn-IsTorn = IsTorn-take third limits 9 (third_valid, third-InRange) (omega arith)

parse_journal-entries_example :
    parse_journal (encode_journal_header floor ++ entries_bytes journal.records ++ torn) limits
    ≡ some (
        ok (record {
          floor = floor;
          records = journal.records;
          valid_size = length (encode_journal_header floor ++ entries_bytes journal.records);
          truncated = is_cut torn;
        }))
parse_journal-entries_example =
    parse_journal-entries limits limits-AreJournalLimits (record_codec_laws limits) floor
      journal.records torn floor-IsU64Version Follow-sample torn-IsTorn

abbrev parsed : Parsed
parsed = record {
  floor = floor;
  records = journal.records;
  valid_size = length (encode_journal_header floor ++ entries_bytes journal.records);
  truncated = is_cut torn;
}

parse_journal_sound_example :
    IsLog limits floor journal.records
    × (28 ≤ parsed.valid_size)
    × (parsed.valid_size
        ≤ length (encode_journal_header floor ++ entries_bytes journal.records ++ torn))
    × ((parsed.truncated ≡ true)
        ⊎ (parsed.valid_size
            ≡ length (encode_journal_header floor ++ entries_bytes journal.records ++ torn)))
parse_journal_sound_example =
    parse_journal_sound (encode_journal_header floor ++ entries_bytes journal.records ++ torn)
      limits parsed parse_journal-entries_example

open_journal-torn_example :
    open_journal (b'j' ∷ []) options open_fine (disk.journal ++ torn)
    ≡ (ok (journal, recovery_of (is_cut torn) journal), disk.journal)
unfolding encode_journal_header put_uint64 put_uint32 envelope
open_journal-torn_example =
    open_journal-torn (b'j' ∷ []) options journal disk torn journal-IsConsistent
      (record_codec_laws limits) Reopens-sample torn-IsTorn (omega arith)

third_checked :
    (io : AppendIo)
    → io.seek ≡ none
    → append_checks background io third journal ≡ ok (entry_bytes third)
unfolding append_checks encode_envelope ensure_open newer compare encode_journal_header put_uint64
    put_uint32 envelope
third_checked io h = rw (third_valid, h)

third_appended : (append background append_fine third journal disk).0 ≡ ok tt
unfolding append
third_appended = rw (third_checked append_fine refl, append)

-- the disk is full after nine bytes
abbrev stopped : AppendIo
stopped = record { seek = none; write = some (9, Error.os 28); sync = none }

append_crash_example :
    ((append background stopped third journal disk).0 ≡ err (Error.os 28))
    × (open_journal
          (b'j' ∷ [])
          options
          open_fine
          (append background stopped third journal disk).2.journal
        ≡ (ok (journal, recovery_of (is_cut torn) journal), disk.journal))
unfolding envelope put_uint32
append_crash_example =
    append_crash (b'j' ∷ []) options third journal disk journal-IsConsistent
      (record_codec_laws limits) Reopens-sample third-InRange background stopped 9 (Error.os 28)
      (third_checked stopped refl) refl (omega arith)

-- the sync fails
abbrev unsynced : AppendIo
unsynced = record { seek = none; write = none; sync = some (Error.os 5) }

third-unsynced :
    append background unsynced third journal disk
    ≡ (err (Error.os 5), journal, record disk { journal = disk.journal ++ entry_bytes third })
unfolding append append_to
third-unsynced = rw (third_checked unsynced refl, append)

third_again :
    (append background append_fine third journal
      (append background unsynced third journal disk).2).0
    ≡ ok tt
unfolding append
third_again = rw (third_checked append_fine refl, append)

append_retry_after_sync_error_example :
    (open_journal
      (b'j' ∷ [])
      options
      open_fine
      (append background append_fine third journal
        (append background unsynced third journal disk).2).2.journal).0
    ≡ err Error.journal_version_order
unfolding envelope encode_journal_header put_uint64 put_uint32
append_retry_after_sync_error_example =
    append_retry_after_sync_error (b'j' ∷ []) options third journal disk journal-IsConsistent
      (record_codec_laws limits) Reopens-sample third-InRange background background unsynced
      (Error.os 5) (ap (λ (t : Result Error Unit × Journal × Disk). t.0) third-unsynced)
      (third_checked unsynced refl) refl third_again (omega arith)
