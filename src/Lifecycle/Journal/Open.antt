-- ===== src/Lifecycle/Journal/Open.antt =====
-- internal/lifecycle/journal.go: `JournalOptions.normalized` and `OpenJournal`.
use stream_hive.Common.{
  ℕ, ◌*◌, ◌-◌, ◌^◌, Bool, false, Option, none, some, [], ok, err, check, fail_if, ◌>>=◌, ◌>>◌,
  length, take, ltb, ◌==◌, if◌then◌else◌,
}
use stream_hive.Common.Bytes.{Bytes}
use stream_hive.Std.Json.{Json}
use stream_hive.Std.Unicode.{Unicode}
use stream_hive.Errors.{Error, Fallible}
use stream_hive.Lifecycle.Version.{Version, zero_version}
use stream_hive.Lifecycle.Records.{Limits, normalized, or_default, Record}
use stream_hive.Lifecycle.JournalFile.{
  Parsed, last_version, parse_journal, encode_journal_header, journal_header_bytes,
}
use stream_hive.Lifecycle.Journal.Files.{Journal, on_path, WriteOutcome, written, write_error}

pub record JournalOptions : Type 0 where
  pub limits : Limits
  pub max_journal_bytes : ℕ
  pub max_journal_entries : ℕ

unfoldable pub options_normalized : JournalOptions → Fallible JournalOptions
options_normalized o = do
  let n : JournalOptions = record {
    limits = normalized o.limits;
    max_journal_bytes = or_default o.max_journal_bytes (64 * 2 ^ 20);
    max_journal_entries = or_default o.max_journal_entries 65536;
  }
  fail_if (ltb n.max_journal_bytes journal_header_bytes) Error.journal_limit
  fail_if (ltb (2 ^ 32 - 1) n.limits.max_record_bytes) Error.journal_limit
  ok n

pub record Recovery : Type 0 where
  pub truncated_tail : Bool
  pub floor : Version
  pub last_version : Version
  pub entries : ℕ

-- the answers of the operating system to `OpenJournal`
pub record OpenIo : Type 0 where
  pub open_file : Option Error
  pub stat : Option Error
  pub header : WriteOutcome
  pub header_sync : Option Error
  pub read : Option Error
  pub truncate : Option Error
  pub truncate_sync : Option Error
  pub seek : Option Error

abbrev pub open_fine : OpenIo
open_fine = record {
  open_file = none;
  stat = none;
  header = none;
  header_sync = none;
  read = none;
  truncate = none;
  truncate_sync = none;
  seek = none;
}

-- the branch for an empty file: the header is written and synced
unfoldable pub open_new : Bytes → JournalOptions → OpenIo → Fallible (Journal × Recovery) × Bytes
open_new path n io = (answer, written io.header (encode_journal_header zero_version))
  where
    answer : Fallible (Journal × Recovery)
    answer = do
      check (write_error io.header)
      check io.header_sync
      check io.seek
      ok (
        record {
          path = path;
          file = on_path;
          limits = n.limits;
          max_bytes = n.max_journal_bytes;
          max_entries = n.max_journal_entries;
          size = journal_header_bytes;
          floor = zero_version;
          last = zero_version;
          records = [];
          closed = false;
        },
        record {
          truncated_tail = false;
          floor = zero_version;
          last_version = zero_version;
          entries = 0;
        },
      )

-- the journal that is built from what was parsed
unfoldable pub opened : Bytes → JournalOptions → Parsed → OpenIo → Fallible (Journal × Recovery)
unfolding last_version
opened path n p io = do
  check io.seek
  let last = last_version p.floor p.records
  fail_if (ltb n.max_journal_entries (length p.records)) Error.journal_limit
  ok (
    record {
      path = path;
      file = on_path;
      limits = n.limits;
      max_bytes = n.max_journal_bytes;
      max_entries = n.max_journal_entries;
      size = p.valid_size;
      floor = p.floor;
      last = last;
      records = p.records;
      closed = false;
    },
    record {
      truncated_tail = p.truncated;
      floor = p.floor;
      last_version = last;
      entries = length p.records;
    },
  )

module _ ⦃u : Unicode⦄ ⦃j : Json Record⦄ where
  -- `parseJournal` with the fuel of `parse_journal`, which does not run out
  -- (`Soundness.parse_journal-ne-none`)
  unfoldable pub parse : Bytes → Limits → Fallible Parsed
  parse content limits = elim (parse_journal content limits) [
    | some answer ↦ answer
    | none ↦ err Error.journal_corrupt
  ]

  -- the branch for a file that is not empty; a torn tail is truncated and synced
  unfoldable pub open_old :
      Bytes → JournalOptions → OpenIo → Bytes → Fallible (Journal × Recovery) × Bytes
  open_old path n io content = elim (do check io.read; parse content n.limits) [
    | err e ↦ (err e, content)
    | ok p ↦
        if p.truncated
        then elim io.truncate [
          | some e ↦ (err e, content)
          | none ↦ (do check io.truncate_sync; opened path n p io, take p.valid_size content)
        ]
        else (opened path n p io, content)
  ]

  -- the checks of `OpenJournal` before it looks into the file
  unfoldable pub open_checks : Bytes → JournalOptions → OpenIo → Bytes → Fallible JournalOptions
  open_checks path options io content = do
    fail_if (length path == 0) Error.journal_corrupt
    n ← options_normalized options
    check io.open_file
    check io.stat
    fail_if (ltb n.max_journal_bytes (length content)) Error.journal_limit
    ok n

  -- `OpenJournal` on a path whose file holds `content`; a missing file is created empty. The
  -- result is the journal and the recovery, and what the file holds afterwards.
  unfoldable pub open_journal :
      Bytes → JournalOptions → OpenIo → Bytes → Fallible (Journal × Recovery) × Bytes
  open_journal path options io content = elim (open_checks path options io content) [
    | err e ↦ (err e, content)
    | ok n ↦ if length content == 0 then open_new path n io else open_old path n io content
  ]
