-- ===== src/Examples/Samples.antt =====
-- Concrete limits, records, a store and a journal.
use stream_hive.Common.{ℕ, ◌≡◌, refl, false, [], ◌∷◌, ◌++◌, none, ok, arith, length}
use stream_hive.Common.Bytes.{Bytes}
use stream_hive.Lifecycle.Version.{Version, is_zero}
use stream_hive.Lifecycle.Records.{
  Limits, normalized, present, deleted, Record, validate, validate_authority_id, is_printable,
}
use stream_hive.Std.Utf8.{runes}
use stream_hive.Lifecycle.Records.Laws.{InRange}
use stream_hive.Lifecycle.Store.{Store}
use stream_hive.Common.Bytes.{put_uint32, put_uint64}
use stream_hive.Lifecycle.Version.{newer, compare}
use stream_hive.Lifecycle.Envelope.{envelope}
use stream_hive.Lifecycle.JournalFile.{encode_journal_header, last_version}
use stream_hive.Lifecycle.JournalFile.Header.{IsU64Version}
use stream_hive.Lifecycle.JournalFile.Entries.{AreJournalLimits}
use stream_hive.Lifecycle.JournalFile.Loop.{entries_bytes, Follow}
use stream_hive.Lifecycle.Journal.Files.{Journal, Disk, on_path}
use stream_hive.Lifecycle.Journal.Open.{JournalOptions, options_normalized}
use stream_hive.Lifecycle.Journal.Append.Durability.{IsConsistent}
use stream_hive.Lifecycle.Journal.Append.Reopening.{Reopens}
use stream_hive.Examples.Codec.{ascii, record_codec}

abbrev pub limits : Limits
limits = record {
  max_namespace_bytes = 128;
  max_logical_key_bytes = 1024;
  max_authority_id_bytes = 128;
  max_record_bytes = 65536;
  max_checkpoint_bytes = 67108864;
}

abbrev pub at : ℕ → ℕ → Version
at epoch sequence = record { epoch = epoch; sequence = sequence }

abbrev pub eight : Bytes
eight = 1 ∷ 2 ∷ 3 ∷ 4 ∷ 5 ∷ 6 ∷ 7 ∷ 8 ∷ []

-- a key of 32 bytes
abbrev pub blob_key : Bytes
blob_key = eight ++ eight ++ eight ++ eight

abbrev pub put_at : ℕ → Version → Record
put_at key v = record {
  namespace = b'n' ∷ [];
  logical_key = key ∷ [];
  state = present;
  blob_key = blob_key;
  version = v;
  authority_id = b'a' ∷ [];
}

abbrev pub delete_at : ℕ → Version → Record
delete_at key v = record {
  namespace = b'n' ∷ [];
  logical_key = key ∷ [];
  state = deleted;
  blob_key = [];
  version = v;
  authority_id = b'a' ∷ [];
}

abbrev pub first : Record
first = put_at 7 (at 1 1)

abbrev pub second : Record
second = delete_at 7 (at 1 2)

abbrev pub third : Record
third = put_at 8 (at 1 3)

pub first_valid : validate first limits ≡ ok tt
unfolding validate validate_authority_id is_printable runes is_zero
first_valid = refl

pub second_valid : validate second limits ≡ ok tt
unfolding validate validate_authority_id is_printable runes is_zero
second_valid = refl

pub third_valid : validate third limits ≡ ok tt
unfolding validate validate_authority_id is_printable runes is_zero
third_valid = refl

pub third-InRange : InRange third
third-InRange = omega arith

pub first-InRange : InRange first
first-InRange = omega arith

abbrev pub empty_store : Store
empty_store = record { limits = limits; records = [] }

pub second-InRange : InRange second
second-InRange = omega arith

abbrev pub floor : Version
floor = at 1 0

-- a journal with two records, and its file
abbrev pub disk : Disk
disk = record {
  journal = encode_journal_header floor ++ entries_bytes (first ∷ second ∷ []);
  replaced = [];
  checkpoint = none;
}

abbrev pub journal : Journal
journal = record {
  path = b'j' ∷ [];
  file = on_path;
  limits = limits;
  max_bytes = 67108864;
  max_entries = 65536;
  size = length disk.journal;
  floor = floor;
  last = second.version;
  records = first ∷ second ∷ [];
  closed = false;
}

pub limits-AreJournalLimits : AreJournalLimits limits
unfolding normalized
limits-AreJournalLimits = record { normal = refl; record_fits = omega arith }

pub floor-IsU64Version : IsU64Version floor
floor-IsU64Version = omega arith

pub Follow-sample : Follow limits floor (first ∷ second ∷ [])
unfolding newer compare
Follow-sample = (refl, (first_valid, first-InRange), (refl, (second_valid, second-InRange), tt))

pub journal-IsConsistent : IsConsistent journal disk
unfolding last_version encode_journal_header put_uint64 put_uint32 envelope
journal-IsConsistent = record {
  handle = refl;
  not_closed = refl;
  limits = limits-AreJournalLimits;
  floor_word = floor-IsU64Version;
  follow = Follow-sample;
  last = refl;
  content = refl;
  size = refl;
  size_le = omega arith;
  entries_le = omega arith;
}

abbrev pub options : JournalOptions
options = record { limits = limits; max_journal_bytes = 67108864; max_journal_entries = 65536 }

pub Reopens-sample : Reopens (b'j' ∷ []) options journal
unfolding options_normalized normalized
Reopens-sample = record { path_same = refl; path_set = omega arith; options_same = refl }
