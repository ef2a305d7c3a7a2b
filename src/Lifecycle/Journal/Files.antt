-- ===== src/Lifecycle/Journal/Files.antt =====
-- The state of internal/lifecycle/journal.go: the journal, the files on disk, and `atomicWrite`.
use stream_hive.Common.{
  ℕ, Bool, true, false, ◌||◌, not, Option, none, some, List, ok, err, check, fail_if, ◌>>◌, take,
  ◌≡◌, ◌≢◌, ◌⊎◌, inl, inr, arith, Result-cases,
}
use stream_hive.Common.Bytes.{Bytes}
use stream_hive.Errors.{Error, Fallible}
use stream_hive.Lifecycle.Version.{Version}
use stream_hive.Lifecycle.Records.{Limits, Record}
use stream_hive.Context.{Ctx}

-- `j.file`: nil, open on the file at `j.path`, open on a file that a rename has replaced there, or
-- a handle whose `Close` failed
pub data Handle : Type 0 where
  no_file on_path orphan broken : Handle

pub record Journal : Type 0 where
  pub path : Bytes
  pub file : Handle
  pub limits : Limits
  pub max_bytes : ℕ
  pub max_entries : ℕ
  pub size : ℕ
  pub floor : Version
  pub last : Version
  pub records : List Record
  pub closed : Bool

-- the file at the journal's path, the replaced file that a handle may still be open on, and the
-- file at the checkpoint's path
pub record Disk : Type 0 where
  pub journal : Bytes
  pub replaced : Bytes
  pub checkpoint : Option Bytes

abbrev pub has_file : Handle → Bool
has_file no_file = false
has_file _ = true

unfoldable pub ensure_open : Journal → Fallible Unit
ensure_open j = fail_if (j.closed || not (has_file j.file)) Error.journal_closed

-- `writeFull` either writes everything or stops with an error after some bytes.
abbrev pub WriteOutcome : Type 0
WriteOutcome = Option (ℕ × Error)

abbrev pub written : WriteOutcome → Bytes → Bytes
written none bytes = bytes
written (some (n, e)) bytes = take n bytes

abbrev pub write_error : WriteOutcome → Option Error
write_error none = none
write_error (some (n, e)) = some e

-- the answers of the operating system to the calls of `atomicWrite`
pub record AtomicIo : Type 0 where
  pub create : Option Error
  pub write : Option Error
  pub sync : Option Error
  pub close : Option Error
  pub rename : Option Error
  pub directory : Option Error

-- all calls succeed
abbrev pub atomic_fine : AtomicIo
atomic_fine = record {
  create = none;
  write = none;
  sync = none;
  close = none;
  rename = none;
  directory = none;
}

-- the part of `atomicWrite` before the rename takes effect
unfoldable pub atomic_prepare : Ctx → AtomicIo → Fallible Unit
atomic_prepare ctx io = do
  check (ctx 0)
  check io.create
  check io.write
  check io.sync
  check io.close
  check (ctx 1)
  check io.rename

-- `atomicWrite`: the error, and what the path holds afterwards
unfoldable pub atomic_write : Ctx → AtomicIo → Bytes → Option Bytes → Fallible Unit × Option Bytes
unfolding atomic_prepare
atomic_write ctx io bytes old = elim (atomic_prepare ctx io) [
  | err e ↦ (err e, old)
  | ok _ ↦ (check io.directory, some bytes)
]

-- A failed `atomicWrite` leaves the old file, unless only the sync of the directory failed; a
-- successful one leaves the new bytes. The path never holds a part of a file.
pub atomic_write_whole :
    (ctx : Ctx) (io : AtomicIo) (bytes : Bytes) (old : Option Bytes)
    → ((atomic_write ctx io bytes old).1 ≡ some bytes)
      ⊎ (((atomic_write ctx io bytes old).1 ≡ old) × ((atomic_write ctx io bytes old).0 ≢ ok tt))
unfolding atomic_write
atomic_write_whole ctx io bytes old = elim (Result-cases (atomic_prepare ctx io)) [
  | inl (a, h) ↦ inl (ground arith)
  | inr (e, h) ↦ inr (ground arith, ground arith)
]
