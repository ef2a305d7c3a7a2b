-- ===== src/Lifecycle/Journal/Rewrite.antt =====
-- internal/lifecycle/journal.go: `rewriteLocked`, and how its callers `Compact` and
-- `InstallSnapshot` take the new file over.
use stream_hive.Common.{
  ℕ, ◌+◌, Option, none, List, [], ◌∷◌, ◌++◌, ok, err, check, fail_if, ◌>>=◌, ◌>>◌, length, ltb,
}
use stream_hive.Common.Bytes.{Bytes}
use stream_hive.Std.Json.{Json}
use stream_hive.Context.{Ctx, later}
use stream_hive.Errors.{Error, Fallible}
use stream_hive.Lifecycle.Version.{Version}
use stream_hive.Lifecycle.Records.{Record}
use stream_hive.Lifecycle.Envelope.{encode_envelope}
use stream_hive.Lifecycle.JournalFile.{encode_journal_header, last_version}
use stream_hive.Lifecycle.Journal.Files.{Journal, Handle, on_path, orphan, broken, Disk}
use stream_hive.Lifecycle.Journal.Append.{handle_error}

-- the answers of the operating system to `rewriteLocked`; `entries k` is that of the write of the
-- k-th entry
pub record RewriteIo : Type 0 where
  pub create : Option Error
  pub header : Option Error
  pub entries : ℕ → Option Error
  pub sync : Option Error
  pub close : Option Error
  pub rename : Option Error
  pub directory : Option Error
  pub reopen : Option Error
  pub seek : Option Error

abbrev pub rewrite_fine : RewriteIo
rewrite_fine = record {
  create = none;
  header = none;
  entries = λ k. none;
  sync = none;
  close = none;
  rename = none;
  directory = none;
  reopen = none;
  seek = none;
}

module _ ⦃json : Json Record⦄ where
  -- the loop over the records: the bytes that it writes behind the `size` bytes of before
  unfoldable pub rewrite_entries : Ctx → (ℕ → Option Error) → ℕ → ℕ → List Record → Fallible Bytes
  rewrite_entries ctx io max size [] = ok []
  rewrite_entries ctx io max size (r ∷ rs) = do
    check (ctx 0)
    entry ← encode_envelope (json.marshal r)
    fail_if (ltb max (size + length entry)) Error.journal_limit
    check (io 0)
    rest ← rewrite_entries (later 1 ctx) (λ k. io (1 + k)) max (size + length entry) rs
    ok (entry ++ rest)

  -- `rewriteLocked` up to the rename: the bytes of the temporary file. An error removes that file.
  unfoldable pub rewrite_prepare :
      Ctx → RewriteIo → Version → List Record → Journal → Fallible Bytes
  rewrite_prepare ctx io floor records j = do
    check io.create
    let header = encode_journal_header floor
    check io.header
    entries ← rewrite_entries ctx io.entries j.max_bytes (length header) records
    check io.sync
    check io.close
    check (ctx (length records))
    check io.rename
    ok (header ++ entries)

-- the rename replaces the file at the journal's path; a handle on that file stays on it
unfoldable pub replace_file : Handle → Bytes → Disk → Disk
replace_file on_path bytes d = record d { journal = bytes; replaced = d.journal }
replace_file _ bytes d = record d { journal = bytes }

abbrev pub replaced_handle : Handle → Handle
replaced_handle on_path = orphan
replaced_handle h = h

-- the caller's part behind `rewriteLocked`: the old file is closed, and the fields are set
unfoldable pub take_over :
    Option Error → Version → List Record → ℕ → Journal → Fallible Unit × Journal
take_over io floor records size j = elim (do check (handle_error j.file); check io) [
  | err e ↦ (err e, record j { file = broken })
  | ok _ ↦ (
    ok tt,
    record j {
      file = on_path;
      floor = floor;
      records = records;
      size = size;
      last = last_version floor records;
    },
  )
]

module _ ⦃json : Json Record⦄ where
  -- `rewriteLocked` and what follows it
  unfoldable pub rewrite :
      Ctx
      → RewriteIo
      → Option Error
      → Version
      → List Record
      → Journal
      → Disk
      → Fallible Unit × Journal × Disk
  rewrite ctx io close floor records j d = elim (rewrite_prepare ctx io floor records j) [
    | err e ↦ (err e, j, d)
    | ok bytes ↦
        let d' = replace_file j.file bytes d in
        let moved : Journal = record j { file = replaced_handle j.file } in
        elim (do check io.directory; check io.reopen; check io.seek) [
          | err e ↦ (err e, moved, d')
          | ok _ ↦
              let after = take_over close floor records (length bytes) moved in
              (after.0, after.1, d')
        ]
  ]
