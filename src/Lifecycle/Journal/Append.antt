-- ===== src/Lifecycle/Journal/Append.antt =====
-- internal/lifecycle/journal.go: `Append`, `Records`, `Replay`, `Close` and `Stats`.
pub mod Durability
pub mod Reopening
pub mod Failures
use stream_hive.Common.{
  ℕ, suc, ◌+◌, Bool, true, false, ◌||◌, not, Option, none, some, List, [], ◌∷◌, ◌++◌, ok, err,
  check, fail_if, ◌>>=◌, ◌>>◌, length, ltb, leb,
}
use stream_hive.Common.Bytes.{Bytes}
use stream_hive.Std.Json.{Json}
use stream_hive.Std.Unicode.{Unicode}
use stream_hive.Context.{Ctx, later}
use stream_hive.Errors
use stream_hive.Errors.{Error, Fallible}
use stream_hive.Lifecycle.Version.{Version, newer, zero_version}
use stream_hive.Lifecycle.Records.{Record, validate}
use stream_hive.Lifecycle.Envelope.{encode_envelope}
use stream_hive.Lifecycle.Journal.Files.{
  Journal, Handle, no_file, on_path, orphan, broken, Disk, ensure_open, WriteOutcome, written,
  write_error,
}

pub record AppendIo : Type 0 where
  pub seek : Option Error
  pub write : WriteOutcome
  pub sync : Option Error

abbrev pub append_fine : AppendIo
append_fine = record { seek = none; write = none; sync = none }

-- a write at the end of the file that the handle is open on
unfoldable pub append_to : Handle → Bytes → Disk → Disk
append_to on_path bytes d = record d { journal = d.journal ++ bytes }
append_to orphan bytes d = record d { replaced = d.replaced ++ bytes }
append_to no_file bytes d = d
append_to broken bytes d = d

-- a handle that is closed refuses every call (os.ErrClosed)
abbrev pub handle_error : Handle → Option Error
handle_error broken = some (Error.os 0)
handle_error _ = none

-- what the append publishes in memory
unfoldable pub publish : Record → Bytes → Journal → Journal
publish r entry j = record j {
  records = j.records ++ r ∷ [];
  last = r.version;
  size = j.size + length entry;
}

module _ ⦃u : Unicode⦄ ⦃json : Json Record⦄ where
  -- the checks of `Append` up to the write; the bytes of the entry
  unfoldable pub append_checks : Ctx → AppendIo → Record → Journal → Fallible Bytes
  append_checks ctx io r j = do
    check (ctx 0)
    validate r j.limits
    entry ← encode_envelope (json.marshal r)
    ensure_open j
    fail_if (not (newer r.version j.last)) Error.journal_version_order
    fail_if (leb j.max_entries (length j.records) || ltb j.max_bytes (j.size + length entry))
        Error.journal_limit
    check (ctx 1)
    check (handle_error j.file)
    check io.seek
    ok entry

  unfoldable pub append : Ctx → AppendIo → Record → Journal → Disk → Fallible Unit × Journal × Disk
  append ctx io r j d = elim (append_checks ctx io r j) [
    | err e ↦ (err e, j, d)
    | ok entry ↦
        let d' = append_to j.file (written io.write entry) d in
        elim (do check (write_error io.write); check io.sync) [
          | err e ↦ (err e, j, d')
          | ok _ ↦ (ok tt, publish r entry j, d')
        ]
  ]

-- the loop of `Records`; `clone` is the identity on values
unfoldable pub copy_records : Ctx → List Record → Fallible (List Record)
copy_records ctx [] = ok []
copy_records ctx (r ∷ rs) = do check (ctx 0); rest ← copy_records (later 1 ctx) rs; ok (r ∷ rest)

unfoldable pub records : Ctx → Journal → Fallible (List Record)
unfolding copy_records ensure_open
records ctx j = do check (ctx 0); ensure_open j; copy_records (later 1 ctx) j.records

-- `Replay`, for an `apply` that changes a state `S`
module _ {S : Type 0} (apply : Record → S → Fallible Unit × S) where
  unfoldable pub replay_loop : Ctx → List Record → S → Fallible Unit × S
  replay_loop ctx [] s = (ok tt, s)
  replay_loop ctx (r ∷ rs) s =
      let rest = replay_loop (later 1 ctx) rs (apply r s).1 in
      elim (ctx 0) [
        | some e ↦ (err e, s)
        | none ↦ elim (apply r s).0 [ err e ↦ (err e, (apply r s).1) | ok _ ↦ rest ]
      ]

  unfoldable pub replay : Ctx → Journal → S → Fallible Unit × S
  unfolding replay_loop records
  replay ctx j s = elim (records ctx j) [
    | err e ↦ (err e, s)
    | ok rs ↦ replay_loop (later (1 + length j.records) ctx) rs s
  ]

-- `Close` with the answer of the file's `Close`
unfoldable pub close : Option Error → Journal → Fallible Unit × Journal
close io j = elim j.closed [
  | true ↦ (ok tt, j)
  | false ↦ elim j.file [
    | no_file ↦ (ok tt, record j { closed = true })
    | _ ↦ (check io, record j { closed = true; file = no_file })
  ]
]

pub record JournalStats : Type 0 where
  pub floor : Version
  pub last : Version
  pub entries : ℕ
  pub bytes : ℕ

unfoldable pub stats : Journal → JournalStats
stats j = record { floor = j.floor; last = j.last; entries = length j.records; bytes = j.size }
