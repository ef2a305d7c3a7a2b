-- ===== src/Lifecycle/JournalFile.antt =====
-- internal/lifecycle/journal.go: the bytes of a journal file, its header and its entries, and
-- `parseJournal`, which reads them back.
pub mod Header
pub mod Entries
pub mod Loop
pub mod Recovery
pub mod Soundness
use stream_hive.Common.{
  ℕ, zero, suc, ◌+◌, ◌*◌, Bool, true, false, ◌||◌, ◌&&◌, not, Option, none, some, List, [], ◌∷◌,
  ◌++◌, ok, err, fail_if, ◌>>=◌, ◌>>◌, ltb, ◌==◌, length, take, drop, if◌then◌else◌,
}
use stream_hive.Common.Bytes.{Bytes, bytes_equal, put_uint64, uint64, put_uint32, uint32}
use stream_hive.Std.Crc32.{checksum}
use stream_hive.Std.Json.{Json}
use stream_hive.Std.Unicode.{Unicode}
use stream_hive.Errors
use stream_hive.Errors.{Error, Fallible}
use stream_hive.Lifecycle.Version.{Version, newer}
use stream_hive.Lifecycle.Records.{Limits, Record, validate}

abbrev pub journal_header_bytes : ℕ
journal_header_bytes = 28

-- "SHLJ"
abbrev pub journal_magic : Bytes
journal_magic = b'S' ∷ b'H' ∷ b'L' ∷ b'J' ∷ []

-- the first 24 bytes: magic, format 1, three zeros, and the floor
unfoldable pub header_front : Version → Bytes
header_front floor =
    journal_magic ++ (1 ∷ 0 ∷ 0 ∷ 0 ∷ []) ++ put_uint64 floor.epoch ++ put_uint64 floor.sequence

unfoldable pub encode_journal_header : Version → Bytes
unfolding header_front
encode_journal_header floor = header_front floor ++ put_uint32 (checksum (header_front floor))

unfoldable pub decode_journal_header : Bytes → Fallible Version
decode_journal_header header = do
  fail_if
      (not (length header == journal_header_bytes)
        || (not (bytes_equal (take 4 header) journal_magic)
            || not (bytes_equal (take 1 (drop 4 header)) (1 ∷ []))))
      Error.journal_corrupt
  fail_if (not (checksum (take 24 header) == uint32 (take 4 (drop 24 header))))
      Error.journal_checksum
  ok (record {
    epoch = uint64 (take 8 (drop 8 header));
    sequence = uint64 (take 8 (drop 16 header));
  })

-- `records[len(records)-1].Version`, and `floor` where there are none
unfoldable pub last_version : Version → List Record → Version
last_version floor [] = floor
last_version floor (r ∷ rs) = last_version r.version rs

pub record Parsed : Type 0 where
  pub floor : Version
  pub records : List Record
  pub valid_size : ℕ
  pub truncated : Bool

-- one round of the loop of `parseJournal` on the bytes from `offset` on, where some are left
pub data Round : Type 0 where
  -- a short final envelope
  torn : Round
  fail : Error → Round
  -- a record, and the length of its envelope
  entry : Record → ℕ → Round

module _ ⦃u : Unicode⦄ ⦃j : Json Record⦄ where
  -- the checks on a payload that is whole
  unfoldable pub read_payload : Bytes → ℕ → Version → Limits → Round
  read_payload payload total last limits = elim (j.unmarshal payload) [
    | none ↦ fail (Error.wrap Error.journal_corrupt)
    | some r ↦ elim (validate r limits) [
      | err e ↦ fail (Error.wrap Error.journal_corrupt)
      | ok _ ↦ if newer r.version last then entry r total else fail Error.journal_version_order
    ]
  ]

  unfoldable pub round : Bytes → Version → Limits → Round
  round rest last limits =
      if ltb (length rest) 4
      then torn
      else let size = uint32 (take 4 rest) in
        let total = 4 + size + 4 in
        let payload = take size (drop 4 rest) in
        let want = uint32 (take 4 (drop (4 + size) rest)) in
        if size == 0 || ltb limits.max_record_bytes size
        then fail Error.journal_corrupt
        else if ltb (length rest) total
        then torn
        else if not (checksum payload == want)
        then fail Error.journal_checksum
        else read_payload payload total last limits

  -- The loop. `rest` is `data[offset:]`, and `none` means that the fuel ran out.
  unfoldable pub parse_loop :
      ℕ → Bytes → ℕ → Version → List Record → Version → Limits → Option (Fallible Parsed)
  parse_loop fuel [] offset last records floor limits =
      some
        (ok (record { floor = floor; records = records; valid_size = offset; truncated = false }))
  parse_loop zero (b ∷ bs) offset last records floor limits = none
  parse_loop (suc fuel) (b ∷ bs) offset last records floor limits =
      elim (round (b ∷ bs) last limits) [
        | torn ↦ some (
            ok (record { floor = floor; records = records; valid_size = offset; truncated = true }))
        | fail e ↦ some (err e)
        | entry r total ↦
            parse_loop fuel (drop total (b ∷ bs)) (offset + total) r.version (records ++ r ∷ [])
              floor limits
      ]

  -- Each round takes a byte at least, so the length of the file is enough fuel.
  unfoldable pub parse_journal : Bytes → Limits → Option (Fallible Parsed)
  parse_journal bytes limits =
      if ltb (length bytes) journal_header_bytes
      then some (err Error.journal_corrupt)
      else elim (decode_journal_header (take journal_header_bytes bytes)) [
        | err e ↦ some (err e)
        | ok floor ↦
            let rest = drop journal_header_bytes bytes in
            parse_loop (length rest) rest journal_header_bytes floor [] floor limits
      ]
