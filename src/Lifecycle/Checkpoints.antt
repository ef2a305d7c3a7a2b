-- ===== src/Lifecycle/Checkpoints.antt =====
-- internal/lifecycle/model.go and journal.go: complete logical states at a watermark, their
-- normal form and their bytes.
pub mod Laws
use stream_hive.Common.{
  ℕ, Bool, true, false, ◌&&◌, ◌||◌, not, Option, none, some, List, [], ◌∷◌, ok, err, fail_if, ◌>>=◌,
  ◌>>◌, check, ltb, ◌==◌, length, if◌then◌else◌,
}
use stream_hive.Common.Bytes.{Bytes, bytes_equal}
use stream_hive.Common.Sorting.{sort}
use stream_hive.Std.Json.{Json}
use stream_hive.Std.Unicode.{Unicode}
use stream_hive.Errors
use stream_hive.Errors.{Error, Fallible}
use stream_hive.Lifecycle.Version.{Version, is_zero, newer}
use stream_hive.Lifecycle.Records.{Limits, normalized, Record, equal, validate}
use stream_hive.Lifecycle.Store.{record_less}
use stream_hive.Lifecycle.Envelope.{encode_envelope, decode_envelope}
use stream_hive.Context.{Ctx}
use stream_hive.Lifecycle.Journal.Files.{AtomicIo, atomic_write}

pub record Checkpoint : Type 0 where
  pub watermark : Version
  pub records : List Record

-- `records[i-1]` and `records[i]` hold the same key, for some `i`
unfoldable pub has_duplicate : List Record → Bool
has_duplicate [] = false
has_duplicate (r ∷ []) = false
has_duplicate (r ∷ s ∷ rs) =
    (bytes_equal r.namespace s.namespace && bytes_equal r.logical_key s.logical_key)
    || has_duplicate (s ∷ rs)

unfoldable pub records_equal : List Record → List Record → Bool
records_equal [] [] = true
records_equal (r ∷ rs) (s ∷ ss) = equal r s && records_equal rs ss
records_equal _ _ = false

module _ ⦃u : Unicode⦄ ⦃j : Json Record⦄ where
  -- the loop that validates the records of a checkpoint
  unfoldable pub check_records : Limits → Version → List Record → Fallible Unit
  check_records limits watermark [] = ok tt
  check_records limits watermark (r ∷ rs) = do
    validate r limits
    fail_if (newer r.version watermark) (Error.wrap Error.conflict)
    check_records limits watermark rs

  unfoldable pub normalize_checkpoint_records :
      List Record → Version → Limits → Fallible (List Record)
  unfolding normalized
  normalize_checkpoint_records records watermark l = do
    let limits = normalized l
    fail_if (is_zero watermark && ltb 0 (length records)) Error.zero_version
    check_records limits watermark records
    let out = sort record_less records
    fail_if (has_duplicate out) Error.duplicate_logical_key
    ok out

  unfoldable pub normalize_checkpoint : Checkpoint → Limits → Fallible Checkpoint
  normalize_checkpoint checkpoint l = do
    records ← normalize_checkpoint_records checkpoint.records checkpoint.watermark (normalized l)
    ok (record { watermark = checkpoint.watermark; records = records })

  unfoldable pub encode_checkpoint : ⦃c : Json Checkpoint⦄ → Checkpoint → Limits → Fallible Bytes
  encode_checkpoint ⦃c⦄ checkpoint l = do
    let limits = normalized l
    clean ← normalize_checkpoint checkpoint limits
    bytes ← encode_envelope (c.marshal clean)
    fail_if (ltb limits.max_checkpoint_bytes (length bytes)) Error.checkpoint_too_large
    ok bytes

-- the answers of the operating system to `LoadCheckpoint`
pub record LoadIo : Type 0 where
  pub open_file : Option Error
  pub stat : Option Error
  pub read : Option Error

abbrev pub load_fine : LoadIo
load_fine = record { open_file = none; stat = none; read = none }

module _ ⦃u : Unicode⦄ ⦃j : Json Record⦄ ⦃c : Json Checkpoint⦄ where
  -- `SaveCheckpoint` up to `atomicWrite`
  unfoldable pub save_bytes : Bytes → Checkpoint → Limits → Fallible Bytes
  save_bytes path checkpoint l = do
    fail_if (length path == 0) Error.nil_checkpoint_path
    bytes ← encode_checkpoint checkpoint l
    fail_if (ltb (normalized l).max_checkpoint_bytes (length bytes)) Error.checkpoint_too_large
    ok bytes

  -- `SaveCheckpoint` on a path that holds `old`: the error, and what the path holds afterwards
  unfoldable pub save_checkpoint :
      Ctx → AtomicIo → Bytes → Checkpoint → Limits → Option Bytes → Fallible Unit × Option Bytes
  unfolding save_bytes
  save_checkpoint ctx io path checkpoint l old = elim (save_bytes path checkpoint l) [
    | err e ↦ (err e, old)
    | ok bytes ↦ atomic_write ctx io bytes old
  ]

  -- `LoadCheckpoint` of a file that holds `content`
  unfoldable pub load_checkpoint : Ctx → LoadIo → Bytes → Limits → Bytes → Fallible Checkpoint
  load_checkpoint ctx io path l content = do
    fail_if (length path == 0) Error.nil_checkpoint_path
    check (ctx 0)
    let limits = normalized l
    check io.open_file
    check io.stat
    fail_if (ltb limits.max_checkpoint_bytes (length content)) Error.checkpoint_too_large
    check io.read
    (payload, next) ←
        decode_envelope content 0 limits.max_checkpoint_bytes Error.checkpoint_corrupt
          Error.checkpoint_checksum
    fail_if (not (next == length content)) Error.checkpoint_corrupt
    checkpoint ← decoded (c.unmarshal payload)
    normalize_checkpoint checkpoint limits
    where
      decoded : Option Checkpoint → Fallible Checkpoint
      decoded (some checkpoint) = ok checkpoint
      decoded none = err (Error.wrap Error.checkpoint_corrupt)
