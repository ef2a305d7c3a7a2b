-- ===== src/Lifecycle/Journal/Compaction.antt =====
-- internal/lifecycle/journal.go: `Compact` and `InstallSnapshot`. The checkpoint's path names one
-- file, the one of `Disk.checkpoint`.
pub mod Laws
pub mod Safety
pub mod Install
use stream_hive.Common.{
  ℕ, ◌+◌, Bool, not, Option, none, some, List, [], ◌∷◌, ok, err, check, fail_if, ◌>>=◌, ◌>>◌,
  length, drop, ltb, ◌==◌, if◌then◌else◌,
}
use stream_hive.Common.Bytes.{Bytes, bytes_equal}
use stream_hive.Std.Json.{Json}
use stream_hive.Std.Unicode.{Unicode}
use stream_hive.Context.{Ctx, later}
use stream_hive.Errors
use stream_hive.Errors.{Error, Fallible}
use stream_hive.Lifecycle.Version.{Version, zero_version, is_zero, same_version, newer, older}
use stream_hive.Lifecycle.Records.{Limits, Record}
use stream_hive.Lifecycle.Store.{Store, new_store, apply, snapshot}
use stream_hive.Lifecycle.Checkpoints.{
  Checkpoint, records_equal, normalize_checkpoint, encode_checkpoint, save_checkpoint,
}
use stream_hive.Lifecycle.Journal.Files.{Journal, Disk, ensure_open, AtomicIo, atomic_write}
use stream_hive.Lifecycle.Journal.Rewrite.{RewriteIo, rewrite}

pub record CompactionRequest : Type 0 where
  pub checkpoint_path : Bytes
  pub watermark : Version
  pub records : List Record
  pub base : Option Checkpoint
  pub peer_watermarks : List Version

-- the answers of the operating system: to `atomicWrite`, to `rewriteLocked`, and to the `Close` of
-- the old file
pub record CompactIo : Type 0 where
  pub checkpoint : AtomicIo
  pub journal : RewriteIo
  pub close : Option Error

-- the loop over the acknowledgements of the peers
unfoldable pub check_peers : List Version → Version → Fallible Unit
check_peers [] watermark = ok tt
check_peers (p ∷ ps) watermark = do
  fail_if (older p watermark) Error.peer_behind_watermark
  check_peers ps watermark

module _ ⦃u : Unicode⦄ ⦃json : Json Record⦄ where
  -- `compactionBaseLocked`
  unfoldable pub compaction_base : Option Checkpoint → Journal → Fallible Checkpoint
  compaction_base none j =
      if is_zero j.floor
      then ok (record { watermark = zero_version; records = [] })
      else err Error.compaction_base_mismatch
  compaction_base (some base) j = do
    validated ← normalize_checkpoint base j.limits
    fail_if (not (same_version validated.watermark j.floor)) Error.compaction_base_mismatch
    ok validated

  -- the loop over the records of the base
  unfoldable pub apply_base : List Record → Store → Fallible Store
  apply_base [] s = ok s
  apply_base (r ∷ rs) s =
      let rest = apply_base rs (apply r s).1 in
      elim (apply r s).0 [ err e ↦ err (Error.wrap Error.compaction_unsafe) | ok _ ↦ rest ]

  -- `prefix = append(prefix, record)` in front of what the rest of the loop gives
  abbrev with_front : Record → Fallible (List Record × Store) → Fallible (List Record × Store)
  with_front r (ok (prefix, state)) = ok (r ∷ prefix, state)
  with_front r (err e) = err e

  -- the loop over the journal up to the watermark: the prefix, and the state behind it
  unfoldable pub apply_prefix : Version → List Record → Store → Fallible (List Record × Store)
  apply_prefix watermark [] s = ok ([], s)
  apply_prefix watermark (r ∷ rs) s =
      let rest = apply_prefix watermark rs (apply r s).1 in
      if newer r.version watermark then ok ([], s) else elim (apply r s).0 [
        | err e ↦ err (Error.wrap Error.compaction_unsafe)
        | ok _ ↦ with_front r rest
      ]

module _ ⦃u : Unicode⦄ ⦃json : Json Record⦄ ⦃c : Json Checkpoint⦄ (clean : Bytes → Bytes) where
  -- `Compact` up to its first write: the bytes of the checkpoint, and the prefix of the journal
  -- that it covers. `clean` is `filepath.Clean`.
  unfoldable pub compact_checks : Ctx → CompactionRequest → Journal → Fallible (Bytes × List Record)
  compact_checks ctx request j = do
    fail_if (length request.checkpoint_path == 0) Error.nil_checkpoint_path
    check (ctx 0)
    ensure_open j
    fail_if (bytes_equal (clean request.checkpoint_path) (clean j.path)) Error.compaction_unsafe
    fail_if (not (newer request.watermark j.floor)) Error.compaction_no_progress
    fail_if (newer request.watermark j.last) Error.compaction_watermark
    check_peers request.peer_watermarks request.watermark
    base ← compaction_base request.base j
    checkpoint ←
        normalize_checkpoint (record { watermark = request.watermark; records = request.records })
          j.limits
    start ← apply_base base.records (new_store j.limits)
    (prefix, state) ← apply_prefix request.watermark j.records start
    fail_if (length prefix == 0) Error.compaction_no_progress
    fail_if (not (records_equal (snapshot state) checkpoint.records)) Error.compaction_unsafe
    bytes ←
        encode_checkpoint (record { watermark = request.watermark; records = checkpoint.records })
          j.limits
    ok (bytes, prefix)

  unfoldable pub compact :
      Ctx → CompactIo → CompactionRequest → Journal → Disk → Fallible Unit × Journal × Disk
  compact ctx io request j d = elim (compact_checks ctx request j) [
    | err e ↦ (err e, j, d)
    | ok (bytes, prefix) ↦
        let saved = atomic_write (later 1 ctx) io.checkpoint bytes d.checkpoint in
        let d' : Disk = record d { checkpoint = saved.1 } in
        elim saved.0 [
          | err e ↦ (err e, j, d')
          | ok _ ↦
              rewrite (later 3 ctx) io.journal io.close request.watermark
                (drop (length prefix) j.records) j d'
        ]
  ]

  -- the checks of `InstallSnapshot`: the normal form of the checkpoint
  unfoldable pub install_checks : Ctx → Bytes → Checkpoint → Journal → Fallible Checkpoint
  install_checks ctx path checkpoint j = do
    fail_if (length path == 0) Error.nil_checkpoint_path
    check (ctx 0)
    ensure_open j
    fail_if (bytes_equal (clean path) (clean j.path)) Error.compaction_unsafe
    normalized ← normalize_checkpoint checkpoint j.limits
    fail_if (older normalized.watermark j.last) Error.snapshot_stale
    ok normalized

  unfoldable pub install_snapshot :
      Ctx → CompactIo → Bytes → Checkpoint → Journal → Disk → Fallible Unit × Journal × Disk
  install_snapshot ctx io path checkpoint j d = elim (install_checks ctx path checkpoint j) [
    | err e ↦ (err e, j, d)
    | ok normalized ↦
        let saved =
          save_checkpoint (later 1 ctx) io.checkpoint path normalized j.limits d.checkpoint in
        let d' : Disk = record d { checkpoint = saved.1 } in
        elim saved.0 [
          | err e ↦ (err e, j, d')
          | ok _ ↦ rewrite (later 3 ctx) io.journal io.close normalized.watermark [] j d'
        ]
  ]
