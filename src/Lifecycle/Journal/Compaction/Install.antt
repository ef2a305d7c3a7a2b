-- ===== src/Lifecycle/Journal/Compaction/Install.antt =====
-- `InstallSnapshot` replaces the journal by a checkpoint that is not behind it.
use stream_hive.Common.{
  ◌≡◌, refl, sym, subst, false, some, [], ◌++◌, ◌≤◌, Result, ok, arith, length, Result-cases, inl,
  inr,
}
use stream_hive.Common.Bytes.{Bytes}
use stream_hive.Std.Json.{Json}
use stream_hive.Std.Unicode.{Unicode}
use stream_hive.Context.{Ctx, later}
use stream_hive.Lifecycle.Version.{Version, older}
use stream_hive.Lifecycle.Records.{Record}
use stream_hive.Lifecycle.Checkpoints.{
  Checkpoint, normalize_checkpoint, save_bytes, save_checkpoint,
}
use stream_hive.Lifecycle.Checkpoints.Laws.{normalize_checkpoint_ok}
use stream_hive.Lifecycle.JournalFile.{last_version, encode_journal_header}
use stream_hive.Lifecycle.JournalFile.Header.{IsU64Version}
use stream_hive.Lifecycle.Journal.Files.{Journal, Disk, atomic_prepare, atomic_write}
use stream_hive.Lifecycle.Journal.Append.Durability.{IsConsistent}
use stream_hive.Lifecycle.Journal.Compaction.{CompactIo, install_checks, install_snapshot}
use stream_hive.Lifecycle.Journal.Compaction.Laws.{
  header_fits, rewritten, disk_after, rewrite_done, rewritten-IsConsistent,
}
use stream_hive.Errors.{Error}

module _ ⦃u : Unicode⦄ ⦃json : Json Record⦄ ⦃c : Json Checkpoint⦄ (clean : Bytes → Bytes) where
  install_checks_ok :
      (ctx : Ctx) (path : Bytes) (checkpoint normal : Checkpoint) (j : Journal)
      → install_checks clean ctx path checkpoint j ≡ ok normal
      → (normalize_checkpoint checkpoint j.limits ≡ ok normal)
        × (older normal.watermark j.last ≡ false)
  unfolding install_checks
  install_checks_ok ctx path checkpoint normal j h =
      elim (Result-cases (normalize_checkpoint checkpoint j.limits)) [
        | inr (e, bad) ↦ absurd (ground arith)
        | inl (found, good) ↦ ground arith
      ]

  last_version-nil : (v : Version) → last_version v [] ≡ v
  unfolding last_version
  last_version-nil v = refl

  -- `after` is the journal that starts at the checkpoint `normal`
  pub record Installed (path : Bytes) (checkpoint normal : Checkpoint) (bytes : Bytes) (j : Journal)
      (after : Result Error Unit × Journal × Disk) : Type 0 where
    pub consistent_after : IsConsistent after.1 after.2
    pub normal_form : normalize_checkpoint checkpoint j.limits ≡ ok normal
    pub not_behind : older normal.watermark j.last ≡ false
    pub floor : after.1.floor ≡ normal.watermark
    pub last : after.1.last ≡ normal.watermark
    pub empty : after.1.records ≡ []
    pub encoded : save_bytes path normal j.limits ≡ ok bytes
    pub saved : after.2.checkpoint ≡ some bytes

  -- the journal and the disk after the install
  abbrev installed : Checkpoint → Bytes → Journal → Disk → Result Error Unit × Journal × Disk
  installed normal bytes j d = (
    ok tt,
    rewritten normal.watermark [] j,
    disk_after normal.watermark [] (record d { checkpoint = some bytes }),
  )

  install_done :
      (ctx : Ctx) (io : CompactIo) (path : Bytes) (checkpoint normal : Checkpoint) (bytes : Bytes)
      (j : Journal) (d : Disk)
      → IsConsistent j d
      → install_checks clean ctx path checkpoint j ≡ ok normal
      → save_bytes path normal j.limits ≡ ok bytes
      → (install_snapshot clean ctx io path checkpoint j d).0 ≡ ok tt
      → (install_snapshot clean ctx io path checkpoint j d ≡ installed normal bytes j d)
        × (length (encode_journal_header normal.watermark ++ []) ≤ j.max_bytes)
  unfolding install_snapshot save_checkpoint atomic_write
  install_done ctx io path checkpoint normal bytes j d consistent checked made done =
      elim (Result-cases (atomic_prepare (later 1 ctx) io.checkpoint)) [
        | inr (e, bad) ↦ absurd (ground arith)
        | inl (_, written) ↦ ground (
          arith,
          rewrite_done (later 3 ctx) io.journal io.close normal.watermark [] j
              (record d { checkpoint = some bytes }) (header_fits j d consistent) consistent.handle,
        )
      ]

  -- A successful `InstallSnapshot` leaves an empty journal at the checkpoint's watermark, which is
  -- not behind the last version, in memory and in the file; the normal form of the checkpoint is
  -- on disk.
  pub install_keeps :
      (ctx : Ctx) (io : CompactIo) (path : Bytes) (checkpoint : Checkpoint) (j : Journal) (d : Disk)
      → IsConsistent j d
      → IsU64Version checkpoint.watermark
      → (install_snapshot clean ctx io path checkpoint j d).0 ≡ ok tt
      → (normal : Checkpoint) × (bytes : Bytes) × Installed path checkpoint normal bytes j
          (install_snapshot clean ctx io path checkpoint j d)
  unfolding install_snapshot save_checkpoint
  install_keeps ctx io path checkpoint j d consistent word done =
      elim (Result-cases (install_checks clean ctx path checkpoint j)) [
        | inr (e, bad) ↦ absurd (ground arith)
        | inl (normal, checked) ↦ elim (Result-cases (save_bytes path normal j.limits)) [
          | inr (e, bad) ↦ absurd (ground arith)
          | inl (bytes, made) ↦
              let (accepted, fresh) = install_checks_ok ctx path checkpoint normal j checked in
              let (shape, fits) =
                install_done ctx io path checkpoint normal bytes j d consistent checked made done in
              let (same, _) = normalize_checkpoint_ok checkpoint normal j.limits accepted in
              (
                normal,
                bytes,
                subst (Installed path checkpoint normal bytes j) (sym shape) (record {
                  consistent_after =
                      rewritten-IsConsistent normal.watermark [] j d
                        (record d { checkpoint = some bytes }) consistent
                        (subst IsU64Version (sym same) word) tt (omega arith) fits;
                  normal_form = accepted;
                  not_behind = fresh;
                  floor = refl;
                  last = last_version-nil normal.watermark;
                  empty = refl;
                  encoded = made;
                  saved = refl;
                }),
              )
        ]
      ]
