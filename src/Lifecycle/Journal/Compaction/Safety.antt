-- ===== src/Lifecycle/Journal/Compaction/Safety.antt =====
-- `Compact` loses nothing: the state of what it drops is in the checkpoint, which is on disk before
-- the journal changes.
use stream_hive.Common.{
  ◌≤◌, ◌<◌, ◌≡◌, ◌⊎◌, refl, sym, true, false, Option, some, List, [], ◌∷◌, ◌++◌, Result, ok, err,
  check, ◌>>◌, arith, length, drop, All, length-drop, Result-cases, inl, inr, subst,
}
use stream_hive.Common.Bytes.{Bytes}
use stream_hive.Std.Json.{Json}
use stream_hive.Std.Unicode.{Unicode}
use stream_hive.Context.{Ctx, later}
use stream_hive.Errors.{Error}
use stream_hive.Lifecycle.Version.{Version, newer, older}
use stream_hive.Lifecycle.Records.{Record}
use stream_hive.Lifecycle.Records.Laws.{equal_iff}
use stream_hive.Lifecycle.Store.{Store, new_store, snapshot}
use stream_hive.Lifecycle.Checkpoints.{Checkpoint, records_equal, encode_checkpoint}
use stream_hive.Lifecycle.JournalFile.{encode_journal_header}
use stream_hive.Lifecycle.JournalFile.Header.{IsU64Version}
use stream_hive.Lifecycle.JournalFile.Loop.{entries_bytes}
use stream_hive.Lifecycle.Journal.Files.{Journal, Disk, on_path, atomic_prepare, atomic_write}
use stream_hive.Lifecycle.Journal.Append.{AppendIo, append_to, append}
use stream_hive.Lifecycle.Journal.Append.Durability.{IsConsistent}
use stream_hive.Lifecycle.Journal.Rewrite.{
  RewriteIo, rewrite_prepare, rewrite, replace_file, take_over,
}
use stream_hive.Lifecycle.Journal.Compaction.{
  CompactionRequest, CompactIo, compaction_base, apply_base, compact_checks, compact,
}
use stream_hive.Lifecycle.Journal.Compaction.Laws.{
  compact_checks_ok, check_peers_iff, apply_prefix_splits, header_fits, rewritten, disk_after,
  rewrite_done, rewritten-IsConsistent, rewrite_prepare_ok,
}

records_equal_iff : (rs ss : List Record) → records_equal rs ss ≡ true → rs ≡ ss
unfolding records_equal
records_equal_iff [] [] h = refl
records_equal_iff [] (s ∷ ss) h = absurd (ground arith)
records_equal_iff (r ∷ rs) [] h = absurd (ground arith)
records_equal_iff (r ∷ rs) (s ∷ ss) h = ground (arith, equal_iff r s, records_equal_iff rs ss)

module _ ⦃u : Unicode⦄ ⦃json : Json Record⦄ ⦃c : Json Checkpoint⦄ where
  -- `prefix` was dropped from the journal, and the checkpoint of `bytes` holds the snapshot of the
  -- base with it applied
  pub record Compacted (request : CompactionRequest) (j : Journal)
      (after : Result Error Unit × Journal × Disk) (base : Checkpoint) (start state : Store)
      (prefix : List Record) (bytes : Bytes) : Type 0 where
    pub consistent_after : IsConsistent after.1 after.2
    pub floor : after.1.floor ≡ request.watermark
    pub parts : j.records ≡ prefix ++ after.1.records
    pub covered : All (λ r. newer r.version request.watermark ≡ false) prefix
    pub progress : 0 < length prefix
    pub peers : All (λ p. older p request.watermark ≡ false) request.peer_watermarks
    pub base_accepted : compaction_base request.base j ≡ ok base
    pub base_applied : apply_base base.records (new_store j.limits) ≡ ok start
    pub prefix_applied : apply_base prefix start ≡ ok state
    pub encoded :
        encode_checkpoint
          (record { watermark = request.watermark; records = snapshot state })
          j.limits
        ≡ ok bytes
    pub saved : after.2.checkpoint ≡ some bytes

module _ ⦃u : Unicode⦄ ⦃json : Json Record⦄ ⦃c : Json Checkpoint⦄ (clean : Bytes → Bytes)
    (ctx : Ctx) (io : CompactIo) (request : CompactionRequest) (j : Journal) (d : Disk)
    (consistent : IsConsistent j d) where
  abbrev after : Result Error Unit × Journal × Disk
  after = compact clean ctx io request j d

  compact_done :
      (bytes : Bytes) (prefix : List Record)
      → compact_checks clean ctx request j ≡ ok (bytes, prefix)
      → after.0 ≡ ok tt
      → (after ≡ (
        ok tt,
        rewritten request.watermark (drop (length prefix) j.records) j,
        disk_after request.watermark
            (drop (length prefix) j.records)
            (record d { checkpoint = some bytes }),
      ))
        × (length (
              encode_journal_header request.watermark
              ++ entries_bytes (drop (length prefix) j.records))
            ≤ j.max_bytes)
  unfolding compact atomic_write
  compact_done bytes prefix checked done =
      elim (Result-cases (atomic_prepare (later 1 ctx) io.checkpoint)) [
        | inr (e, bad) ↦ absurd (ground arith)
        | inl (_, good) ↦ ground (
          arith,
          rewrite_done (later 3 ctx) io.journal io.close request.watermark
              (drop (length prefix) j.records) j (record d { checkpoint = some bytes })
              (header_fits j d consistent) consistent.handle,
        )
      ]

  -- A successful `Compact` drops a front of the records that the watermark covers, not empty, and
  -- keeps the rest, in memory and in the file; its checkpoint is on disk and holds the snapshot of
  -- the accepted base with the dropped records applied; and no peer was behind the watermark.
  pub compact_keeps :
      IsU64Version request.watermark
      → after.0 ≡ ok tt
      → (base : Checkpoint) × (start : Store) × (state : Store) × (prefix : List Record)
        × (bytes : Bytes) × Compacted request j after base start state prefix bytes
  compact_keeps word done = elim (Result-cases (compact_checks clean ctx request j)) [
    | inr (e, bad) ↦ absurd (unfold compact in ground arith)
    | inl ((bytes, prefix), checked) ↦
        let k = compact_checks_ok clean ctx request j bytes prefix checked in
        let tail = drop (length prefix) j.records in
        let (shape, fits) = compact_done bytes prefix checked done in
        let (parts, covered, applied, f) =
          apply_prefix_splits request.watermark j.floor j.limits j.records k.start k.state prefix
            consistent.follow k.prefix_applied in
        let room : length tail ≤ j.max_entries =
          omega (arith, length-drop (length prefix) j.records, consistent.entries_le) in
        (
          k.base,
          k.start,
          k.state,
          prefix,
          bytes,
          subst
              (λ (a : Result Error Unit × Journal × Disk).
                Compacted request j a k.base k.start k.state prefix bytes)
              (sym shape)
              (record {
                consistent_after =
                    rewritten-IsConsistent request.watermark tail j d
                      (record d { checkpoint = some bytes }) consistent word f room fits;
                floor = refl;
                parts = parts;
                covered = covered;
                progress = k.progress;
                peers = check_peers_iff request.peer_watermarks request.watermark k.peers;
                base_accepted = k.base_accepted;
                base_applied = k.base_applied;
                prefix_applied = applied;
                encoded =
                    subst
                      (λ (rs : List Record).
                        encode_checkpoint (record { watermark = request.watermark; records = rs })
                          j.limits
                        ≡ ok bytes)
                      (sym (records_equal_iff (snapshot k.state) k.checkpoint.records k.same_state))
                      k.encoded;
                saved = refl;
              }),
        )
  ]

  -- Whatever the calls of `Compact` answer, the journal's file is the old one, or it is the whole
  -- compacted file and the checkpoint that covers what was dropped is at the checkpoint's path.
  pub compact_order :
      (after.2.journal ≡ d.journal)
      ⊎ ((bytes : Bytes) × (prefix : List Record) × (compact_checks clean ctx request j
            ≡ ok (bytes, prefix))
          × (after.2.checkpoint ≡ some bytes)
          × (after.2.journal
              ≡ encode_journal_header request.watermark
                ++ entries_bytes (drop (length prefix) j.records)))
  unfolding compact atomic_write rewrite replace_file
  compact_order = elim (Result-cases (compact_checks clean ctx request j)) [
    | inr (e, bad) ↦ inl (ground arith)
    | inl ((bytes, prefix), checked) ↦
        let tail = drop (length prefix) j.records in
        let prepared = rewrite_prepare (later 3 ctx) io.journal request.watermark tail j in
        elim (Result-cases
          (do atomic_prepare (later 1 ctx) io.checkpoint; check io.checkpoint.directory)) [
            | inr (e, bad) ↦ inl (ground arith)
            | inl (_, good) ↦ elim (Result-cases prepared) [
              | inr (e, bad) ↦ inl (ground arith)
              | inl (file, made) ↦ inr (
                bytes,
                prefix,
                checked,
                ground arith,
                ground (
                  arith,
                  consistent.handle,
                  rewrite_prepare_ok (later 3 ctx) io.journal request.watermark tail j file
                      (header_fits j d consistent),
                ),
              )
            ]
          ]
  ]

  -- A failed `Compact` leaves the floor, the records, the last version and the size of the journal
  -- in memory as they were.
  pub compact_error :
      (e : Error)
      → after.0 ≡ err e
      → (after.1.floor ≡ j.floor)
        × (after.1.records ≡ j.records)
        × (after.1.last ≡ j.last)
        × (after.1.size ≡ j.size)
  unfolding compact rewrite take_over
  compact_error e failed = (ground arith, ground arith, ground arith, ground arith)

module _ ⦃u : Unicode⦄ ⦃json : Json Record⦄ where
  -- Where a rewrite of the journal fails at the sync of the directory, behind its rename, the
  -- journal goes on with the replaced file: a later `Append`, whatever it answers, leaves the file
  -- at the journal's path as it is.
  pub rewrite_directory_error :
      (ctx later_ctx : Ctx) (io : RewriteIo) (close : Option Error) (floor : Version)
      (rs : List Record) (j : Journal) (d : Disk) (bytes : Bytes) (e : Error) (append_io : AppendIo)
      (r : Record)
      → j.file ≡ on_path
      → rewrite_prepare ctx io floor rs j ≡ ok bytes
      → io.directory ≡ some e
      → ((rewrite ctx io close floor rs j d).0 ≡ err e)
        × ((rewrite ctx io close floor rs j d).2.journal ≡ bytes)
        × ((append later_ctx append_io r
              (rewrite ctx io close floor rs j d).1
              (rewrite ctx io close floor rs j d).2).2.journal
            ≡ bytes)
  unfolding rewrite replace_file append append_to
  rewrite_directory_error ctx later_ctx io close floor rs j d bytes e append_io r handle made sync =
      (ground arith, ground arith, ground arith)
