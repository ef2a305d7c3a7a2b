-- ===== src/Lifecycle/Journal/Compaction/Laws.antt =====
-- What a compaction keeps: the tail of the records, their file, and the state of the prefix in the
-- checkpoint; and in which order it reaches the disk.
use stream_hive.Common.{
  ℕ, ◌+◌, ◌≤◌, ◌<◌, ◌≡◌, refl, ap, true, false, Option, List, [], ◌∷◌, ◌++◌, ok, arith, length,
  drop, All, length-append, Result-cases, inl, inr, Bool-cases,
}
use stream_hive.Common.Bytes.{Bytes}
use stream_hive.Std.Json.{Json}
use stream_hive.Std.Unicode.{Unicode}
use stream_hive.Context.{Ctx, later}
use stream_hive.Errors.{Error}
use stream_hive.Lifecycle.Version.{Version, newer, older}
use stream_hive.Lifecycle.Records.{Record, Limits}
use stream_hive.Lifecycle.Store.{Store, new_store, apply, snapshot}
use stream_hive.Lifecycle.Checkpoints.{
  Checkpoint, records_equal, normalize_checkpoint, encode_checkpoint,
}
use stream_hive.Lifecycle.Envelope.{encode_envelope}
use stream_hive.Lifecycle.Envelope.Laws.{encode_envelope_iff}
use stream_hive.Lifecycle.JournalFile.{last_version, encode_journal_header}
use stream_hive.Lifecycle.JournalFile.Header.{IsU64Version, length-header}
use stream_hive.Lifecycle.JournalFile.Loop.{entries_bytes, Follow}
use stream_hive.Lifecycle.Journal.Files.{Journal, Disk, on_path}
use stream_hive.Lifecycle.Journal.Append.Durability.{IsConsistent}
use stream_hive.Lifecycle.Journal.Rewrite.{
  RewriteIo, rewrite_entries, rewrite_prepare, replace_file, take_over, rewrite,
}
use stream_hive.Lifecycle.Journal.Compaction.{
  CompactionRequest, check_peers, compaction_base, apply_base, apply_prefix, compact_checks,
}

module _ ⦃u : Unicode⦄ ⦃json : Json Record⦄ where
  -- the loop writes the entries of the records, within the limit
  rewrite_entries_ok :
      (ctx : Ctx) (io : ℕ → Option Error) (max size : ℕ) (rs : List Record) (bytes : Bytes)
      → size ≤ max
      → rewrite_entries ctx io max size rs ≡ ok bytes
      → (bytes ≡ entries_bytes rs) × (size + length bytes ≤ max)
  unfolding rewrite_entries
  rewrite_entries_ok ctx io max size [] bytes fits h = ground arith
  rewrite_entries_ok ctx io max size (r ∷ rs) bytes fits h =
      elim (Result-cases (encode_envelope (json.marshal r))) [
        | inr (e, bad) ↦ absurd (ground arith)
        | inl (entry, made) ↦
            let more =
              rewrite_entries (later 1 ctx) (λ k. io (1 + k)) max (size + length entry) rs in
            elim (Result-cases more) [
              | inr (e, bad) ↦ absurd (ground arith)
              | inl (rest, good) ↦ ground (
                arith,
                encode_envelope_iff (json.marshal r) entry,
                length-append entry rest,
                rewrite_entries_ok (later 1 ctx) (λ k. io (1 + k)) max (size + length entry) rs
                    rest,
              )
            ]
      ]

  -- the prefix and the tail of a journal at a watermark
  pub apply_prefix_splits :
      (w last : Version) (l : Limits) (rs : List Record) (s t : Store) (prefix : List Record)
      → Follow l last rs
      → apply_prefix w rs s ≡ ok (prefix, t)
      → (rs ≡ prefix ++ drop (length prefix) rs)
        × All (λ r. newer r.version w ≡ false) prefix
        × (apply_base prefix s ≡ ok t)
        × Follow l w (drop (length prefix) rs)
  unfolding apply_prefix apply_base
  apply_prefix_splits w last l [] s t prefix f h = ground arith
  apply_prefix_splits w last l (r ∷ rs) s t prefix f h = elim (Bool-cases (newer r.version w)) [
    | inl over ↦ ground arith
    | inr within ↦ elim (Result-cases (apply_prefix w rs (apply r s).1)) [
      | inr (e, bad) ↦ absurd (ground arith)
      | inl ((p, t'), good) ↦
          let ih = apply_prefix_splits w r.version l rs (apply r s).1 t' p f.2 good in ground arith
    ]
  ]

  -- the temporary file of a rewrite that gets as far as the rename
  pub rewrite_prepare_ok :
      (ctx : Ctx) (io : RewriteIo) (floor : Version) (rs : List Record) (j : Journal)
      (bytes : Bytes)
      → 28 ≤ j.max_bytes
      → rewrite_prepare ctx io floor rs j ≡ ok bytes
      → (bytes ≡ encode_journal_header floor ++ entries_bytes rs) × (length bytes ≤ j.max_bytes)
  unfolding rewrite_prepare
  rewrite_prepare_ok ctx io floor rs j bytes fits h =
      let size = length (encode_journal_header floor) in
      elim (Result-cases (rewrite_entries ctx io.entries j.max_bytes size rs)) [
        | inr (e, bad) ↦ absurd (ground arith)
        | inl (entries, good) ↦ ground (
          arith,
          length-header floor,
          length-append (encode_journal_header floor) entries,
          rewrite_entries_ok ctx io.entries j.max_bytes size rs entries,
        )
      ]

  pub header_fits : (j : Journal) (d : Disk) → IsConsistent j d → 28 ≤ j.max_bytes
  header_fits j d c = omega (
    arith,
    c.size,
    c.size_le,
    ap length c.content,
    length-append (encode_journal_header j.floor) (entries_bytes j.records),
    length-header j.floor,
  )

  -- the journal and the disk after a rewrite that succeeds
  abbrev pub rewritten : Version → List Record → Journal → Journal
  rewritten floor rs j = record j {
    file = on_path;
    floor = floor;
    records = rs;
    size = length (encode_journal_header floor ++ entries_bytes rs);
    last = last_version floor rs;
  }

  abbrev pub disk_after : Version → List Record → Disk → Disk
  disk_after floor rs d = record d {
    journal = encode_journal_header floor ++ entries_bytes rs;
    replaced = d.journal;
  }

  pub rewrite_done :
      (ctx : Ctx) (io : RewriteIo) (close : Option Error) (floor : Version) (rs : List Record)
      (j : Journal) (d : Disk)
      → 28 ≤ j.max_bytes
      → j.file ≡ on_path
      → (rewrite ctx io close floor rs j d).0 ≡ ok tt
      → (rewrite ctx io close floor rs j d ≡ (ok tt, rewritten floor rs j, disk_after floor rs d))
        × (length (encode_journal_header floor ++ entries_bytes rs) ≤ j.max_bytes)
  unfolding rewrite take_over replace_file
  rewrite_done ctx io close floor rs j d header handle done =
      elim (Result-cases (rewrite_prepare ctx io floor rs j)) [
        | inr (e, bad) ↦ absurd (ground arith)
        | inl (bytes, good) ↦
            let (shape, fits) = rewrite_prepare_ok ctx io floor rs j bytes header good in
            ground arith
      ]

  pub rewritten-IsConsistent :
      (floor : Version) (rs : List Record) (j : Journal) (d saved : Disk)
      → IsConsistent j d
      → IsU64Version floor
      → Follow j.limits floor rs
      → length rs ≤ j.max_entries
      → length (encode_journal_header floor ++ entries_bytes rs) ≤ j.max_bytes
      → IsConsistent (rewritten floor rs j) (disk_after floor rs saved)
  rewritten-IsConsistent floor rs j d saved c word f room fits = record {
    handle = refl;
    not_closed = c.not_closed;
    limits = c.limits;
    floor_word = word;
    follow = f;
    last = refl;
    content = refl;
    size = refl;
    size_le = fits;
    entries_le = room;
  }

pub check_peers_iff :
    (ps : List Version) (w : Version) → check_peers ps w ≡ ok tt → All (λ p. older p w ≡ false) ps
unfolding check_peers
check_peers_iff [] w h = tt
check_peers_iff (p ∷ ps) w h = ground (arith, check_peers_iff ps w)

module _ ⦃u : Unicode⦄ ⦃json : Json Record⦄ ⦃c : Json Checkpoint⦄ (clean : Bytes → Bytes) where
  -- what the checks of `Compact` have established when it writes the checkpoint
  pub record Covers (request : CompactionRequest) (j : Journal) (bytes : Bytes)
      (prefix : List Record) : Type 0 where
    pub base : Checkpoint
    pub start : Store
    pub state : Store
    pub checkpoint : Checkpoint
    pub forward : newer request.watermark j.floor ≡ true
    pub reached : newer request.watermark j.last ≡ false
    pub peers : check_peers request.peer_watermarks request.watermark ≡ ok tt
    pub base_accepted : compaction_base request.base j ≡ ok base
    pub base_applied : apply_base base.records (new_store j.limits) ≡ ok start
    pub prefix_applied : apply_prefix request.watermark j.records start ≡ ok (prefix, state)
    pub progress : 0 < length prefix
    pub same_state : records_equal (snapshot state) checkpoint.records ≡ true
    pub encoded :
        encode_checkpoint
          (record { watermark = request.watermark; records = checkpoint.records })
          j.limits
        ≡ ok bytes

  pub compact_checks_ok :
      (ctx : Ctx) (request : CompactionRequest) (j : Journal) (bytes : Bytes) (prefix : List Record)
      → compact_checks clean ctx request j ≡ ok (bytes, prefix)
      → Covers request j bytes prefix
  unfolding compact_checks
  compact_checks_ok ctx request j bytes prefix h =
      let asked : Checkpoint = record {
        watermark = request.watermark;
        records = request.records;
      } in
      elim (Result-cases (compaction_base request.base j)) [
        | inr (e, bad) ↦ absurd (ground arith)
        | inl (base, h1) ↦ elim (Result-cases (normalize_checkpoint asked j.limits)) [
          | inr (e, bad) ↦ absurd (ground arith)
          | inl (checkpoint, h2) ↦
              elim (Result-cases (apply_base base.records (new_store j.limits))) [
                | inr (e, bad) ↦ absurd (ground arith)
                | inl (start, h3) ↦
                    elim (Result-cases (apply_prefix request.watermark j.records start)) [
                      | inr (e, bad) ↦ absurd (ground arith)
                      | inl ((p, state), h4) ↦ record {
                        base = base;
                        start = start;
                        state = state;
                        checkpoint = checkpoint;
                        forward = ground arith;
                        reached = ground arith;
                        peers = ground arith;
                        base_accepted = h1;
                        base_applied = h3;
                        prefix_applied = ground arith;
                        progress = ground arith;
                        same_state = ground arith;
                        encoded = ground arith;
                      }
                    ]
              ]
        ]
      ]
