-- ===== src/Lifecycle/Journal/Append/Failures.antt =====
-- What a failed `Append` leaves behind, in memory and in the file.
use stream_hive.Common.{
  ℕ, ◌+◌, ◌*◌, ◌≤◌, ◌<◌, ◌≡◌, refl, ap, ◌∙◌, subst, true, none, some, [], ◌∷◌, ◌++◌, Result, ok,
  err, arith, length, take, length-append, append_assoc, append-nil, Result-cases, inl, inr, ◌⊎◌,
  length-take, split_take,
}
use stream_hive.Common.Bytes.{Bytes}
use stream_hive.Std.Json.{Json}
use stream_hive.Std.Unicode.{Unicode}
use stream_hive.Context.{Ctx}
use stream_hive.Errors.{Error}
use stream_hive.Lifecycle.Version.{Version, newer}
use stream_hive.Lifecycle.Version.Order.{newer_irrefl}
use stream_hive.Lifecycle.Records.{Record, Limits, validate}
use stream_hive.Lifecycle.Records.Laws.{InRange, RecordJson}
use stream_hive.Lifecycle.JournalFile.Entries.{entry_bytes, IsWritable}
use stream_hive.Lifecycle.JournalFile.Recovery.{parse_journal_stale}
use stream_hive.Lifecycle.JournalFile.Loop.{IsTorn, is_cut, entries_bytes}
use stream_hive.Lifecycle.Envelope.Laws.{length-envelope}
use stream_hive.Lifecycle.JournalFile.{encode_journal_header}
use stream_hive.Lifecycle.Journal.Files.{Journal, Disk, written}
use stream_hive.Lifecycle.Journal.Open.{JournalOptions, Recovery, open_fine, open_journal, parse}
use stream_hive.Lifecycle.Journal.Append.{AppendIo, append_fine, append_to, append_checks, append}
use stream_hive.Lifecycle.Journal.Append.Durability.{
  IsConsistent, append_checks_ok, append_done, last_version-append, Follow-append,
  entries_bytes-append, append_on_path,
}
use stream_hive.Lifecycle.Journal.Append.Reopening.{
  Reopens, recovery_of, open_journal_refuses, open_journal-torn,
}

module _ ⦃u : Unicode⦄ ⦃json : Json Record⦄ where
  -- A failed `Append` leaves the journal in memory as it was. The file is as it was too, or the
  -- checks passed and as much of the entry as was written follows its old bytes.
  pub append_error :
      (ctx : Ctx) (io : AppendIo) (r : Record) (j : Journal) (d : Disk) (e : Error)
      → (append ctx io r j d).0 ≡ err e
      → ((append ctx io r j d).1 ≡ j)
        × (((append ctx io r j d).2 ≡ d)
            ⊎ ((append_checks ctx io r j ≡ ok (entry_bytes r))
                × ((append ctx io r j d).2
                    ≡ append_to j.file (written io.write (entry_bytes r)) d)))
  unfolding append
  append_error ctx io r j d e failed = elim (Result-cases (append_checks ctx io r j)) [
    | inr (x, h) ↦ (ground arith, inl (ground arith))
    | inl (entry, h) ↦
        let (_, same, _, _, _, _) = append_checks_ok ctx io r j entry h in
        (ground arith, inr (ground arith, ground arith))
  ]

  pub IsTorn-take :
      (r : Record) (l : Limits) (n : ℕ)
      → IsWritable r l
      → n < length (entry_bytes r)
      → IsTorn l (take n (entry_bytes r))
  IsTorn-take r l n w short =
      let (x, rest, e) = split_take n (entry_bytes r) short in (r, x, rest, w, e)

module _ ⦃u : Unicode⦄ ⦃json : Json Record⦄ (path : Bytes) (options : JournalOptions) (r : Record)
    (j : Journal) (d : Disk) (consistent : IsConsistent j d) (laws : RecordJson j.limits)
    (reopens : Reopens path options j) (range : InRange r) where
  -- When a crash stops the write of an `Append` after `n` bytes, short of the whole entry,
  -- `OpenJournal` gives the journal of before the append, cuts the torn bytes off the file, and
  -- reports a truncated tail unless nothing was written.
  pub append_crash :
      (ctx : Ctx) (io : AppendIo) (n : ℕ) (stopped : Error)
      → append_checks ctx io r j ≡ ok (entry_bytes r)
      → io.write ≡ some (n, stopped)
      → n < length (entry_bytes r)
      → ((append ctx io r j d).0 ≡ err stopped)
        × (open_journal path options open_fine (append ctx io r j d).2.journal
            ≡ (ok (j, recovery_of (is_cut (take n (entry_bytes r))) j), d.journal))
  append_crash ctx io n stopped checked cut short =
      let (valid, _, _, _, fits, _) = append_checks_ok ctx io r j (entry_bytes r) checked in
      let torn = take n (entry_bytes r) in
      let left : append ctx io r j d ≡ (err stopped, j, record d { journal = d.journal ++ torn }) =
        unfold append in ground (arith, append_on_path j torn d consistent.handle) in
      rw left (
        refl,
        open_journal-torn path options j d torn consistent laws reopens
            (IsTorn-take r j.limits n (valid, range) short)
            (omega (arith, length-take n (entry_bytes r))),
      )

  parse_repeated :
      newer r.version j.last ≡ true
      → validate r j.limits ≡ ok tt
      → parse (d.journal ++ entry_bytes r ++ entry_bytes r) j.limits
        ≡ err Error.journal_version_order
  unfolding parse
  parse_repeated n valid = ground (
    arith,
    shape,
    parse_journal_stale j.limits consistent.limits laws j.floor (j.records ++ r ∷ []) r []
        consistent.floor_word
        (Follow-append j.limits j.floor j.records r consistent.follow
          (subst (λ (v : Version). newer r.version v ≡ true) consistent.last n) (valid, range))
        (valid, range) (rw last_version-append (newer_irrefl r.version)),
  )
    where
      shape :
          d.journal ++ entry_bytes r ++ entry_bytes r
          ≡ encode_journal_header j.floor
            ++ (entries_bytes (j.records ++ r ∷ []) ++ (entry_bytes r ++ []))
      shape =
          ap (λ (bs : Bytes). bs ++ entry_bytes r ++ entry_bytes r) consistent.content
          ∙ simp (append_assoc, entries_bytes-append, append-nil)

  -- A retry after a failed `Sync` ruins the file: where the first `Append` fails at its sync and the
  -- second, of the same record, succeeds, `OpenJournal` refuses the whole file for its version
  -- order (if the file is within the byte limit).
  pub append_retry_after_sync_error :
      (ctx again : Ctx) (io : AppendIo) (e : Error)
      → (append ctx io r j d).0 ≡ err e
      → append_checks ctx io r j ≡ ok (entry_bytes r)
      → io.write ≡ none
      → (append again append_fine r j (append ctx io r j d).2).0 ≡ ok tt
      → j.size + 2 * length (entry_bytes r) ≤ j.max_bytes
      → (open_journal path options open_fine
          (append again append_fine r j (append ctx io r j d).2).2.journal).0
        ≡ err Error.journal_version_order
  append_retry_after_sync_error ctx again io e failed checked whole done fits =
      let (valid, _, n, _, _, _) = append_checks_ok ctx io r j (entry_bytes r) checked in
      let synced : Disk = record d { journal = d.journal ++ entry_bytes r } in
      let first : (append ctx io r j d).2 ≡ synced =
        unfold append in ground (arith, append_on_path j (entry_bytes r) d consistent.handle) in
      let second : (append again append_fine r j synced).2.journal
          ≡ d.journal ++ entry_bytes r ++ entry_bytes r =
        ap (λ (t : Result Error Unit × Journal × Disk). t.2.journal)
          (append_done again append_fine r j synced (rw first at done)).1
        ∙ ap (λ (t : Disk). t.journal)
            (append_on_path j (entry_bytes r) synced consistent.handle) in
      let lengths : length (d.journal ++ entry_bytes r ++ entry_bytes r)
          ≡ length d.journal + length (entry_bytes r) + length (entry_bytes r) =
        omega (
          arith,
          length-append (d.journal ++ entry_bytes r) (entry_bytes r),
          length-append d.journal (entry_bytes r),
        ) in
      rw (first, second)
        (ap (λ (t : Result Error (Journal × Recovery) × Bytes). t.0)
          (open_journal_refuses path options j _ Error.journal_version_order reopens
            (omega (arith, lengths, consistent.size))
            (omega (arith, lengths, length-envelope (json.marshal r))) (parse_repeated n valid)))
