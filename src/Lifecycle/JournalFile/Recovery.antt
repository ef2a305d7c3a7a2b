-- ===== src/Lifecycle/JournalFile/Recovery.antt =====
-- `parseJournal` on what the journal writes: the records come back, a torn last entry is cut off,
-- and whatever the file holds the loop ends.
use stream_hive.Common.{
  ℕ, zero, suc, ◌+◌, ◌-◌, ◌≤◌, ◌<◌, ◌≡◌, ap, ap₂, ◌∙◌, false, List, [], ◌∷◌, ◌++◌, ok, err, arith,
  length, length-append, append_assoc, append-nil, some,
}
use native.Mathlib.Nat.{add-zero}
use stream_hive.Common.Bytes.{Bytes}
use stream_hive.Std.Json.{Json}
use stream_hive.Std.Unicode.{Unicode}
use stream_hive.Errors.{Error}
use stream_hive.Lifecycle.Version.{Version, newer}
use stream_hive.Lifecycle.Records.{Limits, Record}
use stream_hive.Lifecycle.Records.Laws.{RecordJson}
use stream_hive.Lifecycle.Envelope.Laws.{length-envelope}
use stream_hive.Lifecycle.JournalFile.{
  last_version, parse_loop, parse_journal, encode_journal_header, journal_header_bytes,
}
use stream_hive.Lifecycle.JournalFile.Header.{
  IsU64Version, length-header, decode-encode_journal_header,
}
use stream_hive.Lifecycle.JournalFile.Entries.{
  AreJournalLimits, entry_bytes, IsWritable, round_stale,
}
use stream_hive.Lifecycle.JournalFile.Loop.{
  is_cut, entries_bytes, Follow, IsTorn, parse_journal_opens, parse_loop-torn, parse_loop_step,
  parse_loop_front, parse_loop_fails, length-entries_bytes,
}

module _ ⦃u : Unicode⦄ ⦃j : Json Record⦄ (l : Limits) (limits : AreJournalLimits l)
    (json : RecordJson l) where
  -- A file that holds an entry whose version is not newer than the one before it is refused
  -- whole, however many good entries stand in front of it.
  pub parse_journal_stale :
      (floor : Version) (rs : List Record) (r : Record) (rest : Bytes)
      → IsU64Version floor
      → Follow l floor rs
      → IsWritable r l
      → newer r.version (last_version floor rs) ≡ false
      → parse_journal
          (encode_journal_header floor ++ (entries_bytes rs ++ (entry_bytes r ++ rest)))
          l
        ≡ some (err Error.journal_version_order)
  parse_journal_stale floor rs r rest word f w old =
      let tail = entry_bytes r ++ rest in
      let whole = entries_bytes rs ++ tail in
      let fuel = length whole - length rs in
      parse_journal_opens (encode_journal_header floor) whole floor l (length-header floor)
        (decode-encode_journal_header floor word)
      ∙ ap (λ (n : ℕ). parse_loop n whole journal_header_bytes floor [] floor l)
          (omega
            (arith, length-entries_bytes l limits json rs, length-append (entries_bytes rs) tail))
      ∙ parse_loop_front l limits json rs fuel journal_header_bytes tail floor floor [] f
      ∙ parse_loop_fails l limits json fuel (journal_header_bytes + length (entries_bytes rs)) tail
          (last_version floor rs) floor rs Error.journal_version_order
          (omega (arith, length-append (entry_bytes r) rest, length-envelope (j.marshal r)))
          (omega (
            arith,
            length-entries_bytes l limits json rs,
            length-append (entries_bytes rs) tail,
            length-append (entry_bytes r) rest,
            length-envelope (j.marshal r),
          ))
          (round_stale l limits json r w rest (last_version floor rs) old)

  entries_room :
      (r : Record) (rs : List Record) (torn : Bytes)
      → length (entries_bytes rs ++ torn) < length (entries_bytes (r ∷ rs) ++ torn)
  entries_room r rs torn = omega (
    arith,
    length-append (entries_bytes (r ∷ rs)) torn,
    length-append (entry_bytes r) (entries_bytes rs),
    length-append (entries_bytes rs) torn,
    length-envelope (j.marshal r),
  )

  parse_loop-entries :
      (rs : List Record) (fuel offset : ℕ) (torn : Bytes) (last floor : Version)
      (before : List Record)
      → Follow l last rs
      → IsTorn l torn
      → length (entries_bytes rs ++ torn) ≤ fuel
      → parse_loop fuel (entries_bytes rs ++ torn) offset last before floor l
        ≡ some (
            ok (record {
              floor = floor;
              records = before ++ rs;
              valid_size = offset + length (entries_bytes rs);
              truncated = is_cut torn;
            }))
  parse_loop-entries [] fuel offset torn last floor before f t h =
      rw (append-nil, add-zero)
        (parse_loop-torn l limits json fuel offset torn last floor before t h)
  parse_loop-entries (r ∷ rs) zero offset torn last floor before (n, w, f) t h =
      absurd (omega (arith, entries_room r rs torn))
  parse_loop-entries (r ∷ rs) (suc fuel) offset torn last floor before (n, w, f) t h =
      rw append_assoc (
        parse_loop_step l limits json fuel offset (entries_bytes rs ++ torn) last floor before r n
          w)
      ∙ parse_loop-entries rs fuel (offset + length (entry_bytes r)) torn r.version floor
          (before ++ r ∷ []) f t (omega (arith, entries_room r rs torn))
      ∙ ap₂
          (λ (records : List Record) (size : ℕ). some (
            ok (record {
              floor = floor;
              records = records;
              valid_size = size;
              truncated = is_cut torn;
            })))
          (append_assoc before (r ∷ []) rs)
          (omega (arith, length-append (entry_bytes r) (entries_bytes rs)))

  -- `parseJournal` reads back the floor and the records of a journal file that was written whole,
  -- also when a crash left the front of one more entry behind them: the torn bytes are reported,
  -- and the valid size ends before them. (The limits are an open journal's, the records are valid
  -- and strictly ascending from the floor, and their JSON reads back.)
  pub parse_journal-entries :
      (floor : Version) (rs : List Record) (torn : Bytes)
      → IsU64Version floor
      → Follow l floor rs
      → IsTorn l torn
      → parse_journal (encode_journal_header floor ++ entries_bytes rs ++ torn) l
        ≡ some (
            ok (record {
              floor = floor;
              records = rs;
              valid_size = length (encode_journal_header floor ++ entries_bytes rs);
              truncated = is_cut torn;
            }))
  parse_journal-entries floor rs torn word f t =
      rw append_assoc (
        parse_journal_opens (encode_journal_header floor) (entries_bytes rs ++ torn) floor l
          (length-header floor) (decode-encode_journal_header floor word))
      ∙ parse_loop-entries rs (length (entries_bytes rs ++ torn)) journal_header_bytes torn floor
          floor [] f t (omega arith)
      ∙ ap
          (λ (size : ℕ). some (
            ok
              (record { floor = floor; records = rs; valid_size = size; truncated = is_cut torn })))
          (omega (
            arith,
            length-append (encode_journal_header floor) (entries_bytes rs),
            length-header floor,
          ))
