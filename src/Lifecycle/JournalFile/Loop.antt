-- ===== src/Lifecycle/JournalFile/Loop.antt =====
-- The loop of `parseJournal` over entries that were written whole, and over a torn one.
use stream_hive.Common.{
  ℕ, zero, suc, ◌+◌, ◌≤◌, ◌<◌, ◌≡◌, refl, ap, ap₂, ◌∙◌, Bool, true, false, List, [], ◌∷◌, ◌++◌, ok,
  err, arith, subst, length, take, drop, length-append, append_assoc, append-nil, take-append,
  drop-append, some,
}
use native.Mathlib.Nat.{add-zero, zero-add}
use Prim.Native.Nat.add
use stream_hive.Common.Bytes.{Bytes}
use stream_hive.Std.Json.{Json}
use stream_hive.Std.Unicode.{Unicode}
use stream_hive.Errors.{Error}
use stream_hive.Lifecycle.Version.{Version, newer}
use stream_hive.Lifecycle.Records.{Limits, Record}
use stream_hive.Lifecycle.Records.Laws.{RecordJson}
use stream_hive.Lifecycle.Envelope.Laws.{length-envelope}
use stream_hive.Lifecycle.JournalFile.{
  last_version, Round, round, parse_loop, parse_journal, decode_journal_header,
  journal_header_bytes,
}
use stream_hive.Lifecycle.JournalFile.Entries.{
  AreJournalLimits, entry_bytes, IsWritable, round_entry, round_torn,
}

abbrev pub is_cut : Bytes → Bool
is_cut [] = false
is_cut (b ∷ bs) = true

module _ ⦃u : Unicode⦄ ⦃j : Json Record⦄ where
  abbrev pub entries_bytes : List Record → Bytes
  entries_bytes [] = []
  entries_bytes (r ∷ rs) = entry_bytes r ++ entries_bytes rs

  -- strictly newer and newer records from `last` on, each fit to be written
  abbrev pub Follow : Limits → Version → List Record → Type 0
  Follow l last [] = Unit
  Follow l last (r ∷ rs) = (newer r.version last ≡ true) × IsWritable r l × Follow l r.version rs

  -- what a crash in the middle of a write leaves: the front of an entry, perhaps nothing
  abbrev pub IsTorn : Limits → Bytes → Type 0
  IsTorn l torn =
      (r : Record) × (x : ℕ) × (more : Bytes) × IsWritable r l × (torn ++ x ∷ more ≡ entry_bytes r)

module _ ⦃u : Unicode⦄ ⦃j : Json Record⦄ where
  parse_loop_entry :
      (fuel offset : ℕ) (rest : Bytes) (last floor : Version) (before : List Record) (l : Limits)
      (r : Record) (total : ℕ)
      → 0 < length rest
      → round rest last l ≡ Round.entry r total
      → parse_loop (suc fuel) rest offset last before floor l
        ≡ parse_loop fuel (drop total rest) (offset + total) r.version (before ++ r ∷ []) floor l
  unfolding parse_loop
  parse_loop_entry fuel offset [] last floor before l r total pos read = absurd (omega arith)
  parse_loop_entry fuel offset (b ∷ bs) last floor before l r total pos read = rw (read, parse_loop)

  pub parse_journal_opens :
      (header rest : Bytes) (floor : Version) (l : Limits)
      → length header ≡ journal_header_bytes
      → decode_journal_header header ≡ ok floor
      → parse_journal (header ++ rest) l
        ≡ parse_loop (length rest) rest journal_header_bytes floor [] floor l
  unfolding parse_journal
  parse_journal_opens header rest floor l long decoded =
      ground (arith, length-append header rest, front, back)
    where
      front : take journal_header_bytes (header ++ rest) ≡ header
      front = subst (λ (n : ℕ). take n (header ++ rest) ≡ header) long (take-append header rest)

      back : drop journal_header_bytes (header ++ rest) ≡ rest
      back = subst (λ (n : ℕ). drop n (header ++ rest) ≡ rest) long (drop-append header rest)

module _ ⦃u : Unicode⦄ ⦃j : Json Record⦄ (l : Limits) (limits : AreJournalLimits l)
    (json : RecordJson l) where
  pub parse_loop-torn :
      (fuel offset : ℕ) (torn : Bytes) (last floor : Version) (before : List Record)
      → IsTorn l torn
      → length torn ≤ fuel
      → parse_loop fuel torn offset last before floor l
        ≡ some (
            ok (record {
              floor = floor;
              records = before;
              valid_size = offset;
              truncated = is_cut torn;
            }))
  unfolding parse_loop
  parse_loop-torn fuel offset [] last floor before t h = refl
  parse_loop-torn zero offset (b ∷ bs) last floor before t h = absurd (omega arith)
  parse_loop-torn (suc fuel) offset (b ∷ bs) last floor before (r, x, more, w, cut) h =
      rw (round_torn l limits json r w (b ∷ bs) more x last cut, parse_loop)

  pub parse_loop_step :
      (fuel offset : ℕ) (rest : Bytes) (last floor : Version) (before : List Record) (r : Record)
      → newer r.version last ≡ true
      → IsWritable r l
      → parse_loop (suc fuel) (entry_bytes r ++ rest) offset last before floor l
        ≡ parse_loop fuel rest
            (offset + length (entry_bytes r))
            r.version
            (before ++ r ∷ [])
            floor
            l
  parse_loop_step fuel offset rest last floor before r n w =
      parse_loop_entry fuel offset (entry_bytes r ++ rest) last floor before l r
        (length (entry_bytes r))
        (omega (arith, length-append (entry_bytes r) rest, length-envelope (j.marshal r)))
        (round_entry l limits json r w rest last n)
      ∙ ap
          (λ (bs : Bytes).
            parse_loop fuel bs (offset + length (entry_bytes r)) r.version (before ++ r ∷ []) floor
              l)
          (drop-append (entry_bytes r) rest)

  -- The loop reads the whole entries that stand in front and goes on behind them.
  pub parse_loop_front :
      (rs : List Record) (fuel offset : ℕ) (rest : Bytes) (last floor : Version)
      (before : List Record)
      → Follow l last rs
      → parse_loop (length rs + fuel) (entries_bytes rs ++ rest) offset last before floor l
        ≡ parse_loop fuel rest
            (offset + length (entries_bytes rs))
            (last_version last rs)
            (before ++ rs)
            floor
            l
  unfolding last_version
  parse_loop_front [] fuel offset rest last floor before f =
      rw (append-nil, add-zero, zero-add) refl
  parse_loop_front (r ∷ rs) fuel offset rest last floor before (n, w, f) =
      rw (append_assoc, add.suc)
        (parse_loop_step (length rs + fuel) offset (entries_bytes rs ++ rest) last floor before r n
          w)
      ∙ parse_loop_front rs fuel (offset + length (entry_bytes r)) rest r.version floor
          (before ++ r ∷ []) f
      ∙ ap₂
          (λ (records : List Record) (size : ℕ).
            parse_loop fuel rest size (last_version r.version rs) records floor l)
          (append_assoc before (r ∷ []) rs)
          (omega (arith, length-append (entry_bytes r) (entries_bytes rs)))

  pub parse_loop_fails :
      (fuel offset : ℕ) (rest : Bytes) (last floor : Version) (before : List Record) (e : Error)
      → 0 < length rest
      → 0 < fuel
      → round rest last l ≡ Round.fail e
      → parse_loop fuel rest offset last before floor l ≡ some (err e)
  unfolding parse_loop
  parse_loop_fails fuel offset [] last floor before e pos more failed = absurd (omega arith)
  parse_loop_fails zero offset (b ∷ bs) last floor before e pos more failed = absurd (omega arith)
  parse_loop_fails (suc fuel) offset (b ∷ bs) last floor before e pos more failed =
      rw (failed, parse_loop)

  pub length-entries_bytes : (rs : List Record) → length rs ≤ length (entries_bytes rs)
  length-entries_bytes [] = omega arith
  length-entries_bytes (r ∷ rs) = omega (
    arith,
    length-entries_bytes rs,
    length-append (entry_bytes r) (entries_bytes rs),
    length-envelope (j.marshal r),
  )
