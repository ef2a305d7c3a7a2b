-- ===== src/Lifecycle/JournalFile/Soundness.antt =====
-- `parseJournal` on any bytes: it ends, and what it accepts is a valid, strictly ascending log.
use stream_hive.Common.{
  ℕ, zero, suc, ◌+◌, ◌≤◌, ◌<◌, ◌≡◌, ◌≢◌, refl, sym, ◌∙◌, true, false, List, [], ◌∷◌, ◌++◌, ok,
  arith, subst, length, take, drop, append_assoc, append-nil, length-drop, some, none, Result-cases,
  inl, inr, ◌⊎◌, Option-cases, Bool-cases,
}
use stream_hive.Common.Bytes.{Bytes, uint32}
use stream_hive.Std.Json.{Json}
use stream_hive.Std.Unicode.{Unicode}
use stream_hive.Errors.{Error}
use stream_hive.Lifecycle.Version.{Version, newer}
use stream_hive.Lifecycle.Records.{Limits, Record, validate}
use stream_hive.Lifecycle.JournalFile.{
  Parsed, Round, round, read_payload, parse_loop, parse_journal, decode_journal_header,
  journal_header_bytes,
}

Round-cases :
    (r : Round)
    → (r ≡ Round.torn)
      ⊎ ((e : Error) × (r ≡ Round.fail e))
      ⊎ ((s : Record) × (n : ℕ) × (r ≡ Round.entry s n))
Round-cases Round.torn = inl refl
Round-cases (Round.fail e) = inr (inl (e, refl))
Round-cases (Round.entry s n) = inr (inr (s, n, refl))

module _ ⦃u : Unicode⦄ ⦃j : Json Record⦄ where
  -- valid records, each strictly newer than the one before, the first newer than `last`
  abbrev pub IsLog : Limits → Version → List Record → Type 0
  IsLog l last [] = Unit
  IsLog l last (r ∷ rs) =
      (newer r.version last ≡ true) × (validate r l ≡ ok tt) × IsLog l r.version rs

  read_payload_entry :
      (payload : Bytes) (total : ℕ) (last : Version) (l : Limits) (r : Record) (n : ℕ)
      → read_payload payload total last l ≡ Round.entry r n
      → (newer r.version last ≡ true) × (validate r l ≡ ok tt) × (n ≡ total)
  unfolding read_payload
  read_payload_entry payload total last l r n h = elim (Option-cases (j.unmarshal payload)) [
    | inl e ↦ absurd (ground arith)
    | inr (s, e) ↦ elim (Result-cases (validate s l)) [
      | inl (a, v) ↦ ground arith
      | inr (x, v) ↦ absurd (ground arith)
    ]
  ]

  round_reads :
      (rest : Bytes) (last : Version) (l : Limits) (r : Record) (n : ℕ)
      → round rest last l ≡ Round.entry r n
      → (newer r.version last ≡ true) × (validate r l ≡ ok tt) × (0 < n) × (n ≤ length rest)
  unfolding round
  round_reads rest last l r n h =
      let size = uint32 (take 4 rest) in
      ground (arith, read_payload_entry (take size (drop 4 rest)) (4 + size + 4) last l r n)

  parse_loop-ne-none :
      (fuel : ℕ) (rest : Bytes) (offset : ℕ) (last : Version) (before : List Record)
      (floor : Version) (l : Limits)
      → length rest ≤ fuel
      → parse_loop fuel rest offset last before floor l ≢ none
  unfolding parse_loop
  parse_loop-ne-none fuel [] offset last before floor l h = λ e. cc
  parse_loop-ne-none zero (b ∷ bs) offset last before floor l h = absurd (omega arith)
  parse_loop-ne-none (suc fuel) (b ∷ bs) offset last before floor l h =
      elim (Round-cases (round (b ∷ bs) last l)) [
        | inl e ↦ rw (e, parse_loop) (λ p. cc)
        | inr (inl (x, e)) ↦ rw (e, parse_loop) (λ p. cc)
        | inr (inr (r, n, e)) ↦
            rw (e, parse_loop)
              (parse_loop-ne-none fuel (drop n (b ∷ bs)) (offset + n) r.version (before ++ r ∷ [])
                floor l (omega (arith, round_reads (b ∷ bs) last l r n e, length-drop n (b ∷ bs))))
      ]

  -- `parseJournal` ends on every input: its loop never runs out of fuel.
  pub parse_journal-ne-none : (bytes : Bytes) (l : Limits) → parse_journal bytes l ≢ none
  unfolding parse_journal
  parse_journal-ne-none bytes l =
      let rest = drop journal_header_bytes bytes in
      elim (Result-cases (decode_journal_header (take journal_header_bytes bytes))) [
        | inr (e, h) ↦ ground arith
        | inl (floor, h) ↦ ground (
          arith,
          parse_loop-ne-none (length rest) rest journal_header_bytes floor [] floor l le_self,
        )
      ]
    where
      le_self : length (drop journal_header_bytes bytes) ≤ length (drop journal_header_bytes bytes)
      le_self = omega arith

  -- what the loop may return, when it stands at `offset` before `rest`
  abbrev IsSound : Limits → Version → ℕ → Bytes → List Record → Version → Parsed → Type 0
  IsSound l last offset rest before floor p =
      (p.floor ≡ floor)
      × ((more : List Record) × (p.records ≡ before ++ more) × IsLog l last more)
      × (offset ≤ p.valid_size)
      × (p.valid_size ≤ offset + length rest)
      × (p.truncated ≡ false → p.valid_size ≡ offset + length rest)

  parse_loop-IsSound :
      (fuel : ℕ) (rest : Bytes) (offset : ℕ) (last : Version) (before : List Record)
      (floor : Version) (l : Limits) (p : Parsed)
      → parse_loop fuel rest offset last before floor l ≡ some (ok p)
      → IsSound l last offset rest before floor p
  unfolding parse_loop
  parse_loop-IsSound fuel [] offset last before floor l p h = (
    ground arith,
    ([], ground (arith, append-nil before), tt),
    ground arith,
    ground arith,
    λ t. ground arith,
  )
  parse_loop-IsSound zero (b ∷ bs) offset last before floor l p h = absurd (cc)
  parse_loop-IsSound (suc fuel) (b ∷ bs) offset last before floor l p h =
      elim (Round-cases (round (b ∷ bs) last l)) [
        | inl e ↦
            let stop = rw (e, parse_loop) at h in
            (
              ground (arith, stop),
              ([], ground (arith, stop, append-nil before), tt),
              ground (arith, stop),
              ground (arith, stop),
              λ t. ground (arith, stop),
            )
        | inr (inl (x, e)) ↦ let stop = rw (e, parse_loop) at h in absurd (cc stop)
        | inr (inr (r, n, e)) ↦
            let (newest, valid, pos, fits) = round_reads (b ∷ bs) last l r n e in
            let (f, (more, q, log), lo, hi, whole) =
              parse_loop-IsSound fuel (drop n (b ∷ bs)) (offset + n) r.version (before ++ r ∷ [])
                floor l p (rw (e, parse_loop) at h) in
            let left = length-drop n (b ∷ bs) in
            (
              f,
              (r ∷ more, q ∙ append_assoc before (r ∷ []) more, (newest, valid, log)),
              omega arith,
              omega (arith, left),
              λ t. omega (arith, left, whole t),
            )
      ]

  -- A journal that `parseJournal` accepts holds valid records, each strictly newer than the one
  -- before it and the first newer than the floor; the valid size lies within the file behind the
  -- header, and is the whole file unless a torn tail is reported.
  pub parse_journal_sound :
      (bytes : Bytes) (l : Limits) (p : Parsed)
      → parse_journal bytes l ≡ some (ok p)
      → IsLog l p.floor p.records
        × (journal_header_bytes ≤ p.valid_size)
        × (p.valid_size ≤ length bytes)
        × ((p.truncated ≡ true) ⊎ (p.valid_size ≡ length bytes))
  unfolding parse_journal
  parse_journal_sound bytes l p h =
      let rest = drop journal_header_bytes bytes in
      let left = length-drop journal_header_bytes bytes in
      elim (Result-cases (decode_journal_header (take journal_header_bytes bytes))) [
        | inr (e, bad) ↦ absurd (ground arith)
        | inl (floor, good) ↦
            let (f, (more, q, log), lo, hi, whole) =
              parse_loop-IsSound (length rest) rest journal_header_bytes floor [] floor l p
                (ground arith) in
            (
              subst (λ (rs : List Record). IsLog l p.floor rs) (sym q)
                  (subst (λ (v : Version). IsLog l v more) (sym f) log),
              lo,
              ground (arith, left),
              elim (Bool-cases p.truncated) [
                | inl cut ↦ inl cut
                | inr t ↦ inr (ground (arith, left, whole t))
              ],
            )
      ]
