-- ===== src/Lifecycle/JournalFile/Entries.antt =====
-- One round of `parseJournal` on an entry that was written whole, and on one that was cut.
use stream_hive.Common.{
  ℕ, ◌^◌, ◌≤◌, ◌<◌, ◌≡◌, sym, ap, ◌∙◌, true, false, ◌∷◌, ◌++◌, ok, arith, subst, length, take,
  length-append,
}
use stream_hive.Common.Bytes.{Bytes, uint32, uint32-front, uint32-take}
use stream_hive.Std.Json.{Json}
use stream_hive.Std.Unicode.{Unicode}
use stream_hive.Errors.{Error}
use stream_hive.Lifecycle.Version.{Version, newer}
use stream_hive.Lifecycle.Records.{Limits, normalized, Record, validate}
use stream_hive.Lifecycle.Records.Laws.{InRange, RecordJson, validate_iff}
use stream_hive.Lifecycle.Envelope.{envelope}
use stream_hive.Lifecycle.Envelope.Laws.{
  length-envelope, uint32-envelope, envelope_size, envelope_payload, envelope-checksum,
}
use stream_hive.Lifecycle.JournalFile.{Round, round, read_payload}

-- the limits of an open journal: normalized, and with records that fit the length field
pub record AreJournalLimits (l : Limits) : Type 0 where
  pub normal : normalized l ≡ l
  pub record_fits : l.max_record_bytes < 2 ^ 32

module _ ⦃u : Unicode⦄ ⦃j : Json Record⦄ where
  -- the bytes that `Append` and `rewriteLocked` write for a record
  abbrev pub entry_bytes : Record → Bytes
  entry_bytes r = envelope (j.marshal r)

  abbrev pub IsWritable : Record → Limits → Type 0
  IsWritable r l = (validate r l ≡ ok tt) × InRange r

module _ ⦃u : Unicode⦄ ⦃j : Json Record⦄ (l : Limits) (limits : AreJournalLimits l)
    (json : RecordJson l) (r : Record) (writable : IsWritable r l) where
  pub entry_le : length (j.marshal r) ≤ l.max_record_bytes
  entry_le =
      subst (λ m. length (j.marshal r) ≤ m.max_record_bytes) limits.normal
        ((validate_iff r l).0 writable.0).encoded_le

  -- An entry that stands whole at the offset is read as its record.
  pub round_entry :
      (rest : Bytes) (last : Version)
      → newer r.version last ≡ true
      → round (entry_bytes r ++ rest) last l ≡ Round.entry r (length (entry_bytes r))
  unfolding round read_payload
  round_entry rest last newest =
      let small : length (j.marshal r) < 2 ^ 32 = omega (arith, entry_le, limits.record_fits) in
      ground (
        arith,
        entry_le,
        json.not_empty r,
        json.reads_back r writable,
        envelope_size (j.marshal r) rest small,
        envelope_payload (j.marshal r) rest small,
        envelope-checksum (j.marshal r) rest small,
        length-envelope (j.marshal r),
        length-append (entry_bytes r) rest,
      )

  -- An entry whose version is not newer than the last one is refused.
  pub round_stale :
      (rest : Bytes) (last : Version)
      → newer r.version last ≡ false
      → round (entry_bytes r ++ rest) last l ≡ Round.fail Error.journal_version_order
  unfolding round read_payload
  round_stale rest last old =
      let small : length (j.marshal r) < 2 ^ 32 = omega (arith, entry_le, limits.record_fits) in
      ground (
        arith,
        entry_le,
        json.not_empty r,
        json.reads_back r writable,
        envelope_size (j.marshal r) rest small,
        envelope_payload (j.marshal r) rest small,
        envelope-checksum (j.marshal r) rest small,
        length-envelope (j.marshal r),
        length-append (entry_bytes r) rest,
      )

  torn_size :
      (torn more : Bytes) (x : ℕ)
      → torn ++ x ∷ more ≡ entry_bytes r
      → 4 ≤ length torn
      → uint32 (take 4 torn) ≡ length (j.marshal r)
  torn_size torn more x cut long =
      uint32-take torn long
      ∙ sym (uint32-front torn (x ∷ more) long)
      ∙ ap uint32 cut
      ∙ uint32-envelope (j.marshal r) (omega (arith, entry_le, limits.record_fits))

  -- An entry of which the last bytes are missing is a torn tail.
  pub round_torn :
      (torn more : Bytes) (x : ℕ) (last : Version)
      → torn ++ x ∷ more ≡ entry_bytes r
      → round torn last l ≡ Round.torn
  unfolding round read_payload
  round_torn torn more x last cut = ground (
    arith,
    entry_le,
    json.not_empty r,
    torn_size torn more x cut,
    ap length cut,
    length-append torn (x ∷ more),
    length-envelope (j.marshal r),
  )
