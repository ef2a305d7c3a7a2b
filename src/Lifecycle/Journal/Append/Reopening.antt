-- ===== src/Lifecycle/Journal/Append/Reopening.antt =====
-- `OpenJournal` on the file of a journal that agrees with it, and on one with torn bytes behind.
use stream_hive.Common.{
  ℕ, ◌+◌, ◌≤◌, ◌<◌, ◌≡◌, sym, ap, subst, Bool, true, false, [], ◌∷◌, ◌++◌, ok, err, arith, length,
  take, length-append, append-nil, take-append,
}
use stream_hive.Common.Bytes.{Bytes}
use stream_hive.Std.Json.{Json}
use stream_hive.Std.Unicode.{Unicode}
use stream_hive.Errors.{Error}
use stream_hive.Lifecycle.Records.{Record}
use stream_hive.Lifecycle.Records.Laws.{RecordJson}
use stream_hive.Lifecycle.JournalFile.{encode_journal_header}
use stream_hive.Lifecycle.JournalFile.Header.{length-header}
use stream_hive.Lifecycle.JournalFile.Recovery.{parse_journal-entries}
use stream_hive.Lifecycle.JournalFile.Loop.{entries_bytes, IsTorn, is_cut}
use stream_hive.Lifecycle.Journal.Files.{Journal, Disk}
use stream_hive.Lifecycle.Journal.Open.{
  JournalOptions, options_normalized, Recovery, open_fine, opened, parse, open_old, open_checks,
  open_journal,
}
use stream_hive.Lifecycle.Journal.Append.Durability.{IsConsistent}

module _ ⦃u : Unicode⦄ ⦃json : Json Record⦄ where
  parse_consistent :
      (j : Journal) (d : Disk) (torn : Bytes)
      → IsConsistent j d
      → RecordJson j.limits
      → IsTorn j.limits torn
      → parse (d.journal ++ torn) j.limits
        ≡ ok (record {
          floor = j.floor;
          records = j.records;
          valid_size = j.size;
          truncated = is_cut torn;
        })
  unfolding parse
  parse_consistent j d torn c laws t = ground (
    arith,
    whole,
    parse_journal-entries j.limits c.limits laws j.floor j.records torn c.floor_word c.follow t,
    c.size,
    ap length c.content,
  )
    where
      whole : d.journal ++ torn ≡ encode_journal_header j.floor ++ entries_bytes j.records ++ torn
      whole = ap (λ (bs : Bytes). bs ++ torn) c.content

  -- the options under which a journal is opened again
  pub record Reopens (path : Bytes) (options : JournalOptions) (j : Journal) : Type 0 where
    pub path_same : path ≡ j.path
    pub path_set : 0 < length path
    pub options_same :
        options_normalized options
        ≡ ok (record {
          limits = j.limits;
          max_journal_bytes = j.max_bytes;
          max_journal_entries = j.max_entries;
        })

  -- the recovery that `OpenJournal` reports of the journal `j`
  abbrev pub recovery_of : Bool → Journal → Recovery
  recovery_of cut j = record {
    truncated_tail = cut;
    floor = j.floor;
    last_version = j.last;
    entries = length j.records;
  }

  abbrev options_of : Journal → JournalOptions
  options_of j = record {
    limits = j.limits;
    max_journal_bytes = j.max_bytes;
    max_journal_entries = j.max_entries;
  }

  open_checks_pass :
      (path : Bytes) (options : JournalOptions) (j : Journal) (content : Bytes)
      → Reopens path options j
      → length content ≤ j.max_bytes
      → open_checks path options open_fine content ≡ ok (options_of j)
  unfolding open_checks
  open_checks_pass path options j content o fits = ground (arith, o.options_same)

  -- a file that does not parse is refused with the parser's error, and left as it is
  pub open_journal_refuses :
      (path : Bytes) (options : JournalOptions) (j : Journal) (content : Bytes) (e : Error)
      → Reopens path options j
      → length content ≤ j.max_bytes
      → 0 < length content
      → parse content j.limits ≡ err e
      → open_journal path options open_fine content ≡ (err e, content)
  unfolding open_journal open_old
  open_journal_refuses path options j content e o fits pos bad =
      ground (arith, open_checks_pass path options j content o fits)

  -- what is built from the parsed floor, records and size of a journal is that journal
  opened_same :
      (path : Bytes) (options : JournalOptions) (j : Journal) (d : Disk) (cut : Bool)
      → IsConsistent j d
      → Reopens path options j
      → opened path
          (options_of j)
          (record { floor = j.floor; records = j.records; valid_size = j.size; truncated = cut })
          open_fine
        ≡ ok (j, recovery_of cut j)
  unfolding opened
  opened_same path options j d cut c o = ground arith

  open_old_same :
      (path : Bytes) (options : JournalOptions) (j : Journal) (d : Disk) (torn : Bytes)
      → IsConsistent j d
      → RecordJson j.limits
      → Reopens path options j
      → IsTorn j.limits torn
      → open_old path (options_of j) open_fine (d.journal ++ torn)
        ≡ (ok (j, recovery_of (is_cut torn) j), d.journal)
  unfolding open_old
  open_old_same path options j d [] c laws o t = ground (
    arith,
    append-nil d.journal,
    parse_consistent j d [] c laws t,
    opened_same path options j d false c o,
  )
  open_old_same path options j d (b ∷ bs) c laws o t = ground (
    arith,
    parse_consistent j d (b ∷ bs) c laws t,
    opened_same path options j d true c o,
    subst (λ (n : ℕ). take n (d.journal ++ b ∷ bs) ≡ d.journal) (sym c.size)
        (take-append d.journal (b ∷ bs)),
  )

  -- `OpenJournal` reads the file of a journal that agrees with it back as the same journal. If a
  -- crash left the front of one more entry behind it, the torn bytes are cut off the file, and
  -- that is reported, provided that the file with them is within the byte limit.
  pub open_journal-torn :
      (path : Bytes) (options : JournalOptions) (j : Journal) (d : Disk) (torn : Bytes)
      → IsConsistent j d
      → RecordJson j.limits
      → Reopens path options j
      → IsTorn j.limits torn
      → j.size + length torn ≤ j.max_bytes
      → open_journal path options open_fine (d.journal ++ torn)
        ≡ (ok (j, recovery_of (is_cut torn) j), d.journal)
  unfolding open_journal
  open_journal-torn path options j d torn c laws o t fits = ground (
    arith,
    length-append d.journal torn,
    open_checks_pass path options j (d.journal ++ torn) o,
    open_old_same path options j d torn c laws o t,
    length-header j.floor,
    ap length c.content,
    length-append (encode_journal_header j.floor) (entries_bytes j.records),
  )
