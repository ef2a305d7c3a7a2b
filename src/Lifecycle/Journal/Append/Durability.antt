-- ===== src/Lifecycle/Journal/Append/Durability.antt =====
-- A successful `Append` is on disk: journal and file go on to agree.
use stream_hive.Common.{
  ◌+◌, ◌≤◌, ◌<◌, ◌≡◌, refl, sym, ap, ◌∙◌, subst, true, false, List, [], ◌∷◌, ◌++◌, ok, arith,
  length, length-append, append_assoc, append-nil, Result-cases, inl, inr,
}
use stream_hive.Common.Bytes.{Bytes}
use stream_hive.Std.Json.{Json}
use stream_hive.Std.Unicode.{Unicode}
use stream_hive.Context.{Ctx}
use stream_hive.Lifecycle.Version.{Version, newer}
use stream_hive.Lifecycle.Records.{Record, Limits, validate}
use stream_hive.Lifecycle.Records.Laws.{InRange}
use stream_hive.Lifecycle.Envelope.Laws.{encode_envelope_iff}
use stream_hive.Lifecycle.JournalFile.{last_version, encode_journal_header}
use stream_hive.Lifecycle.JournalFile.Header.{IsU64Version}
use stream_hive.Lifecycle.JournalFile.Entries.{AreJournalLimits, entry_bytes, IsWritable}
use stream_hive.Lifecycle.JournalFile.Loop.{entries_bytes, Follow}
use stream_hive.Lifecycle.Journal.Files.{Journal, Handle, on_path, Disk, ensure_open}
use stream_hive.Lifecycle.Journal.Append.{AppendIo, append_to, publish, append_checks, append}

module _ ⦃u : Unicode⦄ ⦃json : Json Record⦄ where
  -- The journal and its file agree: the file is the header of the floor and the entries of the
  -- records, which strictly ascend from the floor.
  pub record IsConsistent (j : Journal) (d : Disk) : Type 0 where
    pub handle : j.file ≡ on_path
    pub not_closed : j.closed ≡ false
    pub limits : AreJournalLimits j.limits
    pub floor_word : IsU64Version j.floor
    pub follow : Follow j.limits j.floor j.records
    pub last : j.last ≡ last_version j.floor j.records
    pub content : d.journal ≡ encode_journal_header j.floor ++ entries_bytes j.records
    pub size : j.size ≡ length d.journal
    pub size_le : j.size ≤ j.max_bytes
    pub entries_le : length j.records ≤ j.max_entries

  pub last_version-append :
      (v : Version) (rs : List Record) (r : Record) → last_version v (rs ++ r ∷ []) ≡ r.version
  unfolding last_version
  last_version-append v [] r = refl
  last_version-append v (s ∷ rs) r = last_version-append s.version rs r

  pub Follow-append :
      (l : Limits) (v : Version) (rs : List Record) (r : Record)
      → Follow l v rs
      → newer r.version (last_version v rs) ≡ true
      → IsWritable r l
      → Follow l v (rs ++ r ∷ [])
  unfolding last_version
  Follow-append l v [] r f n w = (n, w, tt)
  Follow-append l v (s ∷ rs) r (m, x, f) n w = (m, x, Follow-append l s.version rs r f n w)

  pub entries_bytes-append :
      (rs : List Record) (r : Record)
      → entries_bytes (rs ++ r ∷ []) ≡ entries_bytes rs ++ entry_bytes r
  entries_bytes-append [] r = append-nil (entry_bytes r)
  entries_bytes-append (s ∷ rs) r =
      ap (λ (bs : Bytes). entry_bytes s ++ bs) (entries_bytes-append rs r)
      ∙ sym (append_assoc (entry_bytes s) (entries_bytes rs) (entry_bytes r))

  -- what the checks of `Append` have established when it writes
  pub append_checks_ok :
      (ctx : Ctx) (io : AppendIo) (r : Record) (j : Journal) (entry : Bytes)
      → append_checks ctx io r j ≡ ok entry
      → (validate r j.limits ≡ ok tt)
        × (entry ≡ entry_bytes r)
        × (newer r.version j.last ≡ true)
        × (length j.records < j.max_entries)
        × (j.size + length entry ≤ j.max_bytes)
        × (ensure_open j ≡ ok tt)
  unfolding append_checks
  append_checks_ok ctx io r j entry h = ground (arith, encode_envelope_iff (json.marshal r) entry)

  -- a successful `Append` wrote and synced the whole entry
  pub append_done :
      (ctx : Ctx) (io : AppendIo) (r : Record) (j : Journal) (d : Disk)
      → (append ctx io r j d).0 ≡ ok tt
      → (append_checks ctx io r j ≡ ok (entry_bytes r))
        × (append ctx io r j d
            ≡ (ok tt, publish r (entry_bytes r) j, append_to j.file (entry_bytes r) d))
  unfolding append
  append_done ctx io r j d done = elim (Result-cases (append_checks ctx io r j)) [
    | inr (e, h) ↦ absurd (ground arith)
    | inl (entry, h) ↦ ground (arith, append_checks_ok ctx io r j entry h)
  ]

  publish-IsConsistent :
      (r : Record) (j : Journal) (d : Disk)
      → IsConsistent j d
      → IsWritable r j.limits
      → newer r.version j.last ≡ true
      → length j.records < j.max_entries
      → j.size + length (entry_bytes r) ≤ j.max_bytes
      → IsConsistent
          (publish r (entry_bytes r) j)
          (record d { journal = d.journal ++ entry_bytes r })
  unfolding publish
  publish-IsConsistent r j d c w n room fits = record {
    handle = c.handle;
    not_closed = c.not_closed;
    limits = c.limits;
    floor_word = c.floor_word;
    follow =
        Follow-append j.limits j.floor j.records r c.follow
          (subst (λ (v : Version). newer r.version v ≡ true) c.last n) w;
    last = sym (last_version-append j.floor j.records r);
    content =
        ap (λ (bs : Bytes). bs ++ entry_bytes r) c.content
        ∙ append_assoc (encode_journal_header j.floor) (entries_bytes j.records) (entry_bytes r)
        ∙ ap (λ (bs : Bytes). encode_journal_header j.floor ++ bs)
            (sym (entries_bytes-append j.records r));
    size = omega (arith, c.size, length-append d.journal (entry_bytes r));
    size_le = fits;
    entries_le = omega (arith, length-append j.records (r ∷ []));
  }

  pub append_on_path :
      (j : Journal) (bytes : Bytes) (d : Disk)
      → j.file ≡ on_path
      → append_to j.file bytes d ≡ record d { journal = d.journal ++ bytes }
  unfolding append_to
  append_on_path j bytes d h = ap (λ (f : Handle). append_to f bytes d) h

  -- A successful `Append` adds the record to the journal and its entry to the file, and journal
  -- and file go on to agree.
  pub append-IsConsistent :
      (ctx : Ctx) (io : AppendIo) (r : Record) (j : Journal) (d : Disk)
      → IsConsistent j d
      → InRange r
      → (append ctx io r j d).0 ≡ ok tt
      → IsConsistent (append ctx io r j d).1 (append ctx io r j d).2
        × ((append ctx io r j d).1.records ≡ j.records ++ r ∷ [])
        × ((append ctx io r j d).2.journal ≡ d.journal ++ entry_bytes r)
  append-IsConsistent ctx io r j d c range done =
      let (checked, shape) = append_done ctx io r j d done in
      let (valid, same, n, room, fits, _) = append_checks_ok ctx io r j (entry_bytes r) checked in
      rw (shape, append_on_path j (entry_bytes r) d c.handle)
        (unfold publish in (publish-IsConsistent r j d c (valid, range) n room fits, refl, refl))
