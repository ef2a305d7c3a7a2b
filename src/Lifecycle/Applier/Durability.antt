-- ===== src/Lifecycle/Applier/Durability.antt =====
-- A record that an applier applied survives a restart, and its blob was verified.
use stream_hive.Common.{
  ◌≡◌, refl, ◌⊎◌, inl, inr, true, Option, none, some, List, [], ◌∷◌, ◌++◌, ok, arith, length,
  Bool-cases, Result-cases, append-nil, subst, false,
}
use stream_hive.Common.Bytes.{Bytes}
use stream_hive.Std.Json.{Json}
use stream_hive.Std.Unicode.{Unicode}
use stream_hive.Std.Sha256.{Sha256}
use stream_hive.Context.{Ctx, background}
use stream_hive.Storage.Blobs.{BlobStore}
use stream_hive.Storage.Hash.{verify_sha256_key_iff}
use stream_hive.Lifecycle.Records.{Record, present, same_state}
use stream_hive.Lifecycle.Records.Laws.{InRange, RecordJson}
use stream_hive.Lifecycle.Store.{Store, ApplyResult, applied}
use stream_hive.Lifecycle.Journal.Files.{Journal, Disk}
use stream_hive.Lifecycle.Journal.Open.{JournalOptions, open_fine, open_journal}
use stream_hive.Lifecycle.Journal.Append.{publish, append, replay_loop}
use stream_hive.Lifecycle.Journal.Append.Durability.{
  IsConsistent, append_done, append_checks_ok, append-IsConsistent,
}
use stream_hive.Lifecycle.Envelope.Laws.{length-envelope}
use stream_hive.Lifecycle.JournalFile.Entries.{entry_bytes}
use stream_hive.Lifecycle.JournalFile.Loop.{IsTorn}
use stream_hive.Lifecycle.Journal.Append.Failures.{IsTorn-take}
use stream_hive.Lifecycle.Journal.Append.Reopening.{Reopens, recovery_of, open_journal-torn}
use stream_hive.Lifecycle.Applier.{
  Applier, ApplyIo, blob_checks, ensure_blob, ensure_present, applier_apply,
}
use stream_hive.Lifecycle.Applier.Recovery.{
  replay_apply, Replays, commit-cases, committed, applier_apply-cases, applier_apply-Replays,
}

module _ ⦃u : Unicode⦄ ⦃json : Json Record⦄ where
  -- a journal that an append left is read back
  append-open_journal :
      (io : ApplyIo) (r : Record) (j : Journal) (d : Disk) (path : Bytes) (options : JournalOptions)
      → IsConsistent j d
      → InRange r
      → RecordJson j.limits
      → Reopens path options j
      → (append io.journal io.append r j d).0 ≡ ok tt
      → open_journal path options open_fine (append io.journal io.append r j d).2.journal ≡ (
        ok (
          (append io.journal io.append r j d).1,
          recovery_of false (append io.journal io.append r j d).1,
        ),
        (append io.journal io.append r j d).2.journal,
      )
  append-open_journal io r j d path options c range laws reopens done =
      let after = append io.journal io.append r j d in
      let (checked, shape) = append_done io.journal io.append r j d done in
      let (consistent, _, _) = append-IsConsistent io.journal io.append r j d c range done in
      let (valid, _, _, _, _, _) =
        append_checks_ok io.journal io.append r j (entry_bytes r) checked in
      let laws' : RecordJson after.1.limits = rw shape (unfold publish in laws) in
      let reopens' : Reopens path options after.1 = rw shape (
        unfold publish in
        record {
          path_same = reopens.path_same;
          path_set = reopens.path_set;
          options_same = reopens.options_same;
        }) in
      let torn : IsTorn after.1.limits [] = rw shape (
        unfold publish in
        IsTorn-take r j.limits 0 (valid, range)
          (omega (arith, length-envelope (json.marshal r)))) in
      subst
        (λ (content : Bytes).
          open_journal path options open_fine content
          ≡ (ok (after.1, recovery_of false after.1), after.2.journal))
        (append-nil after.2.journal)
        (open_journal-torn path options after.1 after.2 [] consistent laws' reopens' torn
          (omega (arith, consistent.size_le)))

module _ {S : Type 0} ⦃blob : BlobStore S⦄ ⦃sha : Sha256⦄ where
  -- data with the digest `key` is at hand: it was supplied and stored, or the store gave it
  abbrev pub IsBacked : Ctx → Ctx → Bytes → Option Bytes → Option S → Type 0
  IsBacked get put key supplied blobs =
      (s : S) × (found : Bytes) × (blobs ≡ some s)
      × (sha.sum found ≡ key)
      × (length key ≡ 32)
      × (((supplied ≡ none) × (blob.get get key s ≡ ok found))
          ⊎ ((supplied ≡ some found) × ((blob.put put key found s).0 ≡ ok tt)))

  blob_checks_ok :
      (get : Ctx) (key : Bytes) (supplied : Option Bytes) (s : S) (found : Bytes)
      → blob_checks get key supplied s ≡ ok found
      → (sha.sum found ≡ key)
        × (length key ≡ 32)
        × (((supplied ≡ none) × (blob.get get key s ≡ ok found)) ⊎ (supplied ≡ some found))
  unfolding blob_checks
  blob_checks_ok get key none s found h = ground (arith, verify_sha256_key_iff key found)
  blob_checks_ok get key (some bs) s found h = ground (arith, verify_sha256_key_iff key bs)

  -- `ensureBlob` succeeds only for verified data.
  pub ensure_blob-IsBacked :
      (get put : Ctx) (key : Bytes) (supplied : Option Bytes) (blobs : Option S)
      → (ensure_blob get put key supplied blobs).0 ≡ ok tt
      → IsBacked get put key supplied blobs
  unfolding ensure_blob
  ensure_blob-IsBacked get put key supplied none h = ground arith
  ensure_blob-IsBacked get put key supplied (some s) h =
      elim (Result-cases (blob_checks get key supplied s)) [
        | inr (e, bad) ↦ absurd (ground arith)
        | inl (found, good) ↦
            let (digest, long, source) = blob_checks_ok get key supplied s found good in
            (s, found, refl, digest, long, ground arith)
      ]

  pub ensure_present-IsBacked :
      (get put : Ctx) (r : Record) (supplied : Option Bytes) (blobs : Option S)
      → (ensure_present get put r supplied blobs).0 ≡ ok tt
      → same_state r.state present ≡ true
      → IsBacked get put r.blob_key supplied blobs
  unfolding ensure_present
  ensure_present-IsBacked get put r supplied blobs h p =
      ensure_blob-IsBacked get put r.blob_key supplied blobs (ground arith)

module _ {S : Type 0} ⦃blob : BlobStore S⦄ ⦃sha : Sha256⦄ ⦃u : Unicode⦄ ⦃json : Json Record⦄ where
  -- all three steps of a commit have succeeded
  applied-committed :
      (io : ApplyIo) (capabilities : List Bytes) (r : Record) (supplied : Option Bytes)
      (a : Applier S) (d : Disk) (result : ApplyResult)
      → (applier_apply io capabilities r supplied a d).0 ≡ ok result
      → result.outcome ≡ applied
      → ((ensure_present io.get io.put r supplied a.blobs).0 ≡ ok tt)
        × ((append io.journal io.append r a.journal d).0 ≡ ok tt)
        × ((applier_apply io capabilities r supplied a d).1 ≡ (committed io r supplied a d).0)
        × ((applier_apply io capabilities r supplied a d).2 ≡ (committed io r supplied a d).1)
  applied-committed io capabilities r supplied a d result h fresh =
      elim (applier_apply-cases io capabilities r supplied a d) [
        | inl (_, _, idle) ↦ absurd (idle result h fresh)
        | inr (found, classified, _, _, shape) ↦ elim (commit-cases io r supplied a d) [
          | inl (e, failed, _, _) ↦ absurd (ground arith)
          | inr (good, done, whole) ↦ (good, done, ground arith, ground arith)
        ]
      ]

  -- An `Apply` that reports the outcome applied, on a journal that agrees with its file: after a
  -- restart, `OpenJournal` reads back the applier's journal, which ends in the record, and
  -- replaying it on the base gives the published state; for a present record, data with the digest
  -- that it names was supplied and stored, or was in the blob store.
  pub applier_apply_restart :
      (io : ApplyIo) (capabilities : List Bytes) (r : Record) (supplied : Option Bytes)
      (a : Applier S) (d : Disk) (base : Store) (result : ApplyResult) (path : Bytes)
      (options : JournalOptions)
      → IsConsistent a.journal d
      → InRange r
      → RecordJson a.journal.limits
      → Reopens path options a.journal
      → Replays base a
      → (applier_apply io capabilities r supplied a d).0 ≡ ok result
      → result.outcome ≡ applied
      → let after = applier_apply io capabilities r supplied a d in
        (open_journal path options open_fine after.2.journal
          ≡ (ok (after.1.journal, recovery_of false after.1.journal), after.2.journal))
        × (after.1.journal.records ≡ a.journal.records ++ r ∷ [])
        × (replay_loop replay_apply background after.1.journal.records base
            ≡ (ok tt, after.1.state))
        × ((same_state r.state present ≡ false)
            ⊎ IsBacked io.get io.put r.blob_key supplied a.blobs)
  applier_apply_restart io capabilities r supplied a d base result path options c range laws reopens
        replays h fresh =
      let (good, done, applier, disk) =
        applied-committed io capabilities r supplied a d result h fresh in
      let (_, grown, _) = append-IsConsistent io.journal io.append r a.journal d c range done in
      (
        rw (applier, disk)
            (unfold committed in
              append-open_journal io r a.journal d path options c range laws reopens done),
        rw applier (unfold committed in grown),
        applier_apply-Replays io capabilities r supplied a d base replays,
        elim (Bool-cases (same_state r.state present)) [
          | inr other ↦ inl other
          | inl it ↦ inr (ensure_present-IsBacked io.get io.put r supplied a.blobs good it)
        ],
      )
