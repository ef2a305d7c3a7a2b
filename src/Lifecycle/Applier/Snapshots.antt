-- ===== src/Lifecycle/Applier/Snapshots.antt =====
-- internal/lifecycle/apply.go: what `ApplySnapshot` leaves behind.
use stream_hive.Common.{
  ℕ, suc, ◌≡◌, refl, sym, ap, ◌∙◌, ◌⊎◌, inl, inr, true, Option, none, some, List, [], ◌∷◌, ok, err,
  arith, All, subst, Result-cases,
}
use stream_hive.Common.Bytes.{Bytes}
use stream_hive.Std.Json.{Json}
use stream_hive.Std.Unicode.{Unicode}
use stream_hive.Std.Sha256.{Sha256}
use stream_hive.Context.{Ctx, background}
use stream_hive.Errors.{Error}
use stream_hive.Storage.Blobs.{BlobStore}
use stream_hive.Lifecycle.Version.{Version}
use stream_hive.Lifecycle.Records.{Limits, normalized, Record, present, same_state, validate}
use stream_hive.Lifecycle.Records.Laws.{normalized_idem}
use stream_hive.Lifecycle.Store.{Store, replace_loop, replace_snapshot}
use stream_hive.Lifecycle.Store.Replacing.{replace_snapshot-ascending}
use stream_hive.Lifecycle.Checkpoints.{
  Checkpoint, normalize_checkpoint, save_bytes, load_checkpoint, load_fine,
}
use stream_hive.Lifecycle.Checkpoints.Laws.{
  IsCovered, normalize_checkpoint_again, load_checkpoint-save_bytes, normalize_checkpoint_ok,
  normalize_checkpoint_records_sound,
}
use stream_hive.Lifecycle.JournalFile.Header.{IsU64Version}
use stream_hive.Lifecycle.Journal.Files.{Disk}
use stream_hive.Lifecycle.Journal.Compaction.{install_snapshot}
use stream_hive.Lifecycle.Journal.Compaction.Install.{install_keeps}
use stream_hive.Lifecycle.Journal.Append.Durability.{IsConsistent}
use stream_hive.Lifecycle.Applier.{
  Applier, SnapshotIo, ensure_all, snapshot_checks, applier_snapshot,
}
use stream_hive.Lifecycle.Applier.Durability.{IsBacked, ensure_present-IsBacked}

module _ {S : Type 0} ⦃blob : BlobStore S⦄ ⦃sha : Sha256⦄ where
  -- every present record names a blob that the store holds, under its digest
  abbrev pub AreBacked : Option S → (ℕ → Ctx) → List Record → Type 0
  AreBacked blobs get [] = Unit
  AreBacked blobs get (r ∷ rs) =
      (same_state r.state present ≡ true → IsBacked (get 0) (get 0) r.blob_key none blobs)
      × AreBacked blobs (λ k. get (suc k)) rs

  ensure_all-AreBacked :
      (get : ℕ → Ctx) (rs : List Record) (blobs : Option S)
      → ensure_all get rs blobs ≡ ok tt
      → AreBacked blobs get rs
  unfolding ensure_all
  ensure_all-AreBacked get [] blobs h = tt
  ensure_all-AreBacked get (r ∷ rs) blobs h = (
    ensure_present-IsBacked (get 0) (get 0) r none blobs (ground arith),
    ensure_all-AreBacked (λ k. get (suc k)) rs blobs (ground arith),
  )

module _ ⦃u : Unicode⦄ ⦃json : Json Record⦄ where
  All-valid :
      (l m : Limits) (w : Version) (rs : List Record)
      → m ≡ l
      → All (IsCovered l w) rs
      → All (λ r. validate r m ≡ ok tt) rs
  All-valid l m w [] e h = tt
  All-valid l m w (r ∷ rs) e h = (rw e h.0.0, All-valid l m w rs e h.1)

  -- what `ReplaceSnapshot` leaves does not depend on the records of before
  replace_snapshot_same :
      (rs : List Record) (s t : Store)
      → s.limits ≡ t.limits
      → (replace_snapshot rs s).0 ≡ ok tt
      → replace_snapshot rs t ≡ (ok tt, (replace_snapshot rs s).1)
  unfolding replace_snapshot
  replace_snapshot_same rs s t e h = elim (Result-cases (replace_loop s.limits rs [])) [
    | inr (x, bad) ↦ absurd (ground arith)
    | inl (next, good) ↦ ground arith
  ]

module _ {S : Type 0} ⦃blob : BlobStore S⦄ ⦃sha : Sha256⦄ ⦃u : Unicode⦄ ⦃json : Json Record⦄
    ⦃c : Json Checkpoint⦄ (clean : Bytes → Bytes) where
  -- the runtime gives the state, the journal and the applier the same limits
  abbrev pub SharesLimits : Applier S → Type 0
  SharesLimits a = (a.state.limits ≡ normalized a.limits) × (a.journal.limits ≡ normalized a.limits)

  snapshot_checks_ok :
      (io : SnapshotIo) (capabilities : List Bytes) (snapshot normal : Checkpoint) (path : Bytes)
      (a : Applier S)
      → snapshot_checks io capabilities snapshot path a ≡ ok normal
      → (normalize_checkpoint snapshot a.limits ≡ ok normal)
        × (ensure_all io.get normal.records a.blobs ≡ ok tt)
  unfolding snapshot_checks
  snapshot_checks_ok io capabilities snapshot normal path a h =
      elim (Result-cases (normalize_checkpoint snapshot a.limits)) [
        | inr (e, bad) ↦ absurd (ground arith)
        | inl (found, good) ↦ elim (Result-cases (ensure_all io.get found.records a.blobs)) [
          | inr (e, bad) ↦ absurd (ground arith)
          | inl (_, backed) ↦ ground arith
        ]
      ]

  -- the normal form of a checkpoint is one that the state accepts
  normal_accepted :
      (snapshot normal : Checkpoint) (a : Applier S)
      → SharesLimits a
      → normalize_checkpoint snapshot a.limits ≡ ok normal
      → (replace_snapshot normal.records a.state).0 ≡ ok tt
  normal_accepted snapshot normal a shared h =
      let (_, made) = normalize_checkpoint_ok snapshot normal a.limits h in
      let (form, _) =
        normalize_checkpoint_records_sound snapshot.records normal.records snapshot.watermark
          (normalized a.limits) made in
      replace_snapshot-ascending normal.records a.state
        (All-valid (normalized (normalized a.limits)) a.state.limits snapshot.watermark
          normal.records (shared.0 ∙ sym (normalized_idem a.limits)) form.covered)
        form.ascending

  -- `ApplySnapshot` either fails, with the state as it was, or all of its steps succeed.
  snapshot-cases :
      (io : SnapshotIo) (capabilities : List Bytes) (snapshot : Checkpoint) (path : Bytes)
      (a : Applier S) (d : Disk)
      → SharesLimits a
      → ((e : Error) × ((applier_snapshot clean io capabilities snapshot path a d).0 ≡ err e)
          × ((applier_snapshot clean io capabilities snapshot path a d).1.state ≡ a.state))
        ⊎ ((normal : Checkpoint) × (normalize_checkpoint snapshot a.limits ≡ ok normal)
            × AreBacked a.blobs io.get normal.records
            × ((install_snapshot clean io.journal io.install path normal a.journal d).0 ≡ ok tt)
            × (applier_snapshot clean io capabilities snapshot path a d ≡ (
              ok tt,
              record a {
                state = (replace_snapshot normal.records a.state).1;
                journal = (install_snapshot clean io.journal io.install path normal a.journal d).1;
              },
              (install_snapshot clean io.journal io.install path normal a.journal d).2,
            )))
  unfolding applier_snapshot
  snapshot-cases io capabilities snapshot path a d shared =
      elim (Result-cases (snapshot_checks io capabilities snapshot path a)) [
        | inr (e, bad) ↦ inl (e, ground arith, ground arith)
        | inl (normal, good) ↦
            let (form, backed) = snapshot_checks_ok io capabilities snapshot normal path a good in
            let accepted = normal_accepted snapshot normal a shared form in
            elim (Result-cases
              (install_snapshot clean io.journal io.install path normal a.journal d).0) [
                | inr (e, failed) ↦ inl (e, ground arith, ground arith)
                | inl (_, done) ↦ inr (
                  normal,
                  form,
                  ensure_all-AreBacked io.get normal.records a.blobs backed,
                  done,
                  ground arith,
                )
              ]
      ]

  -- the applier `after` starts at the checkpoint `normal`, whose file is `bytes`
  pub record StartsAt (snapshot normal : Checkpoint) (bytes path : Bytes) (io : SnapshotIo)
      (a after : Applier S) (disk : Disk) : Type 0 where
    pub form : normalize_checkpoint snapshot a.limits ≡ ok normal
    pub backed : AreBacked a.blobs io.get normal.records
    pub consistent_after : IsConsistent after.journal disk
    pub floor : after.journal.floor ≡ normal.watermark
    pub last : after.journal.last ≡ normal.watermark
    pub empty : after.journal.records ≡ []
    pub saved : disk.checkpoint ≡ some bytes
    pub loads : load_checkpoint background load_fine path a.journal.limits bytes ≡ ok normal
    pub state_same :
        (base : Store)
        → base.limits ≡ a.state.limits
        → replace_snapshot normal.records base ≡ (ok tt, after.state)

  -- `ApplySnapshot`, on a journal that agrees with its file: it fails and leaves the published
  -- state as it was, or the journal and its file are empty from the checkpoint's watermark, every
  -- present record names a blob that was verified, and a restart that loads the checkpoint's file
  -- and replaces any state by its records has the state that was published (if the JSON of the checkpoint's normal form reads back).
  pub applier_snapshot-cases :
      (io : SnapshotIo) (capabilities : List Bytes) (snapshot : Checkpoint) (path : Bytes)
      (a : Applier S) (d : Disk)
      → SharesLimits a
      → IsConsistent a.journal d
      → IsU64Version snapshot.watermark
      → ((normal : Checkpoint)
          → normalize_checkpoint snapshot a.limits ≡ ok normal
          → c.unmarshal (c.marshal normal) ≡ some normal)
      → let after = applier_snapshot clean io capabilities snapshot path a d in
        ((e : Error) × (after.0 ≡ err e) × (after.1.state ≡ a.state))
        ⊎ ((after.0 ≡ ok tt)
            × (normal : Checkpoint) × (bytes : Bytes) × StartsAt snapshot normal bytes path io a
                after.1 after.2)
  applier_snapshot-cases io capabilities snapshot path a d shared consistent word back =
      elim (snapshot-cases io capabilities snapshot path a d shared) [
        | inl failed ↦ inl failed
        | inr (normal, form, backed, done, shape) ↦
            let (same, _) = normalize_checkpoint_ok snapshot normal a.limits form in
            let (second, bytes, i) =
              install_keeps clean io.journal io.install path normal a.journal d consistent
                (subst IsU64Version (sym same) word) done in
            let again : normalize_checkpoint normal a.journal.limits ≡ ok normal =
              rw shared.1 (normalize_checkpoint_again snapshot normal a.limits form) in
            let equal : second ≡ normal = ground (arith, i.normal_form, again) in
            inr (
              rw shape (
                refl,
                normal,
                bytes,
                record {
                  form = form;
                  backed = backed;
                  consistent_after = i.consistent_after;
                  floor = i.floor ∙ ap (λ (x : Checkpoint). x.watermark) equal;
                  last = i.last ∙ ap (λ (x : Checkpoint). x.watermark) equal;
                  empty = i.empty;
                  saved = i.saved;
                  loads =
                      load_checkpoint-save_bytes path bytes normal normal a.journal.limits
                        (subst (λ (x : Checkpoint). save_bytes path x a.journal.limits ≡ ok bytes)
                          equal i.encoded)
                        again (back normal form);
                  state_same = λ base e.
                      replace_snapshot_same normal.records a.state base (sym e)
                        (normal_accepted snapshot normal a shared form);
                },
              ))
      ]
