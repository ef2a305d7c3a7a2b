-- ===== src/Lifecycle/Applier.antt =====
-- internal/lifecycle/apply.go: `Applier`, which makes a record durable and then publishes it. A
-- method holds the applier's lock, so it is one function; the journal may be shared with a
-- `RepairCoordinator`. Nil states and journals are refused by `NewApplier` and not modelled.
pub mod Recovery
pub mod Durability
pub mod Holding
pub mod Snapshots
use stream_hive.Common.{
  ℕ, Bool, true, false, ◌||◌, Option, none, some, List, [], ◌∷◌, ok, err, check, fail_if, ◌>>=◌,
  ◌>>◌, not, length, ◌==◌, if◌then◌else◌,
}
use stream_hive.Common.Bytes.{Bytes}
use stream_hive.Std.Json.{Json}
use stream_hive.Std.Unicode.{Unicode}
use stream_hive.Std.Sha256.{Sha256}
use stream_hive.Context.{Ctx, later}
use stream_hive.Errors
use stream_hive.Errors.{Error, Fallible, errors_is, is_not_found}
use stream_hive.Storage.Blobs.{BlobStore}
use stream_hive.Storage.Hash.{verify_sha256_key}
use stream_hive.Lifecycle.Records.{Limits, normalized, present, same_state, Record, validate}
use stream_hive.Lifecycle.Store.{
  Store, ApplyResult, classify, apply, replace_snapshot, applied, duplicate, stale,
}
use stream_hive.Lifecycle.Checkpoints.{Checkpoint, normalize_checkpoint}
use stream_hive.Lifecycle.Journal.Files.{Journal, Disk}
use stream_hive.Lifecycle.Journal.Append.{AppendIo, append}
use stream_hive.Lifecycle.Journal.Compaction.{CompactIo, install_snapshot}
use stream_hive.Lifecycle.Transport.{has_lifecycle_capability}

-- `blobs` is none for a nil store
pub record Applier (S : Type 0) : Type 0 where
  pub blobs : Option S
  pub state : Store
  pub journal : Journal
  pub limits : Limits

unfoldable pub new_applier : {S : Type 0} → Option S → Store → Journal → Limits → Applier S
unfolding normalized
new_applier blobs state journal l = record {
  blobs = blobs;
  state = state;
  journal = journal;
  limits = normalized l;
}

-- the answers of the context and the operating system to `Apply`
pub record ApplyIo : Type 0 where
  pub entry : Option Error
  pub get : Ctx
  pub put : Ctx
  pub journal : Ctx
  pub append : AppendIo

-- those to `ApplySnapshot`; `get k` are those to the read of the k-th blob
pub record SnapshotIo : Type 0 where
  pub entry : Option Error
  pub get : ℕ → Ctx
  pub journal : Ctx
  pub install : CompactIo

module _ {S : Type 0} ⦃blob : BlobStore S⦄ ⦃sha : Sha256⦄ where
  -- the data that `ensureBlob` verifies: what was supplied, or what the store holds
  unfoldable pub blob_data : Ctx → Bytes → Option Bytes → S → Fallible Bytes
  unfolding errors_is
  blob_data ctx key (some supplied) s = ok supplied
  blob_data ctx key none s = elim (blob.get ctx key s) [
    | ok found ↦ ok found
    | err e ↦
        if errors_is is_not_found e then err (Error.join Error.applier_blob_missing e) else err e
  ]

  -- `ensureBlob` up to the `Put`
  unfoldable pub blob_checks : Ctx → Bytes → Option Bytes → S → Fallible Bytes
  unfolding blob_data
  blob_checks ctx key supplied s = do
    found ← blob_data ctx key supplied s
    verify_sha256_key key found
    ok found

  unfoldable pub ensure_blob :
      Ctx → Ctx → Bytes → Option Bytes → Option S → Fallible Unit × Option S
  unfolding blob_checks
  ensure_blob get put key supplied none = (err Error.nil_applier_blob_store, none)
  ensure_blob get put key supplied (some s) = elim (blob_checks get key supplied s) [
    | err e ↦ (err e, some s)
    | ok found ↦ elim supplied [
      | none ↦ (ok tt, some s)
      | some _ ↦ let stored = blob.put put key found s in (stored.0, some stored.1)
    ]
  ]

  -- the same where the record names a blob
  unfoldable pub ensure_present :
      Ctx → Ctx → Record → Option Bytes → Option S → Fallible Unit × Option S
  unfolding ensure_blob
  ensure_present get put r supplied blobs =
      if same_state r.state present
      then ensure_blob get put r.blob_key supplied blobs
      else (ok tt, blobs)

  -- the loop of `ApplySnapshot`, which supplies no blob and so changes no store
  unfoldable pub ensure_all : (ℕ → Ctx) → List Record → Option S → Fallible Unit
  unfolding ensure_present
  ensure_all get [] blobs = ok tt
  ensure_all get (r ∷ rs) blobs = do
    (ensure_present (get 0) (get 0) r none blobs).0
    ensure_all (λ k. get (ℕ.suc k)) rs blobs

  module _ ⦃u : Unicode⦄ ⦃json : Json Record⦄ where
    -- `Apply` up to the classification
    unfoldable pub apply_checks :
        Option Error → List Bytes → Record → Applier S → Fallible ApplyResult
    apply_checks entry capabilities r a = do
      check entry
      fail_if (not (has_lifecycle_capability capabilities)) Error.capability_required
      validate r a.limits
      classify r a.state

    -- `Apply` of a record that is to be applied: the blob, the journal, then the state
    unfoldable pub commit :
        ApplyIo → Record → Option Bytes → Applier S → Disk → Fallible ApplyResult × Applier S × Disk
    unfolding ensure_present
    commit io r supplied a d =
        let ensured = ensure_present io.get io.put r supplied a.blobs in
        let held : Applier S = record a { blobs = ensured.1 } in
        let logged = append io.journal io.append r a.journal d in
        let after : Applier S = record held { journal = logged.1 } in
        let published = apply r a.state in
        elim ensured.0 [
          | err e ↦ (err e, held, d)
          | ok _ ↦ elim logged.0 [
            | err e ↦ (err e, after, logged.2)
            | ok _ ↦ (published.0, record after { state = published.1 }, logged.2)
          ]
        ]

    unfoldable pub applier_apply :
        ApplyIo
        → List Bytes
        → Record
        → Option Bytes
        → Applier S
        → Disk
        → Fallible ApplyResult × Applier S × Disk
    unfolding apply_checks commit
    applier_apply io capabilities r supplied a d = elim (apply_checks io.entry capabilities r a) [
      | err e ↦ (err e, a, d)
      | ok result ↦ elim result.outcome [
        | applied ↦ commit io r supplied a d
        | duplicate ↦ (ok result, a, d)
        | stale ↦ (ok result, a, d)
      ]
    ]

    -- `ApplySnapshot` up to the install: the normal form of the checkpoint
    unfoldable pub snapshot_checks :
        SnapshotIo → List Bytes → Checkpoint → Bytes → Applier S → Fallible Checkpoint
    unfolding ensure_all
    snapshot_checks io capabilities snapshot path a = do
      check io.entry
      fail_if (not (has_lifecycle_capability capabilities)) Error.capability_required
      fail_if (length path == 0) Error.nil_checkpoint_path
      normalized ← normalize_checkpoint snapshot a.limits
      ensure_all io.get normalized.records a.blobs
      ok normalized

    unfoldable pub applier_snapshot :
        ⦃c : Json Checkpoint⦄
        → (clean : Bytes → Bytes) → SnapshotIo
        → List Bytes
        → Checkpoint
        → Bytes
        → Applier S
        → Disk
        → Fallible Unit × Applier S × Disk
    unfolding snapshot_checks
    applier_snapshot clean io capabilities snapshot path a d =
        elim (snapshot_checks io capabilities snapshot path a) [
          | err e ↦ (err e, a, d)
          | ok normalized ↦
              let installed =
                install_snapshot clean io.journal io.install path normalized a.journal d in
              let after : Applier S = record a { journal = installed.1 } in
              let published = replace_snapshot normalized.records a.state in
              elim installed.0 [
                | err e ↦ (err e, after, installed.2)
                | ok _ ↦ (published.0, record after { state = published.1 }, installed.2)
              ]
        ]
