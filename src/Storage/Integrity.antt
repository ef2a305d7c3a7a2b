-- ===== src/Storage/Integrity.antt =====
-- storage/integrity.go: the inspection of a store's blobs. `InspectInventory` returns a summary and an
-- error: on the paged path both, whatever the error. There the language leaves open whether the
-- variable `summary` is read before the call that fills it, in the same return statement; the
-- parameter `early` says whether it is.
pub mod Soundness
use stream_hive.Common.{
  ℕ, suc, ◌+◌, Bool, true, false, ◌&&◌, Option, none, some, List, [], ◌∷◌, ok, err, check, fail_if,
  ◌>>=◌, ◌>>◌, length, ◌==◌, if◌then◌else◌,
}
use stream_hive.Common.Bytes.{Bytes, bytes_less}
use stream_hive.Common.Sorting.{sort}
use stream_hive.Context.{Ctx, later, background}
use stream_hive.Errors
use stream_hive.Errors.{Error, Fallible, errors_is, is_not_found, is_mismatch}
use stream_hive.Std.Sha256.{Sha256}
use stream_hive.Storage.Blobs.{BlobStore}
use stream_hive.Storage.Hash.{verify_sha256_key}
use stream_hive.Storage.Walk.{Pager, WalkErrors, WalkIo, walk}
use stream_hive.Storage.Inventory.{Lister}

pub record IntegritySummary : Type 0 where
  pub key_count : ℕ
  pub key_bytes : ℕ
  pub content_addressed_keys : ℕ
  pub verified_keys : ℕ
  pub verified_bytes : ℕ
  pub opaque_keys : ℕ
  pub opaque_bytes : ℕ
  pub corrupt_keys : ℕ
  pub missing_keys : ℕ

abbrev pub empty_summary : IntegritySummary
empty_summary = record {
  key_count = 0;
  key_bytes = 0;
  content_addressed_keys = 0;
  verified_keys = 0;
  verified_bytes = 0;
  opaque_keys = 0;
  opaque_bytes = 0;
  corrupt_keys = 0;
  missing_keys = 0;
}

-- the answers of the context for one key: at the start, to the store, and behind the read
pub record KeyIo : Type 0 where
  pub entry : Option Error
  pub get : Ctx
  pub after : Option Error

abbrev pub key_fine : ℕ → KeyIo
key_fine k = record { entry = none; get = background; after = none }

abbrev pub integrity_errors : WalkErrors
integrity_errors = record {
  cursor = Error.join Error.inventory_pager_invalid Error.empty_page_cursor;
  mismatch = Error.inventory_pager_invalid;
  advance = Error.inventory_pager_invalid;
  order = Error.inventory_pager_invalid;
}

-- the key alone, before its blob is read
unfoldable pub count_key : Bytes → IntegritySummary → IntegritySummary
count_key key s =
    let counted : IntegritySummary = record s {
      key_count = s.key_count + 1;
      key_bytes = s.key_bytes + length key;
    } in
    if length key == 32
    then record counted { content_addressed_keys = s.content_addressed_keys + 1 }
    else record counted { opaque_keys = s.opaque_keys + 1 }

abbrev pub count_missing : IntegritySummary → IntegritySummary
count_missing s = record s { missing_keys = s.missing_keys + 1 }

abbrev pub count_corrupt : IntegritySummary → IntegritySummary
count_corrupt s = record s { corrupt_keys = s.corrupt_keys + 1 }

-- what the caller sees of a paged inspection
abbrev pub seen :
    Bool → Option (Fallible Unit × IntegritySummary) → Option (Fallible Unit × IntegritySummary)
seen early none = none
seen true (some (answer, s)) = some (answer, empty_summary)
seen false (some (answer, s)) = some (answer, s)

-- an error of the listed inspection gives the empty summary
abbrev pub settled : Fallible Unit × IntegritySummary → Fallible Unit × IntegritySummary
settled (ok t, s) = (ok t, s)
settled (err e, s) = (err e, empty_summary)

module _ ⦃sha : Sha256⦄ where
  -- the blob that was read
  unfoldable pub count_blob : Bytes → Bytes → IntegritySummary → Fallible Unit × IntegritySummary
  unfolding errors_is
  count_blob key content s =
      if length key == 32
      then elim (verify_sha256_key key content) [
        | ok _ ↦ (
          ok tt,
          record s {
            verified_keys = s.verified_keys + 1;
            verified_bytes = s.verified_bytes + length content;
          },
        )
        | err e ↦ if errors_is is_mismatch e then (ok tt, count_corrupt s) else (err e, s)
      ]
      else (ok tt, record s { opaque_bytes = s.opaque_bytes + length content })

  module _ {S : Type 0} ⦃blob : BlobStore S⦄ where
    unfoldable pub inspect_key :
        KeyIo → S → Bytes → IntegritySummary → Fallible Unit × IntegritySummary
    unfolding count_key count_blob
    inspect_key io store key s =
        let counted = count_key key s in
        elim (do check io.entry; fail_if (length key == 0) Error.inventory_key_empty) [
          | err e ↦ (err e, s)
          | ok _ ↦ elim (blob.get io.get key store) [
            | err e ↦
                if errors_is is_not_found e
                then (ok tt, count_missing counted)
                else if length key == 32 && errors_is is_mismatch e
                then (ok tt, count_corrupt counted)
                else (err e, counted)
            | ok content ↦ elim io.after [
              | some e ↦ (err e, counted)
              | none ↦ count_blob key content counted
            ]
          ]
        ]

    unfoldable pub inspect_inventory_keys :
        (ℕ → KeyIo) → S → List Bytes → IntegritySummary → Fallible Unit × IntegritySummary
    unfolding inspect_key
    inspect_inventory_keys io store [] s = (ok tt, s)
    inspect_inventory_keys io store (k ∷ ks) s =
        let one = inspect_key (io 0) store k s in
        let rest = inspect_inventory_keys (λ i. io (suc i)) store ks one.1 in
        elim one.0 [ err e ↦ (err e, one.1) | ok _ ↦ rest ]

    unfoldable pub inspect_inventory :
        Bool
        → ℕ
        → Option Error
        → WalkIo
        → (ℕ → ℕ → KeyIo)
        → Option S
        → Option Lister
        → Option (Fallible Unit × IntegritySummary)
    unfolding inspect_inventory_keys walk
    inspect_inventory early n entry io visits none lister =
        some (err Error.nil_integrity_store, empty_summary)
    inspect_inventory early n entry io visits (some store) none =
        some (err Error.nil_inventory_lister, empty_summary)
    inspect_inventory early n entry io visits (some store) (some lister) = elim entry [
      | some e ↦ some (err e, empty_summary)
      | none ↦ elim lister.pager [
        | some pager ↦ seen early (
            walk (λ k. inspect_inventory_keys (visits k) store) n integrity_errors io pager 0 none
              empty_summary)
        | none ↦ elim lister.list_keys [
          | err e ↦ some (err e, empty_summary)
          | ok keys ↦ some (
              settled
                (inspect_inventory_keys (visits 0) store (sort bytes_less keys) empty_summary))
        ]
      ]
    ]
