-- ===== src/Storage/Inventory.antt =====
-- storage/inventory.go: the fingerprint of the keys that a store holds. The hash is written to key by
-- key and summed at the end, so its state is the bytes that were written. A lister that is a pager
-- too is read page by page. The counts are Go integers that no store in memory or on disk overflows.
pub mod Fingerprint
use stream_hive.Common.{
  ℕ, ◌+◌, ◌-◌, ◌^◌, Option, none, some, List, [], ◌∷◌, ◌++◌, ok, err, check, fail_if, ◌>>=◌, ◌>>◌,
  length, ltb, ◌==◌,
}
use stream_hive.Common.Bytes.{Bytes, put_uint32, bytes_less}
use stream_hive.Common.Sorting.{sort}
use stream_hive.Context.{Ctx, later, background}
use stream_hive.Errors
use stream_hive.Errors.{Error, Fallible}
use stream_hive.Std.Sha256.{Sha256}
use stream_hive.Storage.Walk.{Pager, WalkErrors, WalkIo, walk}

pub record InventorySummary : Type 0 where
  pub key_count : ℕ
  pub key_bytes : ℕ
  pub digest : Bytes

-- the summary under construction, with what the hash was given
pub record Tally : Type 0 where
  pub count : ℕ
  pub total : ℕ
  pub written : Bytes

abbrev pub empty_tally : Tally
empty_tally = record { count = 0; total = 0; written = [] }

unfoldable pub append_inventory_key : Option Error → Bytes → Tally → Fallible Tally
unfolding put_uint32
append_inventory_key ctx key t = do
  check ctx
  fail_if (length key == 0) Error.inventory_key_empty
  fail_if (ltb (2 ^ 32 - 1) (length key)) Error.inventory_key_too_large
  ok (record {
    count = t.count + 1;
    total = t.total + length key;
    written = t.written ++ (put_uint32 (length key) ++ key);
  })

-- the loop over keys, in both functions
unfoldable pub append_keys : Ctx → List Bytes → Tally → Fallible Unit × Tally
unfolding append_inventory_key
append_keys ctx [] t = (ok tt, t)
append_keys ctx (k ∷ ks) t = elim (append_inventory_key (ctx 0) k t) [
  | err e ↦ (err e, t)
  | ok next ↦ append_keys (later 1 ctx) ks next
]

abbrev pub inventory_errors : WalkErrors
inventory_errors = record {
  cursor = Error.wrap Error.inventory_pager_invalid;
  mismatch = Error.wrap Error.inventory_pager_invalid;
  advance = Error.wrap Error.inventory_pager_invalid;
  order = Error.wrap Error.inventory_pager_invalid;
}

-- a `BlobKeyLister`, with its pages if it is a `BlobKeyPager` too
pub record Lister : Type 0 where
  pub list_keys : Fallible (List Bytes)
  pub pager : Option Pager

module _ ⦃sha : Sha256⦄ where
  -- the digest of what was written; an error gives no summary
  abbrev pub summary_of : Fallible Unit × Tally → Fallible InventorySummary
  summary_of (err e, t) = err e
  summary_of (ok _, t) =
      ok (record { key_count = t.count; key_bytes = t.total; digest = sha.sum t.written })

  unfoldable pub summarize_inventory_keys : Ctx → List Bytes → Fallible InventorySummary
  unfolding append_keys
  summarize_inventory_keys ctx keys = summary_of (append_keys ctx keys empty_tally)

  abbrev summaries : Option (Fallible Unit × Tally) → Option (Fallible InventorySummary)
  summaries none = none
  summaries (some answer) = some (summary_of answer)

  -- at most `n` pages; `visits k` are the answers of the context in the k-th
  unfoldable pub summarize_paged_inventory :
      ℕ → WalkIo → (ℕ → Ctx) → Pager → Option (Fallible InventorySummary)
  unfolding walk append_keys
  summarize_paged_inventory n io visits pager =
      summaries (walk (λ k. append_keys (visits k)) n inventory_errors io pager 0 none empty_tally)

  unfoldable pub summarize_inventory :
      ℕ → Option Error → WalkIo → (ℕ → Ctx) → Option Lister → Option (Fallible InventorySummary)
  unfolding summarize_paged_inventory summarize_inventory_keys
  summarize_inventory n entry io visits none = some (err Error.nil_inventory_lister)
  summarize_inventory n entry io visits (some lister) = elim entry [
    | some e ↦ some (err e)
    | none ↦ elim lister.pager [
      | some pager ↦ summarize_paged_inventory n io visits pager
      | none ↦
          some
            (do keys ← lister.list_keys; summarize_inventory_keys (visits 0) (sort bytes_less keys))
    ]
  ]
