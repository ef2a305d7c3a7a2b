-- ===== src/Examples/StorageRuns.antt =====
-- The theorems about the store in memory, at concrete inputs.
use stream_hive.Common.{
  ◌+◌, ◌≡◌, ◌≤◌, refl, false, none, some, List, [], ◌∷◌, ok, err, arith, length, take, All, ◌⊎◌,
  ◌<◌, ◌↔◌,
}
use stream_hive.Common.Bytes.{Bytes, bytes_equal, bytes_less, put_uint32}
use stream_hive.Common.Sorting.{sort, place}
use stream_hive.Common.Maps.{lookup, insert, delete}
use stream_hive.Context.{background}
use stream_hive.Errors.{Error, errors_is}
use stream_hive.Storage.Keys.{Ascending, key_set, keys_after, add_key, is_after}
use stream_hive.Storage.Hash.{verify_sha256_key, validate_sha256_key, sha256_key}
use stream_hive.Storage.Memory.{
  put, get, remove, map_keys, last_key, list_key_page, key_string, ensure_key_index, memory_blobs,
}
use stream_hive.Storage.Memory.Index.{IsIndexed, memory-IsIndexed}
use stream_hive.Storage.Memory.Pages.{list_key_page-key_set}
use stream_hive.Storage.Page.{normalize_key_page_limit}
use stream_hive.Storage.Walk.{Pager, walk_fine, walk, round_checks, check_page, check_keys, stays}
use stream_hive.Storage.Walk.Cursors.{IsKey}
use stream_hive.Storage.Inventory.{summarize_inventory, summarize_inventory_keys}
use stream_hive.Storage.Inventory.Fingerprint.{
  IsInventoryKey, framed, total, summarize_inventory_same, summarize_inventory_keys-framed,
}
use stream_hive.Storage.Integrity.{
  IntegritySummary, inspect_inventory, inspect_inventory_keys, inspect_key, count_blob, count_key,
  key_fine,
}
use stream_hive.Storage.Integrity.Soundness.{IsVerified, inspect_inventory_sound}
use stream_hive.Examples.Samples.{blob_key}
use stream_hive.Examples.Replica.{toy_hash, list_tree, list_tree_laws, blobs}

abbrev small_key : Bytes
small_key = b'k' ∷ []

abbrev value : Bytes
value = b'w' ∷ []

abbrev ks : List Bytes
ks = blob_key ∷ small_key ∷ []

blobs_keys : key_set (map_keys blobs.entries) [] ≡ ks
unfolding key_set add_key bytes_less bytes_equal
blobs_keys = refl

blobs-IsIndexed : IsIndexed blobs
blobs-IsIndexed t e = ground (arith, blobs_keys)

memory-IsIndexed_example :
    IsIndexed (put background small_key value blobs).1
    × IsIndexed (remove background small_key blobs).1
memory-IsIndexed_example =
    memory-IsIndexed list_tree_laws background small_key value blobs blobs-IsIndexed

put_done : (put background small_key value blobs).0 ≡ ok tt
unfolding put key_string ensure_key_index lookup insert bytes_equal
put_done = refl

remove_done : (remove background small_key blobs).0 ≡ ok tt
unfolding remove key_string lookup delete bytes_equal
remove_done = refl

list_key_page-key_set_example :
    let page =
      take (normalize_key_page_limit 1) (keys_after [] (key_set (map_keys blobs.entries) [])) in
    (list_key_page background [] 1 blobs ≡ ok (page, last_key page))
    × (list_key_page background [] 1 (record blobs { keys = none }) ≡ ok (page, last_key page))
list_key_page-key_set_example = list_key_page-key_set list_tree_laws [] 1 blobs blobs-IsIndexed

abbrev pager : Pager
pager k after = ok (take 256 (keys_after after ks), last_key (take 256 (keys_after after ks)))

ks_ascend : Ascending ks
unfolding bytes_less
ks_ascend = ground arith

ks_all : All IsKey ks
ks_all = ground arith

ks_sorted : sort bytes_less (small_key ∷ blob_key ∷ []) ≡ ks
unfolding sort place bytes_less
ks_sorted = refl

summarize_inventory_same_example :
    (summarize_inventory 3 none walk_fine
        (λ k. background)
        (some (record { list_keys = err Error.eof; pager = some pager }))
      ≡ some (summarize_inventory_keys background ks))
    × (summarize_inventory 3 none walk_fine
          (λ k. background)
          (some (record { list_keys = ok (small_key ∷ blob_key ∷ []); pager = none }))
        ≡ some (summarize_inventory_keys background ks))
summarize_inventory_same_example =
    summarize_inventory_same 3 pager (small_key ∷ blob_key ∷ []) ks (err Error.eof)
      (λ k after. refl) ks_all ks_ascend ks_sorted (omega arith)

inventory_keys : All IsInventoryKey ks
inventory_keys = ground arith

-- the same keys in another order
abbrev js : List Bytes
js = blob_key ∷ small_key ∷ []

other_keys : All IsInventoryKey js
other_keys = ground arith

framed_apart : toy_hash.sum (framed ks) ≡ toy_hash.sum (framed js) → framed ks ≡ framed js
unfolding put_uint32
framed_apart same = ground arith

summarize_inventory_keys-framed_example :
    (summarize_inventory_keys background ks
      ≡ ok (record {
        key_count = length ks;
        key_bytes = total ks;
        digest = toy_hash.sum (framed ks);
      }))
    × ((summarize_inventory_keys background ks ≡ summarize_inventory_keys background js)
        ↔ (ks ≡ js))
summarize_inventory_keys-framed_example =
    summarize_inventory_keys-framed ks js inventory_keys other_keys framed_apart

abbrev inspected : IntegritySummary
inspected = record {
  key_count = 2;
  key_bytes = 33;
  content_addressed_keys = 1;
  verified_keys = 1;
  verified_bytes = 32;
  opaque_keys = 1;
  opaque_bytes = 1;
  corrupt_keys = 0;
  missing_keys = 0;
}

inspection :
    inspect_inventory false 3 none walk_fine
      (λ k. key_fine)
      (some blobs)
      (some (record { list_keys = err Error.eof; pager = some pager }))
    ≡ some (ok tt, inspected)
unfolding inspect_inventory walk round_checks check_page check_keys stays keys_after is_after
    last_key bytes_less bytes_equal inspect_inventory_keys inspect_key count_blob count_key get
    key_string lookup verify_sha256_key validate_sha256_key sha256_key errors_is
inspection = refl

inspect_inventory_sound_example :
    (inspected.key_count ≡ length ks)
    × (inspected.content_addressed_keys + inspected.opaque_keys ≡ length ks)
    × (inspected.verified_keys + inspected.corrupt_keys ≤ inspected.content_addressed_keys)
    × ((0 < inspected.corrupt_keys)
        ⊎ (0 < inspected.missing_keys)
        ⊎ All (λ k. (length k ≡ 32) → IsVerified background blobs k) ks)
inspect_inventory_sound_example =
    inspect_inventory_sound 3 blobs pager (err Error.eof) ks inspected (λ k after. refl) ks_all
      ks_ascend (omega arith) inspection
