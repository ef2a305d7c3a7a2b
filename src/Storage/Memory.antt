-- ===== src/Storage/Memory.antt =====
-- storage/memory.go: `MemoryStore`, a map of the data with an ordered index of its keys. A method
-- holds the lock from its first read to its last write, so it is one function. The index is a tree
-- of github.com/google/btree, which is not part of the repository: any implementation of `BTree`.
-- A range over the map visits its keys in some order, here that of the list.
pub mod Index
pub mod Pages
use stream_hive.Common.{
  ℕ, suc, Bool, true, false, ◌&&◌, Option, none, some, List, [], ◌∷◌, ◌++◌, ok, err, check, fail_if,
  ◌>>=◌, ◌>>◌, length, ltb, leb, ◌==◌, if◌then◌else◌, ◌≡◌,
}
use stream_hive.Common.Bytes.{Bytes, bytes_equal, bytes_less}
use stream_hive.Common.Maps.{Map, lookup, insert, delete, bytes_key}
use stream_hive.Common.Sorting.{sort}
use stream_hive.Context.{Ctx, later}
use stream_hive.Errors
use stream_hive.Errors.{Error, Fallible}
use stream_hive.Storage.Blobs.{BlobStore}
use stream_hive.Storage.Page.{normalize_key_page_limit, insert_key_page}

-- `*btree.BTreeG[string]`, as the store uses it: what an ascent from the start, or from the first
-- key that is not before a pivot, visits if it is not stopped
pub record BTree (T : Type 0) : Type 0 where
  pub new : T
  pub replace_or_insert : Bytes → T → T
  pub delete : Bytes → T → T
  pub ascend : T → List Bytes
  pub ascend_greater_or_equal : Bytes → T → List Bytes

-- `keys` is none for a nil index, of a store that is a zero value
pub record MemoryStore (T : Type 0) : Type 0 where
  pub entries : Map Bytes Bytes
  pub keys : Option T

unfoldable pub key_string : Bytes → Fallible Bytes
key_string key = do fail_if (length key == 0) Error.blob_key_empty; ok key

abbrev pub map_keys : Map Bytes Bytes → List Bytes
map_keys [] = []
map_keys ((k, v) ∷ m) = k ∷ map_keys m

-- `page[len(page)-1]`, and nil of an empty page
unfoldable pub last_key : List Bytes → Bytes
last_key [] = []
last_key (k ∷ []) = k
last_key (k ∷ j ∷ ks) = last_key (j ∷ ks)

-- the keys of an iteration that stops when the context is done
unfoldable pub polled : Ctx → List Bytes → Fallible (List Bytes)
polled ctx [] = ok []
polled ctx (k ∷ ks) = do check (ctx 0); rest ← polled (later 1 ctx) ks; ok (k ∷ rest)

-- the callback of `ListKeyPage` over the keys of the index
unfoldable pub page_loop : Ctx → Bytes → ℕ → List Bytes → List Bytes → Fallible (List Bytes)
page_loop ctx after limit [] page = ok page
page_loop ctx after limit (k ∷ ks) page =
    let skip = page_loop (later 1 ctx) after limit ks page in
    let grown = page ++ k ∷ [] in
    let rest = page_loop (later 1 ctx) after limit ks grown in
    elim (ctx 0) [
      | some e ↦ err e
      | none ↦
          if ltb 0 (length after) && bytes_equal k after
          then skip
          else if ltb (length grown) limit
          then rest
          else ok grown
    ]

-- the loop over the map of a store without an index
unfoldable pub map_loop : Ctx → Bytes → ℕ → List Bytes → List Bytes → Fallible (List Bytes)
unfolding insert_key_page
map_loop ctx after limit [] page = do check (ctx 0); ok page
map_loop ctx after limit (k ∷ ks) page = do
  check (ctx 0)
  map_loop (later 1 ctx) after limit ks (insert_key_page page k after limit)

abbrev pub found : Option Bytes → Fallible Bytes
found (some content) = ok content
found none = err Error.not_found

abbrev pub exists : Option Bytes → Bool
exists (some _) = true
exists none = false

-- a page and its cursor
abbrev pub with_cursor : Fallible (List Bytes) → Fallible (List Bytes × Bytes)
with_cursor (ok page) = ok (page, last_key page)
with_cursor (err e) = err e

module _ {T : Type 0} ⦃b : BTree T⦄ where
  unfoldable pub new_memory_store : MemoryStore T
  new_memory_store = record { entries = []; keys = some b.new }

  -- the loop that indexes the keys of the map
  unfoldable pub index_keys : List Bytes → T → T
  index_keys [] t = t
  index_keys (k ∷ ks) t = index_keys ks (b.replace_or_insert k t)

  unfoldable pub ensure_key_index : MemoryStore T → MemoryStore T
  unfolding index_keys
  ensure_key_index m = elim m.keys [
    | some t ↦ m
    | none ↦ record m { keys = some (index_keys (map_keys m.entries) b.new) }
  ]

  -- `m.keys.ReplaceOrInsert(ks)` where the key is new
  unfoldable pub index_new : Bytes → MemoryStore T → Option T
  index_new key m = elim (lookup key m.entries) [
    | some _ ↦ m.keys
    | none ↦ elim m.keys [ none ↦ none | some t ↦ some (b.replace_or_insert key t) ]
  ]

  unfoldable pub put : Ctx → Bytes → Bytes → MemoryStore T → Fallible Unit × MemoryStore T
  unfolding ensure_key_index index_new key_string
  put ctx key content m =
      let indexed = ensure_key_index m in
      let written : MemoryStore T = record {
        entries = insert key content indexed.entries;
        keys = index_new key indexed;
      } in
      elim (do check (ctx 0); key_string key) [
        | err e ↦ (err e, m)
        | ok _ ↦ elim (ctx 1) [ some e ↦ (err e, m) | none ↦ (ok tt, written) ]
      ]

  unfoldable pub get : Ctx → Bytes → MemoryStore T → Fallible Bytes
  unfolding key_string
  get ctx key m = do check (ctx 0); ks ← key_string key; found (lookup ks m.entries)

  unfoldable pub has : Ctx → Bytes → MemoryStore T → Fallible Bool
  unfolding key_string
  has ctx key m = do check (ctx 0); ks ← key_string key; ok (exists (lookup ks m.entries))

  -- the index without a key
  abbrev unindexed : Bytes → Option T → Option T
  unindexed key none = none
  unindexed key (some t) = some (b.delete key t)

  unfoldable pub remove : Ctx → Bytes → MemoryStore T → Fallible Unit × MemoryStore T
  unfolding key_string
  remove ctx key m =
      let removed : MemoryStore T = record {
        entries = delete key m.entries;
        keys = unindexed key m.keys;
      } in
      elim (do check (ctx 0); key_string key) [
        | err e ↦ (err e, m)
        | ok _ ↦ elim (ctx 1) [
          | some e ↦ (err e, m)
          | none ↦ elim (lookup key m.entries) [ none ↦ (ok tt, m) | some _ ↦ (ok tt, removed) ]
        ]
      ]

  unfoldable pub len : MemoryStore T → ℕ
  len m = length m.entries

  unfoldable pub list_keys : Ctx → MemoryStore T → Fallible (List Bytes)
  unfolding polled
  list_keys ctx m = do
    check (ctx 0)
    elim m.keys [
      | some t ↦ polled (later 1 ctx) (b.ascend t)
      | none ↦ ok (sort bytes_less (map_keys m.entries))
    ]

  unfoldable pub list_key_page : Ctx → Bytes → ℕ → MemoryStore T → Fallible (List Bytes × Bytes)
  unfolding page_loop map_loop normalize_key_page_limit last_key
  list_key_page ctx after option m =
      let limit = normalize_key_page_limit option in
      do
        check (ctx 0)
        elim m.keys [
          | some t ↦
              with_cursor
                (page_loop (later 1 ctx) after limit (b.ascend_greater_or_equal after t) [])
          | none ↦ with_cursor (map_loop (later 1 ctx) after limit (map_keys m.entries) [])
        ]

  instance abbrev pub memory_blobs : BlobStore (MemoryStore T)
  memory_blobs = record { put = put; get = get; has = has; delete = remove }
