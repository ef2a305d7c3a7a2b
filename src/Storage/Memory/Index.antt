-- ===== src/Storage/Memory/Index.antt =====
-- The index of a store in memory is the ordered set of the keys of its map.
use stream_hive.Common.{
  ◌≡◌, refl, sym, ap, ◌∙◌, inl, inr, none, some, List, [], ◌∷◌, ◌++◌, ok, err, arith, check, ◌>>◌,
  if◌then◌else◌, Result-cases, Option-cases,
}
use stream_hive.Common.Bytes.{Bytes, bytes_equal, bytes_equal_iff}
use stream_hive.Common.Maps.{Map, lookup, insert, delete, bytes_key, lookup-insert, lookup-delete}
use stream_hive.Context.{Ctx, background}
use stream_hive.Errors.{Error}
use stream_hive.Storage.Keys.{
  Ascending, add_key, add_key-Ascending, remove_key, key_set, key_set-append, remove_key-add_key,
  keys_from,
}
use stream_hive.Storage.Memory.{
  BTree, MemoryStore, map_keys, index_keys, ensure_key_index, index_new, put, get, remove,
  key_string,
}

-- the documented behaviour of the tree: an ordered set of keys
pub record BTreeLaws {T : Type 0} (b : BTree T) : Type 0 where
  pub ascend-new : b.ascend b.new ≡ []
  pub ascend-insert :
      (k : Bytes) (t : T) → b.ascend (b.replace_or_insert k t) ≡ add_key k (b.ascend t)
  pub ascend-delete : (k : Bytes) (t : T) → b.ascend (b.delete k t) ≡ remove_key k (b.ascend t)
  pub ascend_from : (p : Bytes) (t : T) → b.ascend_greater_or_equal p t ≡ keys_from p (b.ascend t)

map_keys-insert_new :
    (k v : Bytes) (m : Map Bytes Bytes)
    → lookup k m ≡ none
    → map_keys (insert k v m) ≡ map_keys m ++ k ∷ []
unfolding lookup insert
map_keys-insert_new k v [] h = refl
map_keys-insert_new k v ((j, w) ∷ m) h = ground (arith, map_keys-insert_new k v m)

map_keys-insert_old :
    (k v w : Bytes) (m : Map Bytes Bytes)
    → lookup k m ≡ some w
    → map_keys (insert k v m) ≡ map_keys m
unfolding lookup insert
map_keys-insert_old k v w [] h = ground arith
map_keys-insert_old k v w ((j, u) ∷ m) h =
    ground (arith, map_keys-insert_old k v w m, bytes_equal_iff j k)

-- without a key, in the set of the keys of a map
key_set-delete :
    (k : Bytes) (m : Map Bytes Bytes) (xs : List Bytes)
    → Ascending xs
    → key_set (map_keys (delete k m)) (remove_key k xs) ≡ remove_key k (key_set (map_keys m) xs)
unfolding delete key_set
key_set-delete k [] xs h = refl
key_set-delete k ((j, w) ∷ m) xs h = ground (
  arith,
  key_set-delete k m (add_key j xs) (add_key-Ascending j xs h),
  remove_key-add_key k j xs h,
)

module _ {T : Type 0} ⦃b : BTree T⦄ where
  -- The index is what the map's keys, put into a set, give; a store without an index has none.
  abbrev pub IsIndexed : MemoryStore T → Type 0
  IsIndexed m = (t : T) → m.keys ≡ some t → b.ascend t ≡ key_set (map_keys m.entries) []

  module _ (laws : BTreeLaws b) where
    ascend-index_keys :
        (ks : List Bytes) (t : T) → b.ascend (index_keys ks t) ≡ key_set ks (b.ascend t)
    unfolding index_keys key_set
    ascend-index_keys [] t = refl
    ascend-index_keys (k ∷ ks) t =
        ascend-index_keys ks (b.replace_or_insert k t) ∙ ap (key_set ks) (laws.ascend-insert k t)

    -- after `ensureKeyIndexLocked` there is an index of the map's keys
    ensure-IsIndexed :
        (m : MemoryStore T)
        → IsIndexed m
        → (t : T) × ((ensure_key_index m).keys ≡ some t)
          × (b.ascend t ≡ key_set (map_keys m.entries) [])
          × ((ensure_key_index m).entries ≡ m.entries)
    unfolding ensure_key_index
    ensure-IsIndexed m i = elim (Option-cases m.keys) [
      | inr (t, e) ↦ (t, ground arith, i t e, ground arith)
      | inl e ↦ (
        index_keys (map_keys m.entries) b.new,
        ground arith,
        ascend-index_keys (map_keys m.entries) b.new
            ∙ ap (key_set (map_keys m.entries)) laws.ascend-new,
        ground arith,
      )
    ]

    insert_new-IsIndexed :
        (key content : Bytes) (m : Map Bytes Bytes) (t : T)
        → b.ascend t ≡ key_set (map_keys m) []
        → lookup key m ≡ none
        → b.ascend (b.replace_or_insert key t) ≡ key_set (map_keys (insert key content m)) []
    insert_new-IsIndexed key content m t i fresh =
        laws.ascend-insert key t
        ∙ ap (add_key key) i
        ∙ sym (
            ap (λ (ks : List Bytes). key_set ks []) (map_keys-insert_new key content m fresh)
            ∙ key_set-append (map_keys m) (key ∷ []) []
            ∙ (unfold key_set in refl))

    put-IsIndexed :
        (ctx : Ctx) (key content : Bytes) (m : MemoryStore T)
        → IsIndexed m
        → IsIndexed (put ctx key content m).1
    unfolding put index_new
    put-IsIndexed ctx key content m i t now =
        elim (Result-cases (do check (ctx 0); key_string key)) [
          | inr (e, bad) ↦ ground (arith, i t)
          | inl (ks, good) ↦ elim (Option-cases (ctx 1)) [
            | inr (e, done) ↦ ground (arith, i t)
            | inl fine ↦
                let (u, index, set, same) = ensure-IsIndexed m i in
                elim (Option-cases (lookup key m.entries)) [
                  | inl fresh ↦
                      let e : t ≡ b.replace_or_insert key u = ground arith in
                      let grown = insert_new-IsIndexed key content m.entries u set fresh in
                      ground (arith, grown)
                  | inr (old, e) ↦ ground (arith, map_keys-insert_old key content old m.entries e)
                ]
          ]
        ]

    remove-IsIndexed :
        (ctx : Ctx) (key : Bytes) (m : MemoryStore T) → IsIndexed m → IsIndexed (remove ctx key m).1
    unfolding remove remove_key
    remove-IsIndexed ctx key m i t now = elim (Result-cases (do check (ctx 0); key_string key)) [
      | inr (e, bad) ↦ ground (arith, i t)
      | inl (ks, good) ↦ elim (Option-cases (ctx 1)) [
        | inr (e, done) ↦ ground (arith, i t)
        | inl fine ↦ elim (Option-cases (lookup key m.entries)) [
          | inl absent ↦ ground (arith, i t)
          | inr (old, e) ↦ elim (Option-cases m.keys) [
            | inl bare ↦ absurd (ground arith)
            | inr (u, index) ↦
                let same : t ≡ b.delete key u = ground arith in
                let shrunk : b.ascend t ≡ key_set (map_keys (delete key m.entries)) [] =
                  ap b.ascend same
                  ∙ laws.ascend-delete key u
                  ∙ ap (remove_key key) (i u index)
                  ∙ sym (key_set-delete key m.entries [] tt) in
                ground (arith, shrunk)
          ]
        ]
      ]
    ]

    -- `Put` and `Delete`, whatever they answer, keep the index: an ascent over it visits the keys of
    -- the map in strict order, each once (if the tree behaves as documented).
    pub memory-IsIndexed :
        (ctx : Ctx) (key content : Bytes) (m : MemoryStore T)
        → IsIndexed m
        → IsIndexed (put ctx key content m).1 × IsIndexed (remove ctx key m).1
    memory-IsIndexed ctx key content m i =
        (put-IsIndexed ctx key content m i, remove-IsIndexed ctx key m i)

  ensure-entries : (m : MemoryStore T) → (ensure_key_index m).entries ≡ m.entries
  unfolding ensure_key_index
  ensure-entries m = ground arith

  -- Where `Put` succeeds, `Get` gives the content under its key and what it gave before under every
  -- other; where `Delete` succeeds, it finds nothing under the key and what it found before under
  -- every other.
  pub get-put :
      (ctx : Ctx) (key content other : Bytes) (m : MemoryStore T)
      → (put ctx key content m).0 ≡ ok tt
      → (remove ctx key m).0 ≡ ok tt
      → (get background other (put ctx key content m).1
          ≡ (if bytes_equal key other then ok content else get background other m))
        × (get background other (remove ctx key m).1
            ≡ (if bytes_equal key other then err Error.not_found else get background other m))
  unfolding put get remove key_string
  get-put ctx key content other m done gone = (
    ground (
      arith,
      ensure-entries m,
      lookup-insert key other content m.entries,
      bytes_equal_iff key other,
    ),
    ground (arith, lookup-delete key other m.entries, bytes_equal_iff key other),
  )
