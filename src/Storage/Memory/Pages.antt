-- ===== src/Storage/Memory/Pages.antt =====
-- A page of a store in memory: by the index or by a scan of the map, the same keys.
use stream_hive.Common.{
  ℕ, zero, suc, ◌+◌, ◌<◌, ◌≡◌, refl, sym, ap, ◌∙◌, inl, inr, true, none, List, [], ◌∷◌, ◌++◌, ok,
  arith, length, take, Bool-cases, Option-cases, append_assoc, append-nil, length-append,
}
use stream_hive.Common.Bytes.{
  Bytes, bytes_equal_iff, bytes_less, bytes_less_irrefl, bytes_less_asym, bytes_less_total,
}
use stream_hive.Context.{background}
use stream_hive.Storage.Keys.{is_after, keys_after, keys_from, key_set}
use stream_hive.Storage.Page.{
  normalize_key_page_limit, insert_key_page, scan, scan-key_set, take-all, take-front,
}
use stream_hive.Storage.Memory.{
  BTree, MemoryStore, map_keys, last_key, page_loop, map_loop, list_key_page,
}
use stream_hive.Storage.Memory.Index.{BTreeLaws, IsIndexed}

not_before_empty : (k after : Bytes) → bytes_less k after ≡ true → 0 < length after
unfolding bytes_less
not_before_empty [] [] h = ground arith
not_before_empty (x ∷ k) [] h = ground arith
not_before_empty k (y ∷ after) h = omega arith

-- the callback over the keys from the cursor on collects those behind it, up to the limit
page_loop-take :
    (after : Bytes) (limit : ℕ) (ks page : List Bytes)
    → length page < limit
    → page_loop background after limit (keys_from after ks) page
      ≡ ok (take limit (page ++ keys_after after ks))
unfolding page_loop keys_from keys_after is_after
page_loop-take after limit [] page few = ground (arith, append-nil page, take-all limit page)
page_loop-take after limit (k ∷ ks) page few = elim (Bool-cases (bytes_less k after)) [
  | inl before ↦ ground (
    arith,
    page_loop-take after limit ks page few,
    bytes_less_asym k after before,
    not_before_empty k after before,
  )
  | inr from ↦ elim (Bool-cases (is_after after k)) [
    | inr other ↦ ground (
      arith,
      page_loop-take after limit ks page few,
      bytes_less_total k after from,
      bytes_equal_iff k after,
    )
    | inl behind ↦
        let whole : (page ++ k ∷ []) ++ keys_after after ks ≡ page ++ k ∷ keys_after after ks =
          append_assoc page (k ∷ []) (keys_after after ks) in
        let front : length page + 1 ≡ limit
            → take limit ((page ++ k ∷ []) ++ keys_after after ks) ≡ page ++ k ∷ [] =
          λ full.
            take-front limit (page ++ k ∷ []) (keys_after after ks)
              (omega (arith, length-append page (k ∷ []))) in
        ground (
          arith,
          page_loop-take after limit ks (page ++ k ∷ []),
          length-append page (k ∷ []),
          bytes_equal_iff k after,
          bytes_less_irrefl k,
          whole,
          front,
        )
  ]
]

map_loop-scan :
    (after : Bytes) (limit : ℕ) (ks page : List Bytes)
    → map_loop background after limit ks page ≡ ok (scan after limit ks page)
unfolding map_loop scan
map_loop-scan after limit [] page = refl
map_loop-scan after limit (k ∷ ks) page =
    map_loop-scan after limit ks (insert_key_page page k after limit)

take-nil : (n : ℕ) → take {A = Bytes} n [] ≡ []
take-nil zero = refl
take-nil (suc n) = refl

module _ {T : Type 0} ⦃b : BTree T⦄ (laws : BTreeLaws b) where
  positive : (limit : ℕ) → 0 < normalize_key_page_limit limit
  unfolding normalize_key_page_limit
  positive limit = ground arith

  by_index :
      (after : Bytes) (limit : ℕ) (t : T)
      → page_loop background after
          (normalize_key_page_limit limit)
          (b.ascend_greater_or_equal after t)
          []
        ≡ ok (take (normalize_key_page_limit limit) (keys_after after (b.ascend t)))
  by_index after limit t =
      rw laws.ascend_from
        (page_loop-take after (normalize_key_page_limit limit) (b.ascend t) [] (positive limit))

  by_scan :
      (after : Bytes) (limit : ℕ) (ks : List Bytes)
      → map_loop background after limit ks [] ≡ ok (take limit (keys_after after (key_set ks [])))
  unfolding keys_after
  by_scan after limit ks =
      map_loop-scan after limit ks []
      ∙ ap ok (ap (scan after limit ks) (sym (take-nil limit)) ∙ scan-key_set after limit ks [])

  -- `ListKeyPage` gives the smallest keys of the store behind the cursor, at most `limit` of them (256
  -- for a limit that is not positive), in strict order, and the last of them as the next cursor;
  -- and it gives the same page whether the store has an index or the map is scanned.
  pub list_key_page-key_set :
      (after : Bytes) (limit : ℕ) (m : MemoryStore T)
      → IsIndexed m
      → let page =
          take
            (normalize_key_page_limit limit)
            (keys_after after (key_set (map_keys m.entries) [])) in
        (list_key_page background after limit m ≡ ok (page, last_key page))
        × (list_key_page background after limit (record m { keys = none })
            ≡ ok (page, last_key page))
  unfolding list_key_page
  list_key_page-key_set after limit m i =
      let n = normalize_key_page_limit limit in
      let scanned = by_scan after n (map_keys m.entries) in
      (
        elim (Option-cases m.keys) [
          | inl bare ↦ ground (arith, scanned)
          | inr (t, e) ↦ ground (arith, by_index after limit t, i t e)
        ],
        rw scanned refl,
      )
