-- ===== src/Storage/Page.antt =====
-- storage/page.go: a page of the smallest keys, kept in order as the keys are scanned.
use stream_hive.Common.{
  ℕ, zero, suc, ◌≤◌, ◌≡◌, refl, ap, ◌∙◌, Bool, true, false, not, ◌&&◌, Option, none, some, inl, inr,
  List, [], ◌∷◌, ◌++◌, arith, length, take, drop, ltb, leb, ◌==◌, if◌then◌else◌, Bool-cases,
  length-take,
}
use stream_hive.Common.Bytes.{Bytes, bytes_equal, bytes_less}
use stream_hive.Storage.Keys.{
  is_after, keys_after, keys_after-add_key, add_key, key_set, take-add_key,
}

unfoldable pub normalize_key_page_limit : ℕ → ℕ
normalize_key_page_limit limit = if limit == 0 then 256 else limit

-- `sort.Search` for the first key that is not before `key`
unfoldable pub search : Bytes → List Bytes → ℕ
search key [] = 0
search key (x ∷ xs) = let rest = search key xs in if bytes_less x key then suc rest else 0

-- `page[i]`
unfoldable pub at : ℕ → List Bytes → Option Bytes
at i [] = none
at zero (x ∷ xs) = some x
at (suc i) (x ∷ xs) = at i xs

-- `index < len(page) && bytes.Equal(page[index], key)`
unfoldable pub is_at : ℕ → Bytes → List Bytes → Bool
unfolding at
is_at i key page = elim (at i page) [ none ↦ false | some x ↦ bytes_equal x key ]

-- the page with `key` moved in at `index`
unfoldable pub splice : ℕ → Bytes → List Bytes → List Bytes
splice i key page = take i page ++ key ∷ drop i page

unfoldable pub insert_key_page : List Bytes → Bytes → Bytes → ℕ → List Bytes
unfolding search is_at splice
insert_key_page page key after limit =
    let index = search key page in
    let grown = splice index key page in
    if ltb 0 (length after) && not (bytes_less after key)
    then page
    else if is_at index key page
    then page
    else if leb limit (length page) && index == length page
    then page
    else if ltb limit (length grown)
    then take limit grown
    else grown

-- a scan over keys in any order
unfoldable pub scan : Bytes → ℕ → List Bytes → List Bytes → List Bytes
unfolding insert_key_page
scan after limit [] page = page
scan after limit (k ∷ ks) page = scan after limit ks (insert_key_page page k after limit)

search-is_at :
    (key : Bytes) (page : List Bytes)
    → is_at (search key page) key page ≡ true
    → add_key key page ≡ page
unfolding search is_at add_key
search-is_at key [] h = ground arith
search-is_at key (x ∷ xs) h = elim (Bool-cases (bytes_less x key)) [
  | inl less ↦ rw less (ap (λ (t : List Bytes). x ∷ t) (search-is_at key xs (rw less at h)))
  | inr other ↦ ground arith
]

search-splice :
    (key : Bytes) (page : List Bytes)
    → is_at (search key page) key page ≡ false
    → splice (search key page) key page ≡ add_key key page
unfolding search is_at splice add_key
search-splice key [] h = refl
search-splice key (x ∷ xs) h = elim (Bool-cases (bytes_less x key)) [
  | inl less ↦ rw less (ap (λ (t : List Bytes). x ∷ t) (search-splice key xs (rw less at h)))
  | inr other ↦ ground arith
]

-- a key that is searched to the end is put there
search-end :
    (key : Bytes) (page : List Bytes)
    → search key page ≡ length page
    → add_key key page ≡ page ++ key ∷ []
unfolding search add_key
search-end key [] h = refl
search-end key (x ∷ xs) h = elim (Bool-cases (bytes_less x key)) [
  | inl less ↦ rw less (ap (λ (t : List Bytes). x ∷ t) (search-end key xs (ground arith)))
  | inr other ↦ absurd (ground arith)
]

pub take-all : (n : ℕ) (xs : List Bytes) → length xs ≤ n → take n xs ≡ xs
take-all zero [] h = refl
take-all zero (x ∷ xs) h = absurd (omega arith)
take-all (suc n) [] h = refl
take-all (suc n) (x ∷ xs) h = ap (λ (t : List Bytes). x ∷ t) (take-all n xs (omega arith))

pub take-front : (n : ℕ) (xs ys : List Bytes) → length xs ≡ n → take n (xs ++ ys) ≡ xs
take-front zero [] ys h = refl
take-front zero (x ∷ xs) ys h = absurd (omega arith)
take-front (suc n) [] ys h = absurd (omega arith)
take-front (suc n) (x ∷ xs) ys h = ap (λ (t : List Bytes). x ∷ t) (take-front n xs ys (omega arith))

-- `insertKeyPage` puts a key behind the cursor into the page, as into a set of at most `limit`
-- keys, and leaves the page alone for any other.
pub insert_key_page-add_key :
    (page : List Bytes) (key after : Bytes) (limit : ℕ)
    → length page ≤ limit
    → insert_key_page page key after limit
      ≡ (if is_after after key then take limit (add_key key page) else page)
unfolding insert_key_page is_after
insert_key_page-add_key page key after limit few =
    elim (Bool-cases (is_at (search key page) key page)) [
      | inl present ↦ ground (arith, search-is_at key page present, take-all limit page few)
      | inr absent ↦ elim (Bool-cases (search key page == length page)) [
        | inl ending ↦ ground (
          arith,
          search-splice key page absent,
          search-end key page,
          take-front limit page (key ∷ []),
          take-all limit (add_key key page),
        )
        | inr inner ↦
            ground (arith, search-splice key page absent, take-all limit (add_key key page))
      ]
    ]

-- Scanning keys in whatever order, with repetitions, gives the `limit` smallest of those behind
-- the cursor, in strict order.
pub scan-key_set :
    (after : Bytes) (limit : ℕ) (ks set : List Bytes)
    → scan after limit ks (take limit (keys_after after set))
      ≡ take limit (keys_after after (key_set ks set))
unfolding scan key_set
scan-key_set after limit [] set = refl
scan-key_set after limit (k ∷ ks) set =
    ap (scan after limit ks) step ∙ scan-key_set after limit ks (add_key k set)
  where
    step :
        insert_key_page (take limit (keys_after after set)) k after limit
        ≡ take limit (keys_after after (add_key k set))
    step = ground (
      arith,
      insert_key_page-add_key (take limit (keys_after after set)) k after limit,
      length-take limit (keys_after after set),
      take-add_key limit k (keys_after after set),
      keys_after-add_key after k set,
    )
