-- ===== src/Storage/Walk/Cursors.antt =====
-- The pages of a pager that serves one set pass the checks, and their cursors move through it.
use stream_hive.Common.{
  ℕ, zero, suc, ◌<◌, ◌≤◌, ◌≡◌, refl, sym, ap, ◌∙◌, true, false, Option, none, some, List, [], ◌∷◌,
  ◌++◌, ok, arith, All, length, take, drop, subst, length-take, take-append-drop,
}
use stream_hive.Common.Bytes.{
  Bytes, bytes_equal_iff, bytes_less, bytes_less_irrefl, bytes_less_asym,
}
use stream_hive.Context.{background}
use stream_hive.Errors.{Fallible}
use stream_hive.Storage.Keys.{
  Ascending, Ascending-rest, Ascending-above, AllAbove, is_after, keys_after,
}
use stream_hive.Storage.Memory.{last_key}
use stream_hive.Storage.Walk.{
  Pager, WalkErrors, walk_fine, stays, check_keys, cursor_bytes, check_page, round_checks,
}

-- a pager that serves the same set of keys at each call
abbrev pub Serves : Pager → List Bytes → Type 0
Serves pager ks =
    (k : ℕ) (after : Bytes)
    → pager k after ≡ ok (take 256 (keys_after after ks), last_key (take 256 (keys_after after ks)))

abbrev pub IsKey : Bytes → Type 0
IsKey k = 0 < length k

pub keys_after-above : (c : Bytes) (xs : List Bytes) → AllAbove c xs → keys_after c xs ≡ xs
unfolding keys_after is_after
keys_after-above c [] a = refl
keys_after-above c (x ∷ xs) a = ground (arith, keys_after-above c xs a.1, a.0)

pub keys_after-nil : (xs : List Bytes) → keys_after [] xs ≡ xs
unfolding keys_after is_after
keys_after-nil [] = refl
keys_after-nil (x ∷ xs) = ground (arith, keys_after-nil xs)

-- a key of an ascending list is before the last one of those that follow
last_key-above :
    (x y : Bytes) (ys post : List Bytes)
    → AllAbove x (y ∷ ys ++ post)
    → bytes_less x (last_key (y ∷ ys)) ≡ true
unfolding last_key
last_key-above x y [] post a = a.0
last_key-above x y (z ∷ zs) post a = last_key-above x z zs post a.1

last_key-IsKey : (x : Bytes) (xs : List Bytes) → All IsKey (x ∷ xs) → IsKey (last_key (x ∷ xs))
unfolding last_key
last_key-IsKey x [] h = h.0
last_key-IsKey x (y ∷ ys) h = last_key-IsKey y ys h.1

-- what follows the last key of a front is the rest
keys_after-last :
    (x : Bytes) (xs post : List Bytes)
    → Ascending (x ∷ xs ++ post)
    → All IsKey (x ∷ xs)
    → keys_after (last_key (x ∷ xs)) (x ∷ xs ++ post) ≡ post
unfolding keys_after last_key is_after
keys_after-last x [] post h keys =
    ground (arith, keys.0, bytes_less_irrefl x, keys_after-above x post (Ascending-above x post h))
keys_after-last x (y ∷ ys) post h keys = ground (
  arith,
  keys_after-last y ys post h.1 keys.1,
  last_key-IsKey y ys keys.1,
  last_key-above x y ys post (Ascending-above x (y ∷ ys ++ post) h),
  bytes_less_asym x (last_key (y ∷ ys)),
)

-- all that follows the last key of a front is above it
last_key-AllAbove :
    (x : Bytes) (xs post : List Bytes)
    → Ascending (x ∷ xs ++ post)
    → AllAbove (last_key (x ∷ xs)) post
unfolding last_key
last_key-AllAbove x [] post h = Ascending-above x post h
last_key-AllAbove x (y ∷ ys) post h = last_key-AllAbove y ys post h.1

last_key-append :
    (pre : List Bytes) (x : Bytes) (xs : List Bytes) → last_key (pre ++ x ∷ xs) ≡ last_key (x ∷ xs)
unfolding last_key
last_key-append [] x xs = refl
last_key-append (y ∷ []) x xs = refl
last_key-append (y ∷ z ∷ zs) x xs = last_key-append (z ∷ zs) x xs

above_moves : (k : Bytes) (ks : List Bytes) → AllAbove k ks → All (λ j. stays j (some k) ≡ false) ks
unfolding stays
above_moves k [] a = tt
above_moves k (j ∷ ks) a = (rw a.0 refl, above_moves k ks a.1)

-- the keys of a page of an ascending list pass the checks
check_keys_pass :
    (errors : WalkErrors) (cursor previous : Option Bytes) (ks : List Bytes)
    → All IsKey ks
    → Ascending ks
    → All (λ k. stays k cursor ≡ false) ks
    → All (λ k. stays k previous ≡ false) ks
    → check_keys errors background cursor previous ks ≡ ok tt
unfolding check_keys
check_keys_pass errors cursor previous [] i a c p = refl
check_keys_pass errors cursor previous (k ∷ ks) i a c p = ground (
  arith,
  i.0,
  c.0,
  p.0,
  check_keys_pass errors cursor (some k) ks i.1 (Ascending-rest k ks a) c.1
      (above_moves k ks (Ascending-above k ks a)),
)

pub no_previous : (ks : List Bytes) → All (λ k. stays k none ≡ false) ks
unfolding stays
no_previous [] = tt
no_previous (k ∷ ks) = (refl, no_previous ks)

-- the cursor stands in front of `rest`
abbrev pub Stands : Option Bytes → List Bytes → List Bytes → Type 0
Stands cursor ks rest =
    (keys_after (cursor_bytes cursor) ks ≡ rest) × All (λ k. stays k cursor ≡ false) rest

pub Stands-start : (ks : List Bytes) → Stands none ks ks
Stands-start ks = (keys_after-nil ks, no_previous ks)

-- behind a page the cursor stands in front of the rest
pub Stands-next :
    (pre : List Bytes) (x : Bytes) (xs rest : List Bytes)
    → Ascending ((pre ++ x ∷ xs) ++ rest)
    → All IsKey (pre ++ x ∷ xs)
    → Stands (some (last_key (x ∷ xs))) ((pre ++ x ∷ xs) ++ rest) rest
Stands-next [] x xs rest a i = (
  keys_after-last x xs rest a i,
  above_moves (last_key (x ∷ xs)) rest (last_key-AllAbove x xs rest a),
)
Stands-next (y ∷ ys) x xs rest a i =
    subst (λ (c : Bytes). Stands (some c) ((y ∷ ys ++ x ∷ xs) ++ rest) rest)
      (last_key-append (y ∷ ys) x xs)
      (
        keys_after-last y (ys ++ x ∷ xs) rest a i,
        above_moves (last_key (y ∷ ys ++ x ∷ xs)) rest (last_key-AllAbove y (ys ++ x ∷ xs) rest a),
      )

pub All-front : (xs ys : List Bytes) (P : Bytes → Type 0) → All P (xs ++ ys) → All P xs
All-front [] ys P h = tt
All-front (x ∷ xs) ys P h = (h.0, All-front xs ys P h.1)

pub Ascending-front : (xs ys : List Bytes) → Ascending (xs ++ ys) → Ascending xs
Ascending-front [] ys h = tt
Ascending-front (x ∷ []) ys h = tt
Ascending-front (x ∷ y ∷ xs) ys h = (h.0, Ascending-front (y ∷ xs) ys h.1)

pub Ascending-back : (xs ys : List Bytes) → Ascending (xs ++ ys) → Ascending ys
Ascending-back [] ys h = h
Ascending-back (x ∷ xs) ys h = Ascending-back xs ys (Ascending-rest x (xs ++ ys) h)

All-take : (n : ℕ) (xs : List Bytes) (P : Bytes → Type 0) → All P xs → All P (take n xs)
All-take zero xs P h = tt
All-take (suc n) [] P h = tt
All-take (suc n) (x ∷ xs) P h = (h.0, All-take n xs P h.1)

Ascending-take : (n : ℕ) (xs : List Bytes) → Ascending xs → Ascending (take n xs)
Ascending-take n xs h =
    Ascending-front (take n xs) (drop n xs) (subst Ascending (sym (take-append-drop n xs)) h)

check_page_pass :
    (errors : WalkErrors) (cursor : Option Bytes) (x : Bytes) (xs : List Bytes)
    → length (x ∷ xs) ≤ 256
    → All IsKey (x ∷ xs)
    → Ascending (x ∷ xs)
    → All (λ k. stays k cursor ≡ false) (x ∷ xs)
    → check_page errors background cursor (x ∷ xs, last_key (x ∷ xs))
      ≡ ok (x ∷ xs, last_key (x ∷ xs))
unfolding check_page
check_page_pass errors cursor x xs few i a c = ground (
  arith,
  last_key-IsKey x xs i,
  bytes_equal_iff (last_key (x ∷ xs)) (last_key (x ∷ xs)),
  check_keys_pass errors cursor none (x ∷ xs) i a c (no_previous (x ∷ xs)),
)

abbrev pub served_page : List Bytes → Fallible (List Bytes × Bytes)
served_page ks = ok (take 256 ks, last_key (take 256 ks))

pub round_accepts :
    (errors : WalkErrors) (pager : Pager) (k : ℕ) (cursor : Option Bytes) (ks rest : List Bytes)
    → Serves pager ks
    → Stands cursor ks rest
    → All IsKey rest
    → Ascending rest
    → round_checks errors walk_fine pager k cursor ≡ ok (take 256 rest, last_key (take 256 rest))
unfolding round_checks
round_accepts errors pager k cursor ks rest serves stands i a = rw served (passes rest i a stands.1)
  where
    served : pager k (cursor_bytes cursor) ≡ ok (take 256 rest, last_key (take 256 rest))
    served = serves k (cursor_bytes cursor) ∙ ap served_page stands.0

    passes :
        (xs : List Bytes)
        → All IsKey xs
        → Ascending xs
        → All (λ j. stays j cursor ≡ false) xs
        → check_page errors background cursor (take 256 xs, last_key (take 256 xs))
          ≡ ok (take 256 xs, last_key (take 256 xs))
    passes [] j b c = unfold check_page last_key in refl
    passes (x ∷ xs) j b c =
        check_page_pass errors cursor x (take 255 xs) (omega (arith, length-take 255 xs))
          (All-take 256 (x ∷ xs) IsKey j) (Ascending-take 256 (x ∷ xs) b)
          (All-take 256 (x ∷ xs) (λ y. stays y cursor ≡ false) c)
