-- ===== src/Storage/Keys.antt =====
-- Sets of keys as strictly ascending lists, in the bytewise order: the reference for the pages.
use stream_hive.Common.{
  ℕ, zero, suc, ◌≡◌, refl, ap, inl, inr, Bool, true, false, List, [], ◌∷◌, ◌++◌, arith, length,
  take, All, Bool-cases, if◌then◌else◌, ◌||◌, ◌==◌,
}
use stream_hive.Common.Bytes.{
  Bytes, bytes_equal, bytes_equal_iff, bytes_less, bytes_less_irrefl, bytes_less_trans,
  bytes_less_asym, bytes_less_total,
}
use stream_hive.Common.Sorting.{IsAscending}

abbrev pub Ascending : List Bytes → Type 0
Ascending ks = IsAscending bytes_less ks

-- put a key into a set
unfoldable pub add_key : Bytes → List Bytes → List Bytes
add_key k [] = k ∷ []
add_key k (x ∷ xs) =
    let rest = add_key k xs in
    if bytes_less x k then x ∷ rest else if bytes_equal x k then x ∷ xs else k ∷ x ∷ xs

-- take a key out of a set
unfoldable pub remove_key : Bytes → List Bytes → List Bytes
remove_key k [] = []
remove_key k (x ∷ xs) = let rest = remove_key k xs in if bytes_equal x k then rest else x ∷ rest

-- `len(after) == 0 || bytes.Compare(key, after) > 0`
unfoldable pub is_after : Bytes → Bytes → Bool
is_after after k = length after == 0 || bytes_less after k

-- the keys of a set behind `after`; the empty key stands before all
unfoldable pub keys_after : Bytes → List Bytes → List Bytes
unfolding is_after
keys_after after [] = []
keys_after after (x ∷ xs) =
    let rest = keys_after after xs in if is_after after x then x ∷ rest else rest

-- the keys of a set that are not before `pivot`
unfoldable pub keys_from : Bytes → List Bytes → List Bytes
keys_from pivot [] = []
keys_from pivot (x ∷ xs) =
    let rest = keys_from pivot xs in if bytes_less x pivot then rest else x ∷ rest

-- the set of the keys of a list
unfoldable pub key_set : List Bytes → List Bytes → List Bytes
unfolding add_key
key_set [] set = set
key_set (k ∷ ks) set = key_set ks (add_key k set)

-- every key is behind `k`
abbrev pub AllAbove : Bytes → List Bytes → Type 0
AllAbove k xs = All (λ x. bytes_less k x ≡ true) xs

pub Ascending-rest : (x : Bytes) (xs : List Bytes) → Ascending (x ∷ xs) → Ascending xs
Ascending-rest x [] h = tt
Ascending-rest x (y ∷ ys) h = h.1

AllAbove-widen :
    (k x : Bytes) (xs : List Bytes) → bytes_less k x ≡ true → AllAbove x xs → AllAbove k xs
AllAbove-widen k x [] h a = tt
AllAbove-widen k x (y ∷ ys) h a = (bytes_less_trans k x y h a.0, AllAbove-widen k x ys h a.1)

pub Ascending-above : (x : Bytes) (xs : List Bytes) → Ascending (x ∷ xs) → AllAbove x xs
Ascending-above x [] h = tt
Ascending-above x (y ∷ ys) h = (h.0, AllAbove-widen x y ys h.0 (Ascending-above y ys h.1))

pub Ascending-cons :
    (x : Bytes) (xs : List Bytes) → AllAbove x xs → Ascending xs → Ascending (x ∷ xs)
Ascending-cons x [] a h = tt
Ascending-cons x (y ∷ ys) a h = (a.0, h)

add_key-AllAbove :
    (k x : Bytes) (xs : List Bytes)
    → bytes_less x k ≡ true
    → AllAbove x xs
    → AllAbove x (add_key k xs)
unfolding add_key
add_key-AllAbove k x [] h a = (h, tt)
add_key-AllAbove k x (y ∷ ys) h a = ground (arith, add_key-AllAbove k x ys)

-- what is neither before nor the same is behind
not_less : (x k : Bytes) → bytes_less x k ≡ false → bytes_equal x k ≡ false → bytes_less k x ≡ true
not_less x k h e = elim (Bool-cases (bytes_less k x)) [
  | inl less ↦ less
  | inr other ↦ absurd (ground (arith, bytes_equal_iff x k, bytes_less_total x k h other))
]

pub add_key-Ascending : (k : Bytes) (xs : List Bytes) → Ascending xs → Ascending (add_key k xs)
unfolding add_key
add_key-Ascending k [] h = tt
add_key-Ascending k (x ∷ xs) h = elim (Bool-cases (bytes_less x k)) [
  | inl less ↦ rw less (
      Ascending-cons x (add_key k xs) (add_key-AllAbove k x xs less (Ascending-above x xs h))
        (add_key-Ascending k xs (Ascending-rest x xs h)))
  | inr other ↦ elim (Bool-cases (bytes_equal x k)) [
    | inl same ↦ rw (other, same) h
    | inr differs ↦ rw (other, differs) (not_less x k other differs, h)
  ]
]

-- A key before all others is put first.
pub add_key-first : (k : Bytes) (xs : List Bytes) → AllAbove k xs → add_key k xs ≡ k ∷ xs
unfolding add_key
add_key-first k [] a = refl
add_key-first k (x ∷ xs) a =
    ground (arith, a.0, bytes_less_asym k x, bytes_equal_iff x k, bytes_less_irrefl k)

remove_key-AllAbove : (k x : Bytes) (xs : List Bytes) → AllAbove x xs → AllAbove x (remove_key k xs)
unfolding remove_key
remove_key-AllAbove k x [] a = tt
remove_key-AllAbove k x (y ∷ ys) a = elim (Bool-cases (bytes_equal y k)) [
  | inl same ↦ rw same (remove_key-AllAbove k x ys a.1)
  | inr other ↦ rw other (a.0, remove_key-AllAbove k x ys a.1)
]

-- A key that is behind all others of a set is not in it.
remove_key-absent : (k : Bytes) (xs : List Bytes) → AllAbove k xs → remove_key k xs ≡ xs
unfolding remove_key
remove_key-absent k [] a = refl
remove_key-absent k (x ∷ xs) a =
    ground (arith, a.0, remove_key-absent k xs a.1, bytes_equal_iff x k, bytes_less_irrefl k)

-- what taking a key out does to a set that another was put into
pub remove_key-add_key :
    (k j : Bytes) (xs : List Bytes)
    → Ascending xs
    → remove_key k (add_key j xs)
      ≡ (if bytes_equal j k then remove_key k xs else add_key j (remove_key k xs))
unfolding add_key remove_key
remove_key-add_key k j [] h = ground (arith, bytes_equal_iff j k)
remove_key-add_key k j (x ∷ xs) h = elim (Bool-cases (bytes_less x j)) [
  | inl less ↦ ground (
    arith,
    remove_key-add_key k j xs (Ascending-rest x xs h),
    bytes_equal_iff x k,
    bytes_equal_iff j k,
    bytes_less_irrefl k,
    remove_key-absent k xs,
  )
  | inr other ↦ elim (Bool-cases (bytes_equal x j)) [
    | inl same ↦ ground (arith, bytes_equal_iff x k, bytes_equal_iff j k, bytes_equal_iff x j)
    | inr differs ↦
        let less = not_less x j other differs in
        let above : AllAbove j (remove_key k (x ∷ xs)) =
          remove_key-AllAbove k j (x ∷ xs)
            (less, AllAbove-widen j x xs less (Ascending-above x xs h)) in
        ground (arith, add_key-first j (remove_key k (x ∷ xs)) above)
  ]
]

take-take : (n : ℕ) (xs : List Bytes) → take n (take n xs) ≡ take n xs
take-take zero xs = refl
take-take (suc n) [] = refl
take-take (suc n) (x ∷ xs) = ap (◌∷◌ x) (take-take n xs)

take-cons : (n : ℕ) (x : Bytes) (xs : List Bytes) → take n (x ∷ take n xs) ≡ take n (x ∷ xs)
take-cons zero x xs = refl
take-cons (suc zero) x xs = refl
take-cons (suc (suc n)) x [] = refl
take-cons (suc (suc n)) x (y ∷ ys) = ap (λ (t : List Bytes). x ∷ t) (take-cons (suc n) y ys)

-- the smallest `n` keys of a set are decided by the smallest `n` of before
pub take-add_key :
    (n : ℕ) (k : Bytes) (xs : List Bytes) → take n (add_key k (take n xs)) ≡ take n (add_key k xs)
unfolding add_key
take-add_key zero k xs = refl
take-add_key (suc n) k [] = refl
take-add_key (suc n) k (x ∷ xs) =
    ground (arith, take-add_key n k xs, take-take n xs, take-cons n x xs)

-- The keys behind `after` of a set that a key was put into.
pub keys_after-add_key :
    (after k : Bytes) (xs : List Bytes)
    → keys_after after (add_key k xs)
      ≡ (if is_after after k then add_key k (keys_after after xs) else keys_after after xs)
unfolding keys_after add_key
keys_after-add_key after k [] = ground arith
keys_after-add_key after k (x ∷ xs) = elim (Bool-cases (bytes_less x k)) [
  | inl less ↦ ground (arith, keys_after-add_key after k xs)
  | inr other ↦ elim (Bool-cases (bytes_equal x k)) [
    | inl same ↦ ground (arith, bytes_equal_iff x k)
    | inr differs ↦ ground (arith, not_less x k other differs, bytes_less_trans after k x)
  ]
]

-- The keys of a list, put into a set one by one, are taken through the filter one by one.
pub key_set-Ascending : (ks xs : List Bytes) → Ascending xs → Ascending (key_set ks xs)
unfolding key_set
key_set-Ascending [] xs h = h
key_set-Ascending (k ∷ ks) xs h = key_set-Ascending ks (add_key k xs) (add_key-Ascending k xs h)

pub key_set-append : (ks js xs : List Bytes) → key_set (ks ++ js) xs ≡ key_set js (key_set ks xs)
unfolding key_set
key_set-append [] js xs = refl
key_set-append (k ∷ ks) js xs = key_set-append ks js (add_key k xs)
