-- ===== src/Common/Sorting.antt =====
-- `sort.Slice` and `sort.Strings` as insertion sort by a strict order `less`. Where equal
-- elements can be told apart, no property relies on their order.
use stream_hive.Common.Tests.{if◌then◌else◌, Bool-cases}
use stream_hive.Common.Lists.{length, All}
use Prim.Native.Nat.{suc}
use mathlib.Core.Path.{◌≡◌, refl, ap, ◌∙◌}
use mathlib.Core.Logic.{inl, inr}
use mathlib.Core.Bool.{Bool, true, false}
use mathlib.Core.List.{List, [], ◌∷◌, Perm}
use mathlib.Core.List.Perm
use native.Mathlib.Omega.{arith}

module _ {ℓ} {A : Type ℓ} (less : A → A → Bool) where
  unfoldable pub place : A → List A → List A
  place x [] = x ∷ []
  place x (y ∷ ys) = if less y x then y ∷ place x ys else x ∷ y ∷ ys

  unfoldable pub sort : List A → List A
  unfolding place
  sort [] = []
  sort (x ∷ xs) = place x (sort xs)

  -- neighbours are never out of order
  abbrev pub IsSorted : List A → Type 0
  IsSorted [] = Unit
  IsSorted (x ∷ []) = Unit
  IsSorted (x ∷ y ∷ ys) = (less y x ≡ false) × IsSorted (y ∷ ys)

  -- every element before a later one
  abbrev pub IsAscending : List A → Type 0
  IsAscending [] = Unit
  IsAscending (x ∷ []) = Unit
  IsAscending (x ∷ y ∷ ys) = (less x y ≡ true) × IsAscending (y ∷ ys)

  place-perm : (x : A) (ys : List A) → Perm (place x ys) (x ∷ ys)
  unfolding place
  place-perm x [] = Perm.refl (x ∷ [])
  place-perm x (y ∷ ys) = elim (Bool-cases (less y x)) [
    | inl h ↦ rw h (Perm.trans (Perm.cons y (place-perm x ys)) (Perm.swap x y ys))
    | inr h ↦ rw h (Perm.refl (x ∷ y ∷ ys))
  ]

  -- Sorting keeps the elements and their number.
  pub sort-perm : (xs : List A) → Perm (sort xs) xs
  unfolding sort
  sort-perm [] = Perm.refl []
  sort-perm (x ∷ xs) = Perm.trans (place-perm x (sort xs)) (Perm.cons x (sort-perm xs))

  length-place : (x : A) (ys : List A) → length (place x ys) ≡ suc (length ys)
  unfolding place
  length-place x [] = refl
  length-place x (y ∷ ys) = ground (arith, length-place x ys)

  pub length-sort : (xs : List A) → length (sort xs) ≡ length xs
  unfolding sort
  length-sort [] = refl
  length-sort (x ∷ xs) = omega (arith, length-place x (sort xs), length-sort xs)

  module _ {κ} (P : A → Type κ) where
    All-place : (x : A) (ys : List A) → P x → All P ys → All P (place x ys)
    unfolding place
    All-place x [] p h = (p, tt)
    All-place x (y ∷ ys) p h = elim (Bool-cases (less y x)) [
      | inl l ↦ rw l (h.0, All-place x ys p h.1)
      | inr l ↦ rw l (p, h)
    ]

    pub All-sort : (xs : List A) → All P xs → All P (sort xs)
    unfolding sort
    All-sort [] h = tt
    All-sort (x ∷ xs) h = All-place x (sort xs) h.0 (All-sort xs h.1)

  module _ (asym : (x y : A) → less x y ≡ true → less y x ≡ false) where
    place-IsSorted : (x : A) (ys : List A) → IsSorted ys → IsSorted (place x ys)
    unfolding place
    place-IsSorted x [] h = tt
    place-IsSorted x (y ∷ []) h = ground (arith, asym y x)
    place-IsSorted x (y ∷ z ∷ ys) h = ground (arith, asym y x, place-IsSorted x (z ∷ ys) (h.1))

    pub sort-IsSorted : (xs : List A) → IsSorted (sort xs)
    unfolding sort
    sort-IsSorted [] = tt
    sort-IsSorted (x ∷ xs) = place-IsSorted x (sort xs) (sort-IsSorted xs)

    -- what is in order already is kept
    pub sort-ascending : (xs : List A) → IsAscending xs → sort xs ≡ xs
    unfolding sort place
    sort-ascending [] h = refl
    sort-ascending (x ∷ []) h = refl
    sort-ascending (x ∷ y ∷ ys) h =
        ap (place x) (sort-ascending (y ∷ ys) h.1) ∙ rw (asym x y h.0) refl
