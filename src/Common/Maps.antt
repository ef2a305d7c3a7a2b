-- ===== src/Common/Maps.antt =====
-- Go maps as association lists. A key is written at most once by `insert`, so the length of the
-- list is the `len` of the map.
use stream_hive.Common.Tests.{Bool-cases, if◌then◌else◌}
use stream_hive.Common.Lists.{length}
use stream_hive.Common.Bytes.{Bytes, bytes_equal, bytes_equal_iff}
use Prim.Native.Nat.{suc, ◌+◌, ◌≤◌}
use mathlib.Core.Path.{◌≡◌, refl, ap, subst, sym, ◌∙◌}
use mathlib.Core.Logic.{◌↔◌, inl, inr}
use mathlib.Core.Bool.{Bool, true}
use mathlib.Core.Option.{Option, none, some}
use mathlib.Core.List.{List, [], ◌∷◌}
use native.Mathlib.Omega.{arith}

-- Go's `==` on a key type
pub record Key {ℓ} (K : Type ℓ) : Type ℓ where
  pub same : K → K → Bool
  pub same_iff : (a b : K) → (same a b ≡ true) ↔ (a ≡ b)

instance abbrev pub bytes_key : Key Bytes
bytes_key = record { same = bytes_equal; same_iff = bytes_equal_iff }

pub same_refl {ℓ} : {K : Type ℓ} ⦃e : Key K⦄ (k : K) → e.same k k ≡ true
same_refl ⦃e⦄ k = (e.same_iff k k).1 refl

abbrev pub Map {ℓ} : Type ℓ → Type ℓ → Type ℓ
Map K V = List (K × V)

module _ {ℓ} {K V : Type ℓ} ⦃e : Key K⦄ where
  -- `v, ok := m[k]`
  unfoldable pub lookup : K → Map K V → Option V
  lookup k [] = none
  lookup k ((j, v) ∷ m) = if e.same j k then some v else lookup k m

  -- `m[k] = v`
  unfoldable pub insert : K → V → Map K V → Map K V
  insert k v [] = (k, v) ∷ []
  insert k v ((j, w) ∷ m) = if e.same j k then (k, v) ∷ m else (j, w) ∷ insert k v m

  -- `delete(m, k)`
  unfoldable pub delete : K → Map K V → Map K V
  delete k [] = []
  delete k ((j, w) ∷ m) = let rest = delete k m in if e.same j k then rest else (j, w) ∷ rest

  pub lookup-insert :
      (k j : K) (v : V) (m : Map K V)
      → lookup j (insert k v m) ≡ (if e.same k j then some v else lookup j m)
  unfolding lookup insert
  lookup-insert k j v [] = refl
  lookup-insert k j v ((i, w) ∷ m) =
      ground (arith, e.same_iff k j, e.same_iff i k, e.same_iff i j, lookup-insert k j v m)

  pub lookup-delete :
      (k j : K) (m : Map K V) → lookup j (delete k m) ≡ (if e.same k j then none else lookup j m)
  unfolding lookup delete
  lookup-delete k j [] = ground arith
  lookup-delete k j ((i, w) ∷ m) =
      ground (arith, e.same_iff k j, e.same_iff i k, e.same_iff i j, lookup-delete k j m)

  pub length-insert_old :
      (k : K) (v w : V) (m : Map K V) → lookup k m ≡ some w → length (insert k v m) ≡ length m
  unfolding lookup insert
  length-insert_old k v w [] h = cc
  length-insert_old k v w ((i, u) ∷ m) h = ground (arith, length-insert_old k v w m)

  pub length-insert_new :
      (k : K) (v : V) (m : Map K V) → lookup k m ≡ none → length (insert k v m) ≡ length m + 1
  unfolding lookup insert
  length-insert_new k v [] h = omega arith
  length-insert_new k v ((i, u) ∷ m) h = ground (arith, length-insert_new k v m)

  pub length-delete : (k : K) (m : Map K V) → length (delete k m) ≤ length m
  unfolding delete
  length-delete k [] = omega arith
  length-delete k ((i, u) ∷ m) = ground (arith, length-delete k m)

-- no key is written twice
module _ {ℓ} {K V : Type ℓ} ⦃e : Key K⦄ where
  abbrev pub AreDistinct : Map K V → Type ℓ
  AreDistinct [] = Unit {ℓ}
  AreDistinct ((k, v) ∷ m) = (lookup k m ≡ none) × AreDistinct m

  pub insert-AreDistinct :
      (k : K) (v : V) (m : Map K V) → AreDistinct m → AreDistinct (insert k v m)
  unfolding insert lookup
  insert-AreDistinct k v [] d = (refl, tt)
  insert-AreDistinct k v ((i, u) ∷ m) (fresh, d) = elim (Bool-cases (e.same i k)) [
    | inl same ↦
        let eq : i ≡ k = (e.same_iff i k).0 same in
        rw same (subst (λ (x : K). lookup x m ≡ none) eq fresh, d)
    | inr other ↦ rw other (
      ground (arith, lookup-insert k i v m, e.same_iff k i, e.same_iff i k),
      insert-AreDistinct k v m d,
    )
  ]

  pub delete-AreDistinct : (k : K) (m : Map K V) → AreDistinct m → AreDistinct (delete k m)
  unfolding delete
  delete-AreDistinct k [] d = tt
  delete-AreDistinct k ((i, u) ∷ m) (fresh, d) = elim (Bool-cases (e.same i k)) [
    | inl same ↦ rw same (delete-AreDistinct k m d)
    | inr other ↦ rw other (ground (arith, lookup-delete k i m), delete-AreDistinct k m d)
  ]

  delete_absent : (k : K) (m : Map K V) → lookup k m ≡ none → delete k m ≡ m
  unfolding delete lookup
  delete_absent k [] h = refl
  delete_absent k ((i, u) ∷ m) h = ground (arith, delete_absent k m)

  -- the length with one key less
  pub length-delete_old :
      (k : K) (v : V) (m : Map K V)
      → AreDistinct m
      → lookup k m ≡ some v
      → length m ≡ suc (length (delete k m))
  unfolding delete lookup
  length-delete_old k v [] d h = cc
  length-delete_old k v ((i, u) ∷ m) (fresh, d) h = elim (Bool-cases (e.same i k)) [
    | inl same ↦
        let eq : i ≡ k = (e.same_iff i k).0 same in
        let absent : lookup k m ≡ none = subst (λ (x : K). lookup x m ≡ none) eq fresh in
        ground (arith, ap length (delete_absent k m absent))
    | inr other ↦ ground (arith, length-delete_old k v m d)
  ]

  -- two association lists of one map
  abbrev pub AreSame : Map K V → Map K V → Type ℓ
  AreSame m n = AreDistinct m × ((k : K) → lookup k m ≡ lookup k n)

  lookup_first : (k : K) (v : V) (m : Map K V) → lookup k ((k, v) ∷ m) ≡ some v
  unfolding lookup
  lookup_first k v m = ground (arith, same_refl k)

  -- the rest of `m`, and `n` without the first key of `m`
  AreSame-delete : (k : K) (v : V) (m n : Map K V) → AreSame ((k, v) ∷ m) n → AreSame m (delete k n)
  unfolding lookup
  AreSame-delete k v m n ((fresh, d), same) = (
    d,
    λ j. elim (Bool-cases (e.same k j)) [
      | inl here ↦
          let absent : lookup j m ≡ none =
            subst (λ (x : K). lookup x m ≡ none) ((e.same_iff k j).0 here) fresh in
          ground (arith, absent, lookup-delete k j n)
      | inr other ↦ ground (arith, same j, lookup-delete k j n)
    ],
  )

  absent-nil : (n : Map K V) → ((k : K) → none ≡ lookup k n) → n ≡ []
  absent-nil [] h = refl
  absent-nil ((k, v) ∷ n) h = absurd (ground (arith, h k, lookup_first k v n))

  pub AreSame-length : (m n : Map K V) → AreDistinct n → AreSame m n → length m ≡ length n
  AreSame-length [] n d (_, same) = ap length (sym (absent-nil n (λ k. unfold lookup in same k)))
  AreSame-length ((k, v) ∷ m) n d same =
      let held : lookup k n ≡ some v = sym (same.1 k) ∙ lookup_first k v m in
      let rest =
        AreSame-length m (delete k n) (delete-AreDistinct k n d) (AreSame-delete k v m n same) in
      ground (arith, rest, length-delete_old k v n d held)
