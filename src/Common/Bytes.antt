-- ===== src/Common/Bytes.antt =====
-- Byte strings: Go's `[]byte` and `string`, `bytes.Equal`, `bytes.Compare`, and the big-endian
-- integers of encoding/binary.
use Prim.Native.Nat.{ℕ, ◌+◌, ◌*◌, ◌/◌, ◌%◌, ◌^◌, ◌≤◌, ◌<◌}
use mathlib.Core.Path.{◌≡◌, refl}
use mathlib.Core.Logic.{◌↔◌, inl, inr}
use mathlib.Core.Bool.{Bool, true, false, ◌&&◌}
use mathlib.Core.List.{List, [], ◌∷◌, ◌++◌}
use native.Mathlib.Omega.{arith}
use stream_hive.Common.Tests.{Bool-cases, ltb, ◌==◌, if◌then◌else◌}
use stream_hive.Common.Lists.{length, take, drop}

abbrev pub Bytes : Type 0
Bytes = List ℕ

-- `bytes.Equal`
unfoldable pub bytes_equal : Bytes → Bytes → Bool
bytes_equal [] [] = true
bytes_equal (x ∷ xs) (y ∷ ys) = x == y && bytes_equal xs ys
bytes_equal _ _ = false

pub bytes_equal_iff : (a b : Bytes) → (bytes_equal a b ≡ true) ↔ (a ≡ b)
unfolding bytes_equal
bytes_equal_iff [] [] = (λ _. refl, λ _. refl)
bytes_equal_iff (x ∷ xs) (y ∷ ys) = ground (arith, bytes_equal_iff xs ys)
bytes_equal_iff [] (y ∷ ys) = ground arith
bytes_equal_iff (x ∷ xs) [] = ground arith

-- `bytes.Compare(a, b) < 0`
unfoldable pub bytes_less : Bytes → Bytes → Bool
bytes_less [] [] = false
bytes_less [] (y ∷ ys) = true
bytes_less (x ∷ xs) [] = false
bytes_less (x ∷ xs) (y ∷ ys) = if x == y then bytes_less xs ys else ltb x y

pub bytes_less_irrefl : (a : Bytes) → bytes_less a a ≡ false
unfolding bytes_less
bytes_less_irrefl [] = refl
bytes_less_irrefl (x ∷ xs) = ground (arith, bytes_less_irrefl xs)

pub bytes_less_trans :
    (a b c : Bytes) → bytes_less a b ≡ true → bytes_less b c ≡ true → bytes_less a c ≡ true
unfolding bytes_less
bytes_less_trans [] [] c h k = ground arith
bytes_less_trans [] (y ∷ b) [] h k = ground arith
bytes_less_trans [] (y ∷ b) (z ∷ c) h k = refl
bytes_less_trans (x ∷ a) [] c h k = ground arith
bytes_less_trans (x ∷ a) (y ∷ b) [] h k = ground arith
bytes_less_trans (x ∷ a) (y ∷ b) (z ∷ c) h k = ground (arith, bytes_less_trans a b c)

pub bytes_less_asym : (a b : Bytes) → bytes_less a b ≡ true → bytes_less b a ≡ false
bytes_less_asym a b h = elim (Bool-cases (bytes_less b a)) [
  | inr k ↦ k
  | inl k ↦ absurd (ground (arith, bytes_less_trans a b a h k, bytes_less_irrefl a))
]

pub bytes_less_total : (a b : Bytes) → bytes_less a b ≡ false → bytes_less b a ≡ false → a ≡ b
unfolding bytes_less
bytes_less_total [] [] h k = refl
bytes_less_total [] (y ∷ b) h k = ground arith
bytes_less_total (x ∷ a) [] h k = ground arith
bytes_less_total (x ∷ a) (y ∷ b) h k = ground (arith, bytes_less_total a b)

-- `binary.BigEndian.PutUint32` and `Uint32`
unfoldable pub put_uint32 : ℕ → Bytes
put_uint32 v = v / 2 ^ 24 % 256 ∷ v / 2 ^ 16 % 256 ∷ v / 2 ^ 8 % 256 ∷ v % 256 ∷ []

unfoldable pub uint32 : Bytes → ℕ
uint32 (a ∷ b ∷ c ∷ d ∷ _) = a * 2 ^ 24 + b * 2 ^ 16 + c * 2 ^ 8 + d
uint32 _ = 0

pub uint32-put_uint32 : (v : ℕ) → v < 2 ^ 32 → uint32 (put_uint32 v) ≡ v
unfolding put_uint32 uint32
uint32-put_uint32 v h = omega arith

-- `binary.BigEndian.PutUint64` and `Uint64`, by their two halves
unfoldable pub put_uint64 : ℕ → Bytes
unfolding put_uint32
put_uint64 v = put_uint32 (v / 2 ^ 32 % 2 ^ 32) ++ put_uint32 (v % 2 ^ 32)

unfoldable pub uint64 : Bytes → ℕ
uint64 bs = uint32 bs * 2 ^ 32 + uint32 (drop 4 bs)

pub length-put_uint32 : (v : ℕ) → length (put_uint32 v) ≡ 4
unfolding put_uint32
length-put_uint32 v = refl

-- Reading the number looks at its own bytes alone.
pub uint32-append : (v : ℕ) (rest : Bytes) → v < 2 ^ 32 → uint32 (put_uint32 v ++ rest) ≡ v
unfolding put_uint32 uint32
uint32-append v rest h = omega arith

pub uint64-append : (v : ℕ) (rest : Bytes) → v < 2 ^ 64 → uint64 (put_uint64 v ++ rest) ≡ v
unfolding put_uint64 uint64 put_uint32 uint32
uint64-append v rest h = omega arith

-- The first four bytes decide what `uint32` reads.
pub uint32-front : (front back : Bytes) → 4 ≤ length front → uint32 (front ++ back) ≡ uint32 front
unfolding uint32
uint32-front (a ∷ b ∷ c ∷ d ∷ front) back h = refl
uint32-front [] back h = absurd (omega arith)
uint32-front (a ∷ []) back h = absurd (omega arith)
uint32-front (a ∷ b ∷ []) back h = absurd (omega arith)
uint32-front (a ∷ b ∷ c ∷ []) back h = absurd (omega arith)

pub uint32-take : (bs : Bytes) → 4 ≤ length bs → uint32 (take 4 bs) ≡ uint32 bs
unfolding uint32
uint32-take (a ∷ b ∷ c ∷ d ∷ bs) h = refl
uint32-take [] h = absurd (omega arith)
uint32-take (a ∷ []) h = absurd (omega arith)
uint32-take (a ∷ b ∷ []) h = absurd (omega arith)
uint32-take (a ∷ b ∷ c ∷ []) h = absurd (omega arith)
