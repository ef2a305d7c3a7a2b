-- ===== src/Lifecycle/Version.antt =====
-- internal/lifecycle/model.go: `Version`, `Compare` and `IsZero`.
pub mod Order
use Prim.Native.Nat.{Ordering}
use stream_hive.Common.{ℕ, ◌≡◌, Bool, true, false, ◌&&◌, ◌||◌, ltb, ◌==◌, if◌then◌else◌}

pub record Version : Type 0 where
  pub epoch : ℕ
  pub sequence : ℕ

-- `Version{}`
abbrev pub zero_version : Version
zero_version = record { epoch = 0; sequence = 0 }

-- Go's -1, 0 and 1 are `lt`, `eq` and `gt`.
unfoldable pub compare : Version → Version → Ordering
compare v other =
    if ltb v.epoch other.epoch || (v.epoch == other.epoch && ltb v.sequence other.sequence)
    then Ordering.lt
    else if ltb other.epoch v.epoch || (v.epoch == other.epoch && ltb other.sequence v.sequence)
    then Ordering.gt
    else Ordering.eq

-- Go's `==` on the struct
unfoldable pub same_version : Version → Version → Bool
same_version v other = v.epoch == other.epoch && v.sequence == other.sequence

unfoldable pub is_zero : Version → Bool
unfolding same_version
is_zero v = same_version v zero_version

-- The tests that the callers write: `c < 0`, `c <= 0`, `c > 0`, `c >= 0`.
abbrev pub negative : Ordering → Bool
negative Ordering.lt = true
negative _ = false

abbrev pub positive : Ordering → Bool
positive Ordering.gt = true
positive _ = false

-- `v.Compare(other) < 0`, and so on
unfoldable pub older : Version → Version → Bool
older v other = negative (compare v other)

unfoldable pub newer : Version → Version → Bool
newer v other = positive (compare v other)

-- `v.Compare(other) == 0`
abbrev is_eq : Ordering → Bool
is_eq Ordering.eq = true
is_eq _ = false

unfoldable pub compares_equal : Version → Version → Bool
compares_equal v other = is_eq (compare v other)
