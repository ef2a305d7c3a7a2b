-- ===== src/Lifecycle/Version/Order.antt =====
-- `Compare` is the lexicographic total order on (epoch, sequence).
use Prim.Native.Nat.{Ordering}
use stream_hive.Common.{◌<◌, ◌≡◌, ◌↔◌, ◌⊎◌, true, false, arith}
use stream_hive.Lifecycle.Version.{
  Version, zero_version, compare, same_version, is_zero, older, newer,
}

-- the order that the protocol means: by epoch first, then by sequence
infix 50 ◌≺◌
abbrev pub ◌≺◌ : Version → Version → Type 0
v ≺ w = (v.epoch < w.epoch) ⊎ ((v.epoch ≡ w.epoch) × (v.sequence < w.sequence))

pub newer_iff : (v w : Version) → (newer v w ≡ true) ↔ (w ≺ v)
unfolding newer compare
newer_iff v w = ground arith

pub same_version_iff : (v w : Version) → (same_version v w ≡ true) ↔ (v ≡ w)
unfolding same_version
same_version_iff v w = ground arith

pub is_zero_iff : (v : Version) → (is_zero v ≡ true) ↔ (v ≡ zero_version)
unfolding is_zero
is_zero_iff v = ground arith

-- The three results of `Compare` are exactly the three cases of the lexicographic order.
pub compare_total :
    (v w : Version)
    → ((compare v w ≡ Ordering.lt) ↔ (v ≺ w))
      × ((compare v w ≡ Ordering.eq) ↔ (v ≡ w))
      × ((compare v w ≡ Ordering.gt) ↔ (w ≺ v))
unfolding compare
compare_total v w = (ground arith, ground arith, ground arith)

pub newer_trans : (u v w : Version) → newer u v ≡ true → newer v w ≡ true → newer u w ≡ true
unfolding newer compare
newer_trans u v w h k = ground arith

pub newer_irrefl : (v : Version) → newer v v ≡ false
unfolding newer compare
newer_irrefl v = ground arith

pub older-newer : (v w : Version) → older v w ≡ newer w v
unfolding older newer compare
older-newer v w = ground arith

pub newer_asym : (v w : Version) → newer v w ≡ true → newer w v ≡ false
unfolding newer compare
newer_asym v w h = ground arith

-- `newer v w` or at most: transitivity with a weak step on either side
pub newer_of_not_newer : (u v w : Version) → newer v u ≡ false → newer v w ≡ true → newer u w ≡ true
unfolding newer compare
newer_of_not_newer u v w h k = ground arith

pub not_newer_trans : (u v w : Version) → newer u v ≡ false → newer v w ≡ false → newer u w ≡ false
unfolding newer compare
not_newer_trans u v w h k = ground arith

pub newer_of_newer_not : (u v w : Version) → newer u v ≡ true → newer w v ≡ false → newer u w ≡ true
unfolding newer compare
newer_of_newer_not u v w h k = ground arith
