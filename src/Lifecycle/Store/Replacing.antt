-- ===== src/Lifecycle/Store/Replacing.antt =====
-- `ReplaceSnapshot` accepts every normal form of a checkpoint.
use stream_hive.Common.{◌≡◌, refl, true, false, none, List, [], ◌∷◌, ok, arith, All}
use stream_hive.Common.Bytes.{bytes_equal_iff, bytes_less_irrefl, bytes_less_trans}
use stream_hive.Common.Maps.{Map, lookup, insert, lookup-insert}
use stream_hive.Common.Sorting.{IsAscending}
use stream_hive.Std.Json.{Json}
use stream_hive.Std.Unicode.{Unicode}
use stream_hive.Lifecycle.Records.{Limits, Record, validate}
use stream_hive.Lifecycle.Store.{Store, record_less, replace_loop, replace_snapshot}
use stream_hive.Lifecycle.Store.Keys.{LogicalKey, logical_key_of, logical_key_key, same_key}

record_less_trans :
    (r s t : Record) → record_less r s ≡ true → record_less s t ≡ true → record_less r t ≡ true
unfolding record_less
record_less_trans r s t h k = ground (
  arith,
  bytes_equal_iff r.namespace s.namespace,
  bytes_equal_iff s.namespace t.namespace,
  bytes_equal_iff r.namespace t.namespace,
  bytes_less_irrefl r.namespace,
  bytes_less_trans r.namespace s.namespace t.namespace,
  bytes_less_trans s.namespace r.namespace s.namespace,
  bytes_less_irrefl s.namespace,
  bytes_less_trans r.logical_key s.logical_key t.logical_key,
)

record_less-other :
    (r s : Record) → record_less r s ≡ true → same_key (logical_key_of r) (logical_key_of s) ≡ false
unfolding record_less same_key logical_key_of
record_less-other r s h = ground (
  arith,
  bytes_equal_iff r.namespace s.namespace,
  bytes_equal_iff r.logical_key s.logical_key,
  bytes_less_irrefl r.logical_key,
)

-- the first of an ascending list is before all others
IsAscending-first :
    (r : Record) (rs : List Record)
    → IsAscending record_less (r ∷ rs)
    → All (λ s. record_less r s ≡ true) rs
IsAscending-first r [] h = tt
IsAscending-first r (s ∷ []) h = (h.0, tt)
IsAscending-first r (s ∷ t ∷ rs) h = (h.0, widen (t ∷ rs) (IsAscending-first s (t ∷ rs) h.1))
  where
    widen :
        (ts : List Record)
        → All (λ x. record_less s x ≡ true) ts
        → All (λ x. record_less r x ≡ true) ts
    widen [] k = tt
    widen (x ∷ ts) k = (record_less_trans r s x h.0 k.0, widen ts k.1)

IsAscending-rest :
    (r : Record) (rs : List Record) → IsAscending record_less (r ∷ rs) → IsAscending record_less rs
IsAscending-rest r [] h = tt
IsAscending-rest r (s ∷ rs) h = h.1

-- no key of the records is in the map yet
abbrev IsFresh : Map LogicalKey Record → List Record → Type 0
IsFresh m rs = All (λ r. lookup (logical_key_of r) m ≡ none) rs

IsFresh-insert :
    (r : Record) (rs : List Record) (m : Map LogicalKey Record)
    → All (λ s. record_less r s ≡ true) rs
    → IsFresh m rs
    → IsFresh (insert (logical_key_of r) r m) rs
IsFresh-insert r [] m h f = tt
IsFresh-insert r (s ∷ rs) m h f = (
  ground
      (arith, lookup-insert (logical_key_of r) (logical_key_of s) r m, record_less-other r s h.0),
  IsFresh-insert r rs m h.1 f.1,
)

module _ ⦃u : Unicode⦄ ⦃j : Json Record⦄ where
  replace_loop-ascending :
      (l : Limits) (rs : List Record) (m : Map LogicalKey Record)
      → All (λ r. validate r l ≡ ok tt) rs
      → IsAscending record_less rs
      → IsFresh m rs
      → (next : Map LogicalKey Record) × (replace_loop l rs m ≡ ok next)
  unfolding replace_loop
  replace_loop-ascending l [] m v h f = (m, refl)
  replace_loop-ascending l (r ∷ rs) m v h f =
      let (next, e) =
        replace_loop-ascending l rs (insert (logical_key_of r) r m) v.1 (IsAscending-rest r rs h)
          (IsFresh-insert r rs m (IsAscending-first r rs h) f.1) in
      (next, ground (arith, v.0, f.0))

  no_keys : (rs : List Record) → IsFresh [] rs
  unfolding lookup
  no_keys [] = tt
  no_keys (r ∷ rs) = (refl, no_keys rs)

  -- valid records in the strict order of their keys are never refused
  pub replace_snapshot-ascending :
      (rs : List Record) (s : Store)
      → All (λ r. validate r s.limits ≡ ok tt) rs
      → IsAscending record_less rs
      → (replace_snapshot rs s).0 ≡ ok tt
  unfolding replace_snapshot
  replace_snapshot-ascending rs s v h =
      let (next, e) = replace_loop-ascending s.limits rs [] v h (no_keys rs) in ground arith
