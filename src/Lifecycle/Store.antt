-- ===== src/Lifecycle/Store.antt =====
-- internal/lifecycle/model.go: `Store`, the logical state view, and checkpoint records. A method
-- holds the store's lock from its first read to its last write, so it is one function.
pub mod Behaviour
pub mod Convergence
pub mod Keys
pub mod Replacing
use Prim.Native.Nat.{Ordering}
use stream_hive.Common.{
  ℕ, ◌+◌, ◌≡◌, Bool, true, false, ◌&&◌, Option, none, some, List, [], ◌∷◌, map, Result, ok, err,
  check, fail_if, ◌>>=◌, ◌>>◌, length, if◌then◌else◌,
}
use stream_hive.Common.Bytes.{Bytes, bytes_equal, bytes_less}
use stream_hive.Common.Maps.{Key, Map, lookup, insert}
use stream_hive.Common.Sorting.{sort}
use stream_hive.Std.Unicode.{Unicode}
use stream_hive.Std.Json.{Json}
use stream_hive.Errors
use stream_hive.Errors.{Error, Fallible}
use stream_hive.Lifecycle.Version.{Version, compare, is_zero, newer}
use stream_hive.Lifecycle.Records.{
  Limits, normalized, LifecycleState, deleted, same_state, Record, equal, body_equal, validate,
  validate_lookup,
}
use stream_hive.Lifecycle.Store.Keys.{LogicalKey, logical_key_of, logical_key_key}

pub data ApplyOutcome : Type 0 where
  applied duplicate stale : ApplyOutcome

pub record ApplyResult : Type 0 where
  pub outcome : ApplyOutcome
  pub version : Version

pub record StoreStats : Type 0 where
  pub records : ℕ
  pub tombstones : ℕ

pub record Store : Type 0 where
  pub limits : Limits
  pub records : Map LogicalKey Record

unfoldable pub new_store : Limits → Store
new_store l = record { limits = normalized l; records = [] }

-- `previous` is `none` where the key does not exist.
unfoldable pub classify_record : Record → Option Record → Fallible ApplyResult
classify_record r none = ok (record { outcome = applied; version = r.version })
classify_record r (some previous) = elim (compare r.version previous.version) [
  | Ordering.gt ↦ ok (record { outcome = applied; version = r.version })
  | Ordering.lt ↦ ok (record { outcome = stale; version = previous.version })
  | Ordering.eq ↦
      if body_equal r previous
      then ok (record { outcome = duplicate; version = previous.version })
      else err Error.conflict
]

-- `if result.Outcome == OutcomeApplied { s.records[key] = record.clone() }`
unfoldable pub store_outcome : Fallible ApplyResult → Record → Store → Fallible ApplyResult × Store
store_outcome (err e) r s = (err e, s)
store_outcome (ok result) r s = elim result.outcome [
  | applied ↦ (ok result, record s { records = insert (logical_key_of r) r s.records })
  | duplicate ↦ (ok result, s)
  | stale ↦ (ok result, s)
]

unfoldable pub count_tombstones : Map LogicalKey Record → ℕ
count_tombstones [] = 0
count_tombstones ((k, r) ∷ m) =
    let rest = count_tombstones m in if same_state r.state deleted then rest + 1 else rest

unfoldable pub stats : Store → StoreStats
stats s = record { records = length s.records; tombstones = count_tombstones s.records }

module _ ⦃u : Unicode⦄ ⦃j : Json Record⦄ where
  unfoldable pub classify : Record → Store → Fallible ApplyResult
  unfolding classify_record
  classify r s = do validate r s.limits; classify_record r (lookup (logical_key_of r) s.records)

  unfoldable pub apply : Record → Store → Fallible ApplyResult × Store
  unfolding classify_record store_outcome
  apply r s = elim (validate r s.limits) [
    | err e ↦ (err e, s)
    | ok _ ↦ store_outcome (classify_record r (lookup (logical_key_of r) s.records)) r s
  ]

  -- the loop of `ReplaceSnapshot`, with `next` built so far
  unfoldable pub replace_loop :
      Limits → List Record → Map LogicalKey Record → Fallible (Map LogicalKey Record)
  replace_loop l [] next = ok next
  replace_loop l (r ∷ rs) next =
      let rest = replace_loop l rs (insert (logical_key_of r) r next) in
      elim (validate r l) [
        | err e ↦ err e
        | ok _ ↦ elim (lookup (logical_key_of r) next) [
          | some _ ↦ err Error.duplicate_logical_key
          | none ↦ rest
        ]
      ]

  unfoldable pub replace_snapshot : List Record → Store → Fallible Unit × Store
  unfolding replace_loop
  replace_snapshot rs s = elim (replace_loop s.limits rs []) [
    | err e ↦ (err e, s)
    | ok next ↦ (ok tt, record s { records = next })
  ]

-- `none` where the key is not found
unfoldable pub get : Bytes → Bytes → Store → Fallible (Option Record)
get namespace key s = do
  validate_lookup s.limits namespace key
  ok (lookup (record { namespace = namespace; key = key }) s.records)

-- the order of `Snapshot` and of checkpoints
unfoldable pub record_less : Record → Record → Bool
record_less r s =
    if bytes_equal r.namespace s.namespace
    then bytes_less r.logical_key s.logical_key
    else bytes_less r.namespace s.namespace

abbrev values : Map LogicalKey Record → List Record
values [] = []
values ((k, r) ∷ m) = r ∷ values m

unfoldable pub snapshot : Store → List Record
unfolding record_less
snapshot s = sort record_less (values s.records)
