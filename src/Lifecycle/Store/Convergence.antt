-- ===== src/Lifecycle/Store/Convergence.antt =====
-- Replicas that apply the same records hold the same state, in whatever order the records come.
use Prim.Native.Nat.{Ordering}
use stream_hive.Common.{
  ◌≡◌, refl, Option, none, some, List, [], ◌∷◌, ok, sym, ap, ◌∙◌, arith, if◌then◌else◌,
}
use stream_hive.Common.Maps.{lookup, lookup-insert}
use stream_hive.Std.Unicode.{Unicode}
use stream_hive.Std.Json.{Json}
use stream_hive.Lifecycle.Version.{compare}
use stream_hive.Lifecycle.Version.Order.{compare_total}
use stream_hive.Lifecycle.Records.{Record, Limits, validate}
use stream_hive.Lifecycle.Store.{Store, apply}
use mathlib.Core.List.{Mem, Perm, Permᴰ, mem-cons_self, mem-cons_of_mem}
use mathlib.Core.List.Perm
use mathlib.Core.Logic.{∥∥₁_elim}
use mathlib.Core.Option
use stream_hive.Lifecycle.Store.Keys.{
  LogicalKey, logical_key_of, logical_key_key, same_key, same_key_iff,
}

-- the record that a key holds after `r` came to a key that held `previous`
abbrev pub merge : Record → Option Record → Option Record
merge r none = some r
merge r (some previous) = elim (compare r.version previous.version) [
  | Ordering.gt ↦ some r
  | _ ↦ some previous
]

module _ ⦃u : Unicode⦄ ⦃j : Json Record⦄ where
  abbrev pub at_key : Store → LogicalKey → Option Record
  at_key s k = lookup k s.records

  -- `Apply` of a valid record changes its own key alone, and there keeps the newer record.
  pub at_key-apply :
      (r : Record) (s : Store) (k : LogicalKey)
      → validate r s.limits ≡ ok tt
      → at_key (apply r s).1 k
        ≡ (if same_key (logical_key_of r) k then merge r (at_key s k) else at_key s k)
  unfolding apply
  at_key-apply r s k valid =
      ground
        (arith, lookup-insert (logical_key_of r) k r s.records, same_key_iff (logical_key_of r) k)

-- a version token stands for one record
abbrev pub Agrees : Record → Record → Type 0
Agrees r t = logical_key_of r ≡ logical_key_of t → r.version ≡ t.version → r ≡ t

merge_comm :
    (r t : Record) (o : Option Record)
    → (r.version ≡ t.version → r ≡ t)
    → merge r (merge t o) ≡ merge t (merge r o)
unfolding compare
merge_comm r t none h = ground (arith, compare_total r.version t.version)
merge_comm r t (some p) h = ground (
  arith,
  compare_total r.version t.version,
  compare_total r.version p.version,
  compare_total t.version p.version,
)

-- what key `k` holds after the records `rs` came, in this order
merge_all : LogicalKey → List Record → Option Record → Option Record
merge_all k [] o = o
merge_all k (r ∷ rs) o = merge_all k rs (if same_key (logical_key_of r) k then merge r o else o)

abbrev pub AllAgree : List Record → Type 0
AllAgree rs = (r t : Record) → Mem r rs → Mem t rs → Agrees r t

merge_all_swap :
    (k : LogicalKey) (r t : Record) (rs : List Record) (o : Option Record)
    → Agrees r t
    → merge_all k (r ∷ t ∷ rs) o ≡ merge_all k (t ∷ r ∷ rs) o
unfolding merge_all
merge_all_swap k r t rs o h = ground (
  arith,
  same_key_iff (logical_key_of r) k,
  same_key_iff (logical_key_of t) k,
  λ (e : logical_key_of r ≡ logical_key_of t). merge_comm r t o (h e),
)

AllAgree-perm : {rs ts : List Record} → Permᴰ rs ts → AllAgree rs → AllAgree ts
AllAgree-perm p h r t mr mt = h r t ((Perm.mem_iff ∣ p ∣₁).1 mr) ((Perm.mem_iff ∣ p ∣₁).1 mt)

merge_all-perm :
    {rs ts : List Record} (k : LogicalKey) (o : Option Record)
    → Permᴰ rs ts
    → AllAgree rs
    → merge_all k rs o ≡ merge_all k ts o
unfolding merge_all
merge_all-perm k o Permᴰ.nil h = refl
merge_all-perm k o (Permᴰ.cons {a = r} {b = t} e p) h =
    rw e (merge_all-perm k _ p (λ a b ma mb. h a b (mem-cons_of_mem _ ma) (mem-cons_of_mem _ mb)))
merge_all-perm k o (Permᴰ.swap {a = r} {b = t} {l = rs} e f) h =
    rw (← e, ← f)
      (merge_all_swap k r t rs o (h r t mem-cons_self (mem-cons_of_mem _ mem-cons_self)))
merge_all-perm k o (Permᴰ.trans p q) h =
    merge_all-perm k o p h ∙ merge_all-perm k o q (AllAgree-perm p h)

Record-set : IsSet Record
Record-set = hlevel

module _ ⦃u : Unicode⦄ ⦃j : Json Record⦄ where
  -- a replica that applies each record as it comes, and goes on after a conflict
  pub deliver : List Record → Store → Store
  deliver [] s = s
  deliver (r ∷ rs) s = deliver rs (apply r s).1

  abbrev pub AllValid : List Record → Limits → Type 0
  AllValid rs l = (r : Record) → Mem r rs → validate r l ≡ ok tt

  limits-apply : (r : Record) (s : Store) → (apply r s).1.limits ≡ s.limits
  unfolding apply
  limits-apply r s = ground arith

  at_key-deliver :
      (rs : List Record) (s : Store) (k : LogicalKey)
      → AllValid rs s.limits
      → at_key (deliver rs s) k ≡ merge_all k rs (at_key s k)
  unfolding deliver merge_all
  at_key-deliver [] s k h = refl
  at_key-deliver (r ∷ rs) s k h =
      at_key-deliver rs (apply r s).1 k (λ t m. rw limits-apply (h t (mem-cons_of_mem _ m)))
      ∙ ap (merge_all k rs) (at_key-apply r s k (h r mem-cons_self))

  -- Two replicas that start from one store and are given the same valid records, in whatever
  -- orders, hold the same record at every key, if no two of the records conflict.
  pub deliver-perm :
      (rs ts : List Record) (s : Store) (k : LogicalKey)
      → Perm rs ts
      → AllValid rs s.limits
      → AllAgree rs
      → at_key (deliver rs s) k ≡ at_key (deliver ts s) k
  deliver-perm rs ts s k p valid agree = ∥∥₁_elim p (Option.is_set Record-set _ _) λ d.
      at_key-deliver rs s k valid
      ∙ merge_all-perm k (at_key s k) d agree
      ∙ sym (at_key-deliver ts s k (λ r m. valid r ((Perm.mem_iff p).1 m)))
