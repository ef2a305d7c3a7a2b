-- ===== src/Examples/StoreRuns.antt =====
-- The theorems about records and the store, at concrete inputs.
use stream_hive.Common.{◌≡◌, refl, false, Result, ◌++◌, [], ◌∷◌, some, ok, err}
use mathlib.Core.List.{Mem, mem-cons, not-mem-nil}
use mathlib.Core.Logic.Or
use mathlib.Core.List.Perm
use stream_hive.Common.Maps.{insert, lookup}
use stream_hive.Errors.{Error}
use stream_hive.Lifecycle.Version.{compare, newer, is_zero}
use stream_hive.Std.Utf8.{runes}
use stream_hive.Common.Bytes.{bytes_equal}
use stream_hive.Lifecycle.Records.{
  Record, validate, validate_authority_id, is_printable, body_equal, same_state,
}
use stream_hive.Lifecycle.Store.{Store, applied, apply}
use stream_hive.Lifecycle.Store.Keys.{logical_key_of, same_key}
use stream_hive.Lifecycle.Store.Behaviour.{apply_monotone}
use stream_hive.Lifecycle.Store.Convergence.{
  at_key, Agrees, AllAgree, deliver, AllValid, deliver-perm,
}
use stream_hive.Examples.Codec.{ascii, record_codec}
use stream_hive.Examples.Samples.{
  limits, eight, first, second, first_valid, second_valid, empty_store,
}

-- a store that holds `first`
abbrev holding : Store
holding = record {
  limits = limits;
  records = (record { namespace = first.namespace; key = first.logical_key }, first) ∷ [];
}

apply-first :
    apply first empty_store ≡ (ok (record { outcome = applied; version = first.version }), holding)
unfolding apply validate validate_authority_id is_printable is_zero runes logical_key_of lookup
    insert
apply-first = refl

apply_conflict :
    (apply
      (record first { blob_key = eight ++ eight ++ eight ++ [] ++ eight; authority_id = b'b' ∷ [] })
      holding).0
    ≡ err Error.conflict
unfolding apply validate validate_authority_id is_printable is_zero runes logical_key_of lookup
    insert same_key bytes_equal compare body_equal same_state
apply_conflict = refl

first_held : at_key holding (logical_key_of first) ≡ some first
unfolding lookup logical_key_of same_key bytes_equal
first_held = refl

apply_monotone_example :
    (q : Record) × (at_key (apply second holding).1 (logical_key_of first) ≡ some q)
    × (newer first.version q.version ≡ false)
apply_monotone_example = apply_monotone second holding (logical_key_of first) first first_held

-- what holds of `first` and of `second` holds of every record in the list of the two
both :
    (P : Record → Type 0)
    → ((r : Record) → IsProp (P r))
    → P first
    → P second
    → (r : Record) → Mem r (first ∷ second ∷ [])
    → P r
both P prop a b r m =
    Or.elim (prop r) (mem-cons.0 m) (λ e. rw e a)
      (λ n. Or.elim (prop r) (mem-cons.0 n) (λ e. rw e b) (λ o. absurd (not-mem-nil o)))

answer-set : IsSet (Result Error Unit)
answer-set = hlevel

Agrees-prop : (r t : Record) → IsProp (Agrees r t)
Agrees-prop r t = hlevel

pair_valid : AllValid (first ∷ second ∷ []) limits
pair_valid = both (λ r. validate r limits ≡ ok tt) (λ r. answer-set _ _) first_valid second_valid

pair_agree : AllAgree (first ∷ second ∷ [])
pair_agree r t mr mt =
    both (λ r. Agrees r t) (λ r. Agrees-prop r t)
      (both (λ t. Agrees first t) (λ t. Agrees-prop first t) (λ k v. refl) (λ k v. absurd (cc)) t
        mt)
      (both (λ t. Agrees second t) (λ t. Agrees-prop second t) (λ k v. absurd (cc)) (λ k v. refl) t
        mt)
      r mr

deliver-perm_example :
    at_key (deliver (first ∷ second ∷ []) empty_store) (logical_key_of first)
    ≡ at_key (deliver (second ∷ first ∷ []) empty_store) (logical_key_of first)
deliver-perm_example =
    deliver-perm (first ∷ second ∷ []) (second ∷ first ∷ []) empty_store (logical_key_of first)
      (Perm.swap second first []) pair_valid pair_agree
