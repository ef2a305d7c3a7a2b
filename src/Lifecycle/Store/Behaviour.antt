-- ===== src/Lifecycle/Store/Behaviour.antt =====
-- Each outcome of the store's operations: when `Apply` accepts, and what never goes back.
use stream_hive.Common.{
  ◌≡◌, ◌⊎◌, inl, inr, true, false, Option, none, some, Result, ok, err, ◌∙◌, arith, Result-cases,
  Option-cases, Bool-cases,
}
use stream_hive.Common.Maps.{insert, lookup-insert}
use stream_hive.Std.Unicode.{Unicode}
use stream_hive.Std.Json.{Json}
use stream_hive.Errors.{Error}
use stream_hive.Lifecycle.Version.{newer}
use stream_hive.Lifecycle.Version.Order.{compare_total, newer_iff, newer_irrefl, newer_asym}
use stream_hive.Lifecycle.Records.{Record, body_equal, validate}
use stream_hive.Lifecycle.Records.Laws.{body_equal_iff}
use stream_hive.Lifecycle.Store.{Store, ApplyResult, classify, apply, applied, duplicate, stale}
use stream_hive.Lifecycle.Store.Keys.{
  LogicalKey, logical_key_of, logical_key_key, same_key, same_key_iff,
}
use stream_hive.Lifecycle.Store.Convergence.{at_key, at_key-apply}

module _ ⦃u : Unicode⦄ ⦃j : Json Record⦄ where
  -- `Classify` gives the result that `Apply` will give, and `Apply` fails only with the store
  -- unchanged.
  pub classify-apply :
      (r : Record) (s : Store)
      → ((apply r s).0 ≡ classify r s) × ((e : Error) → (apply r s).0 ≡ err e → (apply r s).1 ≡ s)
  unfolding classify apply
  classify-apply r s = (ground arith, λ e h. ground arith)

  -- what `Apply` reports of a valid record
  abbrev pub Reported : Record → Option Record → Result Error ApplyResult → Type 0
  Reported r none out = out ≡ ok (record { outcome = applied; version = r.version })
  Reported r (some p) out =
      ((newer r.version p.version ≡ true)
        × (out ≡ ok (record { outcome = applied; version = r.version })))
      ⊎ ((newer p.version r.version ≡ true)
          × (out ≡ ok (record { outcome = stale; version = p.version })))
      ⊎ ((r.version ≡ p.version)
          × (body_equal r p ≡ true)
          × (out ≡ ok (record { outcome = duplicate; version = p.version })))
      ⊎ ((r.version ≡ p.version) × (body_equal r p ≡ false) × (out ≡ err Error.conflict))

  -- A valid record is applied when its key is new or holds an older version, is stale when the key
  -- holds a newer one, and at the same version is a duplicate or a conflict by its body.
  pub apply_reports :
      (r : Record) (s : Store)
      → validate r s.limits ≡ ok tt
      → Reported r (at_key s (logical_key_of r)) (apply r s).0
  unfolding apply
  apply_reports r s valid = elim (Option-cases (at_key s (logical_key_of r))) [
    | inl e ↦ rw e (ground arith)
    | inr (p, e) ↦ rw e (
        ground (
          arith,
          compare_total r.version p.version,
          newer_iff r.version p.version,
          newer_iff p.version r.version,
        ))
  ]

  -- an application writes the record under its key, and nothing else
  pub applied_writes :
      (r : Record) (s : Store) (result : ApplyResult)
      → (apply r s).0 ≡ ok result
      → result.outcome ≡ applied
      → (validate r s.limits ≡ ok tt)
        × ((apply r s).1 ≡ record s { records = insert (logical_key_of r) r s.records })
        × (result.version ≡ r.version)
  unfolding apply
  applied_writes r s result h k = ground arith

  apply_held :
      (r : Record) (s : Store)
      → validate r s.limits ≡ ok tt
      → at_key s (logical_key_of r) ≡ some r
      → apply r s ≡ (ok (record { outcome = duplicate; version = r.version }), s)
  unfolding apply
  apply_held r s valid held = ground (arith, body_equal_iff r r, compare_total r.version r.version)

  -- Applying again changes nothing: once a record was applied, applying it again reports a
  -- duplicate and leaves the store.
  pub apply_again :
      (r : Record) (s : Store) (result : ApplyResult)
      → (apply r s).0 ≡ ok result
      → result.outcome ≡ applied
      → apply r (apply r s).1
        ≡ (ok (record { outcome = duplicate; version = r.version }), (apply r s).1)
  apply_again r s result h k =
      let (valid, written, _) = applied_writes r s result h k in
      rw written (
        apply_held r _ valid (
          ground (
            arith,
            lookup-insert (logical_key_of r) (logical_key_of r) r s.records,
            same_key_iff (logical_key_of r) (logical_key_of r),
          )))

  pub apply_invalid :
      (r : Record) (s : Store) (e : Error) → validate r s.limits ≡ err e → apply r s ≡ (err e, s)
  unfolding apply
  apply_invalid r s e bad = ground arith

  -- a key keeps its record, or gets the one that came, which is newer
  pub apply_replaces :
      (r : Record) (s : Store) (k : LogicalKey) (p : Record)
      → at_key s k ≡ some p
      → (at_key (apply r s).1 k ≡ some p)
        ⊎ ((at_key (apply r s).1 k ≡ some r) × (newer r.version p.version ≡ true))
  apply_replaces r s k p held = elim (Result-cases (validate r s.limits)) [
    | inr (e, bad) ↦ inl (rw (apply_invalid r s e bad) held)
    | inl (_, valid) ↦ elim (Bool-cases (same_key (logical_key_of r) k)) [
      | inr other ↦ inl (at_key-apply r s k valid ∙ rw other held)
      | inl same ↦ elim (Bool-cases (newer r.version p.version)) [
        | inl fresh ↦
            inr (at_key-apply r s k valid ∙ rw (same, held) (unfold newer in ground arith), fresh)
        | inr old ↦ inl (at_key-apply r s k valid ∙ rw (same, held) (unfold newer in ground arith))
      ]
    ]
  ]

  -- Whatever record comes, valid or not, no key loses its record, and no key's version goes back.
  pub apply_monotone :
      (r : Record) (s : Store) (k : LogicalKey) (p : Record)
      → at_key s k ≡ some p
      → (q : Record) × (at_key (apply r s).1 k ≡ some q) × (newer p.version q.version ≡ false)
  apply_monotone r s k p held = elim (apply_replaces r s k p held) [
    | inl same ↦ (p, same, newer_irrefl p.version)
    | inr (after, fresh) ↦ (r, after, newer_asym r.version p.version fresh)
  ]
