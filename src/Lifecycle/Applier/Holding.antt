-- ===== src/Lifecycle/Applier/Holding.antt =====
-- What an `Apply` that succeeded leaves: under the record's key, its version and body, or a newer one.
use stream_hive.Common.{
  ◌≡◌, ◌≢◌, refl, sym, ap, ◌∙◌, ◌⊎◌, inl, inr, true, Option, none, some, List, ok, arith, subst,
  Result-cases,
}
use stream_hive.Common.Bytes.{Bytes}
use stream_hive.Std.Json.{Json}
use stream_hive.Std.Unicode.{Unicode}
use stream_hive.Std.Sha256.{Sha256}
use stream_hive.Errors.{Fallible}
use stream_hive.Storage.Blobs.{BlobStore}
use stream_hive.Lifecycle.Version.{Version, newer}
use stream_hive.Lifecycle.Version.Order.{newer_trans, newer_asym, newer_iff, compare_total}
use stream_hive.Lifecycle.Records.{Record, body_equal, validate}
use stream_hive.Lifecycle.Records.Laws.{InRange, body_equal_iff}
use stream_hive.Lifecycle.Store.{Store, ApplyResult, apply, applied}
use stream_hive.Lifecycle.Store.Keys.{logical_key_of, same_key, same_key_iff}
use stream_hive.Lifecycle.Store.Convergence.{at_key, at_key-apply, merge}
use stream_hive.Lifecycle.Store.Behaviour.{
  Reported, apply_reports, classify-apply, apply_invalid, apply_replaces,
}
use stream_hive.Lifecycle.Journal.Files.{Disk}
use stream_hive.Lifecycle.Journal.Append.Durability.{IsConsistent, append-IsConsistent}
use stream_hive.Lifecycle.Applier.{Applier, ApplyIo, apply_checks, commit, applier_apply}
use stream_hive.Lifecycle.Applier.Recovery.{
  outcome-cases, apply_checks_ok, commit-cases, committed, applier_apply-cases,
}

module _ ⦃u : Unicode⦄ ⦃json : Json Record⦄ where
  -- `q` is newer than `r`, or has its version and its body
  abbrev pub Covers : Record → Record → Type 0
  Covers q r =
      (newer q.version r.version ≡ true) ⊎ ((q.version ≡ r.version) × (body_equal r q ≡ true))

  -- under the record's key, the state holds one that covers it
  abbrev pub Holds : Store → Record → Type 0
  Holds s r = (q : Record) × (at_key s (logical_key_of r) ≡ some q) × Covers q r

  merge-Covers :
      (r : Record) (o : Option Record) (result : ApplyResult)
      → Reported r o (ok result)
      → (q : Record) × (merge r o ≡ some q) × Covers q r
  merge-Covers r none result h = (r, refl, inr (refl, ground (arith, body_equal_iff r r)))
  merge-Covers r (some p) result h = elim h [
    | inl (fresh, _) ↦
        (r, unfold newer in ground arith, inr (refl, ground (arith, body_equal_iff r r)))
    | inr (inl (old, _)) ↦ (
      p,
      ground (
        arith,
        compare_total r.version p.version,
        newer_iff p.version r.version,
        newer_asym p.version r.version,
      ),
      inl old,
    )
    | inr (inr (inl (same, body, _))) ↦
        (p, ground (arith, compare_total r.version p.version), inr (sym same, body))
    | inr (inr (inr (same, body, failed))) ↦ absurd (ground arith)
  ]

  -- a record that `Apply` did not refuse is held
  apply-Holds :
      (r : Record) (s : Store) (result : ApplyResult)
      → (apply r s).0 ≡ ok result
      → Holds (apply r s).1 r
  apply-Holds r s result h = elim (Result-cases (validate r s.limits)) [
    | inr (e, bad) ↦ absurd (ground (arith, apply_invalid r s e bad))
    | inl (_, valid) ↦
        let (q, merged, kept) =
          merge-Covers r (at_key s (logical_key_of r)) result
            (subst (Reported r (at_key s (logical_key_of r))) h (apply_reports r s valid)) in
        let here : same_key (logical_key_of r) (logical_key_of r) ≡ true =
          (same_key_iff (logical_key_of r) (logical_key_of r)).1 refl in
        (q, at_key-apply r s (logical_key_of r) valid ∙ rw here merged, kept)
  ]

  apply_idle :
      (r : Record) (s : Store) (result : ApplyResult)
      → (apply r s).0 ≡ ok result
      → result.outcome ≢ applied
      → (apply r s).1 ≡ s
  unfolding apply
  apply_idle r s result h other = ground arith

  Holds-apply : (r t : Record) (s : Store) → Holds s r → Holds (apply t s).1 r
  Holds-apply r t s (q, here, covers) = elim (apply_replaces t s (logical_key_of r) q here) [
    | inl same ↦ (q, same, covers)
    | inr (after, fresh) ↦ elim covers [
      | inl old ↦ (t, after, inl (newer_trans t.version q.version r.version fresh old))
      | inr (same, body) ↦
          (t, after, inl (subst (λ (v : Version). newer t.version v ≡ true) same fresh))
    ]
  ]

module _ {S : Type 0} ⦃blob : BlobStore S⦄ ⦃sha : Sha256⦄ ⦃u : Unicode⦄ ⦃json : Json Record⦄ where
  -- the state after `Apply` is that of before, or that of the store's `Apply`
  applier_apply_state :
      (io : ApplyIo) (capabilities : List Bytes) (r : Record) (a : Applier S) (d : Disk)
      → ((applier_apply io capabilities r none a d).1.state ≡ a.state)
        ⊎ ((applier_apply io capabilities r none a d).1.state ≡ (apply r a.state).1)
  applier_apply_state io capabilities r a d =
      elim (applier_apply-cases io capabilities r none a d) [
        | inl (same, _, _) ↦ inl (ap (λ (x : Applier S). x.state) same)
        | inr (result, _, _, _, shape) ↦ elim (commit-cases io r none a d) [
          | inl (e, _, state, _) ↦ inl (rw shape state)
          | inr (_, _, whole) ↦ inr (rw (shape, whole) (unfold committed in refl))
        ]
      ]

  pub Holds-applier_apply :
      (io : ApplyIo) (capabilities : List Bytes) (r t : Record) (a : Applier S) (d : Disk)
      → Holds a.state r
      → Holds (applier_apply io capabilities t none a d).1.state r
  Holds-applier_apply io capabilities r t a d h = elim (applier_apply_state io capabilities t a d) [
    | inl same ↦ subst (λ (s : Store). Holds s r) (sym same) h
    | inr same ↦ subst (λ (s : Store). Holds s r) (sym same) (Holds-apply r t a.state h)
  ]

  -- where `Apply` succeeds, the store's `Apply` does, with the same result and state
  applier_apply_ok :
      (io : ApplyIo) (capabilities : List Bytes) (r : Record) (a : Applier S) (d : Disk)
      (result : ApplyResult)
      → (applier_apply io capabilities r none a d).0 ≡ ok result
      → ((apply r a.state).0 ≡ ok result)
        × ((applier_apply io capabilities r none a d).1.state ≡ (apply r a.state).1)
  applier_apply_ok io capabilities r a d result h =
      elim (Result-cases (apply_checks io.entry capabilities r a)) [
        | inr (e, bad) ↦ absurd (unfold applier_apply in ground arith)
        | inl (found, good) ↦
            let (classified, _) = apply_checks_ok io.entry capabilities r a found good in
            let reported : (apply r a.state).0 ≡ ok found =
              (classify-apply r a.state).0 ∙ classified in
            elim (outcome-cases found.outcome) [
              | inl fresh ↦
                  let shape : applier_apply io capabilities r none a d ≡ commit io r none a d =
                    unfold applier_apply in ground arith in
                  elim (commit-cases io r none a d) [
                    | inl (e, failed, _, _) ↦ absurd (ground arith)
                    | inr (_, _, whole) ↦ (
                      sym (
                            ap (λ (x : Fallible ApplyResult × Applier S × Disk). x.0)
                              (shape ∙ whole))
                          ∙ h,
                      rw (shape, whole) (unfold committed in refl),
                    )
                  ]
              | inr other ↦
                  let shape : applier_apply io capabilities r none a d ≡ (ok found, a, d) =
                    unfold applier_apply in ground arith in
                  let idle : (apply r a.state).1 ≡ a.state =
                    apply_idle r a.state found reported (λ fresh. ground arith) in
                  (ground arith, ground arith)
            ]
      ]

  pub applier_apply-Holds :
      (io : ApplyIo) (capabilities : List Bytes) (r : Record) (a : Applier S) (d : Disk)
      (result : ApplyResult)
      → (applier_apply io capabilities r none a d).0 ≡ ok result
      → Holds (applier_apply io capabilities r none a d).1.state r
  applier_apply-Holds io capabilities r a d result h =
      let (good, same) = applier_apply_ok io capabilities r a d result h in
      subst (λ (s : Store). Holds s r) (sym same) (apply-Holds r a.state result good)

  pub applier_apply-IsConsistent :
      (io : ApplyIo) (capabilities : List Bytes) (r : Record) (a : Applier S) (d : Disk)
      (result : ApplyResult)
      → IsConsistent a.journal d
      → InRange r
      → (applier_apply io capabilities r none a d).0 ≡ ok result
      → IsConsistent
          (applier_apply io capabilities r none a d).1.journal
          (applier_apply io capabilities r none a d).2
  applier_apply-IsConsistent io capabilities r a d result c range h =
      elim (applier_apply-cases io capabilities r none a d) [
        | inl (same, kept, _) ↦ rw (same, kept) c
        | inr (found, _, _, _, shape) ↦ elim (commit-cases io r none a d) [
          | inl (e, failed, _, _) ↦ absurd (ground arith)
          | inr (_, done, whole) ↦
              rw (shape, whole)
                (unfold committed in
                  (append-IsConsistent io.journal io.append r a.journal d c range done).0)
        ]
      ]
