-- ===== src/Lifecycle/Applier/Recovery.antt =====
-- An applier's state is what a restart would replay from its journal.
use stream_hive.Common.{
  ◌≡◌, refl, ◌≢◌, sym, ◌∙◌, ◌⊎◌, inl, inr, Option, List, [], ◌∷◌, ◌++◌, ok, err, arith,
  Result-cases,
}
use stream_hive.Common.Bytes.{Bytes}
use stream_hive.Std.Json.{Json}
use stream_hive.Std.Unicode.{Unicode}
use stream_hive.Std.Sha256.{Sha256}
use stream_hive.Context.{background}
use stream_hive.Errors.{Error, Fallible}
use stream_hive.Storage.Blobs.{BlobStore}
use stream_hive.Lifecycle.Records.{Record, validate}
use stream_hive.Lifecycle.Store.{
  Store, ApplyOutcome, ApplyResult, classify, apply, applied, duplicate, stale,
}
use stream_hive.Lifecycle.Store.Behaviour.{classify-apply}
use stream_hive.Lifecycle.Journal.Files.{Disk}
use stream_hive.Lifecycle.Journal.Append.{publish, append, replay_loop}
use stream_hive.Lifecycle.Journal.Append.Durability.{append_done}
use stream_hive.Lifecycle.Journal.Append.Failures.{append_error}
use stream_hive.Lifecycle.Applier.{
  Applier, ApplyIo, ensure_present, apply_checks, commit, applier_apply,
}

module _ ⦃u : Unicode⦄ ⦃json : Json Record⦄ where
  -- what the program gives `Replay`: `Apply` of the store, without its result
  unfoldable pub replay_apply : Record → Store → Fallible Unit × Store
  replay_apply r s = elim (apply r s).0 [
    | err e ↦ (err e, (apply r s).1)
    | ok _ ↦ (ok tt, (apply r s).1)
  ]

  -- replaying the journal on the store `base` of the checkpoint gives the applier's state
  abbrev pub Replays : {S : Type 0} → Store → Applier S → Type 0
  Replays base a = replay_loop replay_apply background a.journal.records base ≡ (ok tt, a.state)

  replay_step :
      (q : Record) (rs : List Record) (s : Store) (result : ApplyResult)
      → (apply q s).0 ≡ ok result
      → replay_loop replay_apply background (q ∷ rs) s
        ≡ replay_loop replay_apply background rs (apply q s).1
  unfolding replay_loop replay_apply
  replay_step q rs s result e = ground arith

  replay_refused :
      (q : Record) (rs : List Record) (s : Store) (e : Error)
      → (apply q s).0 ≡ err e
      → replay_loop replay_apply background (q ∷ rs) s ≡ (err e, (apply q s).1)
  unfolding replay_loop replay_apply
  replay_refused q rs s e bad = ground arith

  -- one more record behind a replay that succeeded
  replay_loop-append :
      (rs : List Record) (r : Record) (s t : Store)
      → replay_loop replay_apply background rs s ≡ (ok tt, t)
      → (result : ApplyResult) → (apply r t).0 ≡ ok result
      → replay_loop replay_apply background (rs ++ r ∷ []) s ≡ (ok tt, (apply r t).1)
  replay_loop-append [] r s t h result e =
      let same : s ≡ t = unfold replay_loop in ground arith in
      rw same (replay_step r [] t result e ∙ (unfold replay_loop in refl))
  replay_loop-append (q ∷ rs) r s t h result e = elim (Result-cases (apply q s).0) [
    | inr (x, bad) ↦ absurd (ground (arith, replay_refused q rs s x bad))
    | inl (found, good) ↦
        replay_step q (rs ++ r ∷ []) s found good
        ∙ replay_loop-append rs r (apply q s).1 t (sym (replay_step q rs s found good) ∙ h) result e
  ]

pub outcome-cases : (o : ApplyOutcome) → (o ≡ applied) ⊎ (o ≡ duplicate) ⊎ (o ≡ stale)
outcome-cases applied = inl refl
outcome-cases duplicate = inr (inl refl)
outcome-cases stale = inr (inr refl)

module _ {S : Type 0} ⦃blob : BlobStore S⦄ ⦃sha : Sha256⦄ ⦃u : Unicode⦄ ⦃json : Json Record⦄ where
  -- a record that passed the checks, and is to be applied, is one that the store applies
  pub apply_checks_ok :
      (entry : Option Error) (capabilities : List Bytes) (r : Record) (a : Applier S)
      (result : ApplyResult)
      → apply_checks entry capabilities r a ≡ ok result
      → (classify r a.state ≡ ok result) × (validate r a.limits ≡ ok tt)
  unfolding apply_checks
  apply_checks_ok entry capabilities r a result h = ground arith

  -- the applier after a commit that succeeded
  unfoldable pub committed : ApplyIo → Record → Option Bytes → Applier S → Disk → Applier S × Disk
  unfolding ensure_present
  committed io r supplied a d = (
    record {
      blobs = (ensure_present io.get io.put r supplied a.blobs).1;
      state = (apply r a.state).1;
      journal = (append io.journal io.append r a.journal d).1;
      limits = a.limits;
    },
    (append io.journal io.append r a.journal d).2,
  )

  -- A commit either fails, with the state and the journal as they were, or all of its three steps
  -- succeed.
  pub commit-cases :
      (io : ApplyIo) (r : Record) (supplied : Option Bytes) (a : Applier S) (d : Disk)
      → ((e : Error) × ((commit io r supplied a d).0 ≡ err e)
          × ((commit io r supplied a d).1.state ≡ a.state)
          × ((commit io r supplied a d).1.journal ≡ a.journal))
        ⊎ (((ensure_present io.get io.put r supplied a.blobs).0 ≡ ok tt)
            × ((append io.journal io.append r a.journal d).0 ≡ ok tt)
            × (commit io r supplied a d ≡ (
              (apply r a.state).0,
              (committed io r supplied a d).0,
              (committed io r supplied a d).1,
            )))
  unfolding commit committed
  commit-cases io r supplied a d =
      elim (Result-cases (ensure_present io.get io.put r supplied a.blobs).0) [
        | inr (e, bad) ↦ inl (e, ground arith, ground arith, ground arith)
        | inl (_, good) ↦ elim (Result-cases (append io.journal io.append r a.journal d).0) [
          | inr (e, failed) ↦
              let (kept, _) = append_error io.journal io.append r a.journal d e failed in
              inl (e, ground arith, ground arith, ground arith)
          | inl (_, done) ↦ inr (good, done, ground arith)
        ]
      ]

  -- `Apply`: nothing happened, or a record that the store applies was committed.
  pub applier_apply-cases :
      (io : ApplyIo) (capabilities : List Bytes) (r : Record) (supplied : Option Bytes)
      (a : Applier S) (d : Disk)
      → (((applier_apply io capabilities r supplied a d).1 ≡ a)
          × ((applier_apply io capabilities r supplied a d).2 ≡ d)
          × ((result : ApplyResult)
              → (applier_apply io capabilities r supplied a d).0 ≡ ok result
              → result.outcome ≢ applied))
        ⊎ ((result : ApplyResult) × (classify r a.state ≡ ok result)
            × (result.outcome ≡ applied)
            × (validate r a.limits ≡ ok tt)
            × (applier_apply io capabilities r supplied a d ≡ commit io r supplied a d))
  unfolding applier_apply
  applier_apply-cases io capabilities r supplied a d =
      elim (Result-cases (apply_checks io.entry capabilities r a)) [
        | inr (e, bad) ↦ inl (ground arith, ground arith, λ result h. ground arith)
        | inl (result, good) ↦
            let (classified, valid) = apply_checks_ok io.entry capabilities r a result good in
            elim (outcome-cases result.outcome) [
              | inl yes_applied ↦ inr (result, classified, yes_applied, valid, ground arith)
              | inr (inl dup) ↦ inl (ground arith, ground arith, λ other h. ground arith)
              | inr (inr old) ↦ inl (ground arith, ground arith, λ other h. ground arith)
            ]
      ]

  -- Whatever `Apply` answers, an applier whose state is the replay of its journal on a base goes on
  -- to be one: the published state never runs ahead of the journal, nor behind it.
  pub applier_apply-Replays :
      (io : ApplyIo) (capabilities : List Bytes) (r : Record) (supplied : Option Bytes)
      (a : Applier S) (d : Disk) (base : Store)
      → Replays base a
      → Replays base (applier_apply io capabilities r supplied a d).1
  applier_apply-Replays io capabilities r supplied a d base h =
      elim (applier_apply-cases io capabilities r supplied a d) [
        | inl (same, _, _) ↦ rw same h
        | inr (result, classified, fresh, _, shape) ↦ elim (commit-cases io r supplied a d) [
          | inl (e, _, state, journal) ↦ rw (shape, state, journal) h
          | inr (_, done, whole) ↦
              let (_, logged) = append_done io.journal io.append r a.journal d done in
              let published : (apply r a.state).0 ≡ ok result =
                (classify-apply r a.state).0 ∙ classified in
              rw (shape, whole)
                (unfold committed in
                  rw logged (
                    unfold publish in
                    replay_loop-append a.journal.records r base a.state h result published))
        ]
      ]
