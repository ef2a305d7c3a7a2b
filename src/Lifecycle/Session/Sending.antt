-- ===== src/Lifecycle/Session/Sending.antt =====
-- internal/lifecycle/session.go: `SendNext` and `Run`. The contexts' ends and what the other
-- goroutines do while `Run` waits are given turn by turn: in a turn they change the world, and then
-- either the context is done or a notification wakes the waiting call. `none` is a call that still
-- waits after the turns that it is given.
pub mod Finishing
pub mod Completion
use stream_hive.Common.{
  ℕ, zero, suc, ◌≡◌, refl, sym, ap, subst, ◌∙◌, append-nil, ◌⊎◌, inl, inr, Bool, true, false, not,
  Option, none, some, List, [], ◌∷◌, ◌++◌, ok, err, check, fail_if, ◌>>=◌, ◌>>◌, arith, length, ltb,
  if◌then◌else◌, Result-cases, Bool-cases, Option-cases,
}
use stream_hive.Common.Bytes.{Bytes}
use stream_hive.Std.Json.{Json}
use stream_hive.Std.Unicode.{Unicode}
use stream_hive.Context.{Ctx, later}
use stream_hive.Errors.{Error, Fallible}
use stream_hive.Lifecycle.Version.{Version, newer, older, is_zero}
use stream_hive.Lifecycle.Records.{Record}
use stream_hive.Lifecycle.Watermarks.{WatermarkState, watermark}
use stream_hive.Lifecycle.Repair.{
  RepairBatch, RepairSnapshot, RepairAck, repair_normalized, newer_records, decode_batch,
}
use stream_hive.Lifecycle.Repair.Planning.{RepairPlan, plan_repair, coordinator_plan}
use stream_hive.Lifecycle.Session.{
  World, RepairSession, AckIo, require_capability, write_frame, write_ack,
}

-- what happens while a call waits: the context ends with an error, or the call is woken
abbrev pub Turn : Type 0 → Type 0
Turn S = World S → Option Error × World S

-- the answers to `SendNext`
pub record SendIo : Type 0 where
  pub entry : Option Error
  pub plan : Ctx
  pub write : Option Error

-- those to one round of `Run`: to `SendNext`, and the turns of the wait behind it
pub record RoundIo (S : Type 0) : Type 0 where
  pub send : SendIo
  pub turns : ℕ → Turn S

-- those to `Run`: to the startup watermark, the turns of the wait for the peer's, `BeforeRepair`
-- if it is set, and the rounds
pub record RunIo (S : Type 0) : Type 0 where
  pub hello : AckIo
  pub turns : ℕ → Turn S
  pub before_repair : Option (World S → Fallible Unit × World S)
  pub rounds : ℕ → RoundIo S

module _ {S : Type 0} where
  -- `waitForAcknowledgement`
  unfoldable pub wait_ack :
      ℕ → (ℕ → Turn S) → Version → RepairSession → World S → Option (Fallible Unit × World S)
  wait_ack zero turns target s w =
      if not (older (watermark s.peer_id w.book) target) then some (ok tt, w) else none
  wait_ack (suc n) turns target s w =
      let turn = turns 0 w in
      let rest = wait_ack n (λ k. turns (suc k)) target s turn.1 in
      if not (older (watermark s.peer_id w.book) target)
      then some (ok tt, w)
      else elim turn.0 [ some e ↦ some (err e, turn.1) | none ↦ rest ]

  -- `waitForStartupWatermark`: the first notification ends the wait
  unfoldable pub wait_hello : (ℕ → Turn S) → World S → Fallible Unit × World S
  wait_hello turns w =
      let turn = turns 0 w in
      if w.hello_received
      then (ok tt, w)
      else elim turn.0 [ some e ↦ (err e, turn.1) | none ↦ (ok tt, turn.1) ]

  -- `BeforeRepair`
  unfoldable pub before :
      Option (World S → Fallible Unit × World S) → World S → Fallible Unit × World S
  before none w = (ok tt, w)
  before (some f) w = f w

  module _ ⦃u : Unicode⦄ ⦃json : Json Record⦄ ⦃states : Json WatermarkState⦄
      ⦃batches : Json RepairBatch⦄ ⦃snapshots : Json RepairSnapshot⦄ where
    -- `SendNext` up to the write
    unfoldable pub send_checks : SendIo → RepairSession → World S → Fallible RepairPlan
    unfolding require_capability
    send_checks io s w = do
      check io.entry
      require_capability s
      plan ← coordinator_plan io.plan s.peer_id s.snapshot w.applier.journal w.book s.limits
      fail_if (ltb s.max_frame_bytes (length plan.payload)) Error.repair_frame_too_large
      ok plan

    unfoldable pub send_next : SendIo → RepairSession → World S → Fallible RepairPlan × World S
    unfolding send_checks write_frame
    send_next io s w = elim (send_checks io s w) [
      | err e ↦ (err e, w)
      | ok plan ↦ elim io.write [
        | some e ↦ (err e, w)
        | none ↦ (ok plan, record w { sent = w.sent ++ plan.payload ∷ [] })
      ]
    ]

    -- the wait behind a frame, if its plan moves the watermark
    unfoldable pub wait_plan :
        ℕ → (ℕ → Turn S) → RepairPlan → RepairSession → World S → Option (Fallible Unit × World S)
    unfolding wait_ack
    wait_plan turns io plan s w =
        if newer plan.to plan.from then wait_ack turns io plan.to s w else some (ok tt, w)

    -- the loop of `Run`: at most `n` rounds, with at most `patience` turns of each wait
    unfoldable pub run_loop :
        ℕ → ℕ → (ℕ → RoundIo S) → RepairSession → World S → Option (Fallible Unit × World S)
    unfolding send_next wait_plan
    run_loop zero patience io s w = none
    run_loop (suc n) patience io s w =
        let sent = send_next (io 0).send s w in
        elim sent.0 [
          | err e ↦ some (err e, sent.1)
          | ok plan ↦ elim (wait_plan patience (io 0).turns plan s sent.1) [
            | none ↦ none
            | some (err e, after) ↦ some (err e, after)
            | some (ok _, after) ↦
                let rest = run_loop n patience (λ k. io (suc k)) s after in
                if plan.more then rest else some (ok tt, after)
          ]
        ]

    module _ ⦃acks : Json RepairAck⦄ where
      -- the part of `Run` before the loop
      unfoldable pub startup : RunIo S → RepairSession → World S → Fallible Unit × World S
      unfolding wait_hello
      startup io s w =
          let greeted = write_ack io.hello (watermark s.peer_id w.book) s w in
          if s.reconcile_peer
          then elim greeted.0 [
            | err e ↦ (err e, greeted.1)
            | ok _ ↦
                if is_zero greeted.1.applier.journal.last
                then (ok tt, greeted.1)
                else wait_hello io.turns greeted.1
          ]
          else (ok tt, w)

      unfoldable pub run :
          ℕ → ℕ → RunIo S → RepairSession → World S → Option (Fallible Unit × World S)
      unfolding startup before run_loop
      run n patience io s w =
          let started = startup io s w in
          let ready = before io.before_repair started.1 in
          elim started.0 [
            | err e ↦ some (err e, started.1)
            | ok _ ↦ elim ready.0 [
              | err e ↦ some (err e, ready.1)
              | ok _ ↦ run_loop n patience io.rounds s ready.1
            ]
          ]
