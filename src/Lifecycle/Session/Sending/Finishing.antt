-- ===== src/Lifecycle/Session/Sending/Finishing.antt =====
-- internal/lifecycle/session.go: what a round of `Run` has achieved when it ends well.
use stream_hive.Common.{
  ℕ, zero, suc, ◌≡◌, inl, inr, true, false, some, ok, arith, Result-cases, Bool-cases, Option-cases,
}
use stream_hive.Std.Json.{Json}
use stream_hive.Std.Unicode.{Unicode}
use stream_hive.Context.{later}
use stream_hive.Lifecycle.Version.{Version, newer, older}
use stream_hive.Lifecycle.Records.{Record}
use stream_hive.Lifecycle.Watermarks.{WatermarkState, watermark}
use stream_hive.Lifecycle.Repair.{RepairBatch, RepairSnapshot}
use stream_hive.Lifecycle.Repair.Planning.{RepairPlan, plan_repair, coordinator_plan}
use stream_hive.Lifecycle.Session.{World, RepairSession}
use stream_hive.Lifecycle.Session.Sending.{
  Turn, SendIo, wait_ack, send_checks, send_next, wait_plan,
}

module _ {S : Type 0} where
  -- a wait that ends well has seen the watermark reach the target
  wait_ack_done :
      (n : ℕ) (turns : ℕ → Turn S) (target : Version) (s : RepairSession) (w after : World S)
      → wait_ack n turns target s w ≡ some (ok tt, after)
      → older (watermark s.peer_id after.book) target ≡ false
  unfolding wait_ack
  wait_ack_done zero turns target s w after h = ground arith
  wait_ack_done (suc n) turns target s w after h =
      elim (Bool-cases (older (watermark s.peer_id w.book) target)) [
        | inr reached ↦ ground arith
        | inl behind ↦ elim (Option-cases (turns 0 w).0) [
          | inr (e, ended) ↦ absurd (ground arith)
          | inl woken ↦
              wait_ack_done n (λ k. turns (suc k)) target s (turns 0 w).1 after (ground arith)
        ]
      ]

  module _ ⦃u : Unicode⦄ ⦃json : Json Record⦄ ⦃states : Json WatermarkState⦄
      ⦃batches : Json RepairBatch⦄ ⦃snapshots : Json RepairSnapshot⦄ where
    pub send_next_ok :
        (io : SendIo) (s : RepairSession) (w : World S) (plan : RepairPlan)
        → (send_next io s w).0 ≡ ok plan
        → send_checks io s w ≡ ok plan
    unfolding send_next
    send_next_ok io s w plan h = ground arith

    pub wait_plan_done :
        (n : ℕ) (turns : ℕ → Turn S) (plan : RepairPlan) (s : RepairSession) (w after : World S)
        → wait_plan n turns plan s w ≡ some (ok tt, after)
        → newer plan.to plan.from ≡ true
        → older (watermark s.peer_id after.book) plan.to ≡ false
    unfolding wait_plan
    wait_plan_done n turns plan s w after h moves =
        wait_ack_done n turns plan.to s w after (ground arith)

    pub send_checks_ok :
        (io : SendIo) (s : RepairSession) (w : World S) (plan : RepairPlan)
        → send_checks io s w ≡ ok plan
        → plan_repair
            (later 1 io.plan)
            w.applier.journal
            (watermark s.peer_id w.book)
            s.snapshot
            s.limits
          ≡ ok plan
    unfolding send_checks coordinator_plan
    send_checks_ok io s w plan h =
        elim (Result-cases
          (coordinator_plan io.plan s.peer_id s.snapshot w.applier.journal w.book s.limits)) [
            | inr (e, bad) ↦ absurd (ground arith)
            | inl (found, good) ↦ ground arith
          ]
