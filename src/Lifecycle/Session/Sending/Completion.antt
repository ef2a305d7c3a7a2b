-- ===== src/Lifecycle/Session/Sending/Completion.antt =====
-- internal/lifecycle/session.go: `Run` with a peer that acknowledges what it is sent.
use stream_hive.Common.{
  ℕ, zero, suc, ◌+◌, ◌<◌, ◌≤◌, ◌≡◌, refl, sym, ap, subst, ◌∙◌, ◌⊎◌, inl, inr, true, false, Option,
  none, some, List, [], ◌∷◌, ◌++◌, ok, err, arith, length, length-append, ltb, Result-cases,
  Bool-cases,
}
use stream_hive.Std.Json.{Json}
use stream_hive.Std.Unicode.{Unicode}
use stream_hive.Context.{Ctx, later}
use stream_hive.Errors.{Error, Fallible}
use stream_hive.Lifecycle.Version.{Version, newer, older}
use stream_hive.Lifecycle.Version.Order.{
  newer_irrefl, newer_asym, newer_of_not_newer, newer_of_newer_not, not_newer_trans, older-newer,
}
use stream_hive.Lifecycle.Records.{Record}
use stream_hive.Lifecycle.Checkpoints.{Checkpoint}
use stream_hive.Lifecycle.JournalFile.{last_version}
use stream_hive.Lifecycle.Journal.Files.{Journal}
use stream_hive.Lifecycle.Watermarks.{WatermarkState, watermark}
use stream_hive.Lifecycle.Repair.{
  RepairBatch, RepairSnapshot, RepairAck, RepairLimits, repair_normalized, newer_records,
  repair_batch, encode_batch,
}
use stream_hive.Lifecycle.Repair.Batches.{
  Ascends, repair_batch_sound, newer_records-Ascends, newer_records-last, last_version-newer,
}
use stream_hive.Lifecycle.Repair.Planning.{RepairPlan, plan_repair, plan_tail}
use stream_hive.Lifecycle.Session.{World, RepairSession}
use stream_hive.Lifecycle.Session.Sending.{
  RoundIo, RunIo, send_next, wait_plan, run_loop, startup, before, run,
}
use stream_hive.Lifecycle.Session.Sending.Finishing.{send_next_ok, send_checks_ok, wait_plan_done}

-- a later version has fewer newer records
newer_records-length :
    (a b : Version) (rs : List Record)
    → newer b a ≡ false
    → length (newer_records a rs) ≤ length (newer_records b rs)
unfolding newer_records
newer_records-length a b [] h = omega arith
newer_records-length a b (r ∷ rs) h = elim (Bool-cases (newer r.version a)) [
  | inl fresh ↦
      ground (arith, newer_records-length a b rs h, newer_of_newer_not r.version a b fresh h)
  | inr old ↦ ground (arith, newer_records-length a b rs h)
]

-- the last version of a batch that is not empty is newer than where it starts
last_version-newer_start :
    (v : Version) (r : Record) (front rest : List Record)
    → Ascends v (r ∷ front ++ rest)
    → newer (last_version v (r ∷ front)) v ≡ true
unfolding last_version
last_version-newer_start v r front rest a =
    newer_of_not_newer (last_version r.version front) r.version v
      (last_version-newer r.version front rest a.1) a.0

-- Where a peer is sent a batch and its watermark reaches the batch's end, nothing more is newer than
-- what follows the batch.
behind_batch :
    (from after v floor : Version) (rs batch rest : List Record)
    → Ascends v rs
    → newer_records from rs ≡ batch ++ rest
    → older from floor ≡ false
    → (newer (last_version from batch) from ≡ true → older after (last_version from batch) ≡ false)
    → (newer (last_version from batch) from ≡ false → after ≡ from)
    → (older after floor ≡ false) × (length (newer_records after rs) ≤ length rest)
behind_batch from after v floor rs [] rest a parts ahead moved still =
    let same : after ≡ from = still (unfold last_version in newer_irrefl from) in
    subst (λ (x : Version). (older x floor ≡ false) × (length (newer_records x rs) ≤ length rest))
      (sym same) (ahead, omega (arith, ap length parts))
behind_batch from after v floor rs (r ∷ front) rest a parts ahead moved still =
    let to = last_version from (r ∷ front) in
    let fresh : newer to from ≡ true =
      last_version-newer_start from r front rest
        (subst (Ascends from) parts (newer_records-Ascends from v rs a)) in
    let reached : newer to after ≡ false = sym (older-newer after to) ∙ moved fresh in
    let above : newer floor from ≡ false = sym (older-newer from floor) ∙ ahead in
    (
      older-newer after floor
          ∙ not_newer_trans floor to after
              (not_newer_trans floor from to above (newer_asym to from fresh)) reached,
      omega (
        arith,
        newer_records-length after to rs reached,
        ap length (newer_records-last v from rs (r ∷ front) rest a parts),
      ),
    )

no_records : (rs : List Record) → length rs ≤ 0 → rs ≡ []
no_records [] h = refl
no_records (r ∷ rs) h = absurd (omega arith)

module _ ⦃u : Unicode⦄ ⦃json : Json Record⦄ ⦃batches : Json RepairBatch⦄
    ⦃snapshots : Json RepairSnapshot⦄ where
  -- what a plan for a peer that is not behind the floor sends
  plan_repair-newer_records :
      (ctx : Ctx) (j : Journal) (from : Version) (checkpoint : Option Checkpoint) (l : RepairLimits)
      (p : RepairPlan)
      → older from j.floor ≡ false
      → plan_repair ctx j from checkpoint l ≡ ok p
      → (sent : List Record) × (rest : List Record) × (newer_records from j.records ≡ sent ++ rest)
        × (p.from ≡ from)
        × (p.to ≡ last_version from sent)
        × (p.more ≡ ltb 0 (length rest))
        × (0 < length (newer_records from j.records) → 0 < length sent)
  unfolding plan_repair plan_tail
  plan_repair-newer_records ctx j from checkpoint l p ahead h =
      let limits = repair_normalized l in
      elim (Result-cases (repair_batch (later 1 ctx) from limits j)) [
        | inr (e, bad) ↦ absurd (ground arith)
        | inl (b, made) ↦ elim (Result-cases (encode_batch b limits)) [
          | inr (e, bad) ↦ absurd (ground arith)
          | inl (payload, encoded) ↦
              let (rest, parts, from_same, to, more, some_left, _, _) =
                repair_batch_sound (later 1 ctx) from limits j b made in
              (
                b.records,
                rest,
                parts,
                ground (arith, from_same),
                ground (arith, to),
                ground (arith, more),
                some_left,
              )
        ]
      ]

module _ {S : Type 0} where
  -- a wait that ended: with an error, or well, and then `K` of the world behind it
  abbrev pub Ends : (World S → Type 0) → World S → Option (Fallible Unit × World S) → Type 0
  Ends K w none = ⊥
  Ends K w (some (err e, after)) = Unit
  Ends K w (some (ok t, after)) = (after.applier.journal ≡ w.applier.journal) × K after

  -- a send that failed, or one whose wait ended so
  abbrev Sends :
      (World S → Type 0)
      → World S
      → Fallible RepairPlan
      → (RepairPlan → Option (Fallible Unit × World S))
      → Type 0
  Sends K w (err e) wait = Unit
  Sends K w (ok plan) wait = Ends K w (wait plan)

  module _ ⦃u : Unicode⦄ ⦃json : Json Record⦄ ⦃states : Json WatermarkState⦄
      ⦃batches : Json RepairBatch⦄ ⦃snapshots : Json RepairSnapshot⦄ where
    -- For `n` rounds, the wait behind each frame ends within `patience` turns, by the peer's
    -- acknowledgement or by an error, and no record is appended during it.
    unfoldable pub IsPrompt : ℕ → ℕ → (ℕ → RoundIo S) → RepairSession → World S → Type 0
    IsPrompt zero patience io s w = Unit
    IsPrompt (suc n) patience io s w =
        let sent = send_next (io 0).send s w in
        Sends (IsPrompt n patience (λ k. io (suc k)) s) w sent.0
          (λ plan. wait_plan patience (io 0).turns plan s sent.1)

    IsPrompt-round :
        (n patience : ℕ) (io : ℕ → RoundIo S) (s : RepairSession) (w : World S) (plan : RepairPlan)
        → IsPrompt (suc n) patience io s w
        → (send_next (io 0).send s w).0 ≡ ok plan
        → Ends
            (IsPrompt n patience (λ k. io (suc k)) s)
            w
            (wait_plan patience (io 0).turns plan s (send_next (io 0).send s w).1)
    unfolding IsPrompt
    IsPrompt-round n patience io s w plan h e =
        subst
          (λ (x : Fallible RepairPlan).
            Sends (IsPrompt n patience (λ k. io (suc k)) s) w x
              (λ plan. wait_plan patience (io 0).turns plan s (send_next (io 0).send s w).1))
          e h

    ended-cases :
        (K : World S → Type 0) (w : World S) (out : Option (Fallible Unit × World S))
        → Ends K w out
        → ((e : Error) × (after : World S) × (out ≡ some (err e, after)))
          ⊎ ((after : World S) × (out ≡ some (ok tt, after))
              × (after.applier.journal ≡ w.applier.journal)
              × K after)
    ended-cases K w none h = absurd h
    ended-cases K w (some (err e, after)) h = inl (e, after, refl)
    ended-cases K w (some (ok tt, after)) h = inr (after, refl, h.0, h.1)

    -- a wait for a frame that moves nothing changes nothing
    wait_plan_still :
        (n : ℕ) (io : RoundIo S) (plan : RepairPlan) (s : RepairSession) (w after : World S)
        → newer plan.to plan.from ≡ false
        → wait_plan n io.turns plan s (send_next io.send s w).1 ≡ some (ok tt, after)
        → after.book ≡ w.book
    unfolding wait_plan send_next
    wait_plan_still n io plan s w after h e = ground arith

    -- behind a frame and its wait, nothing is newer than the peer's watermark but what follows the
    -- frame, and the watermark did not go back
    settled_round :
        (n : ℕ) (io : RoundIo S) (plan : RepairPlan) (s : RepairSession) (w after : World S)
        (v : Version)
        → Ascends v w.applier.journal.records
        → older (watermark s.peer_id w.book) w.applier.journal.floor ≡ false
        → (send_next io.send s w).0 ≡ ok plan
        → wait_plan n io.turns plan s (send_next io.send s w).1 ≡ some (ok tt, after)
        → let records = w.applier.journal.records in
          let left = newer_records (watermark s.peer_id after.book) records in
          (older (watermark s.peer_id after.book) w.applier.journal.floor ≡ false)
          × ((plan.more ≡ true)
                × (length left < length (newer_records (watermark s.peer_id w.book) records))
              ⊎ ((plan.more ≡ false) × (left ≡ [])))
    settled_round n io plan s w after v ascends ahead sent waited =
        let from = watermark s.peer_id w.book in
        let j = w.applier.journal in
        let (batch, rest, parts, from_same, to, more, some_left) =
          plan_repair-newer_records (later 1 io.send.plan) j from s.snapshot s.limits plan ahead
            (send_checks_ok io.send s w plan (send_next_ok io.send s w plan sent)) in
        let moved : newer (last_version from batch) from ≡ true
            → older (watermark s.peer_id after.book) (last_version from batch) ≡ false =
          λ moves.
            subst (λ (x : Version). older (watermark s.peer_id after.book) x ≡ false) to
              (wait_plan_done n io.turns plan s (send_next io.send s w).1 after waited
                (ground (arith, to, from_same, moves))) in
        let still : newer (last_version from batch) from ≡ false
            → watermark s.peer_id after.book ≡ from =
          λ rests.
            ap (watermark s.peer_id)
              (wait_plan_still n io plan s w after (ground (arith, to, from_same, rests)) waited) in
        let (floor, fewer) =
          behind_batch from (watermark s.peer_id after.book) v j.floor j.records batch rest ascends
            parts ahead moved still in
        let sizes : length (newer_records from j.records) ≡ length batch + length rest =
          ap length parts ∙ length-append batch rest in
        (
          floor,
          elim (Bool-cases plan.more) [
            | inl further ↦
                let many : 0 < length rest = ground (arith, more) in
                inl (further, omega (arith, fewer, sizes, some_left (omega (arith, sizes, many))))
            | inr last ↦
                let few : length rest ≤ 0 = ground (arith, more) in
                inr (last, no_records _ (omega (arith, fewer, few)))
          ],
        )

    -- The loop of `Run`, with a prompt peer that is not behind the floor.
    run_loop-newer_records :
        (n patience : ℕ) (io : ℕ → RoundIo S) (s : RepairSession) (w : World S) (v : Version)
        → Ascends v w.applier.journal.records
        → older (watermark s.peer_id w.book) w.applier.journal.floor ≡ false
        → IsPrompt n patience io s w
        → length (newer_records (watermark s.peer_id w.book) w.applier.journal.records) < n
        → ((e : Error) × (after : World S) × (run_loop n patience io s w ≡ some (err e, after)))
          ⊎ ((after : World S) × (run_loop n patience io s w ≡ some (ok tt, after))
              × (after.applier.journal ≡ w.applier.journal)
              × (newer_records (watermark s.peer_id after.book) w.applier.journal.records ≡ []))
    unfolding run_loop
    run_loop-newer_records zero patience io s w v ascends ahead prompt few = absurd (omega arith)
    run_loop-newer_records (suc n) patience io s w v ascends ahead prompt few =
        let sent = send_next (io 0).send s w in
        elim (Result-cases sent.0) [
          | inr (e, bad) ↦ inl (e, sent.1, ground arith)
          | inl (plan, good) ↦
              elim (ended-cases _ w _ (IsPrompt-round n patience io s w plan prompt good)) [
                | inl (e, after, failed) ↦ inl (e, after, ground arith)
                | inr (after, fine, same, later_prompt) ↦
                    let (floor, left) =
                      settled_round patience (io 0) plan s w after v ascends ahead good fine in
                    elim left [
                      | inr (last, nothing) ↦ inr (after, ground arith, same, nothing)
                      | inl (further, fewer) ↦
                          let mark = watermark s.peer_id after.book in
                          let again =
                            run_loop-newer_records n patience (λ k. io (suc k)) s after v
                              (subst (λ (j : Journal). Ascends v j.records) (sym same) ascends)
                              (subst (λ (j : Journal). older mark j.floor ≡ false) (sym same) floor)
                              later_prompt
                              (subst (λ (j : Journal). length (newer_records mark j.records) < n)
                                (sym same) (omega (arith, fewer, few))) in
                          elim again [
                            | inl (e, last, failed) ↦ inl (e, last, ground arith)
                            | inr (last, done, kept, nothing) ↦ inr (
                              last,
                              ground arith,
                              kept ∙ same,
                              subst
                                  (λ (j : Journal).
                                    newer_records (watermark s.peer_id last.book) j.records ≡ [])
                                  same nothing,
                            )
                          ]
                    ]
              ]
        ]

    -- the world in which the loop of `Run` begins
    abbrev pub ready : ⦃acks : Json RepairAck⦄ → RunIo S → RepairSession → World S → World S
    ready io s w = (before io.before_repair (startup io s w).1).1

    -- `Run` with a peer that is not behind the journal's floor, where the records strictly ascend
    -- when the loop begins: if the peer is prompt, `Run` returns within one round more than there are
    -- records that are newer than the peer's watermark, with an error, or with the journal as it was
    -- when the loop began and no record in it that is newer than what the peer acknowledged.
    pub run-newer_records :
        ⦃acks : Json RepairAck⦄
        → (n patience : ℕ) → (io : RunIo S) → (s : RepairSession) → (w : World S) → (v : Version)
        → Ascends v (ready io s w).applier.journal.records
        → older (watermark s.peer_id (ready io s w).book) (ready io s w).applier.journal.floor
          ≡ false
        → IsPrompt n patience io.rounds s (ready io s w)
        → length (
            newer_records
              (watermark s.peer_id (ready io s w).book)
              (ready io s w).applier.journal.records)
          < n
        → ((e : Error) × (after : World S) × (run n patience io s w ≡ some (err e, after)))
          ⊎ ((after : World S) × (run n patience io s w ≡ some (ok tt, after))
              × (after.applier.journal ≡ (ready io s w).applier.journal)
              × (newer_records
                    (watermark s.peer_id after.book)
                    (ready io s w).applier.journal.records
                  ≡ []))
    unfolding run
    run-newer_records n patience io s w v ascends ahead prompt few =
        let started = startup io s w in
        let prepared = before io.before_repair started.1 in
        elim (Result-cases started.0) [
          | inr (e, bad) ↦ inl (e, started.1, ground arith)
          | inl (_, good) ↦ elim (Result-cases prepared.0) [
            | inr (e, bad) ↦ inl (e, prepared.1, ground arith)
            | inl (_, fine) ↦
                elim (run_loop-newer_records n patience io.rounds s prepared.1 v ascends ahead
                  prompt few) [
                    | inl (e, after, failed) ↦ inl (e, after, ground arith)
                    | inr (after, done, kept, nothing) ↦ inr (after, ground arith, kept, nothing)
                  ]
          ]
        ]
