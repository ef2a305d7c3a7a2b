-- ===== src/Lifecycle/Membership/Fence.antt =====
-- The fence of a compaction: when `WatermarksAt` answers, and that `Progress` counts the same
-- members.
use stream_hive.Common.{
  ℕ, ◌+◌, ◌≤◌, ◌≡◌, ◌↔◌, refl, ap, ◌∙◌, Bool, true, false, List, [], ◌∷◌, map, ok, arith, All,
  length, Result-cases, inl, inr, if◌then◌else◌, ◌&&◌, ◌||◌, not,
}
use stream_hive.Common.Bytes.{Bytes}
use stream_hive.Context.{Ctx, later, background}
use stream_hive.Lifecycle.Version.{Version, zero_version, is_zero, older, newer}
use stream_hive.Lifecycle.Version.Order.{newer_irrefl, newer_asym, not_newer_trans, older-newer}
use stream_hive.Lifecycle.Watermarks.{WatermarkBook, watermark}
use stream_hive.Lifecycle.Membership.{
  MembershipBook, MembershipProgress, progress_loop, progress, evidence_loop, watermarks_at,
}

module _ (watermarks : WatermarkBook) (target : Version) where
  abbrev pub Reaches : Bytes → Type 0
  Reaches m = older (watermark m watermarks) target ≡ false

  abbrev pub evidence : List Bytes → List Version
  evidence ms = map (λ m. watermark m watermarks) ms

  evidence_loop_iff :
      (ms : List Bytes) (vs : List Version)
      → (evidence_loop background watermarks target ms ≡ ok vs)
        ↔ (All Reaches ms × (vs ≡ evidence ms))
  unfolding evidence_loop
  evidence_loop_iff [] vs = ground arith
  evidence_loop_iff (m ∷ ms) vs =
      elim (Result-cases (evidence_loop background watermarks target ms)) [
        | inl (rest, e) ↦ ground (arith, evidence_loop_iff ms rest)
        | inr (e, bad) ↦ ground (arith, evidence_loop_iff ms (evidence ms))
      ]

  -- Without a cancellation, `WatermarksAt` succeeds exactly where the target is not zero, the
  -- membership is configured, and every member has acknowledged the target; it gives the members'
  -- watermarks in their order.
  pub watermarks_at_iff :
      (b : MembershipBook) (vs : List Version)
      → (watermarks_at background watermarks target b ≡ ok vs) ↔ (
          (is_zero target ≡ false)
          × (b.configured ≡ true)
          × All Reaches b.members
          × (vs ≡ evidence b.members))
  unfolding watermarks_at
  watermarks_at_iff b vs = ground (arith, evidence_loop_iff b.members vs)

  -- the same for a call that may be cancelled
  evidence_loop_ok :
      (ctx : Ctx) (ms : List Bytes) (vs : List Version)
      → evidence_loop ctx watermarks target ms ≡ ok vs
      → vs ≡ evidence ms
  unfolding evidence_loop
  evidence_loop_ok ctx [] vs h = ground arith
  evidence_loop_ok ctx (m ∷ ms) vs h =
      elim (Result-cases (evidence_loop (later 1 ctx) watermarks target ms)) [
        | inl (rest, e) ↦ ground (arith, evidence_loop_ok (later 1 ctx) ms rest)
        | inr (e, bad) ↦ absurd (ground arith)
      ]

  pub watermarks_at_ok :
      (ctx : Ctx) (b : MembershipBook) (vs : List Version)
      → watermarks_at ctx watermarks target b ≡ ok vs
      → (b.configured ≡ true) × (vs ≡ evidence b.members)
  unfolding watermarks_at
  watermarks_at_ok ctx b vs h = ground (arith, evidence_loop_ok (later 1 ctx) b.members vs)

  abbrev count : List Bytes → ℕ
  count [] = 0
  count (m ∷ ms) =
      let rest = count ms in if older (watermark m watermarks) target then rest else rest + 1

  count_all : (ms : List Bytes) → (count ms ≡ length ms) ↔ All Reaches ms
  count_all [] = (λ h. tt, λ h. refl)
  count_all (m ∷ ms) = ground (arith, count_all ms, count_le ms)
    where
      count_le : (ns : List Bytes) → count ns ≤ length ns
      count_le [] = omega arith
      count_le (n ∷ ns) = ground (arith, count_le ns)

  -- the progress behind the round for `m`
  abbrev step : Bytes → Bool → MembershipProgress → MembershipProgress
  step m set p =
      let version = watermark m watermarks in
      record p {
        minimum = if not set || older version p.minimum then version else p.minimum;
        acknowledged =
            if not (is_zero p.target) && not (older version p.target)
            then p.acknowledged + 1
            else p.acknowledged;
      }

  progress_loop_counts :
      (ms : List Bytes) (set : Bool) (p q : MembershipProgress)
      → p.target ≡ target
      → is_zero target ≡ false
      → progress_loop background watermarks ms set p ≡ ok q
      → (q.acknowledged ≡ p.acknowledged + count ms)
        × (q.members ≡ p.members)
        × (q.configured ≡ p.configured)
  unfolding progress_loop
  progress_loop_counts [] set p q t z h = ground arith
  progress_loop_counts (m ∷ ms) set p q t z h =
      let ih = progress_loop_counts ms true (step m set p) q t z (ground arith) in
      let tested : older (watermark m watermarks) p.target ≡ older (watermark m watermarks) target =
        ap (older (watermark m watermarks)) t in
      let nonzero : is_zero p.target ≡ false = ap is_zero t ∙ z in
      ground (arith, ih, tested, nonzero)

  progress_loop_minimum :
      (ms : List Bytes) (set : Bool) (p q : MembershipProgress)
      → progress_loop background watermarks ms set p ≡ ok q
      → All (λ m. newer q.minimum (watermark m watermarks) ≡ false) ms
        × (set ≡ true → newer q.minimum p.minimum ≡ false)
  unfolding progress_loop
  progress_loop_minimum [] set p q h = ground (arith, newer_irrefl p.minimum)
  progress_loop_minimum (m ∷ ms) set p q h =
      let (low, before) = progress_loop_minimum ms true (step m set p) q (ground arith) in
      let version = watermark m watermarks in
      let below : newer (step m set p).minimum version ≡ false =
        ground (arith, newer_irrefl version, older-newer version p.minimum) in
      let kept : set ≡ true → newer (step m set p).minimum p.minimum ≡ false = λ e. ground (
        arith,
        newer_irrefl p.minimum,
        older-newer version p.minimum,
        newer_asym p.minimum version,
      ) in
      (
        (not_newer_trans q.minimum (step m set p).minimum version (before refl) below, low),
        λ e. not_newer_trans q.minimum (step m set p).minimum p.minimum (before refl) (kept e),
      )

  -- Without a cancellation, for a target that is not zero, `Progress` counts all members as
  -- acknowledged exactly where every member has acknowledged the target, and its minimum is newer
  -- than no member's watermark.
  pub progress_exact :
      (b : MembershipBook) (q : MembershipProgress)
      → is_zero target ≡ false
      → progress background watermarks target b ≡ ok q
      → ((q.acknowledged ≡ q.members) ↔ All Reaches b.members)
        × (q.members ≡ length b.members)
        × (q.configured ≡ b.configured)
        × All (λ m. newer q.minimum (watermark m watermarks) ≡ false) b.members
  unfolding progress
  progress_exact b q z h =
      let start : MembershipProgress = record {
        configured = b.configured;
        members = length b.members;
        acknowledged = 0;
        minimum = zero_version;
        target = target;
      } in
      let (counted, all, configured) =
        progress_loop_counts b.members false start q refl z (ground arith) in
      let (low, _) = progress_loop_minimum b.members false start q (ground arith) in
      (ground (arith, count_all b.members), all, configured, low)
