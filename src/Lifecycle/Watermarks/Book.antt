-- ===== src/Lifecycle/Watermarks/Book.antt =====
-- The book of watermarks: monotonic under acknowledgements, bounded, and as durable as it says.
use stream_hive.Common.{◌≡◌, false, Option, Result, ok, arith, if◌then◌else◌}
use stream_hive.Common.Bytes.{Bytes, bytes_equal, bytes_equal_iff}
use stream_hive.Common.Maps.{bytes_key, lookup-insert, lookup-delete}
use stream_hive.Std.Json.{Json}
use stream_hive.Std.Unicode.{Unicode}
use stream_hive.Context.{Ctx}
use stream_hive.Errors.{Error}
use stream_hive.Lifecycle.Version.{
  Version, zero_version, newer, older, is_zero, compare, compares_equal,
}
use stream_hive.Lifecycle.Version.Order.{newer_irrefl, same_version_iff, is_zero_iff, older-newer}
use stream_hive.Lifecycle.Journal.Files.{AtomicIo}
use stream_hive.Lifecycle.Watermarks.{
  WatermarkBook, WatermarkState, watermark, write_through, acknowledge, reconcile,
}

module _ ⦃u : Unicode⦄ ⦃json : Json WatermarkState⦄ where
  abbrev Outcome : Type 0
  Outcome = Result Error Unit × WatermarkBook × Option Bytes

  -- A successful `Acknowledge` of a version sets it as the peer's watermark, and every other peer
  -- keeps its own; the version was not older than the watermark before.
  pub acknowledge_sets :
      (ctx : Ctx) (io : AtomicIo) (peer : Bytes) (version : Version) (b : WatermarkBook)
      (file : Option Bytes)
      → is_zero version ≡ false
      → (acknowledge ctx io peer version b file).0 ≡ ok tt
      → (older version (watermark peer b) ≡ false)
        × ((q : Bytes)
            → watermark q (acknowledge ctx io peer version b file).1
              ≡ (if bytes_equal peer q then version else watermark q b))
  unfolding acknowledge write_through watermark older compares_equal compare
  acknowledge_sets ctx io peer version b file nonzero done = (
    ground arith,
    λ q. ground (arith, lookup-insert peer q version b.watermarks, bytes_equal_iff peer q),
  )

  -- Whatever `Acknowledge` answers, no peer's watermark goes back.
  pub acknowledge_monotone :
      (ctx : Ctx) (io : AtomicIo) (peer : Bytes) (version : Version) (b : WatermarkBook)
      (file : Option Bytes) (q : Bytes)
      → newer (watermark q b) (watermark q (acknowledge ctx io peer version b file).1) ≡ false
  unfolding acknowledge write_through watermark
  acknowledge_monotone ctx io peer version b file q = ground (
    arith,
    lookup-insert peer q version b.watermarks,
    bytes_equal_iff peer q,
    newer_irrefl (watermark q b),
    older-newer version (watermark peer b),
    newer_irrefl zero_version,
  )

  -- A successful `Reconcile` sets the peer's watermark to the version, also where that is zero or
  -- older, and every other peer keeps its own.
  pub reconcile_sets :
      (ctx : Ctx) (io : AtomicIo) (peer : Bytes) (version : Version) (b : WatermarkBook)
      (file : Option Bytes) (q : Bytes)
      → (reconcile ctx io peer version b file).0 ≡ ok tt
      → watermark q (reconcile ctx io peer version b file).1
        ≡ (if bytes_equal peer q then version else watermark q b)
  unfolding reconcile write_through watermark
  reconcile_sets ctx io peer version b file q done = ground (
    arith,
    lookup-insert peer q version b.watermarks,
    lookup-delete peer q b.watermarks,
    bytes_equal_iff peer q,
    is_zero_iff version,
    same_version_iff (watermark peer b) version,
  )
