-- ===== src/Lifecycle/Membership/Compacted.antt =====
-- A compaction behind the fence, as `compact` of lifecycle_cli.go makes it: the acknowledgements that
-- `Compact` takes are those that `WatermarksAt` gave.
use stream_hive.Common.{◌≡◌, false, List, All}
use stream_hive.Common.Bytes.{Bytes}
use stream_hive.Std.Json.{Json}
use stream_hive.Std.Unicode.{Unicode}
use stream_hive.Lifecycle.Version.{Version, newer}
use stream_hive.Lifecycle.Records.{Record}
use stream_hive.Lifecycle.Journal.Files.{Journal}

-- `v` has reached every record of `rs`
abbrev pub Acknowledges : Version → List Record → Type 0
Acknowledges v rs = All (λ r. newer r.version v ≡ false) rs
