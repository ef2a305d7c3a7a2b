-- ===== src/Lifecycle/Watermarks/Durable.antt =====
-- A book of watermarks stays within its bounds, and its file describes it.
use stream_hive.Common.{◌≡◌, ◌⊎◌, Option, some, Result, ok, err}
use stream_hive.Common.Bytes.{Bytes}
use stream_hive.Common.Maps.{Map, bytes_key, AreSame}
use stream_hive.Std.Json.{Json}
use stream_hive.Std.Unicode.{Unicode}
use stream_hive.Errors.{Error}
use stream_hive.Lifecycle.Version.{Version}
use stream_hive.Lifecycle.Watermarks.{WatermarkBook, WatermarkState, load_book}
use stream_hive.Lifecycle.Watermarks.Bounds.{IsBounded}

module _ ⦃u : Unicode⦄ ⦃json : Json WatermarkState⦄ where
  -- The answer of a method: it failed and left the book as it was, or it had nothing to do, or the
  -- new book is within its bounds and the file that it left is read back as a book with the same map.
  abbrev pub Settled :
      WatermarkBook → Option Bytes → Result Error Unit × WatermarkBook × Option Bytes → Type 0
  Settled b file after =
      ((e : Error) × (after.0 ≡ err e) × (after.1 ≡ b))
      ⊎ (after ≡ (ok tt, b, file))
      ⊎ ((m : Map Bytes Version) × (read : Map Bytes Version) × (bytes : Bytes) × (after
            ≡ (ok tt, record b { watermarks = m }, some bytes))
          × IsBounded m b
          × AreSame read m
          × (load_book b bytes ≡ ok (record b { watermarks = read })))

  -- the JSON of the state with this map reads back as one with the same map, in any order
  abbrev pub IsReadBack : Map Bytes Version → Type 0
  IsReadBack m =
      (read : Map Bytes Version) × AreSame read m
      × (json.unmarshal (json.marshal (record { watermarks = some m }))
          ≡ some (record { watermarks = some read }))
