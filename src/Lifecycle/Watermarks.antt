-- ===== src/Lifecycle/Watermarks.antt =====
-- internal/lifecycle/watermark.go: the durable acknowledgements of the peers. A method holds the
-- lock from its first read of the map to its last write; a nil receiver is not modelled.
pub mod Book
pub mod Bounds
pub mod Durable
use stream_hive.Common.{
  ℕ, ◌^◌, ◌&&◌, ◌||◌, Bool, Option, none, some, List, [], ◌∷◌, ok, err, check, fail_if, ◌>>=◌, ◌>>◌,
  not, length, ltb, leb, ◌==◌, if◌then◌else◌,
}
use stream_hive.Common.Bytes.{Bytes}
use stream_hive.Common.Maps.{Map, lookup, insert, delete, bytes_key}
use stream_hive.Std.Json.{Json}
use stream_hive.Std.Unicode.{Unicode}
use stream_hive.Context.{Ctx, later}
use stream_hive.Errors
use stream_hive.Errors.{Error, Fallible}
use stream_hive.Lifecycle.Version.{
  Version, zero_version, is_zero, same_version, older, compares_equal,
}
use stream_hive.Lifecycle.Records.{or_default, is_printable}
use stream_hive.Lifecycle.Journal.Files.{AtomicIo}
use stream_hive.Lifecycle.StateFile.{FileErrors, persist, read_state}

pub record WatermarkOptions : Type 0 where
  pub max_peers : ℕ
  pub max_peer_id_bytes : ℕ
  pub max_bytes : ℕ

unfoldable pub watermark_normalized : WatermarkOptions → WatermarkOptions
watermark_normalized o = record {
  max_peers = or_default o.max_peers 1024;
  max_peer_id_bytes = or_default o.max_peer_id_bytes 128;
  max_bytes = or_default o.max_bytes (2 ^ 20);
}

-- `none` is the nil map, of a state without one
pub record WatermarkState : Type 0 where
  pub watermarks : Option (Map Bytes Version)

pub record WatermarkBook : Type 0 where
  pub path : Bytes
  pub max_peers : ℕ
  pub max_peer_id : ℕ
  pub max_bytes : ℕ
  pub watermarks : Map Bytes Version

abbrev pub watermark_errors : FileErrors
watermark_errors = record {
  corrupt = Error.watermark_corrupt;
  mismatch = Error.watermark_checksum;
  limit = Error.watermark_limit;
}

-- `Watermark`: zero where the peer is unknown
unfoldable pub watermark : Bytes → WatermarkBook → Version
watermark peer b = elim (lookup peer b.watermarks) [ none ↦ zero_version | some v ↦ v ]

-- `!exists && len(b.watermarks) >= b.maxPeers`
unfoldable pub no_room : Bytes → WatermarkBook → Bool
no_room peer b = elim (lookup peer b.watermarks) [
  | some _ ↦ Bool.false
  | none ↦ leb b.max_peers (length b.watermarks)
]

module _ ⦃u : Unicode⦄ where
  unfoldable pub validate_peer : Bytes → WatermarkBook → Fallible Unit
  validate_peer peer b =
      fail_if (length peer == 0 || (ltb b.max_peer_id (length peer) || not (is_printable peer)))
        Error.watermark_peer_invalid

  -- the loop of `validateState`, in some order of the map
  unfoldable pub check_entries : Map Bytes Version → WatermarkBook → Fallible Unit
  check_entries [] b = ok tt
  check_entries ((peer, version) ∷ m) b =
      let rest = check_entries m b in
      elim (validate_peer peer b) [
        | err e ↦ err (Error.join Error.watermark_corrupt e)
        | ok _ ↦ (do fail_if (is_zero version) Error.watermark_corrupt; rest)
      ]

  -- `validateState`, with the map of the state
  unfoldable pub validate_state : WatermarkState → WatermarkBook → Fallible (Map Bytes Version)
  unfolding check_entries
  validate_state state b = elim state.watermarks [
    | none ↦ err Error.watermark_corrupt
    | some m ↦ (do
      fail_if (ltb b.max_peers (length m)) Error.watermark_limit
      check_entries m b
      ok m)
  ]

module _ ⦃u : Unicode⦄ ⦃json : Json WatermarkState⦄ where
  -- the book that the bytes of a file describe
  unfoldable pub load_book : WatermarkBook → Bytes → Fallible WatermarkBook
  load_book b content = do
    state ← read_state {A = WatermarkState} watermark_errors b.max_bytes content
    watermarks ← validate_state state b
    ok (record b { watermarks = watermarks })

  -- `OpenWatermarkBook` on a path that holds `file`; `read` is the error of `os.ReadFile` other
  -- than that of a missing file
  unfoldable pub open_watermark_book :
      Option Error → Bytes → WatermarkOptions → Option Bytes → Fallible WatermarkBook
  unfolding watermark_normalized load_book
  open_watermark_book read path o file =
      let options = watermark_normalized o in
      let book : WatermarkBook = record {
        path = path;
        max_peers = options.max_peers;
        max_peer_id = options.max_peer_id_bytes;
        max_bytes = options.max_bytes;
        watermarks = [];
      } in
      let found : Fallible WatermarkBook = elim file [
        | none ↦ ok book
        | some content ↦ load_book book content
      ] in
      (do fail_if (length path == 0) Error.nil_watermark_path; check read; found)

  -- `persistLocked`, then `b.watermarks = next`
  unfoldable pub write_through :
      Ctx
      → AtomicIo
      → Map Bytes Version
      → WatermarkBook
      → Option Bytes
      → Fallible Unit × WatermarkBook × Option Bytes
  write_through ctx io next b file =
      let state : WatermarkState = record { watermarks = some next } in
      let saved = persist watermark_errors ctx io b.max_bytes state file in
      elim saved.0 [
        | err e ↦ (err e, b, saved.1)
        | ok _ ↦ (ok tt, record b { watermarks = next }, saved.1)
      ]

  -- the checks that every method makes first
  unfoldable pub entry_checks : Ctx → Bytes → WatermarkBook → Fallible Unit
  entry_checks ctx peer b = do check (ctx 0); validate_peer peer b

  unfoldable pub acknowledge :
      Ctx
      → AtomicIo
      → Bytes
      → Version
      → WatermarkBook
      → Option Bytes
      → Fallible Unit × WatermarkBook × Option Bytes
  unfolding entry_checks write_through
  acknowledge ctx io peer version b file =
      let current = watermark peer b in
      let exists : Bool = elim (lookup peer b.watermarks) [
        | none ↦ Bool.false
        | some _ ↦ Bool.true
      ] in
      let written = write_through (later 1 ctx) io (insert peer version b.watermarks) b file in
      elim (entry_checks ctx peer b) [
        | err e ↦ (err e, b, file)
        | ok _ ↦
            if is_zero version
            then (ok tt, b, file)
            else if older version current
            then (err Error.watermark_regression, b, file)
            else if compares_equal version current && exists
            then (ok tt, b, file)
            else if no_room peer b
            then (err Error.watermark_limit, b, file)
            else written
      ]

  -- `Reconcile` may move a watermark back
  unfoldable pub reconcile :
      Ctx
      → AtomicIo
      → Bytes
      → Version
      → WatermarkBook
      → Option Bytes
      → Fallible Unit × WatermarkBook × Option Bytes
  unfolding entry_checks write_through
  reconcile ctx io peer version b file =
      let same : Bool = elim (lookup peer b.watermarks) [
        | none ↦ Bool.false
        | some current ↦ same_version current version
      ] in
      let removed = write_through (later 1 ctx) io (delete peer b.watermarks) b file in
      let written = write_through (later 1 ctx) io (insert peer version b.watermarks) b file in
      elim (entry_checks ctx peer b) [
        | err e ↦ (err e, b, file)
        | ok _ ↦
            if same
            then (ok tt, b, file)
            else if is_zero version
            then removed
            else if no_room peer b
            then (err Error.watermark_limit, b, file)
            else written
      ]

  unfoldable pub forget :
      Ctx
      → AtomicIo
      → Bytes
      → WatermarkBook
      → Option Bytes
      → Fallible Unit × WatermarkBook × Option Bytes
  unfolding entry_checks write_through
  forget ctx io peer b file =
      let removed = write_through (later 1 ctx) io (delete peer b.watermarks) b file in
      elim (entry_checks ctx peer b) [
        | err e ↦ (err e, b, file)
        | ok _ ↦ elim (lookup peer b.watermarks) [ none ↦ (ok tt, b, file) | some _ ↦ removed ]
      ]
