-- ===== src/Lifecycle/Authority.antt =====
-- internal/lifecycle/authority.go: the durable allocator of versions. `Next` holds the lock from
-- its first read to its last write; a nil receiver is not modelled.
pub mod Allocation
use stream_hive.Common.{
  ℕ, ◌+◌, ◌*◌, ◌-◌, ◌^◌, Option, none, some, List, [], ◌∷◌, ok, err, check, fail_if, ◌>>=◌, ◌>>◌,
  not, length, ltb, ◌==◌, if◌then◌else◌,
}
use stream_hive.Common.Bytes.{Bytes, bytes_equal, uint64}
use stream_hive.Std.Json.{Json}
use stream_hive.Std.Unicode.{Unicode}
use stream_hive.Context.{Ctx, later}
use stream_hive.Errors
use stream_hive.Errors.{Error, Fallible}
use stream_hive.Lifecycle.Version.{Version, newer}
use stream_hive.Lifecycle.Records.{Limits, normalized, or_default, validate_authority_id}
use stream_hive.Lifecycle.Journal.Files.{AtomicIo}
use stream_hive.Lifecycle.StateFile.{FileErrors, persist, read_state}

pub record AuthorityOptions : Type 0 where
  pub limits : Limits
  pub max_bytes : ℕ
  pub observed : Version

unfoldable pub authority_normalized : AuthorityOptions → AuthorityOptions
unfolding normalized
authority_normalized o = record {
  limits = normalized o.limits;
  max_bytes = or_default o.max_bytes (2 ^ 20);
  observed = o.observed;
}

pub record AuthorityState : Type 0 where
  pub authority_id : Bytes
  pub version : Version

pub record Authority : Type 0 where
  pub path : Bytes
  pub authority_id : Bytes
  pub limits : Limits
  pub max_bytes : ℕ
  pub current : Version

abbrev pub authority_errors : FileErrors
authority_errors = record {
  corrupt = Error.authority_corrupt;
  mismatch = Error.authority_checksum;
  limit = Error.authority_limit;
}

-- `math.MaxUint64`
abbrev pub max_uint64 : ℕ
max_uint64 = 2 ^ 64 - 1

unfoldable pub increment_authority_version : Version → Fallible Version
increment_authority_version current = do
  fail_if (current.epoch == 0) Error.authority_version
  if ltb current.sequence max_uint64
      then ok (record { epoch = current.epoch; sequence = current.sequence + 1 })
      else if current.epoch == max_uint64
      then err Error.authority_exhausted
      else ok (record { epoch = current.epoch + 1; sequence = 1 })

unfoldable pub validate_authority_version : Version → Fallible Unit
validate_authority_version version = fail_if (version.epoch == 0) Error.authority_version

-- `random` is what `io.ReadFull(cryptorand.Reader, raw[:])` gives: eight bytes or an error
unfoldable pub initial_authority_version : Fallible Bytes → Version → Fallible Version
initial_authority_version random observed = if not (observed.epoch == 0) then ok observed else do
  raw ← random
  let epoch = uint64 raw
  ok (record { epoch = if epoch == 0 then 1 else epoch; sequence = 0 })

module _ ⦃json : Json AuthorityState⦄ where
  -- `persistLocked`
  unfoldable pub persist_authority :
      Ctx → AtomicIo → Authority → Option Bytes → Fallible Unit × Option Bytes
  persist_authority ctx io a old = persist authority_errors ctx io a.max_bytes state old
    where
      state : AuthorityState
      state = record { authority_id = a.authority_id; version = a.current }

  -- `a.current = observed` where the observed version is newer
  unfoldable pub adopt : Version → Authority → Fallible Authority
  adopt observed a =
      if newer observed a.current
      then (do
        fail_if (observed.epoch == 0) Error.authority_version
        ok (record a { current = observed }))
      else ok a

  -- `Next` behind the adoption of `observed`
  unfoldable pub allocate :
      Ctx → AtomicIo → Authority → Option Bytes → Fallible Version × Authority × Option Bytes
  allocate ctx io a file = elim (increment_authority_version a.current) [
    | err e ↦ (err e, a, file)
    | ok version ↦
        let a' : Authority = record a { current = version } in
        let saved = persist_authority ctx io a' file in (do saved.0; ok version, a', saved.1)
  ]

  -- `Next`: the version, the allocator, and what its file holds
  unfoldable pub next :
      Ctx
      → AtomicIo
      → Version
      → Authority
      → Option Bytes
      → Fallible Version × Authority × Option Bytes
  unfolding adopt allocate
  next ctx io observed a file = elim (do check (ctx 0); adopt observed a) [
    | err e ↦ (err e, a, file)
    | ok a' ↦ allocate (later 1 ctx) io a' file
  ]

  -- `OpenAuthority` of a path without a file
  unfoldable pub create_authority :
      Ctx → AtomicIo → Fallible Bytes → Version → Authority → Fallible Authority × Option Bytes
  create_authority ctx io random observed a = elim (initial_authority_version random observed) [
    | err e ↦ (err e, none)
    | ok version ↦
        let a' : Authority = record a { current = version } in
        let saved = persist_authority ctx io a' none in (do saved.0; ok a', saved.1)
  ]

  -- the allocator that a file describes
  unfoldable pub load_authority : Authority → Bytes → Fallible Authority
  load_authority a content = do
    state ← read_state {A = AuthorityState} authority_errors a.max_bytes content
    fail_if (not (bytes_equal state.authority_id a.authority_id)) Error.authority_mismatch
    validate_authority_version state.version
    ok (record a { current = state.version })

  -- `OpenAuthority` of a file that holds `content`
  unfoldable pub reload_authority :
      Ctx → AtomicIo → Version → Authority → Bytes → Fallible Authority × Option Bytes
  unfolding load_authority
  reload_authority ctx io observed a content = elim (load_authority a content) [
    | err e ↦ (err e, some content)
    | ok a' ↦
        let adopted : Authority = record a' { current = observed } in
        let saved = persist_authority ctx io adopted (some content) in
        if not (newer observed a'.current)
        then (ok a', some content)
        else if observed.epoch == 0
        then (err Error.authority_version, some content)
        else (do saved.0; ok adopted, saved.1)
  ]

  -- `OpenAuthority` on a path that holds `file`, where `read` is the error of `os.ReadFile` other
  -- than that of a missing file
  unfoldable pub open_authority :
      ⦃u : Unicode⦄
      → Ctx
      → AtomicIo
      → Option Error
      → Fallible Bytes
      → Bytes
      → Bytes
      → AuthorityOptions
      → Option Bytes
      → Fallible Authority × Option Bytes
  unfolding authority_normalized create_authority reload_authority
  open_authority ctx io read random path authority_id o file =
      let options = authority_normalized o in
      let fresh : Authority = record {
        path = path;
        authority_id = authority_id;
        limits = options.limits;
        max_bytes = options.max_bytes;
        current = record { epoch = 0; sequence = 0 };
      } in
      let checked = (do
        fail_if (length path == 0) Error.nil_authority_path
        validate_authority_id authority_id options.limits
        check (ctx 0)
        check read) in
      elim checked [
        | err e ↦ (err e, file)
        | ok _ ↦ elim file [
          | none ↦ create_authority (later 1 ctx) io random options.observed fresh
          | some content ↦ reload_authority (later 1 ctx) io options.observed fresh content
        ]
      ]
