-- ===== src/Lifecycle/Membership.antt =====
-- internal/lifecycle/membership.go: the set of replicas whose acknowledgements a compaction waits
-- for. A nil receiver and a nil book are not modelled; `wrap` stands for an error that is joined
-- with a message.
pub mod Fence
pub mod Compacted
pub mod Replacement
use stream_hive.Common.{
  ℕ, ◌+◌, ◌^◌, ◌&&◌, ◌||◌, Bool, true, false, Option, none, some, List, [], ◌∷◌, ok, err, check,
  fail_if, ◌>>=◌, ◌>>◌, not, length, ltb, ◌==◌, if◌then◌else◌,
}
use stream_hive.Common.Bytes.{Bytes, bytes_equal, bytes_less}
use stream_hive.Common.Sorting.{sort}
use stream_hive.Std.Json.{Json}
use stream_hive.Std.Unicode.{Unicode}
use stream_hive.Context.{Ctx, later}
use stream_hive.Errors
use stream_hive.Errors.{Error, Fallible}
use stream_hive.Lifecycle.Version.{Version, zero_version, is_zero, older}
use stream_hive.Lifecycle.Records.{or_default, is_printable}
use stream_hive.Lifecycle.Journal.Files.{AtomicIo}
use stream_hive.Lifecycle.StateFile.{FileErrors, persist, read_state}
use stream_hive.Lifecycle.Watermarks.{WatermarkBook, watermark}

pub record MembershipOptions : Type 0 where
  pub max_peers : ℕ
  pub max_peer_id_bytes : ℕ
  pub max_bytes : ℕ

unfoldable pub membership_normalized : MembershipOptions → MembershipOptions
membership_normalized o = record {
  max_peers = or_default o.max_peers 1024;
  max_peer_id_bytes = or_default o.max_peer_id_bytes 128;
  max_bytes = or_default o.max_bytes (2 ^ 20);
}

-- a nil slice is an empty one
pub record MembershipState : Type 0 where
  pub members : List Bytes

pub record MembershipProgress : Type 0 where
  pub configured : Bool
  pub members : ℕ
  pub acknowledged : ℕ
  pub minimum : Version
  pub target : Version

pub record MembershipBook : Type 0 where
  pub path : Bytes
  pub max_peers : ℕ
  pub max_peer_id : ℕ
  pub max_bytes : ℕ
  pub configured : Bool
  pub members : List Bytes

abbrev pub membership_errors : FileErrors
membership_errors = record {
  corrupt = Error.membership_corrupt;
  mismatch = Error.membership_checksum;
  limit = Error.membership_limit;
}

-- two neighbours are the same, in a sorted list
unfoldable pub repeats : List Bytes → Bool
repeats [] = false
repeats (m ∷ []) = false
repeats (m ∷ n ∷ ms) = bytes_equal n m || repeats (n ∷ ms)

module _ ⦃u : Unicode⦄ where
  -- the loop over the identities
  unfoldable pub check_members : ℕ → List Bytes → Fallible Unit
  check_members max_peer_id [] = ok tt
  check_members max_peer_id (m ∷ ms) = do
    fail_if (length m == 0 || (ltb max_peer_id (length m) || not (is_printable m)))
        Error.membership_peer_invalid
    check_members max_peer_id ms

  unfoldable pub normalize_members : List Bytes → MembershipBook → Fallible (List Bytes)
  unfolding check_members
  normalize_members members b = do
    fail_if (ltb b.max_peers (length members)) Error.membership_limit
    check_members b.max_peer_id members
    let normalized = sort bytes_less members
    fail_if (repeats normalized) Error.membership_duplicate
    ok normalized

module _ ⦃u : Unicode⦄ ⦃json : Json MembershipState⦄ where
  unfoldable pub load_members : MembershipBook → Bytes → Fallible MembershipBook
  load_members b content = do
    state ← read_state {A = MembershipState} membership_errors b.max_bytes content
    joined (normalize_members state.members b)
    where
      joined : Fallible (List Bytes) → Fallible MembershipBook
      joined (ok members) = ok (record b { members = members; configured = true })
      joined (err e) = err (Error.join Error.membership_corrupt e)

  -- `OpenMembershipBook` on a path that holds `file`; `read` is the error of `os.ReadFile` other
  -- than that of a missing file
  unfoldable pub open_membership_book :
      Option Error → Bytes → MembershipOptions → Option Bytes → Fallible MembershipBook
  unfolding membership_normalized load_members
  open_membership_book read path o file =
      let options = membership_normalized o in
      let book : MembershipBook = record {
        path = path;
        max_peers = options.max_peers;
        max_peer_id = options.max_peer_id_bytes;
        max_bytes = options.max_bytes;
        configured = false;
        members = [];
      } in
      let found : Fallible MembershipBook = elim file [
        | none ↦ ok book
        | some content ↦ load_members book content
      ] in
      (do fail_if (length path == 0) Error.nil_membership_path; check read; found)

  unfoldable pub replace :
      Ctx
      → AtomicIo
      → List Bytes
      → MembershipBook
      → Option Bytes
      → Fallible Unit × MembershipBook × Option Bytes
  unfolding normalize_members
  replace ctx io members b file = elim (do check (ctx 0); normalize_members members b) [
    | err e ↦ (err e, b, file)
    | ok normalized ↦
        let state : MembershipState = record { members = normalized } in
        let saved = persist membership_errors (later 1 ctx) io b.max_bytes state file in
        elim saved.0 [
          | err e ↦ (err e, b, saved.1)
          | ok _ ↦ (ok tt, record b { members = normalized; configured = true }, saved.1)
        ]
  ]

-- the loop of `Progress`; `set` is `minimumSet`
unfoldable pub progress_loop :
    Ctx → WatermarkBook → List Bytes → Bool → MembershipProgress → Fallible MembershipProgress
progress_loop ctx watermarks [] set p = ok p
progress_loop ctx watermarks (m ∷ ms) set p =
    let version = watermark m watermarks in
    let p' : MembershipProgress = record p {
      minimum = if not set || older version p.minimum then version else p.minimum;
      acknowledged =
          if not (is_zero p.target) && not (older version p.target)
          then p.acknowledged + 1
          else p.acknowledged;
    } in
    let rest = progress_loop (later 1 ctx) watermarks ms true p' in (do check (ctx 0); rest)

unfoldable pub progress :
    Ctx → WatermarkBook → Version → MembershipBook → Fallible MembershipProgress
unfolding progress_loop
progress ctx watermarks target b = do
  check (ctx 0)
  progress_loop (later 1 ctx) watermarks b.members false (record {
    configured = b.configured;
    members = length b.members;
    acknowledged = 0;
    minimum = zero_version;
    target = target;
  })

-- the loop of `WatermarksAt`
unfoldable pub evidence_loop : Ctx → WatermarkBook → Version → List Bytes → Fallible (List Version)
evidence_loop ctx watermarks target [] = ok []
evidence_loop ctx watermarks target (m ∷ ms) = do
  check (ctx 0)
  let version = watermark m watermarks
  fail_if (older version target) (Error.wrap Error.membership_behind)
  rest ← evidence_loop (later 1 ctx) watermarks target ms
  ok (version ∷ rest)

unfoldable pub watermarks_at :
    Ctx → WatermarkBook → Version → MembershipBook → Fallible (List Version)
unfolding evidence_loop
watermarks_at ctx watermarks target b = do
  check (ctx 0)
  fail_if (is_zero target) Error.membership_watermark_invalid
  fail_if (not b.configured) Error.membership_not_configured
  evidence_loop (later 1 ctx) watermarks target b.members
