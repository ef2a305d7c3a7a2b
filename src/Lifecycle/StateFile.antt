-- ===== src/Lifecycle/StateFile.antt =====
-- The state files of internal/lifecycle: authority.go, watermark.go and membership.go each keep one
-- JSON value in an envelope that is replaced atomically, and each reads it back in the same steps.
pub mod Laws
use stream_hive.Common.{
  ℕ, Option, none, some, ok, err, check, fail_if, ◌>>=◌, ◌>>◌, not, length, ltb, ◌==◌,
}
use stream_hive.Common.Bytes.{Bytes}
use stream_hive.Std.Json.{Json, strictly}
use stream_hive.Context.{Ctx}
use stream_hive.Errors
use stream_hive.Errors.{Error, Fallible}
use stream_hive.Lifecycle.Envelope.{encode_envelope, decode_envelope}
use stream_hive.Lifecycle.Journal.Files.{AtomicIo, atomic_write}

-- the errors of one kind of file
pub record FileErrors : Type 0 where
  pub corrupt : Error
  pub mismatch : Error
  pub limit : Error

-- `errors.Join(corrupt, err)` of a failed `encodeEnvelope`
abbrev pub joined : {A : Type 0} → Error → Fallible A → Fallible A
joined corrupt (ok a) = ok a
joined corrupt (err e) = err (Error.join corrupt e)

module _ {A : Type 0} ⦃json : Json A⦄ (errors : FileErrors) where
  -- the bytes of a state
  unfoldable pub state_bytes : ℕ → A → Fallible Bytes
  state_bytes max_bytes state = do
    bytes ← joined errors.corrupt (encode_envelope (json.marshal state))
    fail_if (ltb max_bytes (length bytes)) errors.limit
    ok bytes

  -- `persistLocked` on a path that holds `old`
  unfoldable pub persist : Ctx → AtomicIo → ℕ → A → Option Bytes → Fallible Unit × Option Bytes
  unfolding state_bytes
  persist ctx io max_bytes state old = elim (state_bytes max_bytes state) [
    | err e ↦ (err e, old)
    | ok bytes ↦ atomic_write ctx io bytes old
  ]

  -- what the file holds, from its bytes
  unfoldable pub read_state : ℕ → Bytes → Fallible A
  read_state max_bytes content = do
    fail_if (length content == 0) errors.corrupt
    fail_if (ltb max_bytes (length content)) errors.limit
    (payload, next) ← decode_envelope content 0 max_bytes errors.corrupt errors.mismatch
    fail_if (not (next == length content)) errors.corrupt
    strictly errors.corrupt errors.corrupt payload
