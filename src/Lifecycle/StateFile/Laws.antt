-- ===== src/Lifecycle/StateFile/Laws.antt =====
-- A state that was persisted is read back, and the file is always one whole state.
use stream_hive.Common.{
  ℕ, ◌≡◌, ◌⊎◌, Option, some, [], ok, arith, append-nil, Result-cases, inl, inr,
}
use stream_hive.Common.Bytes.{Bytes}
use stream_hive.Std.Json.{Json}
use stream_hive.Context.{Ctx}
use stream_hive.Lifecycle.Envelope.{encode_envelope}
use stream_hive.Lifecycle.Envelope.Laws.{
  encode_envelope_iff, length-envelope, decode_envelope-encode_envelope,
}
use stream_hive.Lifecycle.Journal.Files.{AtomicIo, atomic_prepare, atomic_write}
use stream_hive.Lifecycle.StateFile.{FileErrors, state_bytes, persist, read_state}

module _ {A : Type 0} ⦃json : Json A⦄ (errors : FileErrors) (max_bytes : ℕ) (state : A) where
  pub read_state-state_bytes :
      (bytes : Bytes) (found : A)
      → state_bytes errors max_bytes state ≡ ok bytes
      → json.unmarshal (json.marshal state) ≡ some found
      → read_state errors max_bytes bytes ≡ ok found
  unfolding state_bytes read_state
  read_state-state_bytes bytes found made back =
      elim (Result-cases (encode_envelope (json.marshal state))) [
        | inr (e, bad) ↦ absurd (ground arith)
        | inl (file, good) ↦ ground (
          arith,
          encode_envelope_iff (json.marshal state) bytes,
          length-envelope (json.marshal state),
          append-nil bytes,
          decode_envelope-encode_envelope [] (json.marshal state) bytes [] max_bytes errors.corrupt
              errors.mismatch,
        )
      ]

  -- a successful `persistLocked`
  pub persist_ok :
      (ctx : Ctx) (io : AtomicIo) (old : Option Bytes)
      → (persist errors ctx io max_bytes state old).0 ≡ ok tt
      → (bytes : Bytes) × (state_bytes errors max_bytes state ≡ ok bytes)
        × ((persist errors ctx io max_bytes state old).1 ≡ some bytes)
  unfolding persist atomic_write
  persist_ok ctx io old done = elim (Result-cases (state_bytes errors max_bytes state)) [
    | inr (e, bad) ↦ absurd (ground arith)
    | inl (bytes, made) ↦ elim (Result-cases (atomic_prepare ctx io)) [
      | inr (e, bad) ↦ absurd (ground arith)
      | inl (_, good) ↦ (bytes, made, ground arith)
    ]
  ]

  -- the file after `persistLocked`, whatever it answers
  pub persist_whole :
      (ctx : Ctx) (io : AtomicIo) (old : Option Bytes)
      → ((persist errors ctx io max_bytes state old).1 ≡ old)
        ⊎ ((bytes : Bytes) × (state_bytes errors max_bytes state ≡ ok bytes)
            × ((persist errors ctx io max_bytes state old).1 ≡ some bytes))
  unfolding persist atomic_write
  persist_whole ctx io old = elim (Result-cases (state_bytes errors max_bytes state)) [
    | inr (e, bad) ↦ inl (ground arith)
    | inl (bytes, made) ↦ elim (Result-cases (atomic_prepare ctx io)) [
      | inr (e, bad) ↦ inl (ground arith)
      | inl (_, good) ↦ inr (bytes, made, ground arith)
    ]
  ]
