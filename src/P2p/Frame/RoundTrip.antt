-- ===== src/P2p/Frame/RoundTrip.antt =====
-- What is written as a frame is read as one, whatever follows.
use stream_hive.Common.{
  true, ℕ, ◌^◌, ◌<◌, ◌≤◌, ◌≡◌, refl, ap, subst, ◌∙◌, none, [], ◌∷◌, ◌++◌, ok, err, arith, length,
  length-append, take-append, drop-append, inl, inr, Bool-cases, ltb, if◌then◌else◌,
}
use stream_hive.Common.Bytes.{
  Bytes, bytes_equal_iff, put_uint32, uint32, uint32-put_uint32, length-put_uint32,
}
use stream_hive.Errors.{Error}
use stream_hive.P2p.Frame.{
  frame_magic, frame_max, frame_header, write_frame, read_full, read_payload, read_frame,
}

-- a frame
abbrev pub frame : Bytes → Bytes
frame payload = frame_header payload ++ payload

pub read_full-append :
    (bytes rest : Bytes) → read_full (length bytes) (bytes ++ rest) ≡ (ok bytes, rest)
unfolding read_full
read_full-append bytes rest =
    ground (arith, length-append bytes rest, take-append bytes rest, drop-append bytes rest)

read_payload-append :
    (max : ℕ) (payload rest : Bytes)
    → length payload ≤ frame_max max
    → read_payload (length payload) max (payload ++ rest) ≡ (ok payload, rest)
unfolding read_payload
read_payload-append max [] rest fits = ground arith
read_payload-append max (b ∷ bs) rest fits = ground (arith, read_full-append (b ∷ bs) rest)

pub read_full_at :
    (n : ℕ) (bytes rest : Bytes) → length bytes ≡ n → read_full n (bytes ++ rest) ≡ (ok bytes, rest)
read_full_at n bytes rest h =
    subst (λ (m : ℕ). read_full m (bytes ++ rest) ≡ (ok bytes, rest)) h
      (read_full-append bytes rest)

pub read_frame-parts :
    (max : ℕ) (prefix rest : Bytes)
    → length prefix ≡ 4
    → read_frame max (frame_magic ++ (prefix ++ rest)) ≡ read_payload (uint32 prefix) max rest
unfolding read_frame
read_frame-parts max prefix rest long = ground (
  arith,
  read_full_at 4 frame_magic (prefix ++ rest) refl,
  read_full_at 4 prefix rest long,
  bytes_equal_iff frame_magic frame_magic,
)

pub frame-append :
    (payload rest : Bytes)
    → frame payload ++ rest ≡ frame_magic ++ (put_uint32 (length payload) ++ (payload ++ rest))
unfolding frame_header put_uint32
frame-append payload rest = refl

over_limit :
    (max : ℕ) (payload rest : Bytes)
    → ltb (frame_max max) (length payload) ≡ true
    → read_payload (length payload) max (payload ++ rest)
      ≡ (err Error.frame_too_large, payload ++ rest)
unfolding read_payload
over_limit max payload rest over = ground arith

pub read_frame-header :
    (max : ℕ) (payload rest : Bytes)
    → length payload < 2 ^ 32
    → read_frame max (frame payload ++ rest) ≡ read_payload (length payload) max (payload ++ rest)
read_frame-header max payload rest small =
    ap (read_frame max) (frame-append payload rest)
    ∙ read_frame-parts max (put_uint32 (length payload)) (payload ++ rest)
        (length-put_uint32 (length payload))
    ∙ ap (λ (n : ℕ). read_payload n max (payload ++ rest))
        (uint32-put_uint32 (length payload) small)

-- `ReadFrame` reads a frame that `WriteFrame` wrote back as its payload and leaves what follows it
-- on the stream, where the payload is shorter than 4 GiB and within the reader's limit; over the
-- limit it refuses it and reads no byte of the payload.
pub read_frame-write_frame :
    (written read : ℕ) (payload rest : Bytes)
    → length payload < 2 ^ 32
    → (write_frame none none payload written).0 ≡ ok tt
    → read_frame read ((write_frame none none payload written).1 ++ rest) ≡ (
        if ltb (frame_max read) (length payload)
        then (err Error.frame_too_large, payload ++ rest)
        else (ok payload, rest))
unfolding write_frame
read_frame-write_frame written read payload rest small done =
    elim (Bool-cases (ltb (frame_max read) (length payload))) [
      | inl over ↦
          ground
            (arith, read_frame-header read payload rest small, over_limit read payload rest over)
      | inr within ↦
          ground (
            arith,
            read_frame-header read payload rest small,
            read_payload-append read payload rest,
          )
    ]
