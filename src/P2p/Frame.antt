-- ===== src/P2p/Frame.antt =====
-- p2p/frame.go: frames on a byte stream. A writer takes the bytes of a call, or some of them and then
-- fails; a reader is at some place of a stream that ends. An `int` has 64 bits.
pub mod RoundTrip
pub mod Truncated
use stream_hive.Common.{
  ℕ, ◌*◌, ◌^◌, Bool, Option, none, some, List, [], ◌∷◌, ◌++◌, ok, err, not, length, take, drop, ltb,
  leb, ◌==◌, if◌then◌else◌,
}
use stream_hive.Common.Bytes.{Bytes, bytes_equal, put_uint32, uint32}
use stream_hive.Errors
use stream_hive.Errors.{Error, Fallible}

-- "SHV1"
abbrev pub frame_magic : Bytes
frame_magic = b'S' ∷ b'H' ∷ b'V' ∷ b'1' ∷ []

-- `maxPayload`, with DefaultMaxFrameBytes where it is not positive
unfoldable pub frame_max : ℕ → ℕ
frame_max max = if max == 0 then 4 * 2 ^ 20 else max

unfoldable pub frame_header : Bytes → Bytes
unfolding put_uint32
frame_header payload = frame_magic ++ put_uint32 (length payload)

-- the answer, and the bytes that reached the stream; a `Write` that fails has written some bytes
unfoldable pub write_frame :
    Option (ℕ × Error) → Option (ℕ × Error) → Bytes → ℕ → Fallible Unit × Bytes
unfolding frame_header frame_max
write_frame header body payload max =
    if ltb (frame_max max) (length payload) then (err Error.frame_too_large, []) else elim header [
      | some (n, e) ↦ (err e, take n (frame_header payload))
      | none ↦ elim body [
        | some (n, e) ↦ (err e, frame_header payload ++ take n payload)
        | none ↦ (ok tt, frame_header payload ++ payload)
      ]
    ]

-- `io.ReadFull` of `n` bytes: the bytes and what is left of the stream
unfoldable pub read_full : ℕ → Bytes → Fallible Bytes × Bytes
read_full n stream =
    if leb n (length stream)
    then (ok (take n stream), drop n stream)
    else (err (if length stream == 0 then Error.eof else Error.unexpected_eof), [])

-- the payload behind the header
unfoldable pub read_payload : ℕ → ℕ → Bytes → Fallible Bytes × Bytes
unfolding read_full
read_payload n max stream =
    if ltb (frame_max max) n
    then (err Error.frame_too_large, stream)
    else if n == 0
    then (ok [], stream)
    else read_full n stream

-- a nil payload is the empty one
unfoldable pub read_frame : ℕ → Bytes → Fallible Bytes × Bytes
unfolding read_payload
read_frame max stream =
    let magic = read_full 4 stream in
    let prefix = read_full 4 magic.1 in
    elim magic.0 [
      | err e ↦ (err e, magic.1)
      | ok found ↦
          if not (bytes_equal found frame_magic)
          then (err Error.bad_magic, magic.1)
          else elim prefix.0 [
            | err e ↦ (err e, prefix.1)
            | ok n ↦ read_payload (uint32 n) max prefix.1
          ]
    ]
