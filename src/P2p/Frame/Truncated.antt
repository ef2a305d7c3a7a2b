-- ===== src/P2p/Frame/Truncated.antt =====
-- What `ReadFrame` accepts, and how it ends on a stream that is cut within a frame.
use stream_hive.Common.{
  ℕ, zero, suc, ◌^◌, ◌<◌, ◌≤◌, ◌≡◌, sym, ap, ◌∙◌, ◌||◌, ◌++◌, ok, err, arith, length, take, drop,
  length-take, take-append-drop, Result-cases, inl, inr, ◌==◌, leb, Bool-cases, if◌then◌else◌,
}
use stream_hive.Common.Bytes.{
  Bytes, bytes_equal, bytes_equal_iff, put_uint32, uint32, uint32-put_uint32, length-put_uint32,
}
use stream_hive.Errors.{Error, Fallible}
use stream_hive.P2p.Frame.{
  frame_magic, frame_max, frame_header, read_full, read_payload, read_frame,
}
use stream_hive.P2p.Frame.RoundTrip.{frame, read_frame-parts}

read_full_sound :
    (n : ℕ) (stream bytes rest : Bytes)
    → read_full n stream ≡ (ok bytes, rest)
    → (stream ≡ bytes ++ rest) × (length bytes ≡ n)
unfolding read_full
read_full_sound n stream bytes rest h = elim (Bool-cases (leb n (length stream))) [
  | inr short ↦ absurd (ground arith)
  | inl enough ↦
      let first : bytes ≡ take n stream = ground arith in
      let second : rest ≡ drop n stream = ground arith in
      rw (first, second) (sym (take-append-drop n stream), ground (arith, length-take n stream))
]

read_payload_sound :
    (n max : ℕ) (stream payload rest : Bytes)
    → read_payload n max stream ≡ (ok payload, rest)
    → (stream ≡ payload ++ rest) × (length payload ≡ n) × (n ≤ frame_max max)
unfolding read_payload
read_payload_sound n max stream payload rest h = elim (Bool-cases (n == 0)) [
  | inl none ↦ ground arith
  | inr some_bytes ↦ ground (arith, read_full_sound n stream payload rest)
]

-- A payload that `ReadFrame` gives is no longer than the limit (4 MiB for a limit that is not
-- positive), and the bytes that it took off the stream are the magic, four bytes that spell the
-- payload's length, and the payload, no more.
pub read_frame_sound :
    (max : ℕ) (stream payload rest : Bytes)
    → read_frame max stream ≡ (ok payload, rest)
    → (length payload ≤ frame_max max)
      × (prefix : Bytes) × (length prefix ≡ 4)
      × (uint32 prefix ≡ length payload)
      × (stream ≡ frame_magic ++ (prefix ++ (payload ++ rest)))
unfolding read_frame
read_frame_sound max stream payload rest h =
    let magic = read_full 4 stream in
    let second = read_full 4 magic.1 in
    elim (Result-cases magic.0) [
      | inr (e, bad) ↦ absurd (ground arith)
      | inl (found, good) ↦ elim (Bool-cases (bytes_equal found frame_magic)) [
        | inr other ↦ absurd (ground arith)
        | inl same ↦ elim (Result-cases second.0) [
          | inr (e, bad) ↦ absurd (ground arith)
          | inl (prefix, read) ↦
              let (whole, _) = read_full_sound 4 stream found magic.1 (ground arith) in
              let (inner, four) = read_full_sound 4 magic.1 prefix second.1 (ground arith) in
              let (tail, long, fits) =
                read_payload_sound (uint32 prefix) max second.1 payload rest (ground arith) in
              (
                ground arith,
                prefix,
                four,
                sym long,
                whole
                    ∙ ap (λ (bs : Bytes). bs ++ magic.1)
                        ((bytes_equal_iff found frame_magic).0 same)
                    ∙ ap (λ (bs : Bytes). frame_magic ++ bs)
                        (inner ∙ ap (λ (bs : Bytes). prefix ++ bs) tail),
              )
        ]
      ]
    ]

read_payload_cut :
    (max m : ℕ) (payload : Bytes)
    → length payload ≤ frame_max max
    → m < length payload
    → (read_payload (length payload) max (take m payload)).0
      ≡ err (if m == 0 then Error.eof else Error.unexpected_eof)
unfolding read_payload read_full
read_payload_cut max m payload fits short = ground (arith, length-take m payload)

-- A frame that a stream ends in is never given as a payload: the answer is io.EOF where the stream
-- ends in front of the frame, behind its magic or behind its header, and io.ErrUnexpectedEOF
-- anywhere else (for a payload shorter than 4 GiB that is within the limit).
pub read_frame-take :
    (max n : ℕ) (payload : Bytes)
    → length payload < 2 ^ 32
    → length payload ≤ frame_max max
    → n < length (frame payload)
    → (read_frame max (take n (frame payload))).0
      ≡ err (if n == 0 || (n == 4 || n == 8) then Error.eof else Error.unexpected_eof)
unfolding read_frame read_full frame_header put_uint32 bytes_equal
read_frame-take max zero payload small fits short = ground arith
read_frame-take max (suc zero) payload small fits short = ground arith
read_frame-take max (suc (suc zero)) payload small fits short = ground arith
read_frame-take max (suc (suc (suc zero))) payload small fits short = ground arith
read_frame-take max (suc (suc (suc (suc zero)))) payload small fits short = ground arith
read_frame-take max (suc (suc (suc (suc (suc zero))))) payload small fits short = ground arith
read_frame-take max (suc (suc (suc (suc (suc (suc zero)))))) payload small fits short = ground arith
read_frame-take max (suc (suc (suc (suc (suc (suc (suc zero))))))) payload small fits short =
    ground arith
read_frame-take max (suc (suc (suc (suc (suc (suc (suc (suc m)))))))) payload small fits short =
    ap (λ (x : Fallible Bytes × Bytes). x.0) shape ∙ ends
  where
    shape :
        read_frame max (frame_magic ++ (put_uint32 (length payload) ++ take m payload))
        ≡ read_payload (length payload) max (take m payload)
    shape =
        read_frame-parts max (put_uint32 (length payload)) (take m payload)
          (length-put_uint32 (length payload))
        ∙ ap (λ (n : ℕ). read_payload n max (take m payload))
            (uint32-put_uint32 (length payload) small)

    ends :
        (read_payload (length payload) max (take m payload)).0
        ≡ err (
            if suc (suc (suc (suc (suc (suc (suc (suc m))))))) == 0
              || (suc (suc (suc (suc (suc (suc (suc (suc m))))))) == 4
                  || suc (suc (suc (suc (suc (suc (suc (suc m))))))) == 8)
            then Error.eof
            else Error.unexpected_eof)
    ends = ground (arith, read_payload_cut max m payload fits)
