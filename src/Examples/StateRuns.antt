-- ===== src/Examples/StateRuns.antt =====
-- The theorems about the state files, at concrete inputs.
use mathlib.Core.List.{Perm}
use stream_hive.Common.{
  ◌≡◌, ◌↔◌, ◌⊎◌, refl, true, false, none, some, List, [], ◌∷◌, ok, err, All, length,
}
use stream_hive.Common.Bytes.{Bytes, bytes_equal}
use stream_hive.Context.{background}
use stream_hive.Errors.{Error}
use stream_hive.Lifecycle.Version.{newer, older, is_zero}
use stream_hive.Lifecycle.Journal.Files.{atomic_fine}
use stream_hive.Lifecycle.Authority.{Authority, next}
use stream_hive.Lifecycle.Authority.Allocation.{next-AscendFrom, AscendFrom, allocated, Calls}
use stream_hive.Lifecycle.Watermarks.{
  WatermarkBook, watermark, acknowledge, reconcile, check_entries,
}
use stream_hive.Lifecycle.Membership.{
  MembershipBook, MembershipProgress, progress, watermarks_at, replace, load_members,
}
use stream_hive.Lifecycle.Membership.Fence.{Reaches, progress_exact}
use stream_hive.Lifecycle.Membership.Replacement.{IsFence, replace_settled}
use stream_hive.Examples.Codec.{ascii}
use stream_hive.Examples.StateCodec.{
  authority_codec, watermark_codec, membership_codec, membership_codec_back,
}
use stream_hive.Examples.Samples.{limits, at}
use stream_hive.Common.Bytes.{put_uint32, bytes_less}
use stream_hive.Common.Maps.{insert, lookup, delete}
use stream_hive.Lifecycle.Version.{compare, same_version, compares_equal}
use stream_hive.Lifecycle.Records.{is_printable, all_print}
use stream_hive.Std.Utf8.{runes}
use stream_hive.Lifecycle.Envelope.{encode_envelope, envelope}
use stream_hive.Lifecycle.Journal.Files.{atomic_prepare, atomic_write}
use stream_hive.Lifecycle.StateFile.{persist, state_bytes}
use stream_hive.Lifecycle.Authority.{
  adopt, allocate, increment_authority_version, persist_authority,
}
use stream_hive.Lifecycle.Watermarks.{validate_peer, no_room, entry_checks, write_through}
use stream_hive.Lifecycle.Membership.{progress_loop, evidence_loop}

abbrev authority : Authority
authority = record {
  path = b'p' ∷ [];
  authority_id = b'a' ∷ [];
  limits = limits;
  max_bytes = 1000;
  current = at 3 4;
}

next_run : (next background atomic_fine (at 3 7) authority none).0 ≡ ok (at 3 8)
unfolding next put_uint32 bytes_equal bytes_less insert lookup delete newer compare older is_zero
    same_version compares_equal is_printable all_print runes encode_envelope envelope atomic_prepare
    atomic_write persist state_bytes adopt allocate increment_authority_version persist_authority
    watermark validate_peer check_entries no_room entry_checks write_through progress_loop
    evidence_loop
next_run = refl

abbrev calls : Calls
calls =
    (background, atomic_fine, at 3 7)
    ∷ (background, record atomic_fine { sync = some (Error.os 5) }, at 0 0)
    ∷ (background, atomic_fine, at 0 0)
    ∷ []

next-AscendFrom_example : AscendFrom (at 3 4) (allocated calls authority none)
next-AscendFrom_example = next-AscendFrom calls authority none

abbrev book : WatermarkBook
book = record {
  path = b'w' ∷ [];
  max_peers = 2;
  max_peer_id = 8;
  max_bytes = 1000;
  watermarks = (b'x' ∷ [], at 1 2) ∷ (b'y' ∷ [], at 1 5) ∷ [];
}

acknowledged : (acknowledge background atomic_fine (b'x' ∷ []) (at 1 3) book none).0 ≡ ok tt
unfolding acknowledge put_uint32 bytes_equal bytes_less insert lookup delete newer compare older
    is_zero same_version compares_equal is_printable all_print runes encode_envelope envelope
    atomic_prepare atomic_write persist state_bytes adopt allocate increment_authority_version
    persist_authority watermark validate_peer check_entries no_room entry_checks write_through
    progress_loop evidence_loop
acknowledged = refl

reconciled : (reconcile background atomic_fine (b'x' ∷ []) (at 0 0) book none).0 ≡ ok tt
unfolding reconcile put_uint32 bytes_equal bytes_less insert lookup delete newer compare older
    is_zero same_version compares_equal is_printable all_print runes encode_envelope envelope
    atomic_prepare atomic_write persist state_bytes adopt allocate increment_authority_version
    persist_authority watermark validate_peer check_entries no_room entry_checks write_through
    progress_loop evidence_loop
reconciled = refl

abbrev members : MembershipBook
members = record {
  path = b'm' ∷ [];
  max_peers = 3;
  max_peer_id = 8;
  max_bytes = 1000;
  configured = true;
  members = (b'x' ∷ []) ∷ (b'y' ∷ []) ∷ [];
}

evidence : watermarks_at background book (at 1 2) members ≡ ok (at 1 2 ∷ at 1 5 ∷ [])
unfolding watermarks_at put_uint32 bytes_equal bytes_less insert lookup delete newer compare older
    is_zero same_version compares_equal is_printable all_print runes encode_envelope envelope
    atomic_prepare atomic_write persist state_bytes adopt allocate increment_authority_version
    persist_authority watermark validate_peer check_entries no_room entry_checks write_through
    progress_loop evidence_loop
evidence = refl

abbrev counted : MembershipProgress
counted = record {
  configured = true;
  members = 2;
  acknowledged = 1;
  minimum = at 1 2;
  target = at 1 3;
}

progress_run : progress background book (at 1 3) members ≡ ok counted
unfolding progress put_uint32 bytes_equal bytes_less insert lookup delete newer compare older
    is_zero same_version compares_equal is_printable all_print runes encode_envelope envelope
    atomic_prepare atomic_write persist state_bytes adopt allocate increment_authority_version
    persist_authority watermark validate_peer check_entries no_room entry_checks write_through
    progress_loop evidence_loop
progress_run = refl

progress_exact_example :
    ((counted.acknowledged ≡ counted.members) ↔ All (Reaches book (at 1 3)) members.members)
    × (counted.members ≡ length members.members)
    × (counted.configured ≡ members.configured)
    × All (λ m. newer counted.minimum (watermark m book) ≡ false) members.members
unfolding is_zero
progress_exact_example = progress_exact book (at 1 3) members counted refl progress_run

replace_settled_example :
    ((e : Error) × ((replace background atomic_fine ((b'z' ∷ []) ∷ (b'x' ∷ []) ∷ []) members none).0
        ≡ err e)
      × ((replace background atomic_fine ((b'z' ∷ []) ∷ (b'x' ∷ []) ∷ []) members none).1
          ≡ members))
    ⊎ ((out : List Bytes) × (bytes : Bytes) × (replace background atomic_fine
            ((b'z' ∷ []) ∷ (b'x' ∷ []) ∷ [])
            members
            none
          ≡ (ok tt, record members { members = out; configured = true }, some bytes))
        × IsFence out members
        × Perm out ((b'z' ∷ []) ∷ (b'x' ∷ []) ∷ [])
        × (load_members members bytes ≡ ok (record members { members = out; configured = true })))
replace_settled_example =
    replace_settled background atomic_fine ((b'z' ∷ []) ∷ (b'x' ∷ []) ∷ []) members none
      (λ out normal. membership_codec_back (record { members = out }))
