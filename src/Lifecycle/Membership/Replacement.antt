-- ===== src/Lifecycle/Membership/Replacement.antt =====
-- A membership that was replaced is sorted, without repetition, and on disk.
use mathlib.Core.List.{Perm}
use stream_hive.Common.{
  ℕ, ◌≤◌, ◌≡◌, ◌⊎◌, refl, true, false, Option, some, List, [], ◌∷◌, ok, err, check, arith, All,
  length, ◌>>◌, Result-cases, inl, inr,
}
use stream_hive.Common.Bytes.{
  Bytes, bytes_equal_iff, bytes_less, bytes_less_irrefl, bytes_less_asym, bytes_less_total,
}
use stream_hive.Common.Sorting.{
  sort, sort-perm, sort-IsSorted, length-sort, IsSorted, IsAscending, All-sort, sort-ascending,
}
use stream_hive.Std.Json.{Json}
use stream_hive.Std.Unicode.{Unicode}
use stream_hive.Context.{Ctx, later}
use stream_hive.Errors.{Error}
use stream_hive.Lifecycle.Journal.Files.{AtomicIo}
use stream_hive.Lifecycle.StateFile.{persist}
use stream_hive.Lifecycle.StateFile.Laws.{persist_ok, read_state-state_bytes}
use stream_hive.Lifecycle.Membership.{
  MembershipBook, MembershipState, membership_errors, repeats, check_members, normalize_members,
  load_members, replace,
}

repeats-IsAscending :
    (ms : List Bytes) → IsSorted bytes_less ms → repeats ms ≡ false → IsAscending bytes_less ms
unfolding repeats
repeats-IsAscending [] h d = tt
repeats-IsAscending (m ∷ []) h d = tt
repeats-IsAscending (m ∷ n ∷ ms) h d = (
  ground (arith, bytes_equal_iff n m, bytes_less_total m n),
  repeats-IsAscending (n ∷ ms) h.1 (ground arith),
)

IsAscending-repeats : (ms : List Bytes) → IsAscending bytes_less ms → repeats ms ≡ false
unfolding repeats
IsAscending-repeats [] h = refl
IsAscending-repeats (m ∷ []) h = refl
IsAscending-repeats (m ∷ n ∷ ms) h = ground (
  arith,
  bytes_equal_iff n m,
  bytes_less_irrefl m,
  bytes_less_irrefl n,
  IsAscending-repeats (n ∷ ms) h.1,
)

module _ ⦃u : Unicode⦄ where
  abbrev IsMember : ℕ → Bytes → Type 0
  IsMember max m = check_members max (m ∷ []) ≡ ok tt

  check_members_all :
      (max : ℕ) (ms : List Bytes) → check_members max ms ≡ ok tt → All (IsMember max) ms
  unfolding check_members
  check_members_all max [] h = tt
  check_members_all max (m ∷ ms) h = ground (arith, check_members_all max ms)

  all_check_members :
      (max : ℕ) (ms : List Bytes) → All (IsMember max) ms → check_members max ms ≡ ok tt
  unfolding check_members
  all_check_members max [] h = refl
  all_check_members max (m ∷ ms) h = ground (arith, all_check_members max ms)

  -- a membership in normal form, within the bounds of the book
  pub record IsFence (ms : List Bytes) (b : MembershipBook) : Type 0 where
    pub few : length ms ≤ b.max_peers
    pub valid : check_members b.max_peer_id ms ≡ ok tt
    pub ascending : IsAscending bytes_less ms

  normalize_members_ok :
      (ms out : List Bytes) (b : MembershipBook)
      → normalize_members ms b ≡ ok out
      → IsFence out b × Perm out ms
  unfolding normalize_members
  normalize_members_ok ms out b h =
      let shape : out ≡ sort bytes_less ms = ground arith in
      let valid : check_members b.max_peer_id ms ≡ ok tt = ground arith in
      let distinct : repeats (sort bytes_less ms) ≡ false = ground arith in
      let few : length ms ≤ b.max_peers = ground arith in
      rw shape (
        record {
          few = omega (arith, few, length-sort bytes_less ms);
          valid = all_check_members b.max_peer_id (sort bytes_less ms) (
              All-sort bytes_less (IsMember b.max_peer_id) ms
                (check_members_all b.max_peer_id ms valid));
          ascending =
              repeats-IsAscending (sort bytes_less ms) (sort-IsSorted bytes_less bytes_less_asym ms)
                distinct;
        },
        sort-perm bytes_less ms,
      )

  normalize_fence :
      (ms : List Bytes) (b : MembershipBook) → IsFence ms b → normalize_members ms b ≡ ok ms
  unfolding normalize_members
  normalize_fence ms b f = ground (
    arith,
    f.few,
    f.valid,
    sort-ascending bytes_less bytes_less_asym ms f.ascending,
    IsAscending-repeats ms f.ascending,
  )

module _ ⦃u : Unicode⦄ ⦃json : Json MembershipState⦄ where
  -- `Replace` fails and leaves the book as it was, or it sets the same members in strict order,
  -- valid and within the bounds, and `OpenMembershipBook` reads that book back from the file (if
  -- the JSON of that one state reads back).
  pub replace_settled :
      (ctx : Ctx) (io : AtomicIo) (ms : List Bytes) (b : MembershipBook) (file : Option Bytes)
      → ((out : List Bytes)
          → normalize_members ms b ≡ ok out
          → json.unmarshal (json.marshal (record { members = out }))
            ≡ some (record { members = out }))
      → ((e : Error) × ((replace ctx io ms b file).0 ≡ err e) × ((replace ctx io ms b file).1 ≡ b))
        ⊎ ((out : List Bytes) × (bytes : Bytes) × (replace ctx io ms b file
              ≡ (ok tt, record b { members = out; configured = true }, some bytes))
            × IsFence out b
            × Perm out ms
            × (load_members b bytes ≡ ok (record b { members = out; configured = true })))
  unfolding replace load_members
  replace_settled ctx io ms b file back =
      elim (Result-cases (do check (ctx 0); normalize_members ms b)) [
        | inr (e, bad) ↦ inl (e, ground arith, ground arith)
        | inl (out, good) ↦
            let (fence, perm) = normalize_members_ok ms out b (ground arith) in
            let state : MembershipState = record { members = out } in
            let saved = persist membership_errors (later 1 ctx) io b.max_bytes state file in
            elim (Result-cases saved.0) [
              | inr (e, failed) ↦ inl (e, ground arith, ground arith)
              | inl (_, done) ↦
                  let (bytes, encoded, written) =
                    persist_ok membership_errors b.max_bytes state (later 1 ctx) io file done in
                  inr (
                    out,
                    bytes,
                    ground arith,
                    fence,
                    perm,
                    ground (
                      arith,
                      read_state-state_bytes membership_errors b.max_bytes state bytes state encoded
                          (back out (ground arith)),
                      normalize_fence out b fence,
                    ),
                  )
            ]
      ]
