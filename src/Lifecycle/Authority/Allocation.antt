-- ===== src/Lifecycle/Authority/Allocation.antt =====
-- Versions are allocated in strictly ascending order, across failures and restarts.
use stream_hive.Common.{
  ◌<◌, ◌≡◌, ap, ◌∙◌, subst, true, false, Option, some, List, [], ◌∷◌, Result, ok, err, check, ◌>>◌,
  arith, Result-cases, inl, inr,
}
use stream_hive.Common.Bytes.{Bytes, bytes_equal_iff}
use stream_hive.Std.Json.{Json}
use stream_hive.Context.{Ctx, later}
use stream_hive.Errors.{Error}
use stream_hive.Lifecycle.Version.{Version, newer, compare}
use stream_hive.Lifecycle.Version.Order.{
  newer_irrefl, newer_asym, not_newer_trans, newer_of_newer_not,
}
use stream_hive.Lifecycle.JournalFile.Header.{IsU64Version}
use stream_hive.Lifecycle.Journal.Files.{AtomicIo}
use stream_hive.Lifecycle.StateFile.Laws.{persist_ok, read_state-state_bytes}
use stream_hive.Lifecycle.Authority.{
  Authority, AuthorityState, authority_errors, increment_authority_version,
  validate_authority_version, persist_authority, adopt, allocate, next, load_authority,
}

-- The next version is newer, within 64 bits, and of a nonzero epoch, and nothing lies between
-- unless the epoch advances; it exists but at the very end of the version space.
pub increment_authority_version_ok :
    (v w : Version)
    → increment_authority_version v ≡ ok w
    → newer w v ≡ true × (IsU64Version v → IsU64Version w) × (0 < w.epoch)
unfolding increment_authority_version newer compare
increment_authority_version_ok v w h = (ground arith, λ u. ground arith, ground arith)

module _ ⦃json : Json AuthorityState⦄ where
  adopt_ok :
      (observed : Version) (a b : Authority)
      → adopt observed a ≡ ok b
      → (newer observed b.current ≡ false)
        × (newer a.current b.current ≡ false)
        × (b ≡ record a { current = b.current })
  unfolding adopt
  adopt_ok observed a b h =
      ground (arith, newer_irrefl observed, newer_irrefl a.current, newer_asym observed a.current)

  -- what a successful `Next` went through
  next_done :
      (ctx : Ctx) (io : AtomicIo) (observed v : Version) (a : Authority) (file : Option Bytes)
      → (next ctx io observed a file).0 ≡ ok v
      → (c : Version) × (adopt observed a ≡ ok (record a { current = c }))
        × (increment_authority_version c ≡ ok v)
        × ((next ctx io observed a file).1 ≡ record a { current = v })
        × ((persist_authority (later 1 ctx) io (record a { current = v }) file).0 ≡ ok tt)
        × ((next ctx io observed a file).2
            ≡ (persist_authority (later 1 ctx) io (record a { current = v }) file).1)
  unfolding next allocate
  next_done ctx io observed v a file done = elim (Result-cases (adopt observed a)) [
    | inr (e, bad) ↦ absurd (ground arith)
    | inl (b, adopted) ↦
        let (_, _, same) = adopt_ok observed a b adopted in
        let adopted' : adopt observed a ≡ ok (record a { current = b.current }) =
          adopted ∙ ap ok same in
        elim (Result-cases (increment_authority_version b.current)) [
          | inr (e, bad) ↦ absurd (ground arith)
          | inl (w, made) ↦
              (b.current, adopted', ground arith, ground arith, ground arith, ground arith)
        ]
  ]

  -- A version that `Next` returns is newer than the allocator's last one and than the observed one,
  -- has a nonzero epoch, and is within 64 bits if those are; it becomes the allocator's last one.
  pub next-newer :
      (ctx : Ctx) (io : AtomicIo) (observed v : Version) (a : Authority) (file : Option Bytes)
      → (next ctx io observed a file).0 ≡ ok v
      → (newer v a.current ≡ true)
        × (newer v observed ≡ true)
        × (0 < v.epoch)
        × (IsU64Version a.current → IsU64Version observed → IsU64Version v)
        × ((next ctx io observed a file).1 ≡ record a { current = v })
  unfolding adopt
  next-newer ctx io observed v a file done =
      let (c, adopted, made, after, _, _) = next_done ctx io observed v a file done in
      let (fresh, word, pos) = increment_authority_version_ok c v made in
      let (seen, kept, _) = adopt_ok observed a (record a { current = c }) adopted in
      (
        newer_of_newer_not v c a.current fresh kept,
        newer_of_newer_not v c observed fresh seen,
        pos,
        λ x y. word (ground arith),
        after,
      )

  -- A version that `Next` returned is on disk: the file it leaves describes the allocator with that
  -- version as its last one (if the JSON of that state reads back).
  pub next_durable :
      (ctx : Ctx) (io : AtomicIo) (observed v : Version) (a : Authority) (file : Option Bytes)
      → json.unmarshal (json.marshal (record { authority_id = a.authority_id; version = v }))
        ≡ some (record { authority_id = a.authority_id; version = v })
      → (next ctx io observed a file).0 ≡ ok v
      → (bytes : Bytes) × ((next ctx io observed a file).2 ≡ some bytes)
        × (load_authority a bytes ≡ ok (record a { current = v }))
  unfolding persist_authority load_authority validate_authority_version
  next_durable ctx io observed v a file back done =
      let (c, _, made, _, persisted, left) = next_done ctx io observed v a file done in
      let (_, _, pos) = increment_authority_version_ok c v made in
      let state : AuthorityState = record { authority_id = a.authority_id; version = v } in
      let (bytes, encoded, written) =
        persist_ok authority_errors a.max_bytes state (later 1 ctx) io file persisted in
      (
        bytes,
        left ∙ written,
        ground (
          arith,
          read_state-state_bytes authority_errors a.max_bytes state bytes state,
          back,
          bytes_equal_iff a.authority_id a.authority_id,
        ),
      )

  -- Whatever `Next` answers, the allocator never goes back.
  pub next_monotone :
      (ctx : Ctx) (io : AtomicIo) (observed : Version) (a : Authority) (file : Option Bytes)
      → newer a.current (next ctx io observed a file).1.current ≡ false
  unfolding next allocate adopt
  next_monotone ctx io observed a file = elim (Result-cases (do check (ctx 0); adopt observed a)) [
    | inr (e, bad) ↦ ground (arith, newer_irrefl a.current)
    | inl (b, adopted) ↦
        let (_, kept, _) = adopt_ok observed a b (ground arith) in
        elim (Result-cases (increment_authority_version b.current)) [
          | inr (e, bad) ↦ ground arith
          | inl (w, made) ↦
              let (fresh, _, _) = increment_authority_version_ok b.current w made in
              ground
                (arith, not_newer_trans a.current b.current w kept (newer_asym w b.current fresh))
        ]
  ]

  -- a run of calls of `Next`, with the versions that the successful ones return, in their order
  abbrev pub Calls : Type 0
  Calls = List (Ctx × AtomicIo × Version)

  abbrev pub after_calls : Calls → Authority → Option Bytes → Authority
  after_calls [] a file = a
  after_calls ((ctx, io, observed) ∷ calls) a file =
      let out = next ctx io observed a file in after_calls calls out.1 out.2

  abbrev pub kept_version : Result Error Version → List Version → List Version
  kept_version (ok v) vs = v ∷ vs
  kept_version (err e) vs = vs

  abbrev pub allocated : Calls → Authority → Option Bytes → List Version
  allocated [] a file = []
  allocated ((ctx, io, observed) ∷ calls) a file =
      let out = next ctx io observed a file in kept_version out.0 (allocated calls out.1 out.2)

  -- each version newer than `v` and than the ones before it
  abbrev pub AscendFrom : Version → List Version → Type 0
  AscendFrom v [] = Unit
  AscendFrom v (w ∷ ws) = (newer w v ≡ true) × AscendFrom w ws

  AscendFrom-weaken :
      (v w : Version) (vs : List Version) → newer v w ≡ false → AscendFrom w vs → AscendFrom v vs
  AscendFrom-weaken v w [] h a = tt
  AscendFrom-weaken v w (x ∷ xs) h a = (newer_of_newer_not x w v a.0 h, a.1)

  -- Over any run of calls of `Next`, whichever of them fail and wherever, the versions that it
  -- returns strictly ascend from the allocator's last one: none is handed out twice.
  pub next-AscendFrom :
      (calls : Calls) (a : Authority) (file : Option Bytes)
      → AscendFrom a.current (allocated calls a file)
  next-AscendFrom [] a file = tt
  next-AscendFrom ((ctx, io, observed) ∷ calls) a file =
      let out = next ctx io observed a file in
      let rest = next-AscendFrom calls out.1 out.2 in
      elim (Result-cases out.0) [
        | inr (e, failed) ↦ rw failed (
            AscendFrom-weaken a.current out.1.current _ (next_monotone ctx io observed a file) rest)
        | inl (v, done) ↦
            let (fresh, _, _, _, after) = next-newer ctx io observed v a file done in
            rw done (
              fresh,
              subst (λ (t : Authority). AscendFrom t.current (allocated calls out.1 out.2)) after
                  rest,
            )
      ]
