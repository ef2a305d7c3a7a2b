-- ===== src/Lifecycle/Checkpoints/Laws.antt =====
-- The normal form of a checkpoint, and the round trip through its file.
use mathlib.Core.List.{Perm}
use stream_hive.Common.{
  ◌≡◌, ◌↔◌, refl, true, false, some, List, [], ◌∷◌, ok, arith, length, All, append-nil,
  Result-cases, inl, inr,
}
use stream_hive.Common.Bytes.{
  Bytes, bytes_equal_iff, bytes_less_irrefl, bytes_less_asym, bytes_less_total,
}
use stream_hive.Common.Sorting.{
  sort, sort-perm, length-sort, sort-IsSorted, IsSorted, IsAscending, All-sort, sort-ascending,
}
use stream_hive.Std.Json.{Json}
use stream_hive.Std.Unicode.{Unicode}
use stream_hive.Context.{background}
use stream_hive.Errors.{Error}
use stream_hive.Lifecycle.Version.{Version, newer, is_zero}
use stream_hive.Lifecycle.Records.{Limits, normalized, Record, validate}
use stream_hive.Lifecycle.Records.Laws.{normalized_idem}
use stream_hive.Lifecycle.Store.{record_less}
use stream_hive.Lifecycle.Envelope.{encode_envelope}
use stream_hive.Lifecycle.Envelope.Laws.{
  encode_envelope_iff, decode_envelope-encode_envelope, length-envelope,
}
use stream_hive.Lifecycle.Checkpoints.{
  Checkpoint, has_duplicate, check_records, normalize_checkpoint_records, normalize_checkpoint,
  encode_checkpoint, save_bytes, load_checkpoint, load_fine,
}

pub record_less_asym : (r s : Record) → record_less r s ≡ true → record_less s r ≡ false
unfolding record_less
record_less_asym r s h = ground (
  arith,
  bytes_equal_iff r.namespace s.namespace,
  bytes_equal_iff s.namespace r.namespace,
  bytes_less_asym r.namespace s.namespace,
  bytes_less_asym r.logical_key s.logical_key,
)

IsAscending-keys :
    (rs : List Record)
    → IsSorted record_less rs
    → has_duplicate rs ≡ false
    → IsAscending record_less rs
unfolding has_duplicate record_less
IsAscending-keys [] h d = tt
IsAscending-keys (r ∷ []) h d = tt
IsAscending-keys (r ∷ s ∷ rs) h d = (
  ground (
    arith,
    bytes_equal_iff r.namespace s.namespace,
    bytes_equal_iff s.namespace r.namespace,
    bytes_equal_iff r.logical_key s.logical_key,
    bytes_less_total r.namespace s.namespace,
    bytes_less_total r.logical_key s.logical_key,
  ),
  IsAscending-keys (s ∷ rs) h.1 (ground arith),
)

no_duplicate : (rs : List Record) → IsAscending record_less rs → has_duplicate rs ≡ false
unfolding has_duplicate record_less
no_duplicate [] h = refl
no_duplicate (r ∷ []) h = refl
no_duplicate (r ∷ s ∷ rs) h = ground (
  arith,
  bytes_equal_iff r.namespace s.namespace,
  bytes_equal_iff r.logical_key s.logical_key,
  bytes_less_irrefl r.logical_key,
  bytes_less_irrefl s.logical_key,
  no_duplicate (s ∷ rs) h.1,
)

module _ ⦃u : Unicode⦄ ⦃j : Json Record⦄ where
  abbrev pub IsCovered : Limits → Version → Record → Type 0
  IsCovered l w r = (validate r l ≡ ok tt) × (newer r.version w ≡ false)

  check_records_iff :
      (l : Limits) (w : Version) (rs : List Record)
      → (check_records l w rs ≡ ok tt) ↔ All (IsCovered l w) rs
  unfolding check_records
  check_records_iff l w [] = (λ h. tt, λ h. refl)
  check_records_iff l w (r ∷ rs) = ground (arith, check_records_iff l w rs)

  -- the records of a checkpoint in normal form
  pub record IsNormal (l : Limits) (w : Version) (rs : List Record) : Type 0 where
    pub covered : All (IsCovered (normalized l) w) rs
    pub ascending : IsAscending record_less rs
    pub zero_empty : is_zero w ≡ true → length rs ≡ 0

  -- What normalizing a checkpoint accepts are valid records that its watermark covers, none where
  -- the watermark is zero; it gives the same records in the strict order of their keys.
  pub normalize_checkpoint_records_sound :
      (rs out : List Record) (w : Version) (l : Limits)
      → normalize_checkpoint_records rs w l ≡ ok out
      → IsNormal l w out × Perm out rs
  unfolding normalize_checkpoint_records
  normalize_checkpoint_records_sound rs out w l h =
      let shape : out ≡ sort record_less rs = ground arith in
      let distinct : has_duplicate (sort record_less rs) ≡ false = ground arith in
      let checked : check_records (normalized l) w rs ≡ ok tt = ground arith in
      let none_at_zero : is_zero w ≡ true → length rs ≡ 0 = λ z. ground arith in
      rw shape (
        record {
          covered =
              All-sort record_less (IsCovered (normalized l) w) rs
                ((check_records_iff (normalized l) w rs).0 checked);
          ascending =
              IsAscending-keys (sort record_less rs) (sort-IsSorted record_less record_less_asym rs)
                distinct;
          zero_empty = λ z. omega (arith, none_at_zero z, length-sort record_less rs);
        },
        sort-perm record_less rs,
      )

  normalize_normal :
      (rs : List Record) (w : Version) (l : Limits)
      → IsNormal l w rs
      → normalize_checkpoint_records rs w l ≡ ok rs
  unfolding normalize_checkpoint_records
  normalize_normal rs w l n = ground (
    arith,
    n.zero_empty,
    check_records_iff (normalized l) w rs,
    n.covered,
    sort-ascending record_less record_less_asym rs n.ascending,
    no_duplicate rs n.ascending,
  )

  pub normalize_checkpoint_ok :
      (a b : Checkpoint) (l : Limits)
      → normalize_checkpoint a l ≡ ok b
      → (b.watermark ≡ a.watermark)
        × (normalize_checkpoint_records a.records a.watermark (normalized l) ≡ ok b.records)
  unfolding normalize_checkpoint
  normalize_checkpoint_ok a b l h =
      elim (Result-cases (normalize_checkpoint_records a.records a.watermark (normalized l))) [
        | inr (e, bad) ↦ absurd (ground arith)
        | inl (out, good) ↦ ground arith
      ]

  normalize_checkpoint-normalized :
      (a b : Checkpoint) (l : Limits)
      → normalize_checkpoint a l ≡ ok b
      → normalize_checkpoint a (normalized l) ≡ ok b
  unfolding normalize_checkpoint
  normalize_checkpoint-normalized a b l h = rw normalized_idem h

  pub normalize_checkpoint_again :
      (a b : Checkpoint) (l : Limits)
      → normalize_checkpoint a l ≡ ok b
      → normalize_checkpoint b (normalized l) ≡ ok b
  unfolding normalize_checkpoint
  normalize_checkpoint_again a b l h =
      let (same, made) = normalize_checkpoint_ok a b l h in
      let (normal, _) =
        normalize_checkpoint_records_sound a.records b.records a.watermark (normalized l) made in
      rw (normalized_idem, same, normalize_normal b.records a.watermark (normalized l) normal) refl

module _ ⦃u : Unicode⦄ ⦃j : Json Record⦄ ⦃c : Json Checkpoint⦄ where
  -- `LoadCheckpoint` reads what `SaveCheckpoint` wrote for any checkpoint: it gives the
  -- checkpoint's normal form.
  pub load_checkpoint-save_bytes :
      (path bytes : Bytes) (a b : Checkpoint) (l : Limits)
      → save_bytes path a l ≡ ok bytes
      → normalize_checkpoint a l ≡ ok b
      → c.unmarshal (c.marshal b) ≡ some b
      → load_checkpoint background load_fine path l bytes ≡ ok b
  unfolding load_checkpoint save_bytes encode_checkpoint
  load_checkpoint-save_bytes path bytes a b l saved normal back =
      let written = normalize_checkpoint-normalized a b l normal in
      elim (Result-cases (encode_envelope (c.marshal b))) [
        | inr (e, bad) ↦ absurd (ground (arith, written))
        | inl (file, made) ↦ ground (
          arith,
          written,
          decode_envelope-encode_envelope [] (c.marshal b) bytes []
              (normalized l).max_checkpoint_bytes Error.checkpoint_corrupt
              Error.checkpoint_checksum,
          append-nil bytes,
          normalize_checkpoint_again a b l normal,
          encode_envelope_iff (c.marshal b) bytes,
          length-envelope (c.marshal b),
        )
      ]
