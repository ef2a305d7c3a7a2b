-- ===== src/Lifecycle/Watermarks/Bounds.antt =====
-- internal/lifecycle/watermark.go: the bounds of a book, which its updates keep, in any order of the
-- map.
use stream_hive.Common.{
  ℕ, ◌≤◌, ◌≡◌, refl, sym, subst, ◌∙◌, false, some, [], ◌∷◌, ok, arith, length, Option-cases, inl,
  inr,
}
use stream_hive.Common.Bytes.{Bytes, bytes_equal_iff}
use stream_hive.Common.Maps.{
  Map, lookup, insert, delete, bytes_key, length-insert_old, length-insert_new, length-delete,
  AreDistinct, insert-AreDistinct, delete-AreDistinct, AreSame, AreSame-length,
}
use stream_hive.Std.Unicode.{Unicode}
use stream_hive.Lifecycle.Version.{Version, is_zero}
use stream_hive.Lifecycle.Watermarks.{WatermarkBook, validate_peer, check_entries, no_room}

module _ ⦃u : Unicode⦄ where
  -- at most the allowed number of peers, each once, each identity valid, and no watermark zero
  pub record IsBounded (m : Map Bytes Version) (b : WatermarkBook) : Type 0 where
    pub few : length m ≤ b.max_peers
    pub distinct : AreDistinct m
    pub valid : check_entries m b ≡ ok tt

  check_entries-insert :
      (peer : Bytes) (v : Version) (m : Map Bytes Version) (b : WatermarkBook)
      → check_entries m b ≡ ok tt
      → validate_peer peer b ≡ ok tt
      → is_zero v ≡ false
      → check_entries (insert peer v m) b ≡ ok tt
  unfolding check_entries insert
  check_entries-insert peer v [] b h p z = ground arith
  check_entries-insert peer v ((q, w) ∷ m) b h p z =
      ground (arith, check_entries-insert peer v m b, bytes_equal_iff q peer)

  check_entries-delete :
      (peer : Bytes) (m : Map Bytes Version) (b : WatermarkBook)
      → check_entries m b ≡ ok tt
      → check_entries (delete peer m) b ≡ ok tt
  unfolding check_entries delete
  check_entries-delete peer [] b h = refl
  check_entries-delete peer ((q, w) ∷ m) b h = ground (arith, check_entries-delete peer m b)

  pub IsBounded-insert :
      (peer : Bytes) (v : Version) (b : WatermarkBook)
      → IsBounded b.watermarks b
      → validate_peer peer b ≡ ok tt
      → is_zero v ≡ false
      → no_room peer b ≡ false
      → IsBounded (insert peer v b.watermarks) b
  unfolding no_room
  IsBounded-insert peer v b i p z room = record {
    few = elim (Option-cases (lookup peer b.watermarks)) [
      | inl e ↦ ground (arith, i.few, length-insert_new peer v b.watermarks)
      | inr (w, e) ↦ ground (arith, i.few, length-insert_old peer v w b.watermarks)
    ];
    distinct = insert-AreDistinct peer v b.watermarks i.distinct;
    valid = check_entries-insert peer v b.watermarks b i.valid p z;
  }

  pub IsBounded-delete :
      (peer : Bytes) (b : WatermarkBook)
      → IsBounded b.watermarks b
      → IsBounded (delete peer b.watermarks) b
  IsBounded-delete peer b i = record {
    few = omega (arith, i.few, length-delete peer b.watermarks);
    distinct = delete-AreDistinct peer b.watermarks i.distinct;
    valid = check_entries-delete peer b.watermarks b i.valid;
  }

  -- an entry is valid
  abbrev IsEntry : Bytes → Version → WatermarkBook → Type 0
  IsEntry peer v b = (validate_peer peer b ≡ ok tt) × (is_zero v ≡ false)

  check_entries-lookup :
      (m : Map Bytes Version) (b : WatermarkBook) (peer : Bytes) (v : Version)
      → check_entries m b ≡ ok tt
      → lookup peer m ≡ some v
      → IsEntry peer v b
  unfolding check_entries lookup
  check_entries-lookup [] b peer v h found = absurd (ground arith)
  check_entries-lookup ((q, w) ∷ m) b peer v h found =
      ground (arith, check_entries-lookup m b peer v, bytes_equal_iff q peer)

  lookup-check_entries :
      (m : Map Bytes Version) (b : WatermarkBook)
      → AreDistinct m
      → ((peer : Bytes) (v : Version) → lookup peer m ≡ some v → IsEntry peer v b)
      → check_entries m b ≡ ok tt
  unfolding check_entries lookup
  lookup-check_entries [] b d h = refl
  lookup-check_entries ((q, w) ∷ m) b (fresh, d) h =
      let (valid, nonzero) = h q w (ground (arith, bytes_equal_iff q q)) in
      let rest : check_entries m b ≡ ok tt =
        lookup-check_entries m b d
          (λ peer v found. h peer v (ground (arith, bytes_equal_iff q peer, found, fresh))) in
      ground arith

  -- another representation of a map within the bounds is within the bounds
  pub IsBounded-AreSame :
      (m n : Map Bytes Version) (b : WatermarkBook) → IsBounded n b → AreSame m n → IsBounded m b
  IsBounded-AreSame m n b i same = record {
    few = subst (λ (k : ℕ). k ≤ b.max_peers) (sym (AreSame-length m n i.distinct same)) i.few;
    distinct = same.0;
    valid =
        lookup-check_entries m b same.0
          (λ peer v found. check_entries-lookup n b peer v i.valid (sym (same.1 peer) ∙ found));
  }
