-- ===== src/Storage/Integrity/Soundness.antt =====
-- What the counts of an inspection say.
use stream_hive.Common.{
  ℕ, suc, ◌+◌, ◌<◌, ◌≤◌, ◌≡◌, refl, sym, ap, subst, inl, inr, false, none, some, List, [], ◌∷◌,
  ◌++◌, ok, err, arith, All, length, ◌==◌, ◌⊎◌, Bool-cases, Result-cases, check, fail_if, ◌>>◌,
}
use stream_hive.Common.Bytes.{Bytes}
use stream_hive.Context.{Ctx, background}
use stream_hive.Errors.{Error, Fallible}
use stream_hive.Std.Sha256.{Sha256}
use stream_hive.Storage.Blobs.{BlobStore}
use stream_hive.Storage.Hash.{verify_sha256_key, verify_sha256_key_iff}
use stream_hive.Storage.Keys.{Ascending}
use stream_hive.Storage.Walk.{Pager, walk_fine}
use stream_hive.Storage.Walk.Cursors.{Serves, IsKey}
use stream_hive.Storage.Walk.Enumeration.{IsLoop, walk-visit}
use stream_hive.Storage.Integrity.{
  IntegritySummary, empty_summary, KeyIo, key_fine, integrity_errors, count_key, count_blob,
  inspect_key, inspect_inventory_keys, inspect_inventory,
}

-- `after` continues the counts of `before` over `n` keys, and they add up
pub record Counts (n : ℕ) (before after : IntegritySummary) : Type 0 where
  pub keys : after.key_count ≡ before.key_count + n
  pub kinds :
      after.content_addressed_keys + after.opaque_keys
      ≡ before.content_addressed_keys + before.opaque_keys + n
  pub outcomes :
      after.verified_keys + after.corrupt_keys + before.content_addressed_keys
      ≤ before.verified_keys + before.corrupt_keys + after.content_addressed_keys
  pub corrupt : before.corrupt_keys ≤ after.corrupt_keys
  pub missing : before.missing_keys ≤ after.missing_keys

Counts-cons : (n : ℕ) (a b c : IntegritySummary) → Counts 1 a b → Counts n b c → Counts (suc n) a c
Counts-cons n a b c x y = record {
  keys = omega (arith, x.keys, y.keys);
  kinds = omega (arith, x.kinds, y.kinds);
  outcomes = omega (arith, x.outcomes, y.outcomes);
  corrupt = omega (arith, x.corrupt, y.corrupt);
  missing = omega (arith, x.missing, y.missing);
}

module _ {S : Type 0} ⦃sha : Sha256⦄ ⦃blob : BlobStore S⦄ where
  -- the store holds data with the digest `key`
  abbrev pub IsVerified : Ctx → S → Bytes → Type 0
  IsVerified get store key =
      (content : Bytes) × (blob.get get key store ≡ ok content) × (sha.sum content ≡ key)

  -- one key: the counts, and what it means that neither corruption nor loss was counted
  inspect_key-Counts :
      (io : KeyIo) (store : S) (key : Bytes) (s : IntegritySummary)
      → (inspect_key io store key s).0 ≡ ok tt
      → Counts 1 s (inspect_key io store key s).1
        × ((inspect_key io store key s).1.corrupt_keys ≡ s.corrupt_keys
            → (inspect_key io store key s).1.missing_keys ≡ s.missing_keys
            → length key ≡ 32
            → IsVerified io.get store key)
  unfolding inspect_key count_key count_blob
  inspect_key-Counts io store key s h =
      elim (Result-cases (do check io.entry; fail_if (length key == 0) Error.inventory_key_empty)) [
        | inr (e, bad) ↦ absurd (ground arith)
        | inl (_, good) ↦ elim (Result-cases (blob.get io.get key store)) [
          | inr (e, failed) ↦ (ground arith, λ c m l. absurd (ground arith))
          | inl (content, got) ↦ elim (Result-cases (verify_sha256_key key content)) [
            | inr (e, failed) ↦ (ground arith, λ c m l. absurd (ground arith))
            | inl (_, fine) ↦ (
              ground arith,
              λ c m l. (content, got, ground (arith, verify_sha256_key_iff key content)),
            )
          ]
        ]
      ]

  inspect_next :
      (store : S) (k : Bytes) (ks : List Bytes) (s : IntegritySummary)
      → (inspect_key (key_fine 0) store k s).0 ≡ ok tt
      → inspect_inventory_keys key_fine store (k ∷ ks) s
        ≡ inspect_inventory_keys key_fine store ks (inspect_key (key_fine 0) store k s).1
  unfolding inspect_inventory_keys
  inspect_next store k ks s h = ground arith

  inspect_stop :
      (store : S) (k : Bytes) (ks : List Bytes) (s : IntegritySummary) (e : Error)
      → (inspect_key (key_fine 0) store k s).0 ≡ err e
      → inspect_inventory_keys key_fine store (k ∷ ks) s
        ≡ (err e, (inspect_key (key_fine 0) store k s).1)
  unfolding inspect_inventory_keys
  inspect_stop store k ks s e h = ground arith

  abbrev Clean : S → List Bytes → IntegritySummary → IntegritySummary → Type 0
  Clean store ks s after =
      after.corrupt_keys ≡ s.corrupt_keys
      → after.missing_keys ≡ s.missing_keys
      → All (λ k. length k ≡ 32 → IsVerified background store k) ks

  -- the same for the loop
  inspect_inventory_keys-Counts :
      (store : S) (ks : List Bytes) (s : IntegritySummary)
      → (inspect_inventory_keys key_fine store ks s).0 ≡ ok tt
      → Counts (length ks) s (inspect_inventory_keys key_fine store ks s).1
        × Clean store ks s (inspect_inventory_keys key_fine store ks s).1
  inspect_inventory_keys-Counts store [] s h =
      unfold inspect_inventory_keys in (ground arith, λ c m. tt)
  inspect_inventory_keys-Counts store (k ∷ ks) s h =
      let one = inspect_key (key_fine 0) store k s in
      elim (Result-cases one.0) [
        | inr (e, bad) ↦ absurd (ground (arith, inspect_stop store k ks s e bad))
        | inl (_, good) ↦
            let next = inspect_next store k ks s good in
            let (first, verified) = inspect_key-Counts (key_fine 0) store k s good in
            let (rest, all) = inspect_inventory_keys-Counts store ks one.1 (rw next at h) in
            subst
              (λ (x : Fallible Unit × IntegritySummary).
                Counts (length (k ∷ ks)) s x.1 × Clean store (k ∷ ks) s x.1)
              (sym next)
              (
                Counts-cons (length ks) s one.1 _ first rest,
                λ c m. (
                  verified (omega (arith, c, first.corrupt, rest.corrupt))
                      (omega (arith, m, first.missing, rest.missing)),
                  all (omega (arith, c, first.corrupt, rest.corrupt))
                      (omega (arith, m, first.missing, rest.missing)),
                ),
              )
      ]

  inspect_inventory_keys-append :
      (store : S) (xs ys : List Bytes) (s : IntegritySummary)
      → inspect_inventory_keys key_fine store (xs ++ ys) s
        ≡ elim (inspect_inventory_keys key_fine store xs s).0 [
          | err e ↦ (err e, (inspect_inventory_keys key_fine store xs s).1)
          | ok _ ↦
              inspect_inventory_keys key_fine store ys
                (inspect_inventory_keys key_fine store xs s).1
        ]
  inspect_inventory_keys-append store [] ys s = unfold inspect_inventory_keys in refl
  inspect_inventory_keys-append store (x ∷ xs) ys s =
      elim (Result-cases (inspect_key (key_fine 0) store x s).0) [
        | inr (e, bad) ↦
            ground (arith, inspect_stop store x xs s e bad, inspect_stop store x (xs ++ ys) s e bad)
        | inl (_, good) ↦ ground (
          arith,
          inspect_next store x xs s good,
          inspect_next store x (xs ++ ys) s good,
          inspect_inventory_keys-append store xs ys (inspect_key (key_fine 0) store x s).1,
        )
      ]

  inspect_inventory_keys-IsLoop : (store : S) → IsLoop (inspect_inventory_keys key_fine store)
  inspect_inventory_keys-IsLoop store = record {
    visit-nil = λ s. unfold inspect_inventory_keys in refl;
    visit-append = inspect_inventory_keys-append store;
  }

  -- An inspection, page by page, of a store whose pager serves a set of keys, in more rounds than
  -- there are keys and with the summary read behind the call, that ends without an error: it
  -- counted every key, each of one kind; at most the content-addressed keys are verified or
  -- corrupt; and if it counted none corrupt and none missing, the store holds data with its digest
  -- under every key of 32 bytes.
  pub inspect_inventory_sound :
      (n : ℕ) (store : S) (pager : Pager) (other : Fallible (List Bytes)) (ks : List Bytes)
      (s : IntegritySummary)
      → Serves pager ks
      → All IsKey ks
      → Ascending ks
      → length ks < n
      → inspect_inventory false n none walk_fine
          (λ k. key_fine)
          (some store)
          (some (record { list_keys = other; pager = some pager }))
        ≡ some (ok tt, s)
      → (s.key_count ≡ length ks)
        × (s.content_addressed_keys + s.opaque_keys ≡ length ks)
        × (s.verified_keys + s.corrupt_keys ≤ s.content_addressed_keys)
        × ((0 < s.corrupt_keys)
            ⊎ (0 < s.missing_keys)
            ⊎ All (λ k. length k ≡ 32 → IsVerified background store k) ks)
  unfolding inspect_inventory
  inspect_inventory_sound n store pager other ks s serves keys ascending few h =
      let loop = inspect_inventory_keys key_fine store ks empty_summary in
      let walked =
        walk-visit (inspect_inventory_keys key_fine store) (inspect_inventory_keys-IsLoop store)
          integrity_errors pager ks serves keys ascending n empty_summary few in
      let whole : loop ≡ (ok tt, s) = ground (arith, walked) in
      let (counts, clean) =
        inspect_inventory_keys-Counts store ks empty_summary
          (ap (λ (x : Fallible Unit × IntegritySummary). x.0) whole) in
      let same : loop.1 ≡ s = ap (λ (x : Fallible Unit × IntegritySummary). x.1) whole in
      subst
        (λ (x : IntegritySummary).
          (x.key_count ≡ length ks)
          × (x.content_addressed_keys + x.opaque_keys ≡ length ks)
          × (x.verified_keys + x.corrupt_keys ≤ x.content_addressed_keys)
          × ((0 < x.corrupt_keys)
              ⊎ (0 < x.missing_keys)
              ⊎ All (λ k. length k ≡ 32 → IsVerified background store k) ks))
        same
        (
          omega (arith, counts.keys),
          omega (arith, counts.kinds),
          omega (arith, counts.outcomes),
          elim (Bool-cases (loop.1.corrupt_keys == 0)) [
            | inr some_corrupt ↦ inl (ground arith)
            | inl sound ↦ elim (Bool-cases (loop.1.missing_keys == 0)) [
              | inr some_missing ↦ inr (inl (ground arith))
              | inl there ↦ inr (inr (clean (ground arith) (ground arith)))
            ]
          ],
        )
