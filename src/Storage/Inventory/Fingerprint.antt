-- ===== src/Storage/Inventory/Fingerprint.antt =====
-- The paged and the listed fingerprint agree, and what is hashed determines the keys.
use stream_hive.Common.{
  ℕ, ◌+◌, ◌^◌, ◌<◌, ◌≡◌, refl, sym, ap, ap₂, ◌∙◌, inl, inr, none, some, List, [], ◌∷◌, ◌++◌, ok,
  err, arith, All, length, take, drop, take-append, drop-append, append-nil, append_assoc,
  Result-cases, ◌↔◌,
}
use stream_hive.Common.Bytes.{Bytes, put_uint32, uint32, uint32-append, bytes_less}
use stream_hive.Common.Sorting.{sort}
use stream_hive.Context.{background}
use stream_hive.Errors.{Fallible}
use stream_hive.Std.Sha256.{Sha256}
use stream_hive.Storage.Keys.{Ascending}
use stream_hive.Storage.Walk.{Pager, walk_fine}
use stream_hive.Storage.Walk.Cursors.{Serves, IsKey}
use stream_hive.Storage.Walk.Enumeration.{IsLoop, walk-visit}
use stream_hive.Storage.Inventory.{
  Tally, empty_tally, append_inventory_key, append_keys, inventory_errors, summarize_inventory_keys,
  summarize_paged_inventory, summarize_inventory,
}

append_keys-append :
    (xs ys : List Bytes) (t : Tally)
    → append_keys background (xs ++ ys) t ≡ elim (append_keys background xs t).0 [
      | err e ↦ (err e, (append_keys background xs t).1)
      | ok _ ↦ append_keys background ys (append_keys background xs t).1
    ]
unfolding append_keys
append_keys-append [] ys t = refl
append_keys-append (x ∷ xs) ys t = elim (Result-cases (append_inventory_key none x t)) [
  | inr (e, bad) ↦ ground arith
  | inl (next, good) ↦ ground (arith, append_keys-append xs ys next)
]

append_keys-IsLoop : IsLoop (append_keys background)
append_keys-IsLoop = record {
  visit-nil = λ t. unfold append_keys in refl;
  visit-append = append_keys-append;
}

-- A set of keys gives one summary, however it is read: page by page from a pager that serves it, in
-- more rounds than there are keys, or sorted from a list of it.
pub summarize_inventory_same :
    ⦃sha : Sha256⦄
    → (n : ℕ) → (pager : Pager) → (listed ks : List Bytes) → (other : Fallible (List Bytes))
    → Serves pager ks
    → All IsKey ks
    → Ascending ks
    → sort bytes_less listed ≡ ks
    → length ks < n
    → (summarize_inventory n none walk_fine
          (λ k. background)
          (some (record { list_keys = other; pager = some pager }))
        ≡ some (summarize_inventory_keys background ks))
      × (summarize_inventory n none walk_fine
            (λ k. background)
            (some (record { list_keys = ok listed; pager = none }))
          ≡ some (summarize_inventory_keys background ks))
unfolding summarize_inventory summarize_paged_inventory summarize_inventory_keys
summarize_inventory_same n pager listed ks other serves keys ascending sorted few = (
  ground (
    arith,
    walk-visit (append_keys background) append_keys-IsLoop inventory_errors pager ks serves keys
        ascending n empty_tally few,
  ),
  rw sorted refl,
)

-- what the hash is given for a list of keys
abbrev pub framed : List Bytes → Bytes
framed [] = []
framed (k ∷ ks) = put_uint32 (length k) ++ (k ++ framed ks)

abbrev pub total : List Bytes → ℕ
total [] = 0
total (k ∷ ks) = length k + total ks

abbrev pub IsInventoryKey : Bytes → Type 0
IsInventoryKey k = (0 < length k) × (length k < 2 ^ 32)

abbrev counted : Bytes → Tally → Tally
counted k t = record {
  count = t.count + 1;
  total = t.total + length k;
  written = t.written ++ (put_uint32 (length k) ++ k);
}

append_one :
    (k : Bytes) (t : Tally) → IsInventoryKey k → append_inventory_key none k t ≡ ok (counted k t)
unfolding append_inventory_key
append_one k t h = ground arith

append_keys_next :
    (k : Bytes) (ks : List Bytes) (t : Tally)
    → IsInventoryKey k
    → append_keys background (k ∷ ks) t ≡ append_keys background ks (counted k t)
unfolding append_keys
append_keys_next k ks t h = ground (arith, append_one k t h)

written_next :
    (k : Bytes) (ks : List Bytes) (written : Bytes)
    → (written ++ (put_uint32 (length k) ++ k)) ++ framed ks ≡ written ++ framed (k ∷ ks)
written_next k ks written =
    append_assoc written (put_uint32 (length k) ++ k) (framed ks)
    ∙ ap (λ (bs : Bytes). written ++ bs) (append_assoc (put_uint32 (length k)) k (framed ks))

append_keys_all :
    (ks : List Bytes) (t : Tally)
    → All IsInventoryKey ks
    → append_keys background ks t ≡ (
      ok tt,
      record {
        count = t.count + length ks;
        total = t.total + total ks;
        written = t.written ++ framed ks;
      },
    )
append_keys_all [] t h = unfold append_keys in ground (arith, append-nil t.written)
append_keys_all (k ∷ ks) t h = ground (
  arith,
  append_keys_next k ks t h.0,
  append_keys_all ks (counted k t) h.1,
  written_next k ks t.written,
)

first_length :
    (k j : Bytes) (ks js : List Bytes)
    → IsInventoryKey k
    → IsInventoryKey j
    → framed (k ∷ ks) ≡ framed (j ∷ js)
    → length k ≡ length j
first_length k j ks js h i e =
    sym (uint32-append (length k) (k ++ framed ks) h.1)
    ∙ ap uint32 e
    ∙ uint32-append (length j) (j ++ framed js) i.1

first_rest :
    (k j : Bytes) (ks js : List Bytes)
    → framed (k ∷ ks) ≡ framed (j ∷ js)
    → k ++ framed ks ≡ j ++ framed js
unfolding put_uint32
first_rest k j ks js e = ap (drop 4) e

split_same : (k j a b : Bytes) → length k ≡ length j → k ++ a ≡ j ++ b → (k ≡ j) × (a ≡ b)
split_same k j a b same e = (
  sym (take-append k a) ∙ ap (take (length k)) e ∙ (rw same (take-append j b)),
  sym (drop-append k a) ∙ ap (drop (length k)) e ∙ (rw same (drop-append j b)),
)

-- What is hashed for one list of keys is hashed for no other.
pub framed_injective :
    (ks js : List Bytes)
    → All IsInventoryKey ks
    → All IsInventoryKey js
    → framed ks ≡ framed js
    → ks ≡ js
unfolding put_uint32
framed_injective [] [] h i e = refl
framed_injective [] (j ∷ js) h i e = absurd (omega (arith, ap length e))
framed_injective (k ∷ ks) [] h i e = absurd (omega (arith, ap length e))
framed_injective (k ∷ ks) (j ∷ js) h i e =
    let (first, rest) =
      split_same k j (framed ks) (framed js) (first_length k j ks js h.0 i.0 e)
        (first_rest k j ks js e) in
    ap₂ (λ (x : Bytes) (xs : List Bytes). x ∷ xs) first (framed_injective ks js h.1 i.1 rest)

-- The summary of keys that are not empty and shorter than 4 GiB counts them and their bytes, and two
-- lists of such keys have one summary exactly where they are the same list, if the hash does not
-- collide on what is written for them: for each key its length, in four bytes, and the key.
pub summarize_inventory_keys-framed :
    ⦃sha : Sha256⦄
    → (ks js : List Bytes) → All IsInventoryKey ks
    → All IsInventoryKey js
    → (sha.sum (framed ks) ≡ sha.sum (framed js) → framed ks ≡ framed js)
    → (summarize_inventory_keys background ks
        ≡ ok (record { key_count = length ks; key_bytes = total ks; digest = sha.sum (framed ks) }))
      × ((summarize_inventory_keys background ks ≡ summarize_inventory_keys background js)
          ↔ (ks ≡ js))
unfolding summarize_inventory_keys
summarize_inventory_keys-framed ks js h i apart =
    let one = append_keys_all ks empty_tally h in
    let other = append_keys_all js empty_tally i in
    (
      ground (arith, one),
      (
        λ same. framed_injective ks js h i (apart (ground (arith, one, other, same))),
        λ same. ap (summarize_inventory_keys background) same,
      ),
    )
