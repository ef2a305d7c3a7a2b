-- ===== src/Lifecycle/Repair/Batches.antt =====
-- A repair batch is the next part of the journal's tail, and rounds of batches transfer all of it.
use stream_hive.Common.{
  ℕ, zero, suc, if◌then◌else◌, ◌+◌, ◌<◌, ◌≡◌, ◌⊎◌, refl, sym, ap, ◌∙◌, subst, true, false, Option,
  none, some, List, [], ◌∷◌, ◌++◌, ok, err, arith, length, ltb, length-append, append_assoc,
  append-nil, Result-cases, Bool-cases, inl, inr, ◌>>◌,
}
use stream_hive.Common.Bytes.{Bytes}
use stream_hive.Std.Json.{Json}
use stream_hive.Std.Unicode.{Unicode}
use stream_hive.Context.{Ctx, background}
use stream_hive.Errors.{Error, Fallible}
use stream_hive.Lifecycle.Version.{Version, newer, older}
use stream_hive.Lifecycle.Version.Order.{
  newer_irrefl, newer_asym, newer_of_newer_not, not_newer_trans,
}
use stream_hive.Lifecycle.Records.{Record}
use stream_hive.Lifecycle.JournalFile.{last_version}
use stream_hive.Lifecycle.Journal.Files.{Journal}
use stream_hive.Lifecycle.Repair.{
  RepairLimits, repair_normalized, RepairBatch, newer_records, validate_batch, encode_batch,
  batch_of, batch_type, select, repair_batch,
}

module _ ⦃u : Unicode⦄ ⦃json : Json Record⦄ ⦃batches : Json RepairBatch⦄ where
  -- what is selected is a front of the remaining records, and not empty if there are any
  select_front :
      (l : RepairLimits) (from : Version) (total : ℕ) (selected todo out : List Record)
      → select l from total selected todo ≡ ok out
      → (rest : List Record) × (selected ++ todo ≡ out ++ rest)
        × (0 < length (selected ++ todo) → 0 < length out)
  unfolding select
  select_front l from total selected [] out h =
      let same : selected ≡ out = ground arith in
      (
        [],
        ap (λ (xs : List Record). xs ++ []) same,
        λ n. omega (arith, length-append selected [], ap length same),
      )
  select_front l from total selected (r ∷ rs) out h =
      let candidate = selected ++ r ∷ [] in
      let batch : RepairBatch = record {
        kind = batch_type;
        from = from;
        to = r.version;
        more = ltb (length candidate) total;
        records = candidate;
      } in
      elim (Result-cases (do validate_batch batch l; encode_batch batch l)) [
        | inr (e, bad) ↦
            let same : (selected ≡ out) × (0 < length selected) = ground arith in
            (
              r ∷ rs,
              ap (λ (xs : List Record). xs ++ r ∷ rs) same.0,
              λ n. omega (arith, ap length same.0, same.1),
            )
        | inl (payload, good) ↦
            let (rest, parts, some_left) =
              select_front l from total candidate rs out (ground arith) in
            (
              rest,
              sym (append_assoc selected (r ∷ []) rs) ∙ parts,
              λ n.
                  some_left
                    (omega (arith, length-append candidate rs, length-append selected (r ∷ []))),
            )
      ]

  more_left :
      (out rest : List Record) {total : ℕ}
      → total ≡ length out + length rest
      → ltb (length out) total ≡ ltb 0 (length rest)
  more_left out rest h = ground arith

  -- A repair batch from a version holds a front of the journal's records that are newer, in their
  -- order, not empty where there are any; it ends at its last record's version, says whether more
  -- follow, is valid within the limits, and its encoding fits a frame. It is refused where the
  -- journal's floor is newer than the version.
  pub repair_batch_sound :
      (ctx : Ctx) (from : Version) (l : RepairLimits) (j : Journal) (b : RepairBatch)
      → repair_batch ctx from l j ≡ ok b
      → (rest : List Record) × (newer_records from j.records ≡ b.records ++ rest)
        × (b.from ≡ from)
        × (b.to ≡ last_version from b.records)
        × (b.more ≡ ltb 0 (length rest))
        × (0 < length (newer_records from j.records) → 0 < length b.records)
        × ((payload : Bytes) × (encode_batch b (repair_normalized l) ≡ ok payload))
        × (older from j.floor ≡ false)
  unfolding repair_batch
  repair_batch_sound ctx from l j b h =
      let limits = repair_normalized l in
      let remaining = newer_records from j.records in
      elim (Result-cases (select limits from (length remaining) [] remaining)) [
        | inr (e, bad) ↦ absurd (ground arith)
        | inl (selected, good) ↦
            let (rest, parts, some_left) =
              select_front limits from (length remaining) [] remaining selected good in
            let batch = batch_of from (length remaining) selected in
            elim (Result-cases (encode_batch batch limits)) [
              | inr (e, bad) ↦ absurd (ground arith)
              | inl (payload, encoded) ↦
                  let shape : b ≡ batch = ground arith in
                  rw shape (
                    rest,
                    parts,
                    refl,
                    refl,
                    more_left selected rest (ap length parts ∙ length-append selected rest),
                    some_left,
                    (payload, encoded),
                    ground arith,
                  )
            ]
      ]

-- each record strictly newer than the one before it, the first newer than `v`
abbrev pub Ascends : Version → List Record → Type 0
Ascends v [] = Unit
Ascends v (r ∷ rs) = (newer r.version v ≡ true) × Ascends r.version rs

newer_records-all :
    (from v : Version) (rs : List Record)
    → newer from v ≡ false
    → Ascends v rs
    → newer_records from rs ≡ rs
unfolding newer_records
newer_records-all from v [] h a = refl
newer_records-all from v (r ∷ rs) h a = ground (
  arith,
  newer_of_newer_not r.version v from a.0 h,
  newer_records-all from r.version rs
      (newer_asym r.version from (newer_of_newer_not r.version v from a.0 h)) a.1,
)

pub newer_records-Ascends :
    (from v : Version) (rs : List Record) → Ascends v rs → Ascends from (newer_records from rs)
unfolding newer_records
newer_records-Ascends from v [] a = tt
newer_records-Ascends from v (r ∷ rs) a = elim (Bool-cases (newer r.version from)) [
  | inl h ↦ rw h (h, rw (newer_records-all from r.version rs (newer_asym r.version from h) a.1) a.1)
  | inr h ↦ rw h (newer_records-Ascends from r.version rs a.1)
]

pub last_version-newer :
    (v : Version) (front rest : List Record)
    → Ascends v (front ++ rest)
    → newer v (last_version v front) ≡ false
unfolding last_version
last_version-newer v [] rest a = newer_irrefl v
last_version-newer v (r ∷ front) rest a =
    not_newer_trans v r.version (last_version r.version front) (newer_asym r.version v a.0)
      (last_version-newer r.version front rest a.1)

-- what is newer than the last version of a front is what follows the front
pub newer_records-last :
    (v from : Version) (rs front rest : List Record)
    → Ascends v rs
    → newer_records from rs ≡ front ++ rest
    → newer_records (last_version from front) rs ≡ rest
unfolding newer_records last_version
newer_records-last v from rs [] rest a h = h
newer_records-last v from [] (x ∷ front) rest a h = absurd (ground arith)
newer_records-last v from (r ∷ rs) (x ∷ front) rest a h = elim (Bool-cases (newer r.version from)) [
  | inl fresh ↦
      let all = newer_records-all from r.version rs (newer_asym r.version from fresh) a.1 in
      let head : r ≡ x = ground arith in
      let tail : rs ≡ front ++ rest = ground arith in
      let kept = newer_records-all r.version r.version rs (newer_irrefl r.version) a.1 in
      let below = last_version-newer r.version front rest (subst (Ascends r.version) tail a.1) in
      let ih = newer_records-last r.version r.version rs front rest a.1 (kept ∙ tail) in
      subst (λ (y : Record). newer_records (last_version y.version front) (r ∷ rs) ≡ rest) head
        (rw below ih)
  | inr old ↦
      let later : newer_records from rs ≡ x ∷ front ++ rest = rw old at h in
      let ih = newer_records-last r.version from rs (x ∷ front) rest a.1 later in
      let below =
        last_version-newer from (x ∷ front) rest
          (subst (Ascends from) later (newer_records-Ascends from r.version rs a.1)) in
      let stale = not_newer_trans r.version from (last_version x.version front) old below in
      rw stale ih
]

module _ ⦃u : Unicode⦄ ⦃json : Json Record⦄ ⦃batches : Json RepairBatch⦄ where
  abbrev with_front :
      List Record → Option (Fallible (List Record)) → Option (Fallible (List Record))
  with_front rs none = none
  with_front rs (some (err e)) = some (err e)
  with_front rs (some (ok ss)) = some (ok (rs ++ ss))

  -- The rounds of a repair: each batch starts where the one before it ended, until no more are
  -- announced. The records that were transferred, or the first error; `none` is out of fuel.
  abbrev pub rounds : ℕ → Version → RepairLimits → Journal → Option (Fallible (List Record))
  rounds zero from l j = none
  rounds (suc fuel) from l j = elim (repair_batch background from l j) [
    | err e ↦ some (err e)
    | ok b ↦ if b.more then with_front b.records (rounds fuel b.to l j) else some (ok b.records)
  ]

  append_empty : (xs ys : List Record) → length ys ≡ 0 → xs ++ ys ≡ xs
  append_empty xs [] h = append-nil xs
  append_empty xs (y ∷ ys) h = absurd (omega arith)

  -- On a journal whose records strictly ascend, a repair ends within one round more than there are
  -- newer records; unless a round fails, it transfers exactly the records that are newer than the
  -- start, in their order.
  pub rounds-newer_records :
      (fuel : ℕ) (from v : Version) (l : RepairLimits) (j : Journal)
      → Ascends v j.records
      → length (newer_records from j.records) < fuel
      → ((e : Error) × (rounds fuel from l j ≡ some (err e)))
        ⊎ (rounds fuel from l j ≡ some (ok (newer_records from j.records)))
  rounds-newer_records zero from v l j a h = absurd (omega arith)
  rounds-newer_records (suc fuel) from v l j a h =
      elim (Result-cases (repair_batch background from l j)) [
        | inr (e, bad) ↦ inl (e, ground arith)
        | inl (b, good) ↦
            let (rest, parts, _, to, more, some_left, _, _) =
              repair_batch_sound background from l j b good in
            let sizes : length (newer_records from j.records) ≡ length b.records + length rest =
              ap length parts ∙ length-append b.records rest in
            elim (Bool-cases b.more) [
              | inr last ↦
                  let none_left : length rest ≡ 0 = ground arith in
                  let whole : newer_records from j.records ≡ b.records =
                    parts ∙ append_empty b.records rest none_left in
                  inr (ground arith)
              | inl further ↦
                  let left : newer_records b.to j.records ≡ rest =
                    subst (λ (w : Version). newer_records w j.records ≡ rest) (sym to)
                      (newer_records-last v from j.records b.records rest a parts) in
                  let many : 0 < length rest = ground arith in
                  let nonempty = some_left (omega (arith, sizes, many)) in
                  let again =
                    rounds-newer_records fuel b.to v l j a
                      (omega (arith, ap length left, sizes, nonempty)) in
                  elim again [
                    | inl (e, failed) ↦ inl (e, ground arith)
                    | inr done ↦ inr (ground (arith, left, parts))
                  ]
            ]
      ]
