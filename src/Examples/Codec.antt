-- ===== src/Examples/Codec.antt =====
-- A small codec for records and a test of printable ASCII, in the place of encoding/json and of
-- the tables of package unicode: each text behind its length.
use stream_hive.Common.{
  ℕ, zero, suc, ◌≡◌, ap, ◌&&◌, Option, none, some, List, [], ◌∷◌, ◌++◌, arith, length, take, drop,
  take-append, drop-append, leb, if◌then◌else◌, ◌==◌,
}
use stream_hive.Common.Bytes.{Bytes}
use stream_hive.Std.Json.{Json, first_value}
use stream_hive.Std.Unicode.{Unicode}
use stream_hive.Lifecycle.Records.{Limits, LifecycleState, present, deleted, other, Record}
use mathlib.Core.Option
use stream_hive.Lifecycle.Checkpoints.{Checkpoint}
use stream_hive.Lifecycle.Records.Laws.{RecordJson, IsValidRecord, validate_iff}

instance abbrev pub ascii : Unicode
ascii = record { is_print = λ c. leb 0x20 c && leb c 0x7e }

abbrev pub put_text : Bytes → List ℕ → List ℕ
put_text s rest = length s ∷ (s ++ rest)

abbrev state_tag : LifecycleState → ℕ
state_tag present = 1
state_tag deleted = 2
state_tag (other s) = 3

abbrev tag_state : ℕ → LifecycleState
tag_state t = if t == 1 then present else if t == 2 then deleted else other []

abbrev put_record : Record → List ℕ
put_record r = put_text r.namespace (
    put_text r.logical_key (
      put_text r.blob_key
        (put_text r.authority_id (state_tag r.state ∷ r.version.epoch ∷ r.version.sequence ∷ []))))

-- a text, and what follows it
abbrev get_text : List ℕ → Bytes × List ℕ
get_text [] = ([], [])
get_text (n ∷ xs) = (take n xs, drop n xs)

abbrev get_tail : Bytes → Bytes → Bytes → Bytes → List ℕ → Option Record
get_tail namespace key blob_key authority (t ∷ epoch ∷ sequence ∷ []) = some (record {
  namespace = namespace;
  logical_key = key;
  state = tag_state t;
  blob_key = blob_key;
  version = record { epoch = epoch; sequence = sequence };
  authority_id = authority;
})
get_tail namespace key blob_key authority _ = none

abbrev get_record : List ℕ → Option Record
get_record bytes =
    let (namespace, a) = get_text bytes in
    let (key, b) = get_text a in
    let (blob_key, c) = get_text b in
    let (authority, rest) = get_text c in get_tail namespace key blob_key authority rest

instance abbrev pub record_codec : Json Record
record_codec = record { marshal = put_record; unmarshal = get_record; failure = λ bs. first_value }

get_text-put_text : (s : Bytes) (rest : List ℕ) → get_text (put_text s rest) ≡ (s, rest)
get_text-put_text s rest = λ i. (take-append s rest i, drop-append s rest i)

get_record-put_record :
    (r : Record) → tag_state (state_tag r.state) ≡ r.state → get_record (put_record r) ≡ some r
get_record-put_record r h =
    simp (take-append, drop-append)
      (ap
        (λ (s : LifecycleState). some (record {
          namespace = r.namespace;
          logical_key = r.logical_key;
          state = s;
          blob_key = r.blob_key;
          version = r.version;
          authority_id = r.authority_id;
        }))
        h)

pub record_codec_laws : (l : Limits) → RecordJson l
record_codec_laws l = record {
  reads_back = λ r p. get_record-put_record r (tag_back r ((validate_iff r l).0 p.0));
  not_empty = λ r. omega arith;
}
  where
    tag_back : (r : Record) → IsValidRecord r l → tag_state (state_tag r.state) ≡ r.state
    tag_back r v = ground (arith, v.blob_key_fits)

abbrev put_records : List Record → List ℕ
put_records [] = []
put_records (r ∷ rs) = put_text (put_record r) (put_records rs)

-- at most as many records as the fuel
abbrev get_records : ℕ → List ℕ → Option (List Record)
get_records fuel [] = some []
get_records zero (n ∷ xs) = none
get_records (suc fuel) (n ∷ xs) = elim (get_record (take n xs)) [
  | none ↦ none
  | some r ↦ Option.map (λ rs. r ∷ rs) (get_records fuel (drop n xs))
]

abbrev get_checkpoint : List ℕ → Option Checkpoint
get_checkpoint (epoch ∷ sequence ∷ xs) =
    Option.map
      (λ rs. record { watermark = record { epoch = epoch; sequence = sequence }; records = rs })
      (get_records (length xs) xs)
get_checkpoint _ = none

instance abbrev pub checkpoint_codec : Json Checkpoint
checkpoint_codec = record {
  marshal = λ k. k.watermark.epoch ∷ k.watermark.sequence ∷ put_records k.records;
  unmarshal = get_checkpoint;
  failure = λ bs. first_value;
}
