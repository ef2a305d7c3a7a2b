-- ===== src/Examples/RepairCodec.antt =====
-- A small codec for repair batches and snapshots, in the place of encoding/json.
use stream_hive.Common.{
  ℕ, suc, ◌≡◌, refl, Bool, true, false, Option, none, some, List, [], ◌∷◌, length, take, drop,
  take-append, drop-append, ◌==◌, if◌then◌else◌,
}
use stream_hive.Std.Json.{Json, first_value}
use stream_hive.Lifecycle.Records.{LifecycleState, present, deleted, other, Record}
use stream_hive.Lifecycle.Repair.{
  MessageType, unset, batch_type, snapshot_type, ack_type, other_type, RepairBatch, RepairSnapshot,
}
use stream_hive.Examples.Codec.{put_text}

abbrev put_state : LifecycleState → List ℕ
put_state present = 1 ∷ []
put_state deleted = 2 ∷ []
put_state (other s) = 3 ∷ s

abbrev get_state : List ℕ → LifecycleState
get_state (t ∷ s) = if t == 1 then present else if t == 2 then deleted else other s
get_state [] = other []

get_state-put_state : (s : LifecycleState) → get_state (put_state s) ≡ s
get_state-put_state present = refl
get_state-put_state deleted = refl
get_state-put_state (other s) = refl

abbrev put_kind : MessageType → List ℕ
put_kind unset = 0 ∷ []
put_kind batch_type = 1 ∷ []
put_kind snapshot_type = 2 ∷ []
put_kind ack_type = 3 ∷ []
put_kind (other_type t) = 4 ∷ t

abbrev get_kind : List ℕ → MessageType
get_kind (k ∷ t) =
    if k == 0
    then unset
    else if k == 1
    then batch_type
    else if k == 2
    then snapshot_type
    else if k == 3
    then ack_type
    else other_type t
get_kind [] = unset

get_kind-put_kind : (k : MessageType) → get_kind (put_kind k) ≡ k
get_kind-put_kind unset = refl
get_kind-put_kind batch_type = refl
get_kind-put_kind snapshot_type = refl
get_kind-put_kind ack_type = refl
get_kind-put_kind (other_type t) = refl

abbrev put_entry : Record → List ℕ → List ℕ
put_entry r rest =
    r.version.epoch
    ∷ r.version.sequence
    ∷ put_text r.namespace (
        put_text r.logical_key
          (put_text r.blob_key (put_text r.authority_id (put_text (put_state r.state) rest))))

abbrev put_entries : List Record → List ℕ
put_entries [] = []
put_entries (r ∷ rs) = put_entry r (put_entries rs)

-- the front and the rest of a text behind its length
abbrev front : List ℕ → List ℕ
front [] = []
front (n ∷ xs) = take n xs

abbrev rest_of : List ℕ → List ℕ
rest_of [] = []
rest_of (n ∷ xs) = drop n xs

abbrev get_entries : ℕ → List ℕ → List Record
get_entries (suc k) (epoch ∷ sequence ∷ xs) =
    let a = rest_of xs in
    let b = rest_of a in
    let c = rest_of b in
    let d = rest_of c in
    record {
      namespace = front xs;
      logical_key = front a;
      state = get_state (front d);
      blob_key = front b;
      version = record { epoch = epoch; sequence = sequence };
      authority_id = front c;
    }
    ∷ get_entries k (rest_of d)
get_entries _ _ = []

get_entries-put_entries : (rs : List Record) → get_entries (length rs) (put_entries rs) ≡ rs
get_entries-put_entries [] = refl
get_entries-put_entries (r ∷ rs) =
    simp (take-append, drop-append, get_entries-put_entries rs, get_state-put_state r.state)

abbrev get_tail : MessageType → List ℕ → Option RepairBatch
get_tail kind (a ∷ b ∷ c ∷ d ∷ more ∷ n ∷ xs) = some (record {
  kind = kind;
  from = record { epoch = a; sequence = b };
  to = record { epoch = c; sequence = d };
  more = more == 1;
  records = get_entries n xs;
})
get_tail kind _ = none

abbrev put_more : Bool → ℕ
put_more true = 1
put_more false = 0

put_more-back : (t : Bool) → (put_more t == 1) ≡ t
put_more-back true = refl
put_more-back false = refl

abbrev put_batch : RepairBatch → List ℕ
put_batch b = put_text (put_kind b.kind) (
    b.from.epoch
    ∷ b.from.sequence
    ∷ b.to.epoch
    ∷ b.to.sequence
    ∷ put_more b.more
    ∷ length b.records
    ∷ put_entries b.records)

instance abbrev pub batch_codec : Json RepairBatch
batch_codec = record {
  marshal = put_batch;
  unmarshal = λ xs. get_tail (get_kind (front xs)) (rest_of xs);
  failure = λ bs. first_value;
}

pub batch_codec_back : (b : RepairBatch) → batch_codec.unmarshal (batch_codec.marshal b) ≡ some b
batch_codec_back b =
    rw
      (
        take-append,
        drop-append,
        get_entries-put_entries b.records,
        get_kind-put_kind b.kind,
        put_more-back b.more,
      )
      refl

-- only written in the examples
instance abbrev pub snapshot_codec : Json RepairSnapshot
snapshot_codec = record {
  marshal = λ s. s.watermark.epoch ∷ s.watermark.sequence ∷ put_entries s.records;
  unmarshal = λ xs. none;
  failure = λ bs. first_value;
}
